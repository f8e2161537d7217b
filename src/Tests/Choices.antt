-- ===== src/Tests/Choices.antt =====
-- The choice of a device, and the idle time, at concrete inputs.
use shard_vpn.Prelude.{◌≡◌, refl, ◌⊎◌, txt, eqb_text, none, some, List, [], ◌∷◌}
use shard_vpn.Python.{ok}
use shard_vpn.Python.Json.{
  Json, str, arr, obj, nil, item, field, end, get, get_or, truthy, is_str, member, items,
}
use shard_vpn.World.{Datapoint}
use shard_vpn.DateTime.{DateTime}
use shard_vpn.Tailscale.{
  dict_get, iterate, contains, has_tag, tagged_devices, has_hostname, first_named, only, choose,
  devices_of, select_device,
}
use shard_vpn.Tailscale.Choice.{AllTagged, Chosen, select_device-Chosen}
use shard_vpn.Watchdog.{idle_bucket_floor_bytes, idle_seconds, seconds_since}
use shard_vpn.Watchdog.LastUse.{LastUse, idle_seconds-LastUse}
use shard_vpn.Tests.World.{noon}

abbrev buckets : List Datapoint
buckets = (noon, 2_000_000) ∷ (noon, 5) ∷ []

idle_seconds-LastUse_example :
    ((idle_seconds buckets noon idle_bucket_floor_bytes ≡ none) × (buckets ≡ []))
    ⊎ ((t : DateTime) × (idle_seconds buckets noon idle_bucket_floor_bytes
          ≡ some (seconds_since noon t))
        × LastUse idle_bucket_floor_bytes buckets t)
idle_seconds-LastUse_example = idle_seconds-LastUse buckets noon idle_bucket_floor_bytes

abbrev device : Json
device = obj (
    field (txt "hostname") (str (txt "renamed"))
      (field (txt "tags") (arr (item (str (txt "tag:shardvpn-exit")) nil)) end))

abbrev devices : Json
devices = obj (field (txt "devices") (arr (item device nil)) end)

is_selected :
    select_device (txt "tag:shardvpn-exit") (some (txt "shardvpn-eu-west-1-ab12")) devices
    ≡ ok (some device)
unfolding select_device devices_of dict_get get iterate items tagged_devices has_tag get_or truthy
    contains member is_str choose first_named has_hostname only eqb_text txt
is_selected = refl

select_device-Chosen_example :
    (ds : List Json) × (tagged : List Json) × (devices_of devices ≡ ok ds)
    × (tagged_devices (txt "tag:shardvpn-exit") ds ≡ ok tagged)
    × AllTagged (txt "tag:shardvpn-exit") tagged
    × Chosen tagged (some (txt "shardvpn-eu-west-1-ab12")) (some device)
select_device-Chosen_example =
    select_device-Chosen (txt "tag:shardvpn-exit") (some (txt "shardvpn-eu-west-1-ab12")) devices
      (some device) is_selected
