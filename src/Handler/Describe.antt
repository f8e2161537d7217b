-- ===== src/Handler/Describe.antt =====
-- `_tailscale_token` and `_describe`: the status of the node that the pointer names.
use shard_vpn.Prelude.{
  ℕ, ◌+◌, Text, txt, ◌==◌, Bool, true, false, not, ◌&&◌, Option, none, some, List, [], ◌∷◌, ltb,
  if◌then◌else◌,
}
use shard_vpn.Python.{Exc, Outcome, ok, err}
use shard_vpn.Python.Json.{Json}
use shard_vpn.World.{Instance, Service}
use shard_vpn.Exec.{Exec, pure, lift, attempt, ◌>>=◌, ◌>>◌}
use shard_vpn.Boto.{client}
use shard_vpn.DateTime.{DateTime}
use shard_vpn.Ttl.{parse_rfc3339}
use shard_vpn.Settings.{Pointer, Param, ts_client_id, ts_client_secret, param_name, cached_secret}
use shard_vpn.Ec2ops.{tag_launched, tag_hostname, tag_value, find_nodes, network_out}
use shard_vpn.Tailscale.{get_token, find_device}
use shard_vpn.Statusdoc.{StatusDoc, absent, build}
use shard_vpn.Watchdog.{idle_bucket_floor_bytes, idle_seconds}
use shard_vpn.Handler.{ts_tag, fresh_node, time, utc_now}

-- A secret, at the time of the call.
unfoldable pub secret : Text → Param → Exec Text
secret control param = do now ← time; cached_secret control (param_name param) now

unfoldable pub tailscale_token : Text → Exec Json
tailscale_token control = do
  client_id ← secret control ts_client_id
  client_secret ← secret control ts_client_secret
  get_token client_id client_secret

-- The first node with the id.
unfoldable pub find_node : Text → List Instance → Option Instance
find_node id [] = none
find_node id (i ∷ is) = if i.instance_id == id then some i else find_node id is

-- The node that the pointer names, and the first of the nodes if there is none.
unfoldable pub pick_node : Text → Instance → List Instance → Instance
pick_node [] i is = i
pick_node (c ∷ id) i is = elim (find_node (c ∷ id) (i ∷ is)) [ none ↦ i | some j ↦ j ]

unfoldable pub device_present : Option Json → Bool
device_present none = false
device_present (some _) = true

unfoldable pub is_online : Text → Instance → Exec Bool
is_online control i = do
  token ← tailscale_token control
  tag ← ts_tag
  device ← find_device token tag (tag_value i tag_hostname)
  pure (device_present device)

-- `except tailscale.TailscaleError`
unfoldable pub online_of : Outcome Bool → Outcome (Option Bool)
online_of (ok b) = ok (some b)
online_of (err (Exc.tailscale_error _)) = ok none
online_of (err e) = err e

unfoldable pub is_fresh : Option Text → DateTime → Bool
is_fresh none now = false
is_fresh (some []) now = false
is_fresh (some (c ∷ s)) now = elim (parse_rfc3339 (c ∷ s)) [
  | none ↦ false
  | some t ↦ ltb now (t + fresh_node)
]

unfoldable pub read_idle : Text → Instance → DateTime → Exec (Option ℕ)
read_idle region i now = do
  client Service.cloudwatch region
  points ← network_out region i.instance_id 24 now
  pure (idle_seconds points now idle_bucket_floor_bytes)

-- `except Exception`
unfoldable pub idle_or_none : Outcome (Option ℕ) → Option ℕ
idle_or_none (ok idle) = idle
idle_or_none (err _) = none

-- Only a running node that is not fresh is looked up.
unfoldable pub idle_of : Text → Instance → DateTime → Exec (Option ℕ)
idle_of region i now =
    if i.state == txt "running" && not (is_fresh (tag_value i tag_launched) now)
    then (do r ← attempt (read_idle region i now); pure (idle_or_none r))
    else pure none

unfoldable pub describe_node : Text → Text → Instance → Exec StatusDoc
describe_node control region i = do
  now ← utc_now
  r ← attempt (is_online control i)
  online ← lift (online_of r)
  idle ← idle_of region i now
  pure (build (some i) (some region) online idle now)

unfoldable pub describe_nodes : Text → Pointer → List Instance → Exec StatusDoc
describe_nodes control p [] = pure absent
describe_nodes control p (i ∷ is) = describe_node control p.region (pick_node p.instance_id i is)

-- _describe(control_ssm, pointer)
unfoldable pub describe : Text → Option Pointer → Exec StatusDoc
describe control none = pure absent
describe control (some p) = do
  client Service.ec2 p.region
  nodes ← find_nodes p.region
  describe_nodes control p nodes
