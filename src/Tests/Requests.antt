-- ===== src/Tests/Requests.antt =====
-- Requests through the Function URL.
use shard_vpn.Prelude.{refl, Option, eqb_text, Text, txt, ◌≡◌, ◌⊎◌}
use shard_vpn.Python.{ok}
use shard_vpn.Python.Json.{Fields, obj, field, end, str}
use shard_vpn.World.{Service}
use shard_vpn.Exec.{after}
use shard_vpn.Boto.{client}
use shard_vpn.Settings.{signing_secret}
use shard_vpn.Handler.Describe.{secret}
use shard_vpn.Handler.Entry.{serve}
use shard_vpn.Handler.Gate.{IsRefused, IsAuthentic, serve_gate}
use shard_vpn.Exec.{result, asks, call, pure, ◌>>=◌}
use shard_vpn.Python.Json.{get}
use shard_vpn.Settings.{
  Pointer, get_parameter, read_pointer, pointer_of_read, pointer_of_text, loads_pointer,
  pointer_of_json, pointer_json, empty, write_pointer, put_parameter,
}
use shard_vpn.Ec2ops.{find_nodes, instances, terminate}
use shard_vpn.Statusdoc.{absent, to_json}
use shard_vpn.Handler.{respond, response}
use shard_vpn.Handler.Action.{
  get_current_node, set_current_node, down, down_at, terminate_region, terminate_all, up,
}
use shard_vpn.Handler.Down.{IsSafe, IsDown, down-IsSafe, down-IsDown}
use shard_vpn.Handler.Launching.{Launched, launches}
use shard_vpn.Handler.Up.{up-Launched}
use shard_vpn.Watchdog.Pointing.{puts}
use shard_vpn.Tests.World.{cloud, tracking, fresh}

abbrev unsigned : Fields
unsigned =
    field (txt "requestContext") (obj end)
      (field (txt "body") (str (txt "{\"action\":\"down\"}")) end)

serve_gate_example :
    IsRefused fresh (serve (txt "eu-west-1") (txt "r-1") unsigned cloud fresh)
    ⊎ ((key : Text) × ((secret
            (txt "eu-west-1")
            signing_secret
            cloud
            (after (client Service.ssm (txt "eu-west-1")) cloud fresh)).0
          ≡ ok key)
        × IsAuthentic cloud unsigned key)
serve_gate_example = serve_gate (txt "eu-west-1") (txt "r-1") unsigned cloud fresh

down-IsSafe_example :
    IsSafe tracking
      (txt "eu-west-1")
      (result (get_current_node (txt "eu-west-1")) tracking fresh)
      (puts fresh)
      (puts (down (txt "eu-west-1") tracking fresh).1)
down-IsSafe_example = down-IsSafe (txt "eu-west-1") tracking fresh

went_down : (down (txt "eu-west-1") tracking fresh).0 ≡ ok (response tracking 200 (to_json absent))
unfolding down get_current_node read_pointer get_parameter pointer_of_read pointer_of_text
    loads_pointer pointer_of_json pointer_json get eqb_text empty down_at terminate_region client
    find_nodes instances terminate_all terminate set_current_node write_pointer put_parameter
    respond asks call pure ◌>>=◌ txt
went_down = refl

down-IsDown_example :
    (q : Option Pointer) × ((get_current_node (txt "eu-west-1") tracking fresh).0 ≡ ok q)
    × IsDown tracking (txt "eu-west-1") q (response tracking 200 (to_json absent))
down-IsDown_example =
    down-IsDown (txt "eu-west-1") tracking fresh (response tracking 200 (to_json absent)) went_down

abbrev in_ireland : Fields
in_ireland = field (txt "region") (str (txt "eu-west-1")) (field (txt "ttl") (str (txt "2h")) end)

up-Launched_example :
    Launched cloud
      (txt "eu-west-1")
      in_ireland
      (launches fresh)
      (launches (up (txt "eu-west-1") in_ireland cloud fresh).1)
up-Launched_example = up-Launched (txt "eu-west-1") in_ireland cloud fresh
