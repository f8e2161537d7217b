-- ===== src/Handler/Action.antt =====
-- The actions `status`, `down` and `up`.
use shard_vpn.Prelude.{
  Text, txt, ◌==◌, Bool, true, false, ◌||◌, Option, none, some, List, [], ◌∷◌, ◌++◌, if◌then◌else◌,
}
use shard_vpn.Python.{Outcome, ok, err, is_value_error}
use shard_vpn.Python.Json.{Json, null, str, arr, obj, Fields, field, end, get_or, truthy}
use shard_vpn.World.{Instance, LaunchSpec, Service}
use shard_vpn.Exec.{Exec, pure, raise, lift, attempt, ◌>>=◌, ◌>>◌}
use shard_vpn.Boto.{client}
use shard_vpn.DateTime.{DateTime}
use shard_vpn.Ttl.{never, rfc3339, parse_ttl}
use shard_vpn.Settings.{
  Pointer, Param, param_name, current_node, default_region, default_ttl, instance_type,
  get_parameter, read_pointer, write_pointer,
}
use shard_vpn.Ec2ops.{
  tag_role, role_value, tag_launched, tag_expires, tag_hostname, valid_regions, resolve_ami,
  ensure_security_group, find_nodes, launch, terminate,
}
use shard_vpn.Tailscale.{mint_auth_key}
use shard_vpn.Render.{render_userdata}
use shard_vpn.Statusdoc.{StatusDoc, absent, to_json}
use shard_vpn.Handler.{
  Response, respond, error_json, texts, ts_tag, key_expiry_seconds, utc_now, token_hex,
}
use shard_vpn.Handler.Describe.{describe, tailscale_token}

unfoldable pub parameter : Text → Param → Exec Text
parameter control param = get_parameter control (param_name param) false

unfoldable pub set_current_node : Text → Option Pointer → Exec (Unit {0})
set_current_node control p = write_pointer control (param_name current_node) p

unfoldable pub get_current_node : Text → Exec (Option Pointer)
get_current_node control = read_pointer control (param_name current_node)

-- _status(control_ssm)
unfoldable pub status : Text → Exec Response
status control = do
  pointer ← get_current_node control
  doc ← describe control pointer
  respond 200 (to_json doc)

unfoldable pub terminate_all : Text → List Instance → Exec (Unit {0})
terminate_all region [] = pure tt
terminate_all region (i ∷ is) = do terminate region i.instance_id; terminate_all region is

unfoldable pub terminate_region : Text → Exec (Unit {0})
terminate_region region = do
  client Service.ec2 region
  nodes ← find_nodes region
  terminate_all region nodes

unfoldable pub down_at : Text → Option Pointer → Exec Response
down_at control none = do
  region ← parameter control default_region
  terminate_region region
  respond 200 (to_json absent)
down_at control (some p) = do
  terminate_region p.region
  set_current_node control none
  respond 200 (to_json absent)

-- _down(control_ssm)
unfoldable pub down : Text → Exec Response
down control = do pointer ← get_current_node control; down_at control pointer

-- body.get(key) or get_parameter(control_ssm, PARAM_NAMES[param])
unfoldable pub value_or_parameter : Text → Text → Param → Fields → Exec Json
value_or_parameter control key param body = elim (truthy (get_or key null body)) [
  | true ↦ pure (get_or key null body)
  | false ↦ do v ← parameter control param; pure (str v)
]

unfoldable pub known_region : Text → List Text → Bool
known_region region [] = false
known_region region (r ∷ rs) = r == region || known_region region rs

-- The region, if it is a `str` in the list.
unfoldable pub choose_region : Json → List Text → Option Text
choose_region (str region) regions = if known_region region regions then some region else none
choose_region _ regions = none

unfoldable pub unknown_region : List Text → Json
unknown_region regions = obj (
    field (txt "error") (str (txt "unknown region"))
      (field (txt "valid") (arr (texts regions)) end))

unfoldable pub read_expiry : Text → Fields → DateTime → Exec Text
read_expiry control body now = do
  ttl ← value_or_parameter control (txt "ttl") default_ttl body
  lift (parse_ttl ttl now)

unfoldable pub hostname_of : Text → Text → Text
hostname_of region hex = txt "shardvpn-" ++ (region ++ (txt "-" ++ hex))

unfoldable pub launch_tags : Text → DateTime → Text → List (Text × Text)
launch_tags hostname now expires_at =
    (txt "Name", hostname)
    ∷ (tag_role, role_value)
    ∷ (tag_launched, rfc3339 now)
    ∷ (tag_expires, expires_at)
    ∷ (tag_hostname, hostname)
    ∷ []

-- The document of a node that was just started.
unfoldable pub started : Text → Text → Text → Text → StatusDoc
started region instance_id hostname expires_at = record absent {
  state = txt "pending";
  region = some region;
  instance_id = some instance_id;
  hostname = some hostname;
  expires_at = if expires_at == never then none else some expires_at;
  age = some (txt "0m");
}

-- What `up` reads before it mints the key: the image, the type and the group.
pub record Prepared : Type 0 where
  pub ami : Text
  pub machine : Text
  pub sg_id : Text

unfoldable pub prepare : Text → Text → Exec Prepared
prepare control region = do
  client Service.ssm region
  ami ← resolve_ami region
  machine ← parameter control instance_type
  sg_id ← ensure_security_group region
  pure (record { ami = ami; machine = machine; sg_id = sg_id })

unfoldable pub mint : Text → Text → Exec Json
mint control hostname = do
  token ← tailscale_token control
  tag ← ts_tag
  mint_auth_key token tag key_expiry_seconds (txt "shardvpn " ++ hostname)

unfoldable pub spec_of : Prepared → Text → Text → DateTime → Text → LaunchSpec
spec_of p user_data hostname now expires_at = record {
  ami = p.ami;
  instance_type = p.machine;
  sg_id = p.sg_id;
  user_data = user_data;
  tags = launch_tags hostname now expires_at;
  client_token = txt "shardvpn-" ++ hostname;
}

-- From the host name on: mint, start, and point at the new node.
unfoldable pub start : Text → Text → DateTime → Text → Text → Exec Response
start control region now expires_at hostname = do
  prepared ← prepare control region
  authkey ← mint control hostname
  user_data ← render_userdata authkey hostname
  instance_id ← launch region (spec_of prepared user_data hostname now expires_at)
  set_current_node control (some (record { region = region; instance_id = instance_id }))
  respond 200 (to_json (started region instance_id hostname expires_at))

-- Adopt the node that is there already, or start one.
unfoldable pub adopt_or_start : Text → Text → DateTime → Text → List Instance → Exec Response
adopt_or_start control region now expires_at (i ∷ is) = do
  let p : Pointer = record { region = region; instance_id = i.instance_id }
  set_current_node control (some p)
  doc ← describe control (some p)
  respond 200 (to_json doc)
adopt_or_start control region now expires_at [] = do
  hex ← token_hex
  start control region now expires_at (hostname_of region hex)

-- `except ValueError` around the expiry.
unfoldable pub up_until : Text → Text → DateTime → Outcome Text → Exec Response
up_until control region now (err e) = elim (is_value_error e) [
  | true ↦ respond 400 (error_json (txt "malformed ttl"))
  | false ↦ raise e
]
up_until control region now (ok expires_at) = do
  client Service.ec2 region
  found ← find_nodes region
  adopt_or_start control region now expires_at found

unfoldable pub up_in : Text → Fields → List Text → Option Text → Exec Response
up_in control body regions none = respond 400 (unknown_region regions)
up_in control body regions (some region) = do
  now ← utc_now
  expiry ← attempt (read_expiry control body now)
  up_until control region now expiry

unfoldable pub up_new : Text → Fields → Exec Response
up_new control body = do
  client Service.ec2 control
  regions ← valid_regions control
  region ← value_or_parameter control (txt "region") default_region body
  up_in control body regions (choose_region region regions)

-- A node that is there already is reported.
unfoldable pub up_unless : Text → Fields → StatusDoc → Exec Response
up_unless control body existing = elim (existing.state == txt "absent") [
  | true ↦ up_new control body
  | false ↦ respond 200 (to_json existing)
]

unfoldable pub up_at : Text → Fields → Option Pointer → Exec Response
up_at control body none = up_new control body
up_at control body (some p) = do
  existing ← describe control (some p)
  up_unless control body existing

-- _up(control_ssm, body)
unfoldable pub up : Text → Fields → Exec Response
up control body = do pointer ← get_current_node control; up_at control body pointer
