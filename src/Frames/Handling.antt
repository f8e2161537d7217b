-- ===== src/Frames/Handling.antt =====
-- The parts of the handler, under tests that pass over their calls.
use shard_vpn.Prelude.{
  ℕ, ◌≡◌, Text, Bool, false, Option, none, some, List, [], ◌∷◌, Bool-cases, inl, inr,
}
use shard_vpn.Python.Json.{Json, Fields, null, get_or, truthy}
use shard_vpn.World.{Call, Instance, Group, Request}
use shard_vpn.DateTime.{DateTime}
use shard_vpn.Exec.Frame.{Frame, Frame-bind, Frame-attempt, frame_rules}
use shard_vpn.Settings.{Pointer, Param, param_name}
use shard_vpn.Ec2ops.{
  resolve_ami, ensure_security_group, default_vpc_id, first_vpc, reuse_or_create,
}
use shard_vpn.Tailscale.{api_call, get_token, mint_auth_key, find_device}
use shard_vpn.Render.{read_template, rendered, render_userdata}
use shard_vpn.Handler.{respond, ts_tag, time, utc_now, token_hex}
use shard_vpn.Handler.Describe.{
  secret, tailscale_token, is_online, read_idle, idle_of, describe_node, describe_nodes, describe,
}
use shard_vpn.Handler.Action.{
  parameter, get_current_node, value_or_parameter, read_expiry, prepare, mint,
}
use shard_vpn.Frames.{calls_of, Frame-call, Frame-observe, IgnoresReads, IgnoresRequests}
use shard_vpn.Frames.Aws.{
  client-Frame, get_parameter-Frame, cached_secret-Frame, read_pointer-Frame, find_nodes-Frame,
  network_out-Frame,
}

module _ {p : Call → Bool} (reads : IgnoresReads p) (requests : IgnoresRequests p) where
  pub time-Frame : Frame (calls_of p) time
  unfolding time
  time-Frame = Frame-observe p Call.time _ reads.setup.time

  pub utc_now-Frame : Frame (calls_of p) utc_now
  unfolding utc_now
  utc_now-Frame = Frame-observe p Call.utc_now _ reads.utc_now

  pub token_hex-Frame : Frame (calls_of p) token_hex
  unfolding token_hex
  token_hex-Frame = Frame-observe p Call.token_hex _ reads.token_hex

  pub respond-Frame : (code : ℕ) (payload : Json) → Frame (calls_of p) (respond code payload)
  unfolding respond
  respond-Frame code payload = search frame_rules

  pub get_current_node-Frame : (control : Text) → Frame (calls_of p) (get_current_node control)
  unfolding get_current_node
  get_current_node-Frame control = search (read_pointer-Frame reads.setup)

  pub secret-Frame : (control : Text) (k : Param) → Frame (calls_of p) (secret control k)
  unfolding secret
  secret-Frame control k =
      Frame-bind _ _ time-Frame (λ now. cached_secret-Frame reads.setup control (param_name k) now)

  api_call-Frame : (r : Request) → Frame (calls_of p) (api_call r)
  unfolding api_call
  api_call-Frame r = Frame-call p (Call.urlopen r) _ (requests.urlopen r)

  get_token-Frame : (a b : Text) → Frame (calls_of p) (get_token a b)
  unfolding get_token
  get_token-Frame a b = search (frame_rules, api_call-Frame)

  tailscale_token-Frame : (control : Text) → Frame (calls_of p) (tailscale_token control)
  unfolding tailscale_token
  tailscale_token-Frame control = search (frame_rules, secret-Frame, get_token-Frame)

  ts_tag-Frame : Frame (calls_of p) ts_tag
  unfolding ts_tag
  ts_tag-Frame = search frame_rules

  find_device-Frame :
      (t : Json) (tag : Text) (h : Option Text) → Frame (calls_of p) (find_device t tag h)
  unfolding find_device
  find_device-Frame t tag h = search (frame_rules, api_call-Frame)

  is_online-Frame : (control : Text) (i : Instance) → Frame (calls_of p) (is_online control i)
  unfolding is_online
  is_online-Frame control i =
      search (frame_rules, tailscale_token-Frame, ts_tag-Frame, find_device-Frame)

  read_idle-Frame :
      (region : Text) (i : Instance) (now : DateTime) → Frame (calls_of p) (read_idle region i now)
  unfolding read_idle
  read_idle-Frame region i now =
      search (frame_rules, client-Frame reads.setup, network_out-Frame reads)

  idle_of-Frame :
      (region : Text) (i : Instance) (now : DateTime) → Frame (calls_of p) (idle_of region i now)
  unfolding idle_of
  idle_of-Frame region i now = search (frame_rules, read_idle-Frame)

  describe_node-Frame :
      (control region : Text) (i : Instance) → Frame (calls_of p) (describe_node control region i)
  unfolding describe_node
  describe_node-Frame control region i = Frame-bind _ _ utc_now-Frame λ now.
      Frame-bind _ _ (Frame-attempt _ (is_online-Frame control i))
        λ r. search (frame_rules, idle_of-Frame)

  describe_nodes-Frame :
      (control : Text) (q : Pointer) (is : List Instance)
      → Frame (calls_of p) (describe_nodes control q is)
  unfolding describe_nodes
  describe_nodes-Frame control q [] = search frame_rules
  describe_nodes-Frame control q (i ∷ is) = search describe_node-Frame

  -- A description changes nothing.
  pub describe-Frame :
      (control : Text) (q : Option Pointer) → Frame (calls_of p) (describe control q)
  unfolding describe
  describe-Frame control none = search frame_rules
  describe-Frame control (some q) =
      search (frame_rules, client-Frame reads.setup, find_nodes-Frame reads, describe_nodes-Frame)

  pub parameter-Frame : (control : Text) (k : Param) → Frame (calls_of p) (parameter control k)
  unfolding parameter
  parameter-Frame control k = search (get_parameter-Frame reads.setup)

  pub value_or_parameter-Frame :
      (control key : Text) (k : Param) (body : Fields)
      → Frame (calls_of p) (value_or_parameter control key k body)
  unfolding value_or_parameter
  value_or_parameter-Frame control key k body = elim (Bool-cases (truthy (get_or key null body))) [
    | inl given ↦ rw (given, value_or_parameter) (search frame_rules)
    | inr missing ↦ rw (missing, value_or_parameter) (search (frame_rules, parameter-Frame))
  ]

  pub read_expiry-Frame :
      (control : Text) (body : Fields) (now : DateTime)
      → Frame (calls_of p) (read_expiry control body now)
  unfolding read_expiry
  read_expiry-Frame control body now = search (frame_rules, value_or_parameter-Frame)

  mint_auth_key-Frame :
      (token : Json) (tag : Text) (n : ℕ) (description : Text)
      → Frame (calls_of p) (mint_auth_key token tag n description)
  unfolding mint_auth_key
  mint_auth_key-Frame token tag n description = search (frame_rules, api_call-Frame)

  pub mint-Frame : (control hostname : Text) → Frame (calls_of p) (mint control hostname)
  unfolding mint
  mint-Frame control hostname =
      search (frame_rules, tailscale_token-Frame, ts_tag-Frame, mint_auth_key-Frame)

  read_template-Frame : Frame (calls_of p) read_template
  unfolding read_template
  read_template-Frame = Frame-call p Call.read_template _ reads.read_template

  pub render_userdata-Frame :
      (key : Json) (hostname : Text) → Frame (calls_of p) (render_userdata key hostname)
  unfolding render_userdata rendered
  render_userdata-Frame key hostname = search (frame_rules, read_template-Frame)

  first_vpc-Frame : (vpcs : List Text) → Frame (calls_of p) (first_vpc vpcs)
  unfolding first_vpc
  first_vpc-Frame [] = search frame_rules
  first_vpc-Frame (v ∷ vs) = search frame_rules

  default_vpc_id-Frame : (r : Text) → Frame (calls_of p) (default_vpc_id r)
  unfolding default_vpc_id
  default_vpc_id-Frame r =
      Frame-bind _ _ (Frame-call p (Call.describe_vpcs r _) _ (reads.describe_vpcs r _))
        first_vpc-Frame

  module _ (groups : (r n d v : Text) → p (Call.create_security_group r n d v) ≡ false) where
    reuse_or_create-Frame :
        (r v : Text) (gs : List Group) → Frame (calls_of p) (reuse_or_create r v gs)
    unfolding reuse_or_create
    reuse_or_create-Frame r v [] = search (Frame-call, groups)
    reuse_or_create-Frame r v (g ∷ gs) = search frame_rules

    ensure_security_group-Frame : (r : Text) → Frame (calls_of p) (ensure_security_group r)
    unfolding ensure_security_group
    ensure_security_group-Frame r = Frame-bind _ _ (default_vpc_id-Frame r) λ v.
        Frame-bind _ _
          (Frame-call p (Call.describe_security_groups r _) _ (reads.describe_security_groups r _))
          λ gs. reuse_or_create-Frame r v gs

    pub prepare-Frame : (control region : Text) → Frame (calls_of p) (prepare control region)
    unfolding prepare resolve_ami
    prepare-Frame control region = search (
      frame_rules,
      client-Frame reads.setup,
      get_parameter-Frame reads.setup,
      parameter-Frame,
      ensure_security_group-Frame,
    )
