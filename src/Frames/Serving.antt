-- ===== src/Frames/Serving.antt =====
-- The actions of the handler and the entry point, under tests that pass over their calls.
use shard_vpn.Prelude.{
  ℕ, ◌≡◌, refl, Text, txt, ◌==◌, Bool, false, Option, none, some, List, [], ◌∷◌, Bool-cases, inl,
  inr,
}
use shard_vpn.Python.{Exc, Outcome, ok, err, is_value_error}
use shard_vpn.Python.Json.{Json, Fields, get}
use shard_vpn.World.{Call, Service, Instance, LaunchSpec}
use shard_vpn.DateTime.{DateTime}
use shard_vpn.Exec.Frame.{
  Frame, frame_rules, Frame-bind, Frame-pure, Frame-raise, Frame-attempt, Frame-asks, Frame-lift,
}
use shard_vpn.Settings.{Pointer, signing_secret, default_region, placeholder_signing_secret}
use shard_vpn.Ec2ops.{terminate, launch, first_id}
use shard_vpn.Statusdoc.{StatusDoc}
use shard_vpn.Handler.{Response, respond}
use shard_vpn.Handler.Action.{
  set_current_node, status, terminate_all, terminate_region, down_at, down, start, adopt_or_start,
  up_until, up_in, up_new, choose_region, up_unless, up_at, up, hostname_of,
}
use shard_vpn.Handler.Entry.{authenticate, dispatch, finish, act_on, gate, with_secret, serve}
use shard_vpn.Frames.{calls_of, Frame-call, IgnoresReads, IgnoresRequests}
use shard_vpn.Frames.Aws.{client-Frame, find_nodes-Frame, valid_regions-Frame}
use shard_vpn.Frames.Handling.{
  time-Frame, secret-Frame, utc_now-Frame, token_hex-Frame, respond-Frame, get_current_node-Frame,
  describe-Frame, parameter-Frame, value_or_parameter-Frame, read_expiry-Frame, mint-Frame,
  render_userdata-Frame, prepare-Frame,
}
use shard_vpn.Frames.Sweeping.{write_pointer-Frame}

-- The test passes over the calls by which an action of the handler changes AWS.
pub record IgnoresWrites (p : Call → Bool) : Type 0 where
  pub put_parameter : (r n v : Text) → p (Call.put_parameter r n v) ≡ false
  pub terminate_instances : (r i : Text) → p (Call.terminate_instances r i) ≡ false
  pub run_instances : (r : Text) (spec : LaunchSpec) → p (Call.run_instances r spec) ≡ false
  pub create_security_group : (r n d v : Text) → p (Call.create_security_group r n d v) ≡ false

module _ {p : Call → Bool} (reads : IgnoresReads p) (requests : IgnoresRequests p)
    (writes : IgnoresWrites p) where
  set_current_node-Frame :
      (control : Text) (q : Option Pointer) → Frame (calls_of p) (set_current_node control q)
  unfolding set_current_node
  set_current_node-Frame control q = write_pointer-Frame p writes.put_parameter control _ q

  answer-Frame : (code : ℕ) (payload : Json) → Frame (calls_of p) (respond code payload)
  answer-Frame = respond-Frame reads requests

  terminate_all-Frame :
      (region : Text) (is : List Instance) → Frame (calls_of p) (terminate_all region is)
  unfolding terminate_all terminate
  terminate_all-Frame region [] = Frame-pure tt
  terminate_all-Frame region (i ∷ is) =
      Frame-bind _ _
        (Frame-call p (Call.terminate_instances region i.instance_id) _
          (writes.terminate_instances region i.instance_id))
        (λ _. terminate_all-Frame region is)

  terminate_region-Frame : (region : Text) → Frame (calls_of p) (terminate_region region)
  unfolding terminate_region
  terminate_region-Frame region =
      Frame-bind _ _ (client-Frame reads.setup Service.ec2 region)
        λ _. Frame-bind _ _ (find_nodes-Frame reads region) (terminate_all-Frame region)

  down_at-Frame : (control : Text) (q : Option Pointer) → Frame (calls_of p) (down_at control q)
  unfolding down_at
  down_at-Frame control none =
      Frame-bind _ _ (parameter-Frame reads requests control default_region)
        λ region. Frame-bind _ _ (terminate_region-Frame region) (λ _. answer-Frame 200 _)
  down_at-Frame control (some q) =
      Frame-bind _ _ (terminate_region-Frame q.region)
        λ _. Frame-bind _ _ (set_current_node-Frame control none) (λ _. answer-Frame 200 _)

  down-Frame : (control : Text) → Frame (calls_of p) (down control)
  unfolding down
  down-Frame control =
      Frame-bind _ _ (get_current_node-Frame reads requests control) (down_at-Frame control)

  status-Frame : (control : Text) → Frame (calls_of p) (status control)
  unfolding status
  status-Frame control =
      Frame-bind _ _ (get_current_node-Frame reads requests control)
        λ q. Frame-bind _ _ (describe-Frame reads requests control q) (λ _. answer-Frame 200 _)

  first_id-Frame : (ids : List Text) → Frame (calls_of p) (first_id ids)
  unfolding first_id
  first_id-Frame [] = Frame-raise _
  first_id-Frame (i ∷ is) = Frame-pure _

  launch-Frame : (region : Text) (spec : LaunchSpec) → Frame (calls_of p) (launch region spec)
  unfolding launch
  launch-Frame region spec =
      Frame-bind _ _
        (Frame-call p (Call.run_instances region spec) _ (writes.run_instances region spec))
        first_id-Frame

  start-Frame :
      (control region : Text) (now : DateTime) (expires_at hostname : Text)
      → Frame (calls_of p) (start control region now expires_at hostname)
  unfolding start
  start-Frame control region now expires_at hostname =
      Frame-bind _ _ (prepare-Frame reads requests writes.create_security_group control region) λ q.
        Frame-bind _ _ (mint-Frame reads requests control hostname) λ key.
          Frame-bind _ _ (render_userdata-Frame reads requests key hostname) λ user_data.
            Frame-bind _ _ (launch-Frame region _)
              λ id. Frame-bind _ _ (set_current_node-Frame control _) (λ _. answer-Frame 200 _)

  adopt_or_start-Frame :
      (control region : Text) (now : DateTime) (expires_at : Text) (is : List Instance)
      → Frame (calls_of p) (adopt_or_start control region now expires_at is)
  unfolding adopt_or_start
  adopt_or_start-Frame control region now expires_at (i ∷ is) =
      Frame-bind _ _ (set_current_node-Frame control _)
        λ _. Frame-bind _ _ (describe-Frame reads requests control _) (λ _. answer-Frame 200 _)
  adopt_or_start-Frame control region now expires_at [] =
      Frame-bind _ _ (token_hex-Frame reads requests)
        (λ hex. start-Frame control region now expires_at (hostname_of region hex))

  up_until-Frame :
      (control region : Text) (now : DateTime) (r : Outcome Text)
      → Frame (calls_of p) (up_until control region now r)
  unfolding up_until
  up_until-Frame control region now (err e) = elim (Bool-cases (is_value_error e)) [
    | inl malformed ↦ rw (malformed, up_until) (answer-Frame 400 _)
    | inr other ↦ rw (other, up_until) (Frame-raise e)
  ]
  up_until-Frame control region now (ok expires_at) =
      Frame-bind _ _ (client-Frame reads.setup Service.ec2 region) λ _.
        Frame-bind _ _ (find_nodes-Frame reads region)
          (adopt_or_start-Frame control region now expires_at)

  up_in-Frame :
      (control : Text) (body : Fields) (regions : List Text) (r : Option Text)
      → Frame (calls_of p) (up_in control body regions r)
  unfolding up_in
  up_in-Frame control body regions none = answer-Frame 400 _
  up_in-Frame control body regions (some region) =
      Frame-bind _ _ (utc_now-Frame reads requests) λ now.
        Frame-bind _ _ (Frame-attempt _ (read_expiry-Frame reads requests control body now))
          (up_until-Frame control region now)

  up_new-Frame : (control : Text) (body : Fields) → Frame (calls_of p) (up_new control body)
  unfolding up_new
  up_new-Frame control body = Frame-bind _ _ (client-Frame reads.setup Service.ec2 control) λ _.
      Frame-bind _ _ (valid_regions-Frame reads control) λ regions.
        Frame-bind _ _
          (value_or_parameter-Frame reads requests control (txt "region") default_region body)
          λ v. up_in-Frame control body regions (choose_region v regions)

  up_unless-Frame :
      (control : Text) (body : Fields) (d : StatusDoc)
      → Frame (calls_of p) (up_unless control body d)
  unfolding up_unless
  up_unless-Frame control body d = elim (Bool-cases (d.state == txt "absent")) [
    | inl absent ↦ rw (absent, up_unless) (up_new-Frame control body)
    | inr present ↦ rw (present, up_unless) (answer-Frame 200 _)
  ]

  up_at-Frame :
      (control : Text) (body : Fields) (q : Option Pointer)
      → Frame (calls_of p) (up_at control body q)
  unfolding up_at
  up_at-Frame control body none = up_new-Frame control body
  up_at-Frame control body (some q) =
      Frame-bind _ _ (describe-Frame reads requests control (some q)) (up_unless-Frame control body)

  up-Frame : (control : Text) (body : Fields) → Frame (calls_of p) (up control body)
  unfolding up
  up-Frame control body =
      Frame-bind _ _ (get_current_node-Frame reads requests control) (up_at-Frame control body)

  dispatch-Frame : (control : Text) (body : Fields) → Frame (calls_of p) (dispatch control body)
  unfolding dispatch
  dispatch-Frame control body = go (get (txt "action") body) refl
    where
      go :
          (a : Option Json)
          → get (txt "action") body ≡ a
          → Frame (calls_of p) (dispatch control body)
      go none h = rw (h, dispatch) (answer-Frame 400 _)
      go (some a) h =
          rw (h, dispatch) (search (frame_rules, up-Frame, down-Frame, status-Frame, answer-Frame))

  finish-Frame : (id : Text) (r : Outcome Response) → Frame (calls_of p) (finish id r)
  unfolding finish
  finish-Frame id (ok r) = Frame-pure r
  finish-Frame id (err (Exc.pointer_unavailable m)) = answer-Frame 503 _
  finish-Frame id (err _) = answer-Frame 500 _

  act_on-Frame : (control id : Text) (r : Outcome Fields) → Frame (calls_of p) (act_on control id r)
  unfolding act_on
  act_on-Frame control id (ok body) =
      Frame-bind _ _ (Frame-attempt _ (dispatch-Frame control body)) (finish-Frame id)
  act_on-Frame control id (err e) = elim (Bool-cases (is_value_error e)) [
    | inl malformed ↦ rw (malformed, act_on) (answer-Frame 400 _)
    | inr other ↦ rw (other, act_on) (Frame-raise e)
  ]

  gate-Frame :
      (control id : Text) (event : Fields) (r : Outcome (Unit {0}))
      → Frame (calls_of p) (gate control id event r)
  unfolding gate
  gate-Frame control id event (err Exc.auth_error) = Frame-pure _
  gate-Frame control id event (err _) = Frame-raise _
  gate-Frame control id event (ok _) = Frame-bind _ _ (Frame-asks _) (act_on-Frame control id)

  authenticate-Frame : (event : Fields) (key : Text) → Frame (calls_of p) (authenticate event key)
  unfolding authenticate
  authenticate-Frame event key = Frame-bind _ _ (Frame-asks _) λ extracted.
      Frame-bind _ _ (Frame-lift extracted) λ body.
        Frame-bind _ _ (time-Frame reads requests)
          λ now. Frame-bind _ _ (Frame-asks _) (λ verdict. Frame-lift verdict)

  with_secret-Frame :
      (control id : Text) (event : Fields) (r : Outcome Text)
      → Frame (calls_of p) (with_secret control id event r)
  unfolding with_secret
  with_secret-Frame control id event (err e) = answer-Frame 503 _
  with_secret-Frame control id event (ok key) =
      elim (Bool-cases (key == placeholder_signing_secret)) [
        | inl placeholder ↦ rw placeholder (answer-Frame 503 _)
        | inr configured ↦ rw configured (
            Frame-bind _ _ (Frame-attempt _ (authenticate-Frame event key))
              (gate-Frame control id event))
      ]

  -- A request through the Function URL.
  pub serve-Frame :
      (control id : Text) (event : Fields) → Frame (calls_of p) (serve control id event)
  unfolding serve
  serve-Frame control id event = Frame-bind _ _ (client-Frame reads.setup Service.ssm control) λ _.
      Frame-bind _ _ (Frame-attempt _ (secret-Frame reads requests control signing_secret))
        (with_secret-Frame control id event)
