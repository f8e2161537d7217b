-- ===== src/Handler/Routing.antt =====
-- `lambda_handler`: requests and sweeps keep to their own effects.
use shard_vpn.Prelude.{◌≡◌, refl, Bool, true, false, Text, txt, none}
use shard_vpn.Python.Json.{Json, Fields, has_key}
use shard_vpn.World.{Env, Call}
use shard_vpn.Exec.{State, Exec, pure, ◌>>=◌, after}
use shard_vpn.Exec.Frame.{Frame, Frame-bind, Frame-pure}
use shard_vpn.Boto.{environ}
use shard_vpn.Watchdog.Sweep.{sweep}
use shard_vpn.Handler.{utc_now}
use shard_vpn.Handler.Entry.{serve, lambda_handler, response_dict, summary_dict}
use shard_vpn.Frames.{calls_of, Frame-observe, IgnoresReads, IgnoresNotices, IgnoresRequests}
use shard_vpn.Frames.Aws.{environ-Frame}
use shard_vpn.Frames.Serving.{IgnoresWrites, serve-Frame}
use shard_vpn.Frames.Sweep.{IgnoresMending, sweep-Frame}

-- The effects of a sweep that no action of the handler has: notices, and stamps on instances.
unfoldable pub is_notice : Call → Bool
is_notice (Call.publish _ _ _) = true
is_notice (Call.create_tags _ _ _ _) = true
is_notice _ = false

-- The effects of an action that no sweep has: launches, security groups, and calls of Tailscale, by which
-- keys are minted.
unfoldable pub is_creation : Call → Bool
is_creation (Call.run_instances _ _) = true
is_creation (Call.create_security_group _ _ _ _) = true
is_creation (Call.urlopen _) = true
is_creation _ = false

request_reads : IgnoresReads is_notice
unfolding is_notice
request_reads = record {
  setup = record { client = λ v r. refl; get_parameter = λ r n d. refl; time = refl };
  describe_regions = λ r. refl;
  describe_vpcs = λ r f. refl;
  describe_security_groups = λ r f. refl;
  describe_instances = λ r f. refl;
  get_metric_statistics = λ r i a b. refl;
  utc_now = refl;
  token_hex = refl;
  read_template = refl;
}

request_requests : IgnoresRequests is_notice
unfolding is_notice
request_requests = record { urlopen = λ r. refl }

request_writes : IgnoresWrites is_notice
unfolding is_notice
request_writes = record {
  put_parameter = λ r n v. refl;
  terminate_instances = λ r i. refl;
  run_instances = λ r spec. refl;
  create_security_group = λ r n d v. refl;
}

sweep_reads : IgnoresReads is_creation
unfolding is_creation
sweep_reads = record {
  setup = record { client = λ v r. refl; get_parameter = λ r n d. refl; time = refl };
  describe_regions = λ r. refl;
  describe_vpcs = λ r f. refl;
  describe_security_groups = λ r f. refl;
  describe_instances = λ r f. refl;
  get_metric_statistics = λ r i a b. refl;
  utc_now = refl;
  token_hex = refl;
  read_template = refl;
}

sweep_notices : IgnoresNotices is_creation
unfolding is_creation
sweep_notices = record { publish = λ r t m. refl }

sweep_mending : IgnoresMending is_creation
unfolding is_creation
sweep_mending = record {
  put_parameter = λ r n v. refl;
  terminate_instances = λ r i. refl;
  create_tags = λ r i k v. refl;
}

-- What an event must not cause: a notice or a stamp, if it has a requestContext, and a launch, a security
-- group or a call of Tailscale, if it has none.
abbrev pub foreign : Bool → Call → Bool
foreign true = is_notice
foreign false = is_creation

clock-Frame : Frame (calls_of is_creation) utc_now
unfolding utc_now is_creation
clock-Frame = Frame-observe is_creation Call.utc_now _ refl

environ-foreign : (b : Bool) → Frame (calls_of (foreign b)) (environ (txt "CONTROL_REGION"))
environ-foreign true = environ-Frame request_reads.setup _
environ-foreign false = environ-Frame sweep_reads.setup _

-- The two ways through the entry point.
arms-Frame :
    (control id : Text) (event : Fields) (b : Bool)
    → Frame (calls_of (foreign b)) (elim b as (λ _. Exec Json) [
      | false ↦ utc_now >>= λ now. sweep now none none >>= λ m. pure (summary_dict m)
      | true ↦ serve control id event >>= λ r. pure (response_dict r)
    ])
arms-Frame control id event true =
    Frame-bind _ _ (serve-Frame request_reads request_requests request_writes control id event)
      (λ _. Frame-pure _)
arms-Frame control id event false = Frame-bind _ _ clock-Frame λ now.
    Frame-bind _ _ (sweep-Frame sweep_reads sweep_notices sweep_mending now none none)
      (λ _. Frame-pure _)

-- Whatever the outside answers, an event with a requestContext publishes no notice and stamps no
-- instance, and an event without one starts no instance, creates no security group and sends no request
-- to Tailscale.
pub lambda_handler-foreign :
    (event : Fields) (id : Text) (env : Env) (s : State)
    → calls_of
        (foreign (has_key (txt "requestContext") event))
        (after (lambda_handler event id) env s)
      ≡ calls_of (foreign (has_key (txt "requestContext") event)) s
unfolding lambda_handler
lambda_handler-foreign event id env s =
    (Frame-bind _ _ (environ-foreign (has_key (txt "requestContext") event))
        (λ control. arms-Frame control id event (has_key (txt "requestContext") event))).at
      env s
