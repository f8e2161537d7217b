-- ===== src/Frames.antt =====
-- What the actions leave alone. A view of the history keeps the calls that pass a test; an action
-- that makes no such call leaves the view as it is, whatever the outside answers.
pub mod Aws
pub mod Sweeping
pub mod Handling
pub mod Serving
pub mod Sweep
use shard_vpn.Prelude.{◌≡◌, refl, ℕ, Text, Bool, true, false, List, if◌then◌else◌, keep}
use shard_vpn.Python.{Outcome}
use shard_vpn.World.{Env, Call, History, LaunchSpec, Request, Filters, Service}
use shard_vpn.DateTime.{DateTime}
use shard_vpn.Exec.{State, Exec, call, observe}
use shard_vpn.Exec.Frame.{Frame}

-- The calls that pass the test, the latest first.
unfoldable pub calls_of : (Call → Bool) → State → History
calls_of p s = keep p s.calls

module _ {ℓ} {A : Type ℓ} (p : Call → Bool) where
  pub Frame-call :
      (c : Call) (answer : Env → History → Outcome A)
      → p c ≡ false
      → Frame (calls_of p) (call c answer)
  unfolding call calls_of
  Frame-call c answer h = record { at = λ env s. rw h }

  pub Frame-observe :
      (c : Call) (answer : Env → History → A) → p c ≡ false → Frame (calls_of p) (observe c answer)
  unfolding observe calls_of
  Frame-observe c answer h = record { at = λ env s. rw h }

-- The test passes over clients, parameters that are read, and the clock.
pub record IgnoresSetup (p : Call → Bool) : Type 0 where
  pub client : (v : Service) (r : Text) → p (Call.client v r) ≡ false
  pub get_parameter : (r n : Text) (d : Bool) → p (Call.get_parameter r n d) ≡ false
  pub time : p Call.time ≡ false

-- The test passes over the calls that change nothing outside.
pub record IgnoresReads (p : Call → Bool) : Type 0 where
  pub setup : IgnoresSetup p
  pub describe_regions : (r : Text) → p (Call.describe_regions r) ≡ false
  pub describe_vpcs : (r : Text) (f : Filters) → p (Call.describe_vpcs r f) ≡ false
  pub describe_security_groups :
      (r : Text) (f : Filters) → p (Call.describe_security_groups r f) ≡ false
  pub describe_instances : (r : Text) (f : Filters) → p (Call.describe_instances r f) ≡ false
  pub get_metric_statistics :
      (r i : Text) (a b : DateTime) → p (Call.get_metric_statistics r i a b) ≡ false
  pub utc_now : p Call.utc_now ≡ false
  pub token_hex : p Call.token_hex ≡ false
  pub read_template : p Call.read_template ≡ false

pub record IgnoresNotices (p : Call → Bool) : Type 0 where
  pub publish : (r t m : Text) → p (Call.publish r t m) ≡ false

pub record IgnoresRequests (p : Call → Bool) : Type 0 where
  pub urlopen : (r : Request) → p (Call.urlopen r) ≡ false
