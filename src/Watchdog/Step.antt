-- ===== src/Watchdog/Step.antt =====
-- The parts of the sweep: notification, termination, the scan of the regions, and its four steps.
pub mod Reap
pub mod Candidate
use shard_vpn.Prelude.{
  ℕ, Text, txt, ◌==◌, Bool, true, false, not, ◌||◌, ◌&&◌, Option, none, some, List, [], ◌∷◌, ◌++◌,
  map, ℤ, if◌then◌else◌,
}
use shard_vpn.Python.{Exc, Outcome, ok, err}
use shard_vpn.Python.Decimal.{int_of_text}
use shard_vpn.World.{Env, Call, Instance, Service}
use shard_vpn.Exec.{Exec, pure, raise, lift, call, attempt, ◌>>=◌, ◌>>◌}
use shard_vpn.Boto.{client}
use shard_vpn.DateTime.{DateTime}
use shard_vpn.Ttl.{never, rfc3339, is_expired}
use shard_vpn.Settings.{
  Pointer, param_name, idle_threshold_bytes, current_node, get_parameter, read_pointer,
  write_pointer,
}
use shard_vpn.Ec2ops.{
  tag_expires, tag_launched, tag_alerted, tag_value, find_nodes, terminate, stamp_tag, network_out,
  sum_points,
}
use shard_vpn.Watchdog.{Node, idle_window_hours, should_alert}
use shard_vpn.Watchdog.Message
use shard_vpn.Watchdog.Summary.{Summary, fail, add_reaped, add_duplicate, add_orphan, add_alerted}

-- _publish(sns, topic_arn, message): an exception is dropped
unfoldable pub publish : Text → Text → Text → Exec (Unit {0})
publish sns [] message = pure tt
publish sns (c ∷ arn) message = do
  attempt (call (Call.publish sns (c ∷ arn) message) (λ env h. env.publish h sns (c ∷ arn) message))
  pure tt

-- _notify_failures(sns, topic_arn, summary)
unfoldable pub notify_failures : Text → Text → Summary → Exec (Unit {0})
notify_failures sns topic m = elim (m.failures) [
  | [] ↦ pure tt
  | f ∷ fs ↦ publish sns topic (Message.failures (f ∷ fs))
]

-- Creating the client and the call itself are both inside the `try`.
unfoldable pub try_terminate : Text → Text → Exec (Unit {0})
try_terminate region instance_id = do client Service.ec2 region; terminate region instance_id

-- The summary of a termination that was tried.
unfoldable pub record_terminate : Text → Text → Text → Summary → Outcome (Unit {0}) → Bool × Summary
record_terminate region instance_id reason m (ok _) = (true, m)
record_terminate region instance_id reason m (err e) =
    (false, fail (Message.terminate_failed instance_id region reason e) m)

-- _safe_terminate(client_factory, region, instance_id, summary, reason)
unfoldable pub safe_terminate : Text → Text → Text → Summary → Exec (Bool × Summary)
safe_terminate region instance_id reason m = do
  r ← attempt (try_terminate region instance_id)
  pure (record_terminate region instance_id reason m r)

-- int(get_parameter(ssm, PARAM_NAMES["idle_threshold_bytes"]))
unfoldable pub read_threshold : Text → Exec ℤ
read_threshold ssm = do
  raw ← get_parameter ssm (param_name idle_threshold_bytes) false
  lift (elim (int_of_text raw) [
    | some n ↦ ok n
    | none ↦ err (Exc.value_error (txt "invalid literal for int() with base 10"))
  ])

-- Behind its `try`: no threshold disables the alerts.
unfoldable pub threshold_of : Outcome ℤ → Summary → Option ℤ × Summary
threshold_of (ok n) m = (some n, m)
threshold_of (err e) m = (none, fail (Message.threshold_failed e) m)

-- Behind its `try`: the pointer, and whether it could be read.
unfoldable pub pointer_of : Outcome (Option Pointer) → Option Pointer × Bool
pointer_of (ok p) = (p, true)
pointer_of (err _) = (none, false)

-- What `scan` returns for a region.
pub record Scanned : Type 0 where
  pub region : Text
  pub nodes : List Instance
  pub failure : Option Exc

unfoldable pub scanned : Text → Outcome (List Instance) → Scanned
scanned region (ok nodes) = record { region = region; nodes = nodes; failure = none }
scanned region (err e) = record { region = region; nodes = []; failure = some e }

-- The clients of all regions, before any scan. A failure here is not caught.
unfoldable pub make_clients : List Text → Exec (Unit {0})
make_clients [] = pure tt
make_clients (region ∷ regions) = do client Service.ec2 region; make_clients regions

-- pool.map(…): the results are in the order of the regions.
unfoldable pub scan_regions : List Text → Exec (List Scanned)
scan_regions [] = pure []
scan_regions (region ∷ regions) = do
  r ← attempt (find_nodes region)
  rest ← scan_regions regions
  pure (scanned region r ∷ rest)

unfoldable pub nodes_of : Text → List Instance → List Node
nodes_of region [] = []
nodes_of region (i ∷ is) = (region, i) ∷ nodes_of region is

-- [(region, instance) for region, nodes, _ in scanned for instance in nodes]
unfoldable pub found_nodes : List Scanned → List Node
found_nodes [] = []
found_nodes (x ∷ xs) = nodes_of x.region x.nodes ++ found_nodes xs

-- Whether the scan of some region failed.
unfoldable pub any_failed : List Scanned → Bool
any_failed [] = false
any_failed (x ∷ xs) = elim (x.failure) [ some _ ↦ true | none ↦ any_failed xs ]

unfoldable pub record_scans : List Scanned → Summary → Summary
record_scans [] m = m
record_scans (x ∷ xs) m =
    record_scans xs
      (elim (x.failure) [ none ↦ m | some e ↦ fail (Message.scan_failed x.region e) m ])
