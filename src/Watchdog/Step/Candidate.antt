-- ===== src/Watchdog/Step/Candidate.antt =====
-- Step 3 and step 4 of the sweep: the orphan check and the idle alert of the node that is left, and
-- the pointer.
use shard_vpn.Prelude.{
  ℕ, Text, txt, ◌==◌, Bool, true, false, ◌&&◌, Option, none, some, [], ◌∷◌, ℤ, if◌then◌else◌,
}
use shard_vpn.Python.{Outcome, ok, err}
use shard_vpn.World.{Instance, Service}
use shard_vpn.Exec.{Exec, pure, attempt, ◌>>=◌, ◌>>◌}
use shard_vpn.Boto.{client}
use shard_vpn.DateTime.{DateTime}
use shard_vpn.Ttl.{rfc3339}
use shard_vpn.Settings.{Pointer, param_name, current_node, write_pointer}
use shard_vpn.Ec2ops.{tag_launched, tag_alerted, tag_value, stamp_tag, network_out, sum_points}
use shard_vpn.Watchdog.{Node, idle_window_hours, should_alert}
use shard_vpn.Watchdog.Message
use shard_vpn.Watchdog.Summary.{Summary, fail, add_orphan, add_alerted}
use shard_vpn.Watchdog.Step.{publish}

-- pointer is not None and pointer.instance_id == instance_id
unfoldable pub tracks : Option Pointer → Instance → Bool
tracks none i = false
tracks (some p) i = p.instance_id == i.instance_id

module _ (sns topic : Text) where
  unfoldable pub check_orphan : Option Pointer → Bool → Node → Summary → Exec Summary
  check_orphan pointer readable (region, i) m = elim (tracks pointer i) [
    | true ↦ pure m
    | false ↦ do
      publish sns topic (
          if readable
          then Message.untracked i.instance_id region
          else Message.unchecked i.instance_id region)
      pure (add_orphan i.instance_id m)
  ]

  -- Publish the alert and stamp the node with its time.
  unfoldable pub send_alert : DateTime → Node → ℕ → Exec (Unit {0})
  send_alert now (region, i) bytes = do
    publish sns topic (
        Message.idle i.instance_id region
          (elim (tag_value i tag_launched) [
            | none ↦ txt "unknown"
            | some [] ↦ txt "unknown"
            | some (c ∷ s) ↦ c ∷ s
          ])
          idle_window_hours bytes)
    stamp_tag region i.instance_id tag_alerted (rfc3339 now)

  unfoldable pub alert_when : Bool → DateTime → Node → ℕ → Exec Bool
  alert_when false now n bytes = pure false
  alert_when true now n bytes = send_alert now n bytes >> pure true

  -- The body of the `try`: whether an alert was sent.
  unfoldable pub alert_if_idle : DateTime → ℤ → Node → Exec Bool
  alert_if_idle now threshold (region, i) = do
    client Service.ec2 region
    client Service.cloudwatch region
    points ← network_out region i.instance_id idle_window_hours now
    let bytes = sum_points points
    let due = should_alert bytes threshold (tag_value i tag_alerted) now (tag_value i tag_launched)
    alert_when due now (region, i) bytes

  unfoldable pub record_idle : Node → Summary → Outcome Bool → Summary
  record_idle n m (ok false) = m
  record_idle (region, i) m (ok true) = add_alerted i.instance_id m
  record_idle (region, i) m (err e) = fail (Message.idle_failed i.instance_id region e) m

  -- Only a running node is checked, and only with a threshold.
  unfoldable pub check_idle : DateTime → Option ℤ → Node → Summary → Exec Summary
  check_idle now none n m = pure m
  check_idle now (some threshold) n m =
      if n.1.state == txt "running"
      then (do r ← attempt (alert_if_idle now threshold n); pure (record_idle n m r))
      else pure m

  unfoldable pub check_candidate :
      DateTime → Option ℤ → Option Pointer → Bool → Option Node → Summary → Exec Summary
  check_candidate now threshold pointer readable none m = pure m
  check_candidate now threshold pointer readable (some n) m = do
    m ← check_orphan pointer readable n m
    check_idle now threshold n m

-- What the pointer is set to, if it is written at all. The scan is the truth and the pointer a
-- cache, but absence is proved only if every region was scanned.
unfoldable pub new_pointer : Option Pointer → Bool → Option Node → Option (Option Pointer)
new_pointer pointer scans_failed (some (region, i)) =
    if tracks pointer i
    then none
    else some (some (record { region = region; instance_id = i.instance_id }))
new_pointer none scans_failed none = none
new_pointer (some p) scans_failed none = if scans_failed then none else some none

unfoldable pub set_pointer : Text → Option (Option Pointer) → Exec (Unit {0})
set_pointer ssm none = pure tt
set_pointer ssm (some p) = write_pointer ssm (param_name current_node) p

unfoldable pub record_reconcile : Summary → Outcome (Unit {0}) → Summary
record_reconcile m (ok _) = m
record_reconcile m (err e) = fail (Message.reconcile_failed e) m

-- Step 4, only with a pointer that could be read and nodes that could be ordered.
unfoldable pub reconcile :
    Text → Bool → Bool → Option Pointer → Bool → Option Node → Summary → Exec Summary
reconcile ssm readable orderable pointer scans_failed candidate m =
    if readable && orderable
    then (do
      r ← attempt (set_pointer ssm (new_pointer pointer scans_failed candidate))
      pure (record_reconcile m r))
    else pure m
