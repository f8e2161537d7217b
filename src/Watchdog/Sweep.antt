-- ===== src/Watchdog/Sweep.antt =====
-- `sweep`: the four steps in the order in which the code runs them.
use shard_vpn.Prelude.{Text, txt, Bool, Option, none, some, List, [], ◌∷◌, map, length, ℤ}
use shard_vpn.Python.{Outcome, ok, err}
use shard_vpn.World.{Service}
use shard_vpn.Exec.{Exec, pure, asks, attempt, ◌>>=◌, ◌>>◌}
use shard_vpn.Boto.{client, environ}
use shard_vpn.DateTime.{DateTime}
use shard_vpn.Settings.{Pointer, param_name, current_node, read_pointer}
use shard_vpn.Ec2ops.{valid_regions}
use shard_vpn.Watchdog.{Node, order_survivors}
use shard_vpn.Watchdog.Message
use shard_vpn.Watchdog.Summary
use shard_vpn.Watchdog.Summary.{Summary, fail}
use shard_vpn.Watchdog.Step.{
  Scanned, notify_failures, read_threshold, threshold_of, pointer_of, make_clients, scan_regions,
  found_nodes, any_failed, record_scans,
}
use shard_vpn.Watchdog.Step.Reap.{reap, deduplicate}
use shard_vpn.Watchdog.Step.Candidate.{check_candidate, reconcile}

node_id : Node → Text
node_id (_, i) = i.instance_id

-- The summary behind the scan of the regions.
unfoldable pub summarise : List Text → List Scanned → Summary → Summary
unfolding node_id
summarise regions scans m =
    record_scans scans
      (record m { regions_scanned = length regions; nodes = map node_id (found_nodes scans) })

module _ (now : DateTime) (control topic : Text) (threshold : Option ℤ) (pointer : Option Pointer)
    (readable : Bool) where
  -- Steps 1 to 4, and the report of the failures.
  unfoldable pub act : List Scanned → Summary → Exec Summary
  act scans m = do
    (survivors, m) ← reap control topic now (found_nodes scans) m
    let (ordered, orderable) = order_survivors survivors
    (candidate, m) ← deduplicate control topic (ordered, orderable) m
    m ← check_candidate control topic now threshold pointer readable candidate m
    m ← reconcile control readable orderable pointer (any_failed scans) candidate m
    notify_failures control topic m
    pure m

  -- From the regions on: without them the sweep ends.
  unfoldable pub sweep_regions : Outcome (List Text) → Summary → Exec Summary
  sweep_regions (err e) m = do
    let m = fail (Message.regions_failed e) m
    notify_failures control topic m
    pure m
  sweep_regions (ok regions) m = do
    make_clients regions
    scans ← scan_regions regions
    act scans (summarise regions scans m)

unfoldable pub list_regions : Text → Exec (List Text)
list_regions control = do client Service.ec2 control; valid_regions control

-- From the two settings on.
unfoldable pub sweep_with : DateTime → Text → Text → Exec Summary
sweep_with now control topic = do
  client Service.ssm control
  client Service.sns control
  t ← attempt (read_threshold control)
  let (threshold, m) = threshold_of t Summary.empty
  p ← attempt (read_pointer control (param_name current_node))
  let (pointer, readable) = pointer_of p
  regions ← attempt (list_regions control)
  sweep_regions now control topic threshold pointer readable regions m

-- control_region or os.environ["CONTROL_REGION"]
unfoldable pub control_of : Option Text → Exec Text
control_of none = environ (txt "CONTROL_REGION")
control_of (some []) = environ (txt "CONTROL_REGION")
control_of (some (c ∷ r)) = pure (c ∷ r)

-- topic_arn if topic_arn is not None else os.environ.get("TOPIC_ARN", "")
unfoldable pub topic_of : Option Text → Exec Text
topic_of (some arn) = pure arn
topic_of none = asks (λ env. elim (env.environ (txt "TOPIC_ARN")) [ none ↦ [] | some arn ↦ arn ])

unfoldable pub sweep : DateTime → Option Text → Option Text → Exec Summary
sweep now control_region topic_arn = do
  control ← control_of control_region
  topic ← topic_of topic_arn
  sweep_with now control topic
