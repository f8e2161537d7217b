-- ===== src/Frames/Sweep.antt =====
-- The whole sweep, under tests that pass over its calls.
use shard_vpn.Prelude.{◌≡◌, Text, Bool, false, Option, none, some, List, [], ◌∷◌, ℤ}
use shard_vpn.Python.{Outcome, ok, err}
use shard_vpn.World.{Call, Service}
use shard_vpn.DateTime.{DateTime}
use shard_vpn.Exec.Frame.{Frame, Frame-bind, Frame-pure, Frame-asks, Frame-attempt}
use shard_vpn.Settings.{Pointer}
use shard_vpn.Watchdog.{order_survivors}
use shard_vpn.Watchdog.Summary.{Summary}
use shard_vpn.Watchdog.Step.{Scanned, found_nodes, any_failed}
use shard_vpn.Watchdog.Sweep.{
  act, sweep_regions, list_regions, sweep_with, control_of, topic_of, sweep,
}
use shard_vpn.Frames.{calls_of, IgnoresReads, IgnoresNotices}
use shard_vpn.Frames.Aws.{client-Frame, environ-Frame, read_pointer-Frame, valid_regions-Frame}
use shard_vpn.Frames.Sweeping.{
  notify_failures-Frame, read_threshold-Frame, make_clients-Frame, scan_regions-Frame, reap-Frame,
  deduplicate-Frame, check_candidate-Frame, reconcile-Frame,
}

-- The test passes over the calls by which the sweep changes AWS.
pub record IgnoresMending (p : Call → Bool) : Type 0 where
  pub put_parameter : (r n v : Text) → p (Call.put_parameter r n v) ≡ false
  pub terminate_instances : (r i : Text) → p (Call.terminate_instances r i) ≡ false
  pub create_tags : (r i k v : Text) → p (Call.create_tags r i k v) ≡ false

module _ {p : Call → Bool} (reads : IgnoresReads p) (notices : IgnoresNotices p)
    (mending : IgnoresMending p) where
  module _ (now : DateTime) (control topic : Text) where
    act-Frame :
        (threshold : Option ℤ) (pointer : Option Pointer) (readable : Bool) (scans : List Scanned)
        (m : Summary)
        → Frame (calls_of p) (act now control topic threshold pointer readable scans m)
    unfolding act
    act-Frame threshold pointer readable scans m =
        Frame-bind _ _
          (reap-Frame reads notices mending.terminate_instances control topic now
            (found_nodes scans) m)
          λ r.
            Frame-bind _ _
              (deduplicate-Frame reads notices mending.terminate_instances control topic
                (order_survivors r.0) r.1)
              λ c.
                Frame-bind _ _
                  (check_candidate-Frame reads notices mending.create_tags control topic now
                    threshold pointer readable c.0 c.1)
                  λ m.
                    Frame-bind _ _
                      (reconcile-Frame p mending.put_parameter control readable
                        (order_survivors r.0).1 pointer (any_failed scans) c.0 m)
                      λ m.
                        Frame-bind _ _ (notify_failures-Frame reads notices control topic m)
                          (λ _. Frame-pure m)

    sweep_regions-Frame :
        (threshold : Option ℤ) (pointer : Option Pointer) (readable : Bool)
        (regions : Outcome (List Text)) (m : Summary)
        → Frame (calls_of p) (sweep_regions now control topic threshold pointer readable regions m)
    unfolding sweep_regions
    sweep_regions-Frame threshold pointer readable (err e) m =
        Frame-bind _ _ (notify_failures-Frame reads notices control topic _) (λ _. Frame-pure _)
    sweep_regions-Frame threshold pointer readable (ok regions) m =
        Frame-bind _ _ (make_clients-Frame reads notices regions) λ _.
          Frame-bind _ _ (scan_regions-Frame reads notices regions)
            λ scans. act-Frame threshold pointer readable scans _

    list_regions-Frame : Frame (calls_of p) (list_regions control)
    unfolding list_regions
    list_regions-Frame =
        Frame-bind _ _ (client-Frame reads.setup Service.ec2 control)
          (λ _. valid_regions-Frame reads control)

    sweep_with-Frame : Frame (calls_of p) (sweep_with now control topic)
    unfolding sweep_with
    sweep_with-Frame = Frame-bind _ _ (client-Frame reads.setup Service.ssm control) λ _.
        Frame-bind _ _ (client-Frame reads.setup Service.sns control) λ _.
          Frame-bind _ _ (Frame-attempt _ (read_threshold-Frame reads notices control)) λ t.
            Frame-bind _ _ (Frame-attempt _ (read_pointer-Frame reads.setup control _)) λ q.
              Frame-bind _ _ (Frame-attempt _ list_regions-Frame)
                λ regions. sweep_regions-Frame _ _ _ regions _

  control_of-Frame : (r : Option Text) → Frame (calls_of p) (control_of r)
  unfolding control_of
  control_of-Frame none = environ-Frame reads.setup _
  control_of-Frame (some []) = environ-Frame reads.setup _
  control_of-Frame (some (c ∷ r)) = Frame-pure _

  topic_of-Frame : (t : Option Text) → Frame (calls_of p) (topic_of t)
  unfolding topic_of
  topic_of-Frame none = Frame-asks _
  topic_of-Frame (some t) = Frame-pure _

  pub sweep-Frame : (now : DateTime) (r t : Option Text) → Frame (calls_of p) (sweep now r t)
  unfolding sweep
  sweep-Frame now r t =
      Frame-bind _ _ (control_of-Frame r)
        λ control. Frame-bind _ _ (topic_of-Frame t) (λ topic. sweep_with-Frame now control topic)
