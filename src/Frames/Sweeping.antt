-- ===== src/Frames/Sweeping.antt =====
-- The parts of the sweep, under tests that pass over their calls.
use shard_vpn.Prelude.{
  ℕ, ◌≡◌, Text, Bool, true, false, Option, none, some, List, [], ◌∷◌, ℤ, Bool-cases, inl, inr,
}
use shard_vpn.World.{Call, Service}
use shard_vpn.DateTime.{DateTime}
use shard_vpn.Exec.Frame.{Frame, Frame-bind, Frame-pure, Frame-attempt, frame_rules}
use shard_vpn.Ttl.{is_expired}
use shard_vpn.Settings.{Pointer, write_pointer, put_parameter}
use shard_vpn.Ec2ops.{terminate, stamp_tag}
use shard_vpn.Watchdog.{Node}
use shard_vpn.Watchdog.Summary.{Summary}
use shard_vpn.Watchdog.Step.{
  publish, notify_failures, try_terminate, safe_terminate, read_threshold, make_clients,
  scan_regions,
}
use shard_vpn.Watchdog.Step.Reap.{
  expiry_of, report_reaped, reap_node, reap_one, reap, report_duplicate, drop_duplicate,
  drop_duplicates, deduplicate,
}
use shard_vpn.Watchdog.Step.Candidate.{
  tracks, check_orphan, send_alert, alert_when, alert_if_idle, check_idle, check_candidate,
  set_pointer, reconcile,
}
use shard_vpn.Frames.{calls_of, Frame-call, IgnoresReads, IgnoresNotices}
use shard_vpn.Frames.Aws.{client-Frame, get_parameter-Frame, find_nodes-Frame, network_out-Frame}

module _ {p : Call → Bool} (reads : IgnoresReads p) (notices : IgnoresNotices p) where
  pub publish-Frame : (sns topic message : Text) → Frame (calls_of p) (publish sns topic message)
  unfolding publish
  publish-Frame sns [] message = search frame_rules
  publish-Frame sns (c ∷ topic) message = search (frame_rules, Frame-call, notices.publish)

  pub notify_failures-Frame :
      (sns topic : Text) (m : Summary) → Frame (calls_of p) (notify_failures sns topic m)
  unfolding notify_failures
  notify_failures-Frame sns topic m = go (m.failures)
    where
      go :
          (fs : List Text)
          → Frame (calls_of p) (notify_failures sns topic (record m { failures = fs }))
      go [] = search frame_rules
      go (f ∷ fs) = search publish-Frame

  pub read_threshold-Frame : (ssm : Text) → Frame (calls_of p) (read_threshold ssm)
  unfolding read_threshold
  read_threshold-Frame ssm = search (frame_rules, get_parameter-Frame reads.setup)

  pub make_clients-Frame : (rs : List Text) → Frame (calls_of p) (make_clients rs)
  unfolding make_clients
  make_clients-Frame [] = search frame_rules
  make_clients-Frame (r ∷ rs) =
      Frame-bind _ _ (client-Frame reads.setup Service.ec2 r) (λ _. make_clients-Frame rs)

  pub scan_regions-Frame : (rs : List Text) → Frame (calls_of p) (scan_regions rs)
  unfolding scan_regions
  scan_regions-Frame [] = search frame_rules
  scan_regions-Frame (r ∷ rs) =
      Frame-bind _ _ (Frame-attempt _ (find_nodes-Frame reads r))
        (λ _. Frame-bind _ _ (scan_regions-Frame rs) (λ _. Frame-pure _))

  pub report_reaped-Frame :
      (sns topic : Text) (n : Node) (r : Bool × Summary)
      → Frame (calls_of p) (report_reaped sns topic n r)
  unfolding report_reaped
  report_reaped-Frame sns topic n (false, m) = search frame_rules
  report_reaped-Frame sns topic n (true, m) = search (frame_rules, publish-Frame)

  pub report_duplicate-Frame :
      (sns topic : Text) (n : Node) (r : Bool × Summary)
      → Frame (calls_of p) (report_duplicate sns topic n r)
  unfolding report_duplicate
  report_duplicate-Frame sns topic n (false, m) = search frame_rules
  report_duplicate-Frame sns topic n (true, m) = search (frame_rules, publish-Frame)

  -- Steps 1 and 2 make no further calls than terminations.
  module _ (terminates : (r i : Text) → p (Call.terminate_instances r i) ≡ false) where
    pub terminate-Frame : (r i : Text) → Frame (calls_of p) (terminate r i)
    unfolding terminate
    terminate-Frame r i = search (Frame-call, terminates)

    safe_terminate-Frame :
        (r i reason : Text) (m : Summary) → Frame (calls_of p) (safe_terminate r i reason m)
    unfolding safe_terminate try_terminate
    safe_terminate-Frame r i reason m =
        search (frame_rules, client-Frame reads.setup, terminate-Frame)

    reap_node-Frame :
        (sns topic : Text) (n : Node) (m : Summary) → Frame (calls_of p) (reap_node sns topic n m)
    unfolding reap_node
    reap_node-Frame sns topic (region, i) m =
        search (frame_rules, safe_terminate-Frame, report_reaped-Frame)

    reap_one-Frame :
        (sns topic : Text) (now : DateTime) (n : Node) (m : Summary)
        → Frame (calls_of p) (reap_one sns topic now n m)
    unfolding reap_one
    reap_one-Frame sns topic now n m = elim (Bool-cases (is_expired (expiry_of n.1) now)) [
      | inl expired ↦ rw (expired, reap_one) (search (frame_rules, reap_node-Frame))
      | inr alive ↦ rw (alive, reap_one) (search frame_rules)
    ]

    pub reap-Frame :
        (sns topic : Text) (now : DateTime) (ns : List Node) (m : Summary)
        → Frame (calls_of p) (reap sns topic now ns m)
    unfolding reap
    reap-Frame sns topic now [] m = search frame_rules
    reap-Frame sns topic now (n ∷ ns) m =
        Frame-bind _ _ (reap_one-Frame sns topic now n m)
          (λ r. Frame-bind _ _ (reap-Frame sns topic now ns r.1) (λ _. Frame-pure _))

    drop_duplicate-Frame :
        (sns topic : Text) (n : Node) (m : Summary)
        → Frame (calls_of p) (drop_duplicate sns topic n m)
    unfolding drop_duplicate
    drop_duplicate-Frame sns topic (region, i) m =
        search (frame_rules, safe_terminate-Frame, report_duplicate-Frame)

    drop_duplicates-Frame :
        (sns topic : Text) (ns : List Node) (m : Summary)
        → Frame (calls_of p) (drop_duplicates sns topic ns m)
    unfolding drop_duplicates
    drop_duplicates-Frame sns topic [] m = search frame_rules
    drop_duplicates-Frame sns topic (n ∷ ns) m =
        Frame-bind _ _ (drop_duplicate-Frame sns topic n m)
          (λ m'. drop_duplicates-Frame sns topic ns m')

    pub deduplicate-Frame :
        (sns topic : Text) (o : List Node × Bool) (m : Summary)
        → Frame (calls_of p) (deduplicate sns topic o m)
    unfolding deduplicate
    deduplicate-Frame sns topic (ns, false) m = search (frame_rules, publish-Frame)
    deduplicate-Frame sns topic ([], true) m = search frame_rules
    deduplicate-Frame sns topic (n ∷ ns, true) m = search (frame_rules, drop_duplicates-Frame)

  -- Step 3 makes no further calls than stamps.
  module _ (stamps : (r i k v : Text) → p (Call.create_tags r i k v) ≡ false) where
    check_orphan-Frame :
        (sns topic : Text) (pointer : Option Pointer) (readable : Bool) (n : Node) (m : Summary)
        → Frame (calls_of p) (check_orphan sns topic pointer readable n m)
    unfolding check_orphan
    check_orphan-Frame sns topic pointer readable (region, i) m =
        elim (Bool-cases (tracks pointer i)) [
          | inl known ↦ rw (known, check_orphan) (search frame_rules)
          | inr unknown ↦ rw (unknown, check_orphan) (search (frame_rules, publish-Frame))
        ]

    stamp_tag-Frame : (r i k v : Text) → Frame (calls_of p) (stamp_tag r i k v)
    unfolding stamp_tag
    stamp_tag-Frame r i k v = search (Frame-call, stamps)

    send_alert-Frame :
        (sns topic : Text) (now : DateTime) (n : Node) (bytes : ℕ)
        → Frame (calls_of p) (send_alert sns topic now n bytes)
    unfolding send_alert
    send_alert-Frame sns topic now (region, i) bytes =
        search (frame_rules, publish-Frame, stamp_tag-Frame)

    alert_when-Frame :
        (sns topic : Text) (due : Bool) (now : DateTime) (n : Node) (bytes : ℕ)
        → Frame (calls_of p) (alert_when sns topic due now n bytes)
    unfolding alert_when
    alert_when-Frame sns topic false now n bytes = search frame_rules
    alert_when-Frame sns topic true now n bytes = search (frame_rules, send_alert-Frame)

    alert_if_idle-Frame :
        (sns topic : Text) (now : DateTime) (threshold : ℤ) (n : Node)
        → Frame (calls_of p) (alert_if_idle sns topic now threshold n)
    unfolding alert_if_idle
    alert_if_idle-Frame sns topic now threshold (region, i) =
        search (frame_rules, client-Frame reads.setup, network_out-Frame reads, alert_when-Frame)

    check_idle-Frame :
        (sns topic : Text) (now : DateTime) (threshold : Option ℤ) (n : Node) (m : Summary)
        → Frame (calls_of p) (check_idle sns topic now threshold n m)
    unfolding check_idle
    check_idle-Frame sns topic now none n m = search frame_rules
    check_idle-Frame sns topic now (some threshold) n m = search (frame_rules, alert_if_idle-Frame)

    pub check_candidate-Frame :
        (sns topic : Text) (now : DateTime) (threshold : Option ℤ) (pointer : Option Pointer)
        (readable : Bool) (candidate : Option Node) (m : Summary)
        → Frame (calls_of p) (check_candidate sns topic now threshold pointer readable candidate m)
    unfolding check_candidate
    check_candidate-Frame sns topic now threshold pointer readable none m = search frame_rules
    check_candidate-Frame sns topic now threshold pointer readable (some n) m =
        search (frame_rules, check_orphan-Frame, check_idle-Frame)

-- Step 4 makes no further call than a write of the pointer.
module _ (p : Call → Bool) (puts : (r n v : Text) → p (Call.put_parameter r n v) ≡ false) where
  pub write_pointer-Frame :
      (ssm name : Text) (q : Option Pointer) → Frame (calls_of p) (write_pointer ssm name q)
  unfolding write_pointer put_parameter
  write_pointer-Frame ssm name q = search (frame_rules, Frame-call, puts)

  set_pointer-Frame :
      (ssm : Text) (q : Option (Option Pointer)) → Frame (calls_of p) (set_pointer ssm q)
  unfolding set_pointer
  set_pointer-Frame ssm none = search frame_rules
  set_pointer-Frame ssm (some q) = search write_pointer-Frame

  pub reconcile-Frame :
      (ssm : Text) (readable orderable : Bool) (pointer : Option Pointer) (failed : Bool)
      (candidate : Option Node) (m : Summary)
      → Frame (calls_of p) (reconcile ssm readable orderable pointer failed candidate m)
  unfolding reconcile
  reconcile-Frame ssm readable orderable pointer failed candidate m =
      search (frame_rules, set_pointer-Frame)
