-- ===== src/Watchdog/Step/Reap.antt =====
-- Step 1 and step 2 of the sweep: terminate what has expired, then the duplicates.
use shard_vpn.Prelude.{
  Text, txt, Bool, true, false, Option, none, some, List, [], ◌∷◌, if◌then◌else◌,
}
use shard_vpn.World.{Instance}
use shard_vpn.Exec.{Exec, pure, ◌>>=◌, ◌>>◌}
use shard_vpn.DateTime.{DateTime}
use shard_vpn.Ttl.{is_expired}
use shard_vpn.Ec2ops.{tag_expires, tag_value}
use shard_vpn.Watchdog.{Node}
use shard_vpn.Watchdog.Message
use shard_vpn.Watchdog.Summary.{Summary, fail, add_reaped, add_duplicate}
use shard_vpn.Watchdog.Step.{publish, safe_terminate}

-- tag_value(instance, TAG_EXPIRES) or "never"
unfoldable pub expiry_of : Instance → Text
expiry_of i = elim (tag_value i tag_expires) [
  | none ↦ txt "never"
  | some [] ↦ txt "never"
  | some (c ∷ s) ↦ c ∷ s
]

module _ (sns topic : Text) where
  -- What follows the termination of an expired node.
  unfoldable pub report_reaped : Node → Bool × Summary → Exec Summary
  report_reaped n (false, m) = pure m
  report_reaped (region, i) (true, m) = do
    publish sns topic (Message.reaped i.instance_id region (expiry_of i))
    pure (add_reaped i.instance_id m)

  unfoldable pub reap_node : Node → Summary → Exec Summary
  reap_node (region, i) m = do
    r ← safe_terminate region i.instance_id (txt "expired") m
    report_reaped (region, i) r

  -- One round of the loop: whether the node survives.
  unfoldable pub reap_one : DateTime → Node → Summary → Exec (Bool × Summary)
  reap_one now n m = elim (is_expired (expiry_of n.1) now) [
    | true ↦ do m' ← reap_node n m; pure (false, m')
    | false ↦ pure (true, m)
  ]

  -- The survivors, in order.
  unfoldable pub reap : DateTime → List Node → Summary → Exec (List Node × Summary)
  reap now [] m = pure ([], m)
  reap now (n ∷ ns) m = do
    (survives, m) ← reap_one now n m
    (survivors, m) ← reap now ns m
    pure (if survives then n ∷ survivors else survivors, m)

  unfoldable pub report_duplicate : Node → Bool × Summary → Exec Summary
  report_duplicate n (false, m) = pure m
  report_duplicate (region, i) (true, m) = do
    publish sns topic (Message.duplicate i.instance_id region)
    pure (add_duplicate i.instance_id m)

  unfoldable pub drop_duplicate : Node → Summary → Exec Summary
  drop_duplicate (region, i) m = do
    r ← safe_terminate region i.instance_id (txt "duplicate") m
    report_duplicate (region, i) r

  unfoldable pub drop_duplicates : List Node → Summary → Exec Summary
  drop_duplicates [] m = pure m
  drop_duplicates (n ∷ ns) m = do m ← drop_duplicate n m; drop_duplicates ns m

  -- The final candidate, if any: the newest node, or none if the nodes could not be ordered.
  unfoldable pub deduplicate : List Node × Bool → Summary → Exec (Option Node × Summary)
  deduplicate (survivors, false) m = do
    publish sns topic (Message.unresolved (Message.places survivors))
    pure (none, fail (Message.unordered (Message.places survivors)) m)
  deduplicate ([], true) m = pure (none, m)
  deduplicate (n ∷ ns, true) m = do m ← drop_duplicates ns m; pure (some n, m)
