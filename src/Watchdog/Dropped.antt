-- ===== src/Watchdog/Dropped.antt =====
-- What step 2 of the sweep drops, said without the order that it computes.
use mathlib.Core.List.{Perm}
use mathlib.Core.List.Perm
use shard_vpn.Prelude.{◌≡◌, refl, ap, sym, length, ◌≤◌, Bool, true, false, List, [], ◌∷◌}
use shard_vpn.Watchdog.{Node, order_survivors}
use shard_vpn.Watchdog.Order.{
  AnyUnknown, NewestFirstNodes, order_survivors-newest_first, order_survivors_refuses,
}
use shard_vpn.Watchdog.Terminations.{duplicates_of}

-- The nodes that are dropped: all but one node that is not older than any other, by launch times that
-- read as times; or none, if there is no node, or if there are several and one launch time does not
-- read as a time.
pub data IsDropped (survivors dropped : List Node) : Type 0 where
  empty : survivors ≡ [] → dropped ≡ [] → IsDropped survivors dropped
  older :
      (kept : Node)
      → Perm (kept ∷ dropped) survivors
      → NewestFirstNodes (kept ∷ dropped)
      → IsDropped survivors dropped
  unclear : 2 ≤ length survivors → AnyUnknown survivors → dropped ≡ [] → IsDropped survivors dropped

dropped_by :
    (ns : List Node) (o : List Node × Bool)
    → order_survivors ns ≡ o
    → IsDropped ns (duplicates_of o)
dropped_by ns (ordered, false) h =
    let (several, unknown) = (order_survivors_refuses ns).0.0 (ap (λ o. o.1) h) in
    unclear several unknown refl
dropped_by ns ([], true) h =
    let (same, _) = order_survivors-newest_first ns [] h in empty (sym (Perm.nil-eq same)) refl
dropped_by ns (n ∷ ordered, true) h =
    let (same, newest) = order_survivors-newest_first ns (n ∷ ordered) h in older n same newest

pub duplicates_of-IsDropped : (ns : List Node) → IsDropped ns (duplicates_of (order_survivors ns))
duplicates_of-IsDropped ns = dropped_by ns (order_survivors ns) refl
