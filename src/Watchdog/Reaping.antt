-- ===== src/Watchdog/Reaping.antt =====
-- Steps 1 and 2 of the sweep: which nodes they terminate, and that no failure stops them.
use shard_vpn.Prelude.{
  ◌≡◌, refl, Text, txt, Bool, true, false, not, Option, none, some, List, [], ◌∷◌, arith, keep,
  Bool-cases, inl, inr,
}
use shard_vpn.World.{Env}
use shard_vpn.DateTime.{DateTime}
use shard_vpn.Exec.Returns.{Returns, Returns-pure, Returns-attempt, Returns-bind}
use shard_vpn.Ttl.{is_expired}
use shard_vpn.Watchdog.{Node}
use shard_vpn.Watchdog.Summary.{Summary}
use shard_vpn.Watchdog.Step.{publish, notify_failures, safe_terminate}
use shard_vpn.Watchdog.Step.Reap.{
  expiry_of, report_reaped, reap_node, reap_one, reap, report_duplicate, drop_duplicate,
  drop_duplicates, deduplicate,
}

-- The expiry tag of the node is a time that has passed.
abbrev pub has_expired : DateTime → Node → Bool
has_expired now n = is_expired (expiry_of n.1) now

abbrev pub survivors_of : DateTime → List Node → List Node
survivors_of now = keep (λ n. not (has_expired now n))

abbrev pub expired_of : DateTime → List Node → List Node
expired_of now = keep (has_expired now)

-- The node that step 2 leaves.
abbrev pub candidate_of : List Node × Bool → Option Node
candidate_of (_, false) = none
candidate_of ([], true) = none
candidate_of (n ∷ _, true) = some n

-- Nothing is claimed of the value.
abbrev pub Anything {ℓ} : {A : Type ℓ} → A → Type 0
Anything _ = Unit

module _ {E : Env → Type 0} where
  pub publish-Returns : (sns topic message : Text) → Returns E Anything (publish sns topic message)
  unfolding publish
  publish-Returns sns [] message = Returns-pure tt tt
  publish-Returns sns (c ∷ topic) message =
      Returns-bind _ _ (Returns-attempt _ (λ r. tt)) (λ r h. Returns-pure tt tt)

  pub notify_failures-Returns :
      (sns topic : Text) (m : Summary) → Returns E Anything (notify_failures sns topic m)
  unfolding notify_failures
  notify_failures-Returns sns topic m = go (m.failures)
    where
      go :
          (fs : List Text)
          → Returns E Anything (notify_failures sns topic (record m { failures = fs }))
      go [] = Returns-pure tt tt
      go (f ∷ fs) = publish-Returns sns topic _

  safe_terminate-Returns :
      (r i reason : Text) (m : Summary) → Returns E Anything (safe_terminate r i reason m)
  unfolding safe_terminate
  safe_terminate-Returns r i reason m =
      Returns-bind _ _ (Returns-attempt _ (λ r. tt)) (λ r h. Returns-pure _ tt)

  report_reaped-Returns :
      (sns topic : Text) (n : Node) (r : Bool × Summary)
      → Returns E Anything (report_reaped sns topic n r)
  unfolding report_reaped
  report_reaped-Returns sns topic n (false, m) = Returns-pure m tt
  report_reaped-Returns sns topic (region, i) (true, m) =
      Returns-bind _ _ (publish-Returns sns topic _) (λ r h. Returns-pure _ tt)

  reap_node-Returns :
      (sns topic : Text) (n : Node) (m : Summary) → Returns E Anything (reap_node sns topic n m)
  unfolding reap_node
  reap_node-Returns sns topic (region, i) m =
      Returns-bind _ _ (safe_terminate-Returns region i.instance_id (txt "expired") m)
        (λ r h. report_reaped-Returns sns topic (region, i) r)

  pub reap_one-Returns :
      (sns topic : Text) (now : DateTime) (n : Node) (m : Summary)
      → Returns E (λ r. r.0 ≡ not (has_expired now n)) (reap_one sns topic now n m)
  unfolding reap_one
  reap_one-Returns sns topic now n m = elim (Bool-cases (has_expired now n)) [
    | inl expired ↦
        rw (expired, reap_one)
          (Returns-bind _ _ (reap_node-Returns sns topic n m)
            (λ m' h. Returns-pure (false, m') refl))
    | inr alive ↦ rw (alive, reap_one) (Returns-pure (true, m) refl)
  ]

  -- Whatever AWS calls fail, step 1 returns, and the survivors are exactly the nodes that have not
  -- expired.
  pub reap-Returns :
      (sns topic : Text) (now : DateTime) (ns : List Node) (m : Summary)
      → Returns E (λ r. r.0 ≡ survivors_of now ns) (reap sns topic now ns m)
  unfolding reap
  reap-Returns sns topic now [] m = Returns-pure ([], m) refl
  reap-Returns sns topic now (n ∷ ns) m =
      Returns-bind _ _ (reap_one-Returns sns topic now n m) λ r alive.
        Returns-bind _ _ (reap-Returns sns topic now ns r.1)
          λ r' rest. Returns-pure _ (ground (arith, alive, rest))

  report_duplicate-Returns :
      (sns topic : Text) (n : Node) (r : Bool × Summary)
      → Returns E Anything (report_duplicate sns topic n r)
  unfolding report_duplicate
  report_duplicate-Returns sns topic n (false, m) = Returns-pure m tt
  report_duplicate-Returns sns topic (region, i) (true, m) =
      Returns-bind _ _ (publish-Returns sns topic _) (λ r h. Returns-pure _ tt)

  pub drop_duplicate-Returns :
      (sns topic : Text) (n : Node) (m : Summary)
      → Returns E Anything (drop_duplicate sns topic n m)
  unfolding drop_duplicate
  drop_duplicate-Returns sns topic (region, i) m =
      Returns-bind _ _ (safe_terminate-Returns region i.instance_id (txt "duplicate") m)
        (λ r h. report_duplicate-Returns sns topic (region, i) r)

  drop_duplicates-Returns :
      (sns topic : Text) (ns : List Node) (m : Summary)
      → Returns E Anything (drop_duplicates sns topic ns m)
  unfolding drop_duplicates
  drop_duplicates-Returns sns topic [] m = Returns-pure m tt
  drop_duplicates-Returns sns topic (n ∷ ns) m =
      Returns-bind _ _ (drop_duplicate-Returns sns topic n m)
        (λ m' h. drop_duplicates-Returns sns topic ns m')

  -- Step 2 returns too, and leaves the first of the ordered nodes, or none.
  pub deduplicate-Returns :
      (sns topic : Text) (o : List Node × Bool) (m : Summary)
      → Returns E (λ r. r.0 ≡ candidate_of o) (deduplicate sns topic o m)
  unfolding deduplicate
  deduplicate-Returns sns topic (ns, false) m =
      Returns-bind _ _ (publish-Returns sns topic _) (λ r h. Returns-pure _ refl)
  deduplicate-Returns sns topic ([], true) m = Returns-pure _ refl
  deduplicate-Returns sns topic (n ∷ ns, true) m =
      Returns-bind _ _ (drop_duplicates-Returns sns topic ns m) (λ r h. Returns-pure _ refl)
