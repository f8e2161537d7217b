-- ===== src/Watchdog/Acting.antt =====
-- The four steps of the sweep together, from the scan of the regions on.
use shard_vpn.Prelude.{
  Bool-cases, inl, inr, ◌&&◌, ◌==◌, ◌≡◌, refl, ap, ◌∙◌, Text, txt, Bool, false, Option, none, some,
  List, ℤ,
}
use shard_vpn.World.{Env, Call}
use shard_vpn.DateTime.{DateTime}
use shard_vpn.Exec.{State, pure, ◌>>=◌, after}
use shard_vpn.Exec.Frame.{Frame, view-bind, Frame-pure, Frame-bind}
use shard_vpn.Exec.Returns.{Returns, Returns-pure, Returns-attempt, Returns-bind, bind-ok}
use shard_vpn.Settings.{Pointer}
use shard_vpn.Watchdog.{Node, order_survivors}
use shard_vpn.Watchdog.Summary.{Summary}
use shard_vpn.Watchdog.Step.{Scanned, notify_failures, found_nodes, any_failed}
use shard_vpn.Watchdog.Step.Reap.{reap, deduplicate}
use shard_vpn.Watchdog.Step.Candidate.{tracks, check_orphan, check_idle, check_candidate, reconcile}
use shard_vpn.Watchdog.Sweep.{act}
use shard_vpn.Watchdog.Reaping.{
  survivors_of, expired_of, candidate_of, Anything, publish-Returns, notify_failures-Returns,
  reap-Returns, deduplicate-Returns,
}
use shard_vpn.Watchdog.Terminations
use shard_vpn.Watchdog.Terminations.{
  is_terminate, terminations, ended, duplicates_of, ClientsWork, terminations-reap,
  terminations-deduplicate,
}
use shard_vpn.Watchdog.Dropped.{IsDropped, duplicates_of-IsDropped}
use shard_vpn.Watchdog.Pointing
use shard_vpn.Watchdog.Pointing.{is_put, puts, written, decision, puts-reconcile}
use shard_vpn.Frames.{calls_of, IgnoresReads, IgnoresNotices}
use shard_vpn.Frames.Sweeping.{
  notify_failures-Frame, reap-Frame, deduplicate-Frame, check_candidate-Frame, reconcile-Frame,
}

module _ {E : Env → Type 0} where
  check_orphan-Returns :
      (sns topic : Text) (pointer : Option Pointer) (readable : Bool) (n : Node) (m : Summary)
      → Returns E Anything (check_orphan sns topic pointer readable n m)
  unfolding check_orphan
  check_orphan-Returns sns topic pointer readable (region, i) m =
      elim (Bool-cases (tracks pointer i)) [
        | inl known ↦ rw (known, check_orphan) (Returns-pure m tt)
        | inr unknown ↦
            rw (unknown, check_orphan)
              (Returns-bind _ _ (publish-Returns sns topic _) (λ r h. Returns-pure _ tt))
      ]

  check_idle-Returns :
      (sns topic : Text) (now : DateTime) (threshold : Option ℤ) (n : Node) (m : Summary)
      → Returns E Anything (check_idle sns topic now threshold n m)
  unfolding check_idle
  check_idle-Returns sns topic now none n m = Returns-pure m tt
  check_idle-Returns sns topic now (some threshold) n m =
      elim (Bool-cases (n.1.state == txt "running")) [
        | inl running ↦
            rw running (Returns-bind _ _ (Returns-attempt _ (λ r. tt)) (λ r h. Returns-pure _ tt))
        | inr other ↦ rw other (Returns-pure m tt)
      ]

  check_candidate-Returns :
      (sns topic : Text) (now : DateTime) (threshold : Option ℤ) (pointer : Option Pointer)
      (readable : Bool) (candidate : Option Node) (m : Summary)
      → Returns E Anything (check_candidate sns topic now threshold pointer readable candidate m)
  unfolding check_candidate
  check_candidate-Returns sns topic now threshold pointer readable none m = Returns-pure m tt
  check_candidate-Returns sns topic now threshold pointer readable (some n) m =
      Returns-bind _ _ (check_orphan-Returns sns topic pointer readable n m)
        (λ m' h. check_idle-Returns sns topic now threshold n m')

  reconcile-Returns :
      (ssm : Text) (readable orderable : Bool) (pointer : Option Pointer) (failed : Bool)
      (candidate : Option Node) (m : Summary)
      → Returns E Anything (reconcile ssm readable orderable pointer failed candidate m)
  unfolding reconcile
  reconcile-Returns ssm readable orderable pointer failed candidate m =
      elim (Bool-cases (readable && orderable)) [
        | inl both ↦
            rw both (Returns-bind _ _ (Returns-attempt _ (λ r. tt)) (λ r h. Returns-pure _ tt))
        | inr other ↦ rw other (Returns-pure m tt)
      ]

no_stamp_ends : (r i k v : Text) → is_terminate (Call.create_tags r i k v) ≡ false
unfolding is_terminate
no_stamp_ends r i k v = refl

no_put_ends : (r n v : Text) → is_terminate (Call.put_parameter r n v) ≡ false
unfolding is_terminate
no_put_ends r n v = refl

no_stamps : (r i k v : Text) → is_put (Call.create_tags r i k v) ≡ false
unfolding is_put
no_stamps r i k v = refl

no_terminations : (r i : Text) → is_put (Call.terminate_instances r i) ≡ false
unfolding is_put
no_terminations r i = refl

module _ (now : DateTime) (control topic : Text) (threshold : Option ℤ) (pointer : Option Pointer)
    (readable : Bool) where
  -- From a set of scans on, the sweep returns whatever fails.
  pub act-Returns :
      {E : Env → Type 0} (scans : List Scanned) (m : Summary)
      → Returns E Anything (act now control topic threshold pointer readable scans m)
  unfolding act
  act-Returns scans m =
      Returns-bind _ _ (reap-Returns control topic now (found_nodes scans) m) λ r _.
        Returns-bind _ _ (deduplicate-Returns control topic (order_survivors r.0) r.1) λ c _.
          Returns-bind _ _
            (check_candidate-Returns control topic now threshold pointer readable c.0 c.1)
            λ m' _.
              Returns-bind _ _
                (reconcile-Returns control readable (order_survivors r.0).1 pointer
                  (any_failed scans) c.0 m')
                λ m'' _.
                  Returns-bind _ _ (notify_failures-Returns control topic m'')
                    (λ _ _. Returns-pure m'' tt)

  report :
      {p : Call → Bool}
      → IgnoresReads p
      → IgnoresNotices p
      → (m : Summary)
      → Frame (calls_of p) (notify_failures control topic m >>= λ (_ : Unit {0}). pure m)
  report reads notices m =
      Frame-bind _ _ (notify_failures-Frame reads notices control topic m) (λ _. Frame-pure m)

  -- What follows step 2 asks for no termination.
  steps_3_and_4 :
      (c : Option Node × Summary) (orderable failed : Bool)
      → Frame terminations (
          check_candidate control topic now threshold pointer readable c.0 c.1 >>= λ (m : Summary).
          reconcile control readable orderable pointer failed c.0 m >>= λ (m : Summary).
          notify_failures control topic m >>= λ (_ : Unit {0}). pure m)
  steps_3_and_4 c orderable failed =
      let reads = Terminations.reads in
      let notices = Terminations.notices in
      Frame-bind _ _
        (check_candidate-Frame reads notices no_stamp_ends control topic now threshold pointer
          readable c.0 c.1)
        λ m.
          Frame-bind _ _
            (reconcile-Frame is_terminate no_put_ends control readable orderable pointer failed c.0
              m)
            (λ m'. report reads notices m')

  module _ (env : Env) (scans : List Scanned) (m : Summary) (s : State) where
    terminations_lem :
        ClientsWork env
        → terminations (after (act now control topic threshold pointer readable scans m) env s)
          ≡ ended
              (duplicates_of (order_survivors (survivors_of now (found_nodes scans))))
              (ended (expired_of now (found_nodes scans)) (terminations s))
    unfolding act
    terminations_lem works =
        let E : Env → Type 0 = λ _. Unit in
        let found = found_nodes scans in
        let (r, returned, alive) = (reap-Returns {E = E} control topic now found m).at env tt s in
        let s₁ = (reap control topic now found m env s).1 in
        ap (λ x. terminations x.1) (bind-ok (reap control topic now found m) _ env s r returned)
        ∙ view-bind terminations (deduplicate control topic (order_survivors r.0) r.1) _
            (λ c. steps_3_and_4 c (order_survivors r.0).1 (any_failed scans)) env s₁
        ∙ terminations-deduplicate env works control topic (order_survivors r.0) r.1 s₁
        ∙ rw (alive, terminations-reap env works control topic now found m s)

    -- Where boto3 can create every client, the sweep asks behind the scan for the termination of
    -- exactly the nodes whose expiry has passed, and then of the others but one that is as new as any,
    -- newest first; of none of the others if there are several and a launch time does not read as a
    -- time. No failure of a termination, of a notice, of CloudWatch or of SSM changes that.
    pub terminations-act :
        ClientsWork env
        → (dropped : List Node) × IsDropped (survivors_of now (found_nodes scans)) dropped
          × (terminations (after (act now control topic threshold pointer readable scans m) env s)
              ≡ ended dropped (ended (expired_of now (found_nodes scans)) (terminations s)))
    terminations-act works =
        let survivors = survivors_of now (found_nodes scans) in
        (
          duplicates_of (order_survivors survivors),
          duplicates_of-IsDropped survivors,
          terminations_lem works,
        )

    -- Behind the scan, the sweep writes no parameter but the pointer, and that as step 4 decides for
    -- the node that steps 1 and 2 leave: never if the pointer could not be read or the nodes not be
    -- ordered, the id and region of that node if there is no pointer or it has another id, "none" only if there
    -- is a pointer, no node is left and every region was scanned.
    pub puts-act :
        puts (after (act now control topic threshold pointer readable scans m) env s)
        ≡ written env control
            (decision readable
              (order_survivors (survivors_of now (found_nodes scans))).1
              pointer
              (any_failed scans)
              (candidate_of (order_survivors (survivors_of now (found_nodes scans)))))
            (puts s)
    unfolding act
    puts-act =
        let E : Env → Type 0 = λ _. Unit in
        let reads = Pointing.reads in
        let notices = Pointing.notices in
        let found = found_nodes scans in
        let (r, returned, alive) = (reap-Returns {E = E} control topic now found m).at env tt s in
        let s₁ = (reap control topic now found m env s).1 in
        let o = order_survivors r.0 in
        let (c, returned₂, left) = (deduplicate-Returns {E = E} control topic o r.1).at env tt s₁ in
        let s₂ = (deduplicate control topic o r.1 env s₁).1 in
        let check = check_candidate control topic now threshold pointer readable c.0 c.1 in
        let (m', returned₃, _) =
          (check_candidate-Returns {E = E} control topic now threshold pointer readable c.0 c.1).at
            env tt s₂ in
        let s₃ = (check env s₂).1 in
        ap (λ x. puts x.1) (bind-ok (reap control topic now found m) _ env s r returned)
        ∙ ap (λ x. puts x.1) (bind-ok (deduplicate control topic o r.1) _ env s₁ c returned₂)
        ∙ ap (λ x. puts x.1) (bind-ok check _ env s₂ m' returned₃)
        ∙ view-bind puts (reconcile control readable o.1 pointer (any_failed scans) c.0 m') _
            (λ m''. report reads notices m'') env s₃
        ∙ puts-reconcile env control readable o.1 pointer (any_failed scans) c.0 m' s₃
        ∙ ap (written env control (decision readable o.1 pointer (any_failed scans) c.0)) (
            (check_candidate-Frame reads notices no_stamps control topic now threshold pointer
                readable c.0 c.1).at
              env s₂
            ∙ (deduplicate-Frame reads notices no_terminations control topic o r.1).at env s₁
            ∙ (reap-Frame reads notices no_terminations control topic now found m).at env s)
        ∙ rw (left, alive)
