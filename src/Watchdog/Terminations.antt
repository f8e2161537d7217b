-- ===== src/Watchdog/Terminations.antt =====
-- The terminations that steps 1 and 2 of the sweep ask for.
use shard_vpn.Prelude.{
  ◌≡◌, refl, ap, ◌∙◌, Text, txt, Bool, true, false, List, [], ◌∷◌, Bool-cases, inl, inr,
  if◌then◌else◌,
}
use shard_vpn.Python.{ok}
use shard_vpn.World.{Env, Call, History, Service}
use shard_vpn.DateTime.{DateTime}
use shard_vpn.Exec.{State, pure, attempt, call, ◌>>=◌, after}
use shard_vpn.Exec.Frame.{view-bind, Frame-pure}
use shard_vpn.Exec.Returns.{bind-ok}
use shard_vpn.Boto.{client}
use shard_vpn.Ec2ops.{terminate}
use shard_vpn.Watchdog.{Node}
use shard_vpn.Watchdog.Summary.{Summary}
use shard_vpn.Watchdog.Step.{publish, try_terminate, safe_terminate}
use shard_vpn.Watchdog.Step.Reap.{
  reap_node, reap_one, reap, drop_duplicate, drop_duplicates, deduplicate,
}
use shard_vpn.Watchdog.Reaping.{has_expired, expired_of, reap_one-Returns, drop_duplicate-Returns}
use shard_vpn.Frames.{calls_of, IgnoresReads, IgnoresNotices}
use shard_vpn.Frames.Sweeping.{publish-Frame, report_reaped-Frame, report_duplicate-Frame}

unfoldable pub is_terminate : Call → Bool
is_terminate (Call.terminate_instances _ _) = true
is_terminate _ = false

pub reads : IgnoresReads is_terminate
unfolding is_terminate
reads = record {
  setup = record { client = λ v r. refl; get_parameter = λ r n d. refl; time = refl };
  describe_regions = λ r. refl;
  describe_vpcs = λ r f. refl;
  describe_security_groups = λ r f. refl;
  describe_instances = λ r f. refl;
  get_metric_statistics = λ r i a b. refl;
  utc_now = refl;
  token_hex = refl;
  read_template = refl;
}

pub notices : IgnoresNotices is_terminate
unfolding is_terminate
notices = record { publish = λ r t m. refl }

-- The terminations asked for so far, the latest first.
abbrev pub terminations : State → History
terminations = calls_of is_terminate

-- boto3 can create a client for every service and region.
pub record ClientsWork (env : Env) : Type 0 where
  pub created : (h : History) (v : Service) (r : Text) → env.client h v r ≡ ok tt

-- The nodes that step 2 drops.
abbrev pub duplicates_of : List Node × Bool → List Node
duplicates_of (_, false) = []
duplicates_of ([], true) = []
duplicates_of (_ ∷ ns, true) = ns

-- One more request for each of the nodes, in order.
abbrev pub ended : List Node → History → History
ended [] h = h
ended ((region, i) ∷ ns) h = ended ns (Call.terminate_instances region i.instance_id ∷ h)

module _ (env : Env) (works : ClientsWork env) where
  terminations-try_terminate :
      (r i : Text) (s : State)
      → terminations (after (try_terminate r i) env s)
        ≡ Call.terminate_instances r i ∷ terminations s
  unfolding try_terminate client call terminate ◌>>=◌ pure calls_of is_terminate
  terminations-try_terminate r i s = rw (works.created s.calls Service.ec2 r)

  terminations-safe_terminate :
      (r i reason : Text) (m : Summary) (s : State)
      → terminations (after (safe_terminate r i reason m) env s)
        ≡ Call.terminate_instances r i ∷ terminations s
  unfolding safe_terminate
  terminations-safe_terminate r i reason m s =
      view-bind terminations (attempt (try_terminate r i)) _ (λ _. Frame-pure _) env s
      ∙ unfold attempt in terminations-try_terminate r i s

  terminations-reap_node :
      (sns topic : Text) (n : Node) (m : Summary) (s : State)
      → terminations (after (reap_node sns topic n m) env s) ≡ ended (n ∷ []) (terminations s)
  unfolding reap_node
  terminations-reap_node sns topic (region, i) m s =
      view-bind terminations (safe_terminate region i.instance_id (txt "expired") m) _
        (λ r. report_reaped-Frame reads notices sns topic (region, i) r) env s
      ∙ terminations-safe_terminate region i.instance_id (txt "expired") m s

  terminations-reap_one :
      (sns topic : Text) (now : DateTime) (n : Node) (m : Summary) (s : State)
      → terminations (after (reap_one sns topic now n m) env s)
        ≡ (if has_expired now n then ended (n ∷ []) (terminations s) else terminations s)
  unfolding reap_one
  terminations-reap_one sns topic now n m s = elim (Bool-cases (has_expired now n)) [
    | inl expired ↦
        rw (expired, reap_one)
          (view-bind terminations (reap_node sns topic n m) _ (λ _. Frame-pure _) env s
            ∙ terminations-reap_node sns topic n m s)
    | inr alive ↦ rw (alive, reap_one) (unfold pure in refl)
  ]

  -- Step 1 asks for the termination of exactly the nodes that have expired, each once and in order,
  -- whatever the answers.
  pub terminations-reap :
      (sns topic : Text) (now : DateTime) (ns : List Node) (m : Summary) (s : State)
      → terminations (after (reap sns topic now ns m) env s)
        ≡ ended (expired_of now ns) (terminations s)
  unfolding reap
  terminations-reap sns topic now [] m s = unfold pure in refl
  terminations-reap sns topic now (n ∷ ns) m s =
      let E : Env → Type 0 = λ _. Unit in
      let (r, returned, alive) = (reap_one-Returns {E = E} sns topic now n m).at env tt s in
      let s' = (reap_one sns topic now n m env s).1 in
      ap (λ x. terminations x.1) (bind-ok (reap_one sns topic now n m) _ env s r returned)
      ∙ view-bind terminations (reap sns topic now ns r.1) _ (λ _. Frame-pure _) env s'
      ∙ terminations-reap sns topic now ns r.1 s'
      ∙ rw (terminations-reap_one sns topic now n m s) (elim (Bool-cases (has_expired now n)) [
        | inl expired ↦ rw expired
        | inr alive ↦ rw alive
      ])

  terminations-drop_duplicate :
      (sns topic : Text) (n : Node) (m : Summary) (s : State)
      → terminations (after (drop_duplicate sns topic n m) env s) ≡ ended (n ∷ []) (terminations s)
  unfolding drop_duplicate
  terminations-drop_duplicate sns topic (region, i) m s =
      view-bind terminations (safe_terminate region i.instance_id (txt "duplicate") m) _
        (λ r. report_duplicate-Frame reads notices sns topic (region, i) r) env s
      ∙ terminations-safe_terminate region i.instance_id (txt "duplicate") m s

  terminations-drop_duplicates :
      (sns topic : Text) (ns : List Node) (m : Summary) (s : State)
      → terminations (after (drop_duplicates sns topic ns m) env s) ≡ ended ns (terminations s)
  unfolding drop_duplicates
  terminations-drop_duplicates sns topic [] m s = unfold pure in refl
  terminations-drop_duplicates sns topic (n ∷ ns) m s =
      let E : Env → Type 0 = λ _. Unit in
      let (m', returned, _) = (drop_duplicate-Returns {E = E} sns topic n m).at env tt s in
      let s' = (drop_duplicate sns topic n m env s).1 in
      ap (λ x. terminations x.1) (bind-ok (drop_duplicate sns topic n m) _ env s m' returned)
      ∙ terminations-drop_duplicates sns topic ns m' s'
      ∙ rw (terminations-drop_duplicate sns topic n m s)

  -- Step 2 asks for the termination of exactly the nodes behind the first, and of none if the nodes
  -- could not be ordered.
  pub terminations-deduplicate :
      (sns topic : Text) (o : List Node × Bool) (m : Summary) (s : State)
      → terminations (after (deduplicate sns topic o m) env s)
        ≡ ended (duplicates_of o) (terminations s)
  unfolding deduplicate
  terminations-deduplicate sns topic (ns, false) m s =
      view-bind terminations (publish sns topic _) _ (λ _. Frame-pure _) env s
      ∙ (publish-Frame reads notices sns topic _).at env s
  terminations-deduplicate sns topic ([], true) m s = unfold pure in refl
  terminations-deduplicate sns topic (n ∷ ns, true) m s =
      view-bind terminations (drop_duplicates sns topic ns m) _ (λ _. Frame-pure _) env s
      ∙ terminations-drop_duplicates sns topic ns m s
