-- ===== src/Watchdog/Pointing.antt =====
-- Step 4 of the sweep: when the pointer is written, and with what.
use shard_vpn.Prelude.{
  ◌≡◌, refl, ap, ◌∙◌, ◌==◌, Text, Bool, true, false, Option, none, some, ◌∷◌, ◌&&◌, inl, inr,
  Bool-cases, if◌then◌else◌,
}
use shard_vpn.World.{Env, Call, History}
use shard_vpn.Exec.{State, pure, attempt, asks, call, ◌>>=◌, after}
use shard_vpn.Exec.Frame.{view-bind, Frame-pure}
use shard_vpn.Settings.{
  Pointer, param_name, current_node, pointer_value, write_pointer, put_parameter,
}
use shard_vpn.Watchdog.{Node}
use shard_vpn.Watchdog.Summary.{Summary}
use shard_vpn.Watchdog.Step.Candidate.{tracks, new_pointer, set_pointer, reconcile}
use shard_vpn.Frames.{calls_of, IgnoresReads, IgnoresNotices}

unfoldable pub is_put : Call → Bool
is_put (Call.put_parameter _ _ _) = true
is_put _ = false

pub reads : IgnoresReads is_put
unfolding is_put
reads = record {
  setup = record { client = λ v r. refl; get_parameter = λ r n d. refl; time = refl };
  describe_regions = λ r. refl;
  describe_vpcs = λ r f. refl;
  describe_security_groups = λ r f. refl;
  describe_instances = λ r f. refl;
  get_metric_statistics = λ r i a b. refl;
  utc_now = refl;
  token_hex = refl;
  read_template = refl;
}

pub notices : IgnoresNotices is_put
unfolding is_put
notices = record { publish = λ r t m. refl }

-- The writes of parameters so far, the latest first.
abbrev pub puts : State → History
puts = calls_of is_put

-- One more write, if there is one.
abbrev pub written : Env → Text → Option (Option Pointer) → History → History
written env ssm none h = h
written env ssm (some q) h =
    Call.put_parameter ssm (param_name current_node) (pointer_value env q) ∷ h

-- What the pointer becomes, by the node that is left: the place of an untracked node; "none" if no
-- node is left and every region was scanned; and what it was otherwise.
abbrev pub repointed : Option Pointer → Bool → Option Node → Option (Option Pointer)
repointed none failed (some (region, i)) =
    some (some (record { region = region; instance_id = i.instance_id }))
repointed (some p) failed (some (region, i)) =
    if p.instance_id == i.instance_id
    then none
    else some (some (record { region = region; instance_id = i.instance_id }))
repointed none failed none = none
repointed (some p) true none = none
repointed (some p) false none = some none

new_pointer-repointed :
    (pointer : Option Pointer) (failed : Bool) (candidate : Option Node)
    → new_pointer pointer failed candidate ≡ repointed pointer failed candidate
unfolding new_pointer tracks
new_pointer-repointed none failed (some n) = refl
new_pointer-repointed (some p) failed (some n) = refl
new_pointer-repointed none failed none = refl
new_pointer-repointed (some p) true none = refl
new_pointer-repointed (some p) false none = refl

-- What step 4 decides: nothing, unless the pointer could be read and the nodes could be ordered.
abbrev pub decision : Bool → Bool → Option Pointer → Bool → Option Node → Option (Option Pointer)
decision readable orderable pointer failed candidate =
    if readable && orderable then repointed pointer failed candidate else none

module _ (env : Env) where
  pub puts-write_pointer :
      (ssm name : Text) (q : Option Pointer) (s : State)
      → puts (after (write_pointer ssm name q) env s)
        ≡ Call.put_parameter ssm name (pointer_value env q) ∷ puts s
  unfolding write_pointer put_parameter call asks ◌>>=◌ calls_of is_put
  puts-write_pointer ssm name q s = refl

  puts-set_pointer :
      (ssm : Text) (q : Option (Option Pointer)) (s : State)
      → puts (after (set_pointer ssm q) env s) ≡ written env ssm q (puts s)
  unfolding set_pointer
  puts-set_pointer ssm none s = unfold pure in refl
  puts-set_pointer ssm (some q) s = puts-write_pointer ssm (param_name current_node) q s

  pub puts-reconcile :
      (ssm : Text) (readable orderable : Bool) (pointer : Option Pointer) (failed : Bool)
      (candidate : Option Node) (m : Summary) (s : State)
      → puts (after (reconcile ssm readable orderable pointer failed candidate m) env s)
        ≡ written env ssm (decision readable orderable pointer failed candidate) (puts s)
  unfolding reconcile
  puts-reconcile ssm readable orderable pointer failed candidate m s =
      elim (Bool-cases (readable && orderable)) [
        | inl both ↦
            let q = new_pointer pointer failed candidate in
            rw both (
              view-bind puts (attempt (set_pointer ssm q)) _ (λ _. Frame-pure _) env s
              ∙ unfold attempt in
                puts-set_pointer ssm q s
                ∙ ap (λ d. written env ssm d (puts s))
                    (new_pointer-repointed pointer failed candidate))
        | inr other ↦ rw other (unfold pure in refl)
      ]
