-- ===== src/Handler/Down.antt =====
-- `_down`: what it has done when it reports success, and when it clears the pointer.
use shard_vpn.Prelude.{
  ◌≡◌, refl, ap, sym, ◌∙◌, inl, inr, subst, Text, false, Option, none, some, List, [], ◌∷◌,
}
use shard_vpn.Python.{Outcome, ok, Outcome-cases}
use shard_vpn.World.{Env, Call, History, Instance, Service}
use shard_vpn.Exec.{State, pure, asks, call, ◌>>=◌, ◌>>◌, result}
use shard_vpn.Exec.Frame.{Frame, view-bind, Frame-bind, Frame-pure}
use shard_vpn.Exec.Returns.{bind-inv, bind-ok, bind-err}
use shard_vpn.Boto.{client}
use shard_vpn.Settings.{
  Pointer, param_name, current_node, default_region, pointer_value, get_parameter,
}
use shard_vpn.Ec2ops.{node_filters, instances, find_nodes, terminate}
use shard_vpn.Statusdoc.{absent, to_json}
use shard_vpn.Handler.{Response, respond, response}
use shard_vpn.Handler.Action.{
  parameter, set_current_node, get_current_node, terminate_all, terminate_region, down_at, down,
}
use shard_vpn.Watchdog.Pointing
use shard_vpn.Watchdog.Pointing.{is_put, puts, puts-write_pointer}
use shard_vpn.Frames.{Frame-call, IgnoresRequests}
use shard_vpn.Frames.Aws.{client-Frame, find_nodes-Frame}
use shard_vpn.Frames.Handling.{respond-Frame, get_current_node-Frame, parameter-Frame}

-- EC2 accepted the termination of each of the nodes, one after the other.
abbrev pub Accepted : Env → Text → History → List Instance → Type 0
Accepted env region h [] = Unit
Accepted env region h (i ∷ is) =
    (env.terminate_instances h region i.instance_id ≡ ok tt)
    × Accepted env region (Call.terminate_instances region i.instance_id ∷ h) is

-- The live nodes of a region were listed, and the termination of every one was accepted.
pub record IsEmptied (env : Env) (region : Text) : Type 0 where
  pub history : History
  pub reservations : List (List Instance)
  pub listed : env.describe_instances history region node_filters ≡ ok reservations
  pub accepted :
      Accepted env region
        (Call.describe_instances region node_filters ∷ history)
        (instances reservations)

terminate_all-Accepted :
    (region : Text) (is : List Instance) (env : Env) (s : State)
    → (terminate_all region is env s).0 ≡ ok tt
    → Accepted env region s.calls is
unfolding terminate_all terminate call
terminate_all-Accepted region [] env s h = tt
terminate_all-Accepted region (i ∷ is) env s h =
    let (u, e, _, rest) =
      bind-inv (terminate region i.instance_id) (λ _. terminate_all region is) env s tt h in
    (e, terminate_all-Accepted region is env (terminate region i.instance_id env s).1 rest)

-- A list that came back is that of the reservations, behind the one call.
pub find_nodes-lem :
    (region : Text) (env : Env) (s : State) (nodes : List Instance)
    → (find_nodes region env s).0 ≡ ok nodes
    → (rs : List (List Instance)) × (env.describe_instances s.calls region node_filters ≡ ok rs)
      × (instances rs ≡ nodes)
      × ((find_nodes region env s).1.calls ≡ Call.describe_instances region node_filters ∷ s.calls)
unfolding find_nodes call pure ◌>>=◌
find_nodes-lem region env s nodes h =
    elim (Outcome-cases (env.describe_instances s.calls region node_filters)) [
      | inl (rs, e) ↦ (rs, e, cc (rw e at h), rw e)
      | inr (x, e) ↦ absurd (cc (rw e at h))
    ]

terminate_region-IsEmptied :
    (region : Text) (env : Env) (s : State)
    → (terminate_region region env s).0 ≡ ok tt
    → IsEmptied env region
unfolding terminate_region
terminate_region-IsEmptied region env s h =
    let (c, _, _, h₁) = bind-inv (client Service.ec2 region) _ env s tt h in
    let s₁ = (client Service.ec2 region env s).1 in
    let (nodes, e, _, h₂) = bind-inv (find_nodes region) (terminate_all region) env s₁ tt h₁ in
    let (rs, listed, same, calls) = find_nodes-lem region env s₁ nodes e in
    record {
      history = s₁.calls;
      reservations = rs;
      listed = listed;
      accepted =
          rw (same, sym calls)
            (terminate_all-Accepted region nodes env (find_nodes region env s₁).1 h₂);
    }

requests : IgnoresRequests is_put
unfolding is_put
requests = record { urlopen = λ r. refl }

terminate_all-Frame : (region : Text) (is : List Instance) → Frame puts (terminate_all region is)
unfolding terminate_all terminate is_put
terminate_all-Frame region [] = Frame-pure tt
terminate_all-Frame region (i ∷ is) =
    Frame-bind _ _ (Frame-call is_put (Call.terminate_instances region i.instance_id) _ refl)
      (λ _. terminate_all-Frame region is)

terminate_region-Frame : (region : Text) → Frame puts (terminate_region region)
unfolding terminate_region
terminate_region-Frame region =
    Frame-bind _ _ (client-Frame Pointing.reads.setup Service.ec2 region)
      λ _. Frame-bind _ _ (find_nodes-Frame Pointing.reads region) (terminate_all-Frame region)

-- What `down` has done: nothing was written, or the nodes of the pointer's region are gone and the
-- write asked for is that of "none".
pub data IsSafe (env : Env) (control : Text) (q : Outcome (Option Pointer))
    (before behind : History) : Type 0 where
  kept : behind ≡ before → IsSafe env control q before behind
  cleared :
      (p : Pointer)
      → q ≡ ok (some p)
      → IsEmptied env p.region
      → behind
        ≡ Call.put_parameter control (param_name current_node) (pointer_value env none) ∷ before
      → IsSafe env control q before behind

down_at-some :
    (control : Text) (p : Pointer) (env : Env) (s : State)
    → IsSafe env control (ok (some p)) (puts s) (puts (down_at control (some p) env s).1)
unfolding down_at
down_at-some control p env s =
    let m = terminate_region p.region in
    let k = λ (_ : Unit {0}). set_current_node control none >> respond 200 (to_json absent) in
    let same = (terminate_region-Frame p.region).at env s in
    elim (Outcome-cases (m env s).0) [
      | inr (x, e) ↦ kept (ap (λ r. puts r.1) (bind-err m k env s x e) ∙ same)
      | inl (u, e) ↦ cleared p refl (terminate_region-IsEmptied p.region env s e) (
          ap (λ r. puts r.1) (bind-ok m k env s u e)
          ∙ view-bind puts (set_current_node control none) _
              (λ _. respond-Frame Pointing.reads requests 200 (to_json absent)) env (m env s).1
          ∙ unfold set_current_node in
            puts-write_pointer env control (param_name current_node) none (m env s).1
            ∙ ap
                (λ h.
                  Call.put_parameter control (param_name current_node) (pointer_value env none) ∷ h)
                same)
    ]

down_at-none : (control : Text) → Frame puts (down_at control none)
unfolding down_at
down_at-none control =
    Frame-bind _ _ (parameter-Frame Pointing.reads requests control default_region) λ region.
      Frame-bind _ _ (terminate_region-Frame region)
        (λ _. respond-Frame Pointing.reads requests 200 (to_json absent))

down_at-IsSafe :
    (control : Text) (q : Option Pointer) (env : Env) (s : State)
    → IsSafe env control (ok q) (puts s) (puts (down_at control q env s).1)
down_at-IsSafe control none env s = kept ((down_at-none control).at env s)
down_at-IsSafe control (some p) env s = down_at-some control p env s

-- Whatever fails, `down` writes no parameter, unless it has read a pointer, and EC2 has listed the
-- nodes of its region and accepted the termination of every one: then it writes the pointer once,
-- as "none".
pub down-IsSafe :
    (control : Text) (env : Env) (s : State)
    → IsSafe env control
        (result (get_current_node control) env s)
        (puts s)
        (puts (down control env s).1)
unfolding down
down-IsSafe control env s =
    let m = get_current_node control in
    let same = (get_current_node-Frame Pointing.reads requests control).at env s in
    elim (Outcome-cases (m env s).0) [
      | inr (x, e) ↦ kept (ap (λ r. puts r.1) (bind-err m (down_at control) env s x e) ∙ same)
      | inl (q, e) ↦
          subst (λ h. IsSafe env control (m env s).0 h (puts ((m >>= down_at control) env s).1))
            same
            (subst (IsSafe env control (m env s).0 (puts (m env s).1))
              (ap (λ r. puts r.1) (sym (bind-ok m (down_at control) env s q e)))
              (subst
                (λ o.
                  IsSafe env control o (puts (m env s).1)
                    (puts (down_at control q env (m env s).1).1))
                (sym e) (down_at-IsSafe control q env (m env s).1)))
    ]

-- The region that `down` looks in: the pointer's, or the default one if there is no pointer.
pub data IsTarget (env : Env) (control : Text) : Option Pointer → Text → Type 0 where
  tracked : (p : Pointer) → IsTarget env control (some p) p.region
  default :
      (h : History) (region : Text)
      → env.get_parameter h control (param_name default_region) false ≡ ok region
      → IsTarget env control none region

-- The region's nodes are gone, and the document says that there is none.
pub record IsDown (env : Env) (control : Text) (q : Option Pointer) (r : Response) : Type 0 where
  pub region : Text
  pub target : IsTarget env control q region
  pub emptied : IsEmptied env region
  pub says : r ≡ response env 200 (to_json absent)

parameter-lem :
    (control region : Text) (env : Env) (s : State)
    → (parameter control default_region env s).0 ≡ ok region
    → env.get_parameter s.calls control (param_name default_region) false ≡ ok region
unfolding parameter get_parameter call
parameter-lem control region env s h = h

down_at-IsDown :
    (control : Text) (q : Option Pointer) (env : Env) (s : State) (r : Response)
    → (down_at control q env s).0 ≡ ok r
    → IsDown env control q r
unfolding down_at respond asks
down_at-IsDown control none env s r h =
    let (region, e, _, h₁) = bind-inv (parameter control default_region) _ env s r h in
    let s₁ = (parameter control default_region env s).1 in
    let (u, e₂, _, h₂) = bind-inv (terminate_region region) _ env s₁ r h₁ in
    record {
      region = region;
      target = default s.calls region (parameter-lem control region env s e);
      emptied = terminate_region-IsEmptied region env s₁ e₂;
      says = cc;
    }
down_at-IsDown control (some p) env s r h =
    let (u, e, _, h₁) = bind-inv (terminate_region p.region) _ env s r h in
    let s₁ = (terminate_region p.region env s).1 in
    let (u', e₂, _, h₂) = bind-inv (set_current_node control none) _ env s₁ r h₁ in
    record {
      region = p.region;
      target = tracked p;
      emptied = terminate_region-IsEmptied p.region env s e;
      says = cc;
    }

-- `down` answers only when the pointer could be read, EC2 has listed the nodes of its region, or of the
-- default region if there is no pointer, and accepted the termination of every one; the answer is
-- then 200 with the document of no node.
pub down-IsDown :
    (control : Text) (env : Env) (s : State) (r : Response)
    → (down control env s).0 ≡ ok r
    → (q : Option Pointer) × ((get_current_node control env s).0 ≡ ok q) × IsDown env control q r
unfolding down
down-IsDown control env s r h =
    let (q, e, _, h₁) = bind-inv (get_current_node control) (down_at control) env s r h in
    (q, e, down_at-IsDown control q env ((get_current_node control) env s).1 r h₁)
