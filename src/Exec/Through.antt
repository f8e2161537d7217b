-- ===== src/Exec/Through.antt =====
-- A relation between the state before an action and behind it, through the binds of the action.
use shard_vpn.Prelude.{◌≡◌, ap, sym, subst, ◌∙◌, inl, inr}
use shard_vpn.Python.{ok, Outcome-cases}
use shard_vpn.World.{Env}
use shard_vpn.Exec.{State, Exec, ◌>>=◌}
use shard_vpn.Exec.Frame.{Frame}
use shard_vpn.Exec.Returns.{bind-ok, bind-err}

-- Under `env`, `m` takes the view of the state from one place to one that is related to it.
pub record Leads {ℓ κ} {A : Type ℓ} {X : Type κ} (view : State → X) (R : X → X → Type 0) (env : Env)
    (m : Exec A) : Type κ where
  pub at : (s : State) → R (view s) (view (m env s).1)

pub Leads-Frame {ℓ κ} :
    {A : Type ℓ} {X : Type κ} {view : State → X} {R : X → X → Type 0} {env : Env}
    → ((x y : X) → y ≡ x → R x y)
    → (m : Exec A) → Frame view m
    → Leads view R env m
Leads-Frame {env = env} same m h = record { at = λ s. same _ _ (h.at env s) }

module _ {ℓ κ μ} {A : Type ℓ} {B : Type κ} {X : Type μ} {view : State → X} {R : X → X → Type 0}
    {env : Env} (same : (x y : X) → y ≡ x → R x y) where
  -- The first part leaves the view alone, so the relation is that of the second part, if it runs.
  pub Leads-bind :
      (m : Exec A) (f : A → Exec B)
      → Frame view m
      → ((a : A) (s : State) → (m env s).0 ≡ ok a → Leads view R env (f a))
      → Leads view R env (m >>= f)
  Leads-bind m f frame h = record {
    at = λ s. elim (Outcome-cases (m env s).0) [
      | inr (x, e) ↦ same (view s) _ (ap (λ r. view r.1) (bind-err m f env s x e) ∙ frame.at env s)
      | inl (a, e) ↦
          subst (λ x. R x (view ((m >>= f) env s).1)) (frame.at env s)
            (subst (R (view (m env s).1)) (ap (λ r. view r.1) (sym (bind-ok m f env s a e)))
              ((h a s e).at (m env s).1))
    ];
  }
