-- ===== src/Exec/Returns.antt =====
-- Actions that return whatever fails outside, one rule for each way to build an action.
use shard_vpn.Prelude.{◌≡◌, refl, ◌∙◌, ap, sym, inl, inr}
use shard_vpn.Python.{Exc, Outcome, ok, err, Outcome-cases}
use shard_vpn.World.{Env, Call, History}
use shard_vpn.Exec.{State, Exec, pure, asks, call, observe, attempt, ◌>>=◌, continue}

-- Under an environment with `E`, `m` raises nothing, and what it returns has `P`.
pub record Returns {ℓ} {A : Type ℓ} (E : Env → Type 0) (P : A → Type 0) (m : Exec A) : Type ℓ where
  pub at : (env : Env) → E env → (s : State) → (a : A) × ((m env s).0 ≡ ok a) × P a

module _ {ℓ} {A : Type ℓ} {E : Env → Type 0} {P : A → Type 0} where
  pub Returns-pure : (a : A) → P a → Returns E P (pure a)
  unfolding pure
  Returns-pure a h = record { at = λ env e s. (a, refl, h) }

  pub Returns-asks : (f : Env → A) → ((env : Env) → P (f env)) → Returns E P (asks f)
  unfolding asks
  Returns-asks f h = record { at = λ env e s. (f env, refl, h env) }

  pub Returns-call :
      (c : Call) (answer : Env → History → Outcome A)
      → ((env : Env) → E env → (h : History) → (a : A) × (answer env h ≡ ok a) × P a)
      → Returns E P (call c answer)
  unfolding call
  Returns-call c answer h = record { at = λ env e s. h env e s.calls }

  pub Returns-observe :
      (c : Call) (answer : Env → History → A)
      → ((env : Env) (h : History) → P (answer env h))
      → Returns E P (observe c answer)
  unfolding observe
  Returns-observe c answer h = record { at = λ env e s. (answer env s.calls, refl, h env s.calls) }

pub Returns-attempt {ℓ} :
    {A : Type ℓ} {E : Env → Type 0} {P : Outcome A → Type 0} (m : Exec A)
    → ((r : Outcome A) → P r)
    → Returns E P (attempt m)
unfolding attempt
Returns-attempt m h = record { at = λ env e s. ((m env s).0, refl, h (m env s).0) }

module _ {ℓ κ} {A : Type ℓ} {B : Type κ} where
  pub continue-ok :
      (r : Outcome A) (f : A → Exec B) (a : A) (env : Env) (s : State)
      → r ≡ ok a
      → continue r f env s ≡ f a env s
  continue-ok r f a env s h = ap (λ x. continue x f env s) h

module _ {ℓ κ} {A : Type ℓ} {B : Type κ} {E : Env → Type 0} where
  pub Returns-bind :
      {Q : A → Type 0} {P : B → Type 0} (m : Exec A) (f : A → Exec B)
      → Returns E Q m
      → ((a : A) → Q a → Returns E P (f a))
      → Returns E P (m >>= f)
  unfolding ◌>>=◌
  Returns-bind m f hm hf = record {
    at = λ env e s.
        let (a, returned, q) = hm.at env e s in
        let (b, result, p) = (hf a q).at env e (m env s).1 in
        (b, ap (λ x. x.0) (continue-ok (m env s).0 f a env (m env s).1 returned) ∙ result, p);
  }

module _ {ℓ κ} {A : Type ℓ} {B : Type κ} (m : Exec A) (f : A → Exec B) (env : Env) (s : State) where
  -- What a bind does behind an action that returned, and behind one that raised.
  pub bind-ok : (a : A) → (m env s).0 ≡ ok a → (m >>= f) env s ≡ f a env (m env s).1
  unfolding ◌>>=◌
  bind-ok a h = continue-ok (m env s).0 f a env (m env s).1 h

  pub bind-err : (e : Exc) → (m env s).0 ≡ err e → (m >>= f) env s ≡ (err e, (m env s).1)
  unfolding ◌>>=◌
  bind-err e h = ap (λ x. continue x f env (m env s).1) h

  -- A bind that returned: its first part did, and the second ran behind it.
  pub bind-inv :
      (b : B)
      → ((m >>= f) env s).0 ≡ ok b
      → (a : A) × ((m env s).0 ≡ ok a)
        × ((m >>= f) env s ≡ f a env (m env s).1)
        × ((f a env (m env s).1).0 ≡ ok b)
  bind-inv b h = elim (Outcome-cases (m env s).0) [
    | inl (a, e) ↦ (a, e, bind-ok a e, ap (λ x. x.0) (sym (bind-ok a e)) ∙ h)
    | inr (x, e) ↦ absurd (cc (ap (λ r. r.0) (bind-err x e)))
  ]
