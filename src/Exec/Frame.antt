-- ===== src/Exec/Frame.antt =====
-- What an action leaves alone, one rule for each way to build an action.
use shard_vpn.Prelude.{◌≡◌, refl, ◌∙◌, Bool, true, false, if◌then◌else◌}
use shard_vpn.Python.{Exc, Outcome, ok, err}
use shard_vpn.World.{Env}
use shard_vpn.Exec.{State, Exec, pure, raise, lift, asks, attempt, ◌>>=◌, continue}

-- `m` leaves `view` of the state as it was, whether it returns or raises.
pub record Frame {ℓ κ} {A : Type ℓ} {X : Type κ} (view : State → X) (m : Exec A)
    : Type (ℓ ⊔ κ) where
  pub at : (env : Env) (s : State) → view (m env s).1 ≡ view s

module _ {ℓ κ} {A : Type ℓ} {X : Type κ} {view : State → X} where
  pub Frame-pure : (a : A) → Frame view (pure a)
  unfolding pure
  Frame-pure a = record { at = λ env s. refl }

  pub Frame-raise : (e : Exc) → Frame view (raise {A = A} e)
  unfolding raise
  Frame-raise e = record { at = λ env s. refl }

  pub Frame-lift : (r : Outcome A) → Frame view (lift r)
  unfolding lift
  Frame-lift r = record { at = λ env s. refl }

  pub Frame-asks : (f : Env → A) → Frame view (asks f)
  unfolding asks
  Frame-asks f = record { at = λ env s. refl }

  pub Frame-attempt : (m : Exec A) → Frame view m → Frame view (attempt m)
  unfolding attempt
  Frame-attempt m h = record { at = h.at }

  pub Frame-if :
      (b : Bool) (m n : Exec A) → Frame view m → Frame view n → Frame view (if b then m else n)
  Frame-if true m n km kn = km
  Frame-if false m n km kn = kn

module _ {ℓ κ μ} {A : Type ℓ} {B : Type κ} {X : Type μ} {view : State → X} where
  pub Frame-continue :
      (r : Outcome A) (f : A → Exec B) → ((a : A) → Frame view (f a)) → Frame view (continue r f)
  Frame-continue (ok a) f h = record { at = (h a).at }
  Frame-continue (err e) f h = record { at = λ env s. refl }

  pub Frame-bind :
      (m : Exec A) (f : A → Exec B)
      → Frame view m
      → ((a : A) → Frame view (f a))
      → Frame view (m >>= f)
  unfolding ◌>>=◌
  Frame-bind m f hm hf = record {
    at = λ env s. (Frame-continue (m env s).0 f hf).at env (m env s).1 ∙ hm.at env s;
  }

pub ruleset frame_rules =
    (Frame-pure, Frame-raise, Frame-lift, Frame-asks, Frame-attempt, Frame-if, Frame-bind)

-- Behind a bind whose second part leaves the view alone, the view is that of the first part.
pub view-bind {ℓ κ μ} :
    {A : Type ℓ} {B : Type κ} {X : Type μ} (view : State → X) (m : Exec A) (f : A → Exec B)
    → ((a : A) → Frame view (f a))
    → (env : Env) (s : State) → view ((m >>= f) env s).1 ≡ view (m env s).1
unfolding ◌>>=◌
view-bind view m f h env s = (Frame-continue (m env s).0 f h).at env (m env s).1
