-- ===== src/Exec.antt =====
-- A call of the program's own functions: it reads the environment, changes the state, and returns
-- or raises. What was done before a raise stays done.
pub mod Frame
pub mod Returns
pub mod Through
use shard_vpn.Prelude.{ℕ, Text, Bool, Option, none, some, List, ◌∷◌, if◌then◌else◌}
use shard_vpn.Python.{Exc, Outcome, ok, err}
use shard_vpn.World.{Env, Call, History}

-- The calls made so far, the latest first, and the module variable `_SECRET_CACHE` of settings.py,
-- which lives as long as the process.
pub record State : Type 0 where
  pub calls : History
  pub cache : List (Text × ℕ × Text)

abbrev pub Exec {ℓ} : Type ℓ → Type ℓ
Exec A = Env → State → Outcome A × State

module _ {ℓ} {A : Type ℓ} where
  unfoldable pub pure : A → Exec A
  pure a env s = (ok a, s)

  unfoldable pub raise : Exc → Exec A
  raise e env s = (err e, s)

  -- What a pure function returns or raises.
  unfoldable pub lift : Outcome A → Exec A
  lift r env s = (r, s)

  -- A part of the environment.
  unfoldable pub asks : (Env → A) → Exec A
  asks f env s = (ok (f env), s)

  -- A call to the outside, which stays in the history whether it returns or raises.
  unfoldable pub call : Call → (Env → History → Outcome A) → Exec A
  call c answer env s = (answer env s.calls, record s { calls = c ∷ s.calls })

  -- A call that cannot raise.
  unfoldable pub observe : Call → (Env → History → A) → Exec A
  observe c answer env s = (ok (answer env s.calls), record s { calls = c ∷ s.calls })

  -- `try: … except Exception as exc`, with what was returned or raised as a value.
  unfoldable pub attempt : Exec A → Exec (Outcome A)
  attempt m env s = let (r, s') = m env s in (ok r, s')

module _ {ℓ κ} {A : Type ℓ} {B : Type κ} where
  abbrev pub continue : Outcome A → (A → Exec B) → Exec B
  continue (ok a) f env s = f a env s
  continue (err e) f env s = (err e, s)

  infixl 5 ◌>>=◌
  unfoldable pub ◌>>=◌ : Exec A → (A → Exec B) → Exec B
  ◌>>=◌ m f env s = let (r, s') = m env s in continue r f env s'

infixl 5 ◌>>◌
abbrev pub ◌>>◌ {ℓ κ} : {A : Type ℓ} {B : Type κ} → Exec A → Exec B → Exec B
m >> k = m >>= λ _. k

-- `m.0` returned or raised, and what it left behind.
abbrev pub result {ℓ} : {A : Type ℓ} → Exec A → Env → State → Outcome A
result m env s = (m env s).0

abbrev pub after {ℓ} : {A : Type ℓ} → Exec A → Env → State → State
after m env s = (m env s).1
