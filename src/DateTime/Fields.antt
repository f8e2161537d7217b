-- ===== src/DateTime/Fields.antt =====
-- The directives of `strptime` that the program's format has, as their regular expressions read.
use shard_vpn.Prelude.{
  ℕ, ◌+◌, ◌-◌, ◌*◌, Text, Bool, ◌||◌, ◌&&◌, Option, none, some, [], ◌∷◌, leb, eqb, if◌then◌else◌,
}
use shard_vpn.Python.Decimal.{decimal}

-- [lo-hi] between ASCII digits
abbrev pub between : ℕ → ℕ → ℕ → Bool
between lo hi c = leb lo c && leb c hi

infixl 5 ◌>>=◌
abbrev ◌>>=◌ : {A B : Type 0} → Option A → (A → Option B) → Option B
none >>= f = none
some a >>= f = f a

-- a digit behind the tens
abbrev pub tens : ℕ → ℕ → Option ℕ
tens a b = do v ← decimal b; some ((a - 48) * 10 + v)

-- \d\d\d\d
unfoldable pub year_field : Text → Option ℕ
year_field (a ∷ b ∷ c ∷ d ∷ []) = do
  x ← decimal a
  y ← decimal b
  z ← decimal c
  w ← decimal d
  some (x * 1000 + y * 100 + z * 10 + w)
year_field _ = none

-- 1[0-2]|0[1-9]|[1-9]
unfoldable pub month_field : Text → Option ℕ
month_field (c ∷ []) = if between b'1' b'9' c then some (c - 48) else none
month_field (a ∷ b ∷ []) =
    if (eqb a b'1' && between b'0' b'2' b)
    then some (10 + (b - 48))
    else if (eqb a b'0' && between b'1' b'9' b)
    then some (b - 48)
    else none
month_field _ = none

-- 3[0-1]|[1-2]\d|0[1-9]|[1-9]| [1-9]
unfoldable pub day_field : Text → Option ℕ
day_field (c ∷ []) = if between b'1' b'9' c then some (c - 48) else none
day_field (a ∷ b ∷ []) =
    if (eqb a b'3' && between b'0' b'1' b)
    then some (30 + (b - 48))
    else if between b'1' b'2' a
    then tens a b
    else if (eqb a b'0' && between b'1' b'9' b)
    then some (b - 48)
    else if (eqb a b' ' && between b'1' b'9' b)
    then some (b - 48)
    else none
day_field _ = none

-- 2[0-3]|[0-1]\d|\d
unfoldable pub hour_field : Text → Option ℕ
hour_field (c ∷ []) = decimal c
hour_field (a ∷ b ∷ []) =
    if (eqb a b'2' && between b'0' b'3' b)
    then some (20 + (b - 48))
    else if between b'0' b'1' a
    then tens a b
    else none
hour_field _ = none

-- [0-5]\d|\d
unfoldable pub minute_field : Text → Option ℕ
minute_field (c ∷ []) = decimal c
minute_field (a ∷ b ∷ []) = if between b'0' b'5' a then tens a b else none
minute_field _ = none

-- 6[0-1]|[0-5]\d|\d
unfoldable pub second_field : Text → Option ℕ
second_field (c ∷ []) = decimal c
second_field (a ∷ b ∷ []) =
    if (eqb a b'6' && between b'0' b'1' b)
    then some (60 + (b - 48))
    else if between b'0' b'5' a
    then tens a b
    else none
second_field _ = none

-- The literals of the format, in either case.
abbrev pub is_dash : ℕ → Bool
is_dash c = eqb c b'-'

abbrev pub is_t : ℕ → Bool
is_t c = eqb c b'T' || eqb c b't'

abbrev pub is_colon : ℕ → Bool
is_colon c = eqb c b':'

abbrev pub is_z : ℕ → Bool
is_z c = eqb c b'Z' || eqb c b'z'

-- The characters up to the first that passes the test, and those behind it.
unfoldable pub split : (ℕ → Bool) → Text → Option (Text × Text)
split stop [] = none
split stop (c ∷ s) =
    let rest : Option (Text × Text) = elim (split stop s) [
      | none ↦ none
      | some (a, b) ↦ some (c ∷ a, b)
    ] in
    if stop c then some ([], s) else rest

-- A field and the literal behind it.
unfoldable pub field : (ℕ → Bool) → (Text → Option ℕ) → Text → Option (ℕ × Text)
field stop read value = do (a, rest) ← split stop value; n ← read a; some (n, rest)
