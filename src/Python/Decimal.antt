-- ===== src/Python/Decimal.antt =====
-- Decimal digits: how Python reads them in `strptime` and `int`, and how it prints them.
use shard_vpn.Prelude.{
  true, false, not, ◌||◌, eqb, ℤ, pos, neg, reverse, ◌<◌, ◌≡◌, arith, ℕ, zero, suc, ◌+◌, ◌-◌, ◌*◌,
  ◌/◌, ◌%◌, Text, Bool, ◌&&◌, Option, none, some, List, [], ◌∷◌, leb, ltb, if◌then◌else◌,
}

-- [0-9]
abbrev pub is_digit : ℕ → Bool
is_digit c = leb 48 c && leb c 57

-- The zeros, beside 0x30, of the runs of ten decimal digits (general category Nd, Unicode 15.1).
other_zeros : List ℕ
other_zeros =
    0x660 ∷ 0x6f0 ∷ 0x7c0 ∷ 0x966 ∷ 0x9e6 ∷ 0xa66 ∷ 0xae6 ∷ 0xb66 ∷ 0xbe6 ∷ 0xc66 ∷ 0xce6 ∷ 0xd66
    ∷ 0xde6 ∷ 0xe50 ∷ 0xed0 ∷ 0xf20 ∷ 0x1040 ∷ 0x1090 ∷ 0x17e0 ∷ 0x1810 ∷ 0x1946 ∷ 0x19d0 ∷ 0x1a80
    ∷ 0x1a90 ∷ 0x1b50 ∷ 0x1bb0 ∷ 0x1c40 ∷ 0x1c50 ∷ 0xa620 ∷ 0xa8d0 ∷ 0xa900 ∷ 0xa9d0 ∷ 0xa9f0
    ∷ 0xaa50 ∷ 0xabf0 ∷ 0xff10 ∷ 0x104a0 ∷ 0x10d30 ∷ 0x11066 ∷ 0x110f0 ∷ 0x11136 ∷ 0x111d0 ∷ 0x112f0
    ∷ 0x11450 ∷ 0x114d0 ∷ 0x11650 ∷ 0x116c0 ∷ 0x11730 ∷ 0x118e0 ∷ 0x11950 ∷ 0x11c50 ∷ 0x11d50
    ∷ 0x11da0 ∷ 0x11f50 ∷ 0x16a60 ∷ 0x16ac0 ∷ 0x16b50 ∷ 0x1d7ce ∷ 0x1d7d8 ∷ 0x1d7e2 ∷ 0x1d7ec
    ∷ 0x1d7f6 ∷ 0x1e140 ∷ 0x1e2f0 ∷ 0x1e4f0 ∷ 0x1e950 ∷ 0x1fbf0 ∷ []

digit_in : List ℕ → ℕ → Option ℕ
digit_in [] c = none
digit_in (z ∷ zs) c = if leb z c && ltb c (z + 10) then some (c - z) else digit_in zs c

-- The value of a decimal digit that is not ASCII.
unfoldable pub other_decimal : ℕ → Option ℕ
unfolding digit_in other_zeros
other_decimal c = digit_in other_zeros c

-- `\d` in a pattern over `str`, with the value that `int` gives it.
unfoldable pub decimal : ℕ → Option ℕ
decimal c = if is_digit c then some (c - 48) else other_decimal c

pub decimal_ascii : (k : ℕ) → k < 10 → decimal (48 + k) ≡ some k
unfolding decimal
decimal_ascii k h = ground arith

-- int(digits) on `[0-9]+`, from the value read so far.
unfoldable pub read_digits : ℕ → Text → ℕ
read_digits n [] = n
read_digits n (c ∷ s) = read_digits (n * 10 + (c - 48)) s

-- str.isspace
unfoldable pub is_space : ℕ → Bool
is_space c =
    (leb 9 c && leb c 13)
    || (leb 28 c && leb c 32)
    || eqb c 0x85
    || eqb c 0xa0
    || eqb c 0x1680
    || (leb 0x2000 c && leb c 0x200a)
    || eqb c 0x2028
    || eqb c 0x2029
    || eqb c 0x202f
    || eqb c 0x205f
    || eqb c 0x3000

drop_spaces : Text → Text
drop_spaces [] = []
drop_spaces (c ∷ s) = if is_space c then drop_spaces s else c ∷ s

-- Digits with at most one `_` between two of them, with their number; `due` says that a digit must
-- come next.
underscored : Bool → ℕ → ℕ → Text → Option (ℕ × ℕ)
underscored due k n [] = if due then none else some (k, n)
underscored due k n (c ∷ s) = elim (decimal c) [
  | some v ↦ underscored false (k + 1) (n * 10 + v) s
  | none ↦ if eqb c b'_' && not due then underscored true k n s else none
]

signed : Text → Option (Bool × Text)
signed [] = none
signed (c ∷ s) =
    if eqb c b'-'
    then some (true, s)
    else if eqb c b'+'
    then some (false, s)
    else some (false, c ∷ s)

-- int(text): `none` is a ValueError, also for more than 4300 digits.
unfoldable pub int_of_text : Text → Option ℤ
unfolding drop_spaces signed underscored
int_of_text text = elim (signed (reverse (drop_spaces (reverse (drop_spaces text))))) [
  | none ↦ none
  | some (negative, s) ↦ elim (underscored true 0 0 s) [
    | none ↦ none
    | some (k, n) ↦ if ltb 4300 k then none else some (if negative then neg n else pos n)
  ]
]

-- str(n): the digits in front of those already printed, on fuel.
print_digits : ℕ → ℕ → Text → Text
print_digits zero n s = s
print_digits (suc f) n s =
    let rest = print_digits f (n / 10) ((48 + n % 10) ∷ s) in
    if ltb n 10 then (48 + n % 10) ∷ s else rest

unfoldable pub print : ℕ → Text
unfolding print_digits
print n = print_digits (suc n) n []

-- The two-digit and the four-digit fields of `strftime`.
unfoldable pub pad2 : ℕ → Text
pad2 n = (48 + n / 10 % 10) ∷ (48 + n % 10) ∷ []

unfoldable pub pad4 : ℕ → Text
pad4 n = (48 + n / 1000 % 10) ∷ (48 + n / 100 % 10) ∷ (48 + n / 10 % 10) ∷ (48 + n % 10) ∷ []
