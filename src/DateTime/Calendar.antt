-- ===== src/DateTime/Calendar.antt =====
-- The proleptic Gregorian calendar, as `datetime` computes it. Days are numbered from 0, which is
-- 0001-01-01.
use shard_vpn.Prelude.{
  ℕ, zero, suc, ◌+◌, ◌-◌, ◌*◌, ◌/◌, ◌%◌, Bool, not, ◌&&◌, ◌||◌, List, [], ◌∷◌, leb, ltb, eqb,
  if◌then◌else◌,
}

pub record Date : Type 0 where
  pub year : ℕ
  pub month : ℕ
  pub day : ℕ

unfoldable pub is_leap : ℕ → Bool
is_leap y = eqb (y % 4) 0 && (not (eqb (y % 100) 0) || eqb (y % 400) 0)

unfoldable pub february : Bool → ℕ
february leap = if leap then 29 else 28

-- The lengths of the months.
unfoldable pub lengths : Bool → List ℕ
lengths leap = 31 ∷ february leap ∷ 31 ∷ 30 ∷ 31 ∷ 30 ∷ 31 ∷ 31 ∷ 30 ∷ 31 ∷ 30 ∷ 31 ∷ []

-- The days in the first `k` months, and the length of month `k` from 0.
unfoldable pub before_month : List ℕ → ℕ → ℕ
before_month ls zero = 0
before_month [] (suc k) = 0
before_month (l ∷ ls) (suc k) = l + before_month ls k

unfoldable pub month_length : List ℕ → ℕ → ℕ
month_length [] k = 0
month_length (l ∷ ls) zero = l
month_length (l ∷ ls) (suc k) = month_length ls k

-- The days before January 1 of year `p + 1`.
unfoldable pub before_year : ℕ → ℕ
before_year p = p * 365 + p / 4 + p / 400 - p / 100

unfoldable pub is_date : Date → Bool
is_date d =
    leb 1 d.year
    && leb d.year 9999
    && leb 1 d.month
    && leb d.month 12
    && leb 1 d.day
    && leb d.day (month_length (lengths (is_leap d.year)) (d.month - 1))

unfoldable pub days_before : Date → ℕ
days_before d =
    before_year (d.year - 1) + before_month (lengths (is_leap d.year)) (d.month - 1) + (d.day - 1)

-- The month and the day, both from 0, of day `r` of a year.
unfoldable pub find_month : List ℕ → ℕ → ℕ × ℕ
find_month [] r = (0, r)
find_month (l ∷ ls) r = let (k, d) = find_month ls (r - l) in if ltb r l then (0, r) else (suc k, d)

-- The year and the day in it, both from 0, from the counts of 400, 100, 4 and single years.
unfoldable pub pick_year : ℕ → ℕ → ℕ → ℕ → ℕ → ℕ × ℕ
pick_year n400 n100 n4 n1 r =
    let p = n400 * 400 + n100 * 100 + n4 * 4 + n1 in
    if eqb n1 4 || eqb n100 4 then (p - 1, 365) else (p, r)

unfoldable pub find_year : ℕ → ℕ × ℕ
find_year n =
    let r1 = n % 146_097 in
    let r2 = r1 % 36_524 in
    let r3 = r2 % 1461 in pick_year (n / 146_097) (r1 / 36_524) (r2 / 1461) (r3 / 365) (r3 % 365)

unfoldable pub of_days : ℕ → Date
of_days n =
    let (p, r) = find_year n in
    let (k, d) = find_month (lengths (is_leap (p + 1))) r in
    record { year = p + 1; month = k + 1; day = d + 1 }
