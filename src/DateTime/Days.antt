-- ===== src/DateTime/Days.antt =====
-- Day numbers and dates: `of_days` finds the date that `days_before` counts up to.
use shard_vpn.DateTime.Calendar.{
  is_leap, february, lengths, before_month, month_length, before_year, is_date, days_before,
  find_month, pick_year, find_year, of_days,
}
use shard_vpn.Prelude.{
  ℕ, suc, ◌+◌, ◌-◌, ◌*◌, ◌/◌, ◌%◌, ◌≤◌, ◌<◌, ◌≡◌, refl, Bool, true, List, [], ◌∷◌, arith, not, ◌&&◌,
  ◌||◌, ltb, eqb, if◌then◌else◌, Bool-cases, inl, inr,
}

-- The days in a whole list of months.
abbrev total : List ℕ → ℕ
total [] = 0
total (l ∷ ls) = l + total ls

-- The month that is found holds the day that is found.
find_month_lem :
    (ls : List ℕ) (r : ℕ)
    → r < total ls
    → (before_month ls (find_month ls r).0 + (find_month ls r).1 ≡ r)
      × ((find_month ls r).1 < month_length ls (find_month ls r).0)
unfolding find_month before_month month_length
find_month_lem [] r h = absurd (omega arith)
find_month_lem (l ∷ ls) r h = ground (arith, find_month_lem ls (r - l))

abbrev size : List ℕ → ℕ
size [] = 0
size (l ∷ ls) = suc (size ls)

find_month-lt : (ls : List ℕ) (r : ℕ) → r < total ls → (find_month ls r).0 < size ls
unfolding find_month
find_month-lt [] r h = absurd (omega arith)
find_month-lt (l ∷ ls) r h = ground (arith, find_month-lt ls (r - l))

year_length : (leap : Bool) → total (lengths leap) ≡ 337 + february leap
unfolding lengths
year_length leap = omega arith

february_lem : (leap : Bool) → february leap ≡ (if leap then 29 else 28)
unfolding february
february_lem leap = refl

-- What the five counts of `find_year` satisfy.
record IsCount (b c d r : ℕ) : Type 0 where
  hundreds : b ≤ 4
  fours : c ≤ 24
  ones : d ≤ 4
  rest : r < 365
  last_hundred : b ≡ 4 → (c ≡ 0) × (d ≡ 0) × (r ≡ 0)
  last_one : d ≡ 4 → (r ≡ 0) × (c < 24)

counts :
    (n : ℕ)
    → n < 146_097
    → IsCount (n / 36_524) (n % 36_524 / 1461) (n % 36_524 % 1461 / 365) (n % 36_524 % 1461 % 365)
counts n h = record {
  hundreds = omega arith;
  fours = omega arith;
  ones = omega arith;
  rest = omega arith;
  last_hundred = λ e. (omega arith, omega arith, omega arith);
  last_one = λ e. (omega arith, omega arith);
}

abbrev years : ℕ → ℕ → ℕ → ℕ → ℕ
years a b c d = a * 400 + b * 100 + c * 4 + d

before_year-years :
    (a b c d : ℕ)
    → b ≤ 3
    → c ≤ 24
    → d ≤ 3
    → before_year (years a b c d) ≡ 146_097 * a + 36_524 * b + 1461 * c + 365 * d
unfolding before_year
before_year-years a b c d hb hc hd =
    let e1 : years a b c d / 4 ≡ a * 100 + b * 25 + c = omega arith in
    let e2 : years a b c d / 100 ≡ a * 4 + b = omega arith in
    let e3 : years a b c d / 400 ≡ a = omega arith in omega arith

is_leap-years :
    (a b c d : ℕ)
    → b ≤ 3
    → c ≤ 24
    → d ≤ 3
    → is_leap (years a b c d + 1) ≡ (eqb d 3 && (not (eqb c 24) || eqb b 3))
unfolding is_leap
is_leap-years a b c d hb hc hd = ground arith

-- The year that is picked starts at or before the day, and the rest lies in the year.
record IsYear (n : ℕ) (pr : ℕ × ℕ) : Type 0 where
  starts : before_year pr.0 + pr.1 ≡ n
  within : pr.1 < 337 + february (is_leap (pr.0 + 1))

pick_year-IsYear :
    (a b c d r : ℕ)
    → IsCount b c d r
    → IsYear (146_097 * a + 36_524 * b + 1461 * c + 365 * d + r) (pick_year a b c d r)
unfolding pick_year
pick_year-IsYear a b c d r k = elim (Bool-cases (eqb b 4)) [
  | inl full ↦
      let hb : b ≡ 4 = ground arith in
      let e : years a b c d - 1 ≡ years a 3 24 3 = omega (arith, k.last_hundred hb) in
      let s : IsYear _ (years a b c d - 1, 365) = rw e (record {
        starts = omega (arith, before_year-years a 3 24 3, k.last_hundred hb);
        within =
            rw (is_leap-years a 3 24 3 (omega arith) (omega arith) (omega arith), february_lem)
              (omega arith);
      }) in
      elim (Bool-cases (eqb d 4)) [ inl one ↦ rw (one) s | inr less ↦ rw (less, full) s ]
  | inr part ↦ elim (Bool-cases (eqb d 4)) [
    | inl one ↦
        let hd : d ≡ 4 = ground arith in
        let hb : b ≤ 3 = ground (arith, k) in
        let e : years a b c d - 1 ≡ years a b c 3 = omega arith in
        rw (one, e)
          (record {
            starts = omega (arith, before_year-years a b c 3, k.last_one hd);
            within =
                rw (is_leap-years a b c 3 hb k.fours (omega arith), february_lem)
                  (ground (arith, k.last_one hd));
          })
    | inr less ↦
        let hd : d ≤ 3 = ground (arith, k) in
        let hb : b ≤ 3 = ground (arith, k) in
        rw (less, part)
          (record {
            starts = omega (arith, before_year-years a b c d);
            within = rw (is_leap-years a b c d hb k.fours hd, february_lem) (ground (arith, k));
          })
  ]
]

find_year-IsYear : (n : ℕ) → IsYear n (find_year n)
unfolding find_year
find_year-IsYear n =
    let e : 146_097 * (n / 146_097)
          + 36_524 * (n % 146_097 / 36_524)
          + 1461 * (n % 146_097 % 36_524 / 1461)
          + 365 * (n % 146_097 % 36_524 % 1461 / 365)
          + n % 146_097 % 36_524 % 1461 % 365
        ≡ n =
      omega arith in
    rw e at (
      pick_year-IsYear (n / 146_097) (n % 146_097 / 36_524) (n % 146_097 % 36_524 / 1461)
        (n % 146_097 % 36_524 % 1461 / 365) (n % 146_097 % 36_524 % 1461 % 365)
        (counts (n % 146_097) (omega arith)))

-- The month in which day `r` of a year lies.
month_of_year :
    (leap : Bool) (r : ℕ)
    → r < 337 + february leap
    → (before_month (lengths leap) (find_month (lengths leap) r).0 + (find_month (lengths leap) r).1
        ≡ r)
      × ((find_month (lengths leap) r).1
          < month_length (lengths leap) (find_month (lengths leap) r).0)
      × ((find_month (lengths leap) r).0 < 12)
month_of_year leap r h =
    let inside : r < total (lengths leap) = rw year_length h in
    let found = find_month_lem (lengths leap) r inside in
    (found.0, found.1, unfold lengths in find_month-lt (lengths leap) r inside)

pred-add_one : (k : ℕ) → k + 1 - 1 ≡ k
pred-add_one k = omega arith

-- The date of a day number is the date that the day number counts up to.
pub days_before-of_days : (n : ℕ) → days_before (of_days n) ≡ n
unfolding days_before of_days
days_before-of_days n =
    let found = find_year-IsYear n in
    let (p, r) = find_year n in
    let month = month_of_year (is_leap (p + 1)) r found.within in
    rw (pred-add_one p, pred-add_one (find_month (lengths (is_leap (p + 1))) r).0)
      (omega (arith, found.starts, month))

before_year-ge : (p : ℕ) → 9999 ≤ p → 3_652_059 ≤ before_year p
unfolding before_year
before_year-ge p h = omega arith

year_bound : (n : ℕ) → n < 3_652_059 → (find_year n).0 < 9999
year_bound n h = elim (Bool-cases (ltb (find_year n).0 9999)) [
  | inl small ↦ ground arith
  | inr large ↦ absurd (ground (arith, (find_year-IsYear n).starts, before_year-ge (find_year n).0))
]

-- Below year 10000 it is a date that `datetime` accepts.
pub is_date-of_days : (n : ℕ) → n < 3_652_059 → is_date (of_days n) ≡ true
unfolding is_date of_days
is_date-of_days n h =
    let leap = is_leap ((find_year n).0 + 1) in
    let month = month_of_year leap (find_year n).1 (find_year-IsYear n).within in
    ground (arith, year_bound n h, month)
