-- ===== src/DateTime/RoundTrip.antt =====
-- What `strftime` prints, `strptime` reads back.
use shard_vpn.DateTime.{DateTime, second, end_of_time, strftime, strptime, make}
use shard_vpn.DateTime.Calendar.{
  is_leap, lengths, february, month_length, Date, of_days, is_date, days_before,
}
use shard_vpn.DateTime.Days.{days_before-of_days, is_date-of_days}
use shard_vpn.DateTime.Fields.{
  is_dash, is_t, is_colon, is_z, field, split, year_field, month_field, day_field, hour_field,
  minute_field, second_field,
}
use shard_vpn.Prelude.{
  List, All, zero, suc, ap, ◌∙◌, ℕ, ◌+◌, ◌-◌, ◌*◌, ◌/◌, ◌%◌, ◌≤◌, ◌<◌, ◌≡◌, refl, Text, Bool, true,
  false, Option, some, [], ◌∷◌, ◌++◌, arith,
}
use shard_vpn.Python.Decimal.{decimal_ascii, pad2, pad4}

-- A separator that no digit is.
record IsSeparator (stop : ℕ → Bool) (c : ℕ) : Type 0 where
  stops : stop c ≡ true
  passes : (k : ℕ) → k < 10 → stop (48 + k) ≡ false

split-pad2 :
    (stop : ℕ → Bool) (c n : ℕ) (rest : Text)
    → IsSeparator stop c
    → split stop (pad2 n ++ c ∷ rest) ≡ some (pad2 n, rest)
unfolding split pad2
split-pad2 stop c n rest h =
    rw (h.passes (n / 10 % 10) (omega arith), h.passes (n % 10) (omega arith), h.stops)

split-pad4 :
    (stop : ℕ → Bool) (c n : ℕ) (rest : Text)
    → IsSeparator stop c
    → split stop (pad4 n ++ c ∷ rest) ≡ some (pad4 n, rest)
unfolding split pad4
split-pad4 stop c n rest h = rw (
  h.passes (n / 1000 % 10) (omega arith),
  h.passes (n / 100 % 10) (omega arith),
  h.passes (n / 10 % 10) (omega arith),
  h.passes (n % 10) (omega arith),
  h.stops,
)

month_field-pad2 : (n : ℕ) → 1 ≤ n → n ≤ 12 → month_field (pad2 n) ≡ some n
unfolding month_field pad2
month_field-pad2 n lo hi = ground arith

day_field-pad2 : (n : ℕ) → 1 ≤ n → n ≤ 31 → day_field (pad2 n) ≡ some n
unfolding day_field pad2
day_field-pad2 n lo hi = ground (arith, decimal_ascii (n % 10))

hour_field-pad2 : (n : ℕ) → n ≤ 23 → hour_field (pad2 n) ≡ some n
unfolding hour_field pad2
hour_field-pad2 n hi = ground (arith, decimal_ascii (n % 10))

minute_field-pad2 : (n : ℕ) → n ≤ 59 → minute_field (pad2 n) ≡ some n
unfolding minute_field pad2
minute_field-pad2 n hi = ground (arith, decimal_ascii (n % 10))

second_field-pad2 : (n : ℕ) → n ≤ 59 → second_field (pad2 n) ≡ some n
unfolding second_field pad2
second_field-pad2 n hi = ground (arith, decimal_ascii (n % 10))

year_field-pad4 : (n : ℕ) → n ≤ 9999 → year_field (pad4 n) ≡ some n
unfolding year_field pad4
year_field-pad4 n hi = ground (
  arith,
  decimal_ascii (n / 1000 % 10),
  decimal_ascii (n / 100 % 10),
  decimal_ascii (n / 10 % 10),
  decimal_ascii (n % 10),
)

module _ (stop : ℕ → Bool) (c : ℕ) (read : Text → Option ℕ) (n : ℕ) (rest : Text)
    (h : IsSeparator stop c) where
  field-pad2 : read (pad2 n) ≡ some n → field stop read (pad2 n ++ c ∷ rest) ≡ some (n, rest)
  unfolding field
  field-pad2 e = rw (split-pad2 stop c n rest h, e)

  field-pad4 : read (pad4 n) ≡ some n → field stop read (pad4 n ++ c ∷ rest) ≡ some (n, rest)
  unfolding field
  field-pad4 e = rw (split-pad4 stop c n rest h, e)

dash-IsSeparator : IsSeparator is_dash b'-'
dash-IsSeparator = record { stops = refl; passes = λ k h. ground arith }

t-IsSeparator : IsSeparator is_t b'T'
t-IsSeparator = record { stops = refl; passes = λ k h. ground arith }

colon-IsSeparator : IsSeparator is_colon b':'
colon-IsSeparator = record { stops = refl; passes = λ k h. ground arith }

z-IsSeparator : IsSeparator is_z b'Z'
z-IsSeparator = record { stops = refl; passes = λ k h. ground arith }

-- The fields of a date and a time that `make` accepts are read back.
strptime_fields :
    (y m d hour minute sec : ℕ)
    → y ≤ 9999
    → (1 ≤ m) × (m ≤ 12)
    → (1 ≤ d) × (d ≤ 31)
    → (hour ≤ 23) × (minute ≤ 59) × (sec ≤ 59)
    → strptime (
        pad4 y
        ++ b'-'
          ∷ (pad2 m
              ++ b'-'
                ∷ (pad2 d
                    ++ b'T'
                      ∷ (pad2 hour ++ b':' ∷ (pad2 minute ++ b':' ∷ (pad2 sec ++ b'Z' ∷ []))))))
      ≡ make y m d hour minute sec
unfolding strptime
strptime_fields y m d hour minute sec hy hm hd ht = rw (
  field-pad4 is_dash b'-' year_field y _ dash-IsSeparator (year_field-pad4 y hy),
  field-pad2 is_dash b'-' month_field m _ dash-IsSeparator (month_field-pad2 m hm.0 hm.1),
  field-pad2 is_t b'T' day_field d _ t-IsSeparator (day_field-pad2 d hd.0 hd.1),
  field-pad2 is_colon b':' hour_field hour _ colon-IsSeparator (hour_field-pad2 hour ht.0),
  field-pad2 is_colon b':' minute_field minute _ colon-IsSeparator (minute_field-pad2 minute ht.1),
  field-pad2 is_z b'Z' second_field sec _ z-IsSeparator (second_field-pad2 sec ht.2),
)

month_length-le : (leap : Bool) (k : ℕ) → month_length (lengths leap) k ≤ 31
unfolding month_length lengths february
month_length-le leap k = month_length_bound (lengths leap) k (ground arith)
  where
    month_length_bound : (ls : List ℕ) (k : ℕ) → All (λ l. l ≤ 31) ls → month_length ls k ≤ 31
    month_length_bound [] k h = omega arith
    month_length_bound (l ∷ ls) zero h = h.0
    month_length_bound (l ∷ ls) (suc k) h = month_length_bound ls k h.1

-- The ranges of the fields of a date.
record IsRange (d : Date) : Type 0 where
  years : d.year ≤ 9999
  months : (1 ≤ d.month) × (d.month ≤ 12)
  days : (1 ≤ d.day) × (d.day ≤ 31)

is_date-IsRange : (d : Date) → is_date d ≡ true → IsRange d
unfolding is_date
is_date-IsRange d h =
    let le = month_length-le (is_leap d.year) (d.month - 1) in
    record { years = ground arith; months = ground arith; days = ground (arith, le) }

make_date :
    (d : Date) (hour minute sec : ℕ)
    → is_date d ≡ true
    → (hour ≤ 23) × (minute ≤ 59) × (sec ≤ 59)
    → make d.year d.month d.day hour minute sec
      ≡ some ((days_before d * 86_400 + hour * 3600 + minute * 60 + sec) * second)
unfolding make
make_date d hour minute sec h t = ground arith

-- A time that is printed is read back without its microseconds, whatever the time up to the end of
-- year 9999.
pub strptime-strftime :
    (t : DateTime) → t < end_of_time → strptime (strftime t) ≡ some (t / second * second)
unfolding strftime
strptime-strftime t h =
    let n = t / second / 86_400 in
    let time = t / second % 86_400 in
    let valid = is_date-of_days n (omega arith) in
    let range = is_date-IsRange (of_days n) valid in
    let ht : (time / 3600 ≤ 23) × (time / 60 % 60 ≤ 59) × (time % 60 ≤ 59) =
      (omega arith, omega arith, omega arith) in
    strptime_fields (of_days n).year (of_days n).month (of_days n).day (time / 3600)
      (time / 60 % 60) (time % 60) range.years range.months range.days ht
    ∙ make_date (of_days n) (time / 3600) (time / 60 % 60) (time % 60) valid ht
    ∙ ap some (rw days_before-of_days (omega arith))
