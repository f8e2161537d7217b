-- ===== src/DateTime.antt =====
-- `datetime` as the program uses it: aware UTC values, subtraction, `strftime` and `strptime` with
-- the one format `%Y-%m-%dT%H:%M:%SZ`. A value is the number of microseconds since
-- 0001-01-01T00:00:00Z; the calendar is the proleptic Gregorian one.
pub mod Calendar
pub mod Fields
pub mod Days
pub mod RoundTrip
use Calendar.{Date, of_days, days_before, is_date}
use Fields.{
  is_dash, is_t, is_colon, is_z, field, year_field, month_field, day_field, hour_field,
  minute_field, second_field,
}
use shard_vpn.Prelude.{
  ℕ, ◌+◌, ◌-◌, ◌*◌, ◌/◌, ◌%◌, Text, txt, Bool, ◌||◌, ◌&&◌, Option, none, some, [], ◌∷◌, ◌++◌, leb,
  eqb, ℤ, pos, neg, if◌then◌else◌,
}
use shard_vpn.Python.Decimal.{pad2, pad4}

abbrev pub DateTime : Type 0
DateTime = ℕ

abbrev pub second : ℕ
second = 1_000_000

-- The first instant after year 9999.
abbrev pub end_of_time : DateTime
end_of_time = 3_652_059 * 86_400 * second

-- dt.strftime("%Y-%m-%dT%H:%M:%SZ")
unfoldable pub strftime : DateTime → Text
strftime t =
    let secs = t / second in
    let date = of_days (secs / 86_400) in
    let time = secs % 86_400 in
    pad4 date.year
    ++ b'-'
      ∷ (pad2 date.month
          ++ b'-'
            ∷ (pad2 date.day
                ++ b'T'
                  ∷ (pad2 (time / 3600)
                      ++ b':' ∷ (pad2 (time / 60 % 60) ++ b':' ∷ (pad2 (time % 60) ++ b'Z' ∷ [])))))

-- datetime(y, m, d, hour, minute, second): `none` is a ValueError.
unfoldable pub make : ℕ → ℕ → ℕ → ℕ → ℕ → ℕ → Option DateTime
make y m d hour minute sec =
    let date : Date = record { year = y; month = m; day = d } in
    if is_date date && leb hour 23 && leb minute 59 && leb sec 59
    then some ((days_before date * 86_400 + hour * 3600 + minute * 60 + sec) * second)
    else none

infixl 5 ◌>>=◌
abbrev ◌>>=◌ : {A B : Type 0} → Option A → (A → Option B) → Option B
none >>= f = none
some a >>= f = f a

abbrev at_end : Text → Option DateTime → Option DateTime
at_end [] r = r
at_end (_ ∷ _) r = none

-- datetime.strptime(value, "%Y-%m-%dT%H:%M:%SZ"): `none` is a ValueError. The pattern is compiled
-- with IGNORECASE, and its literals stand in no field, so each field ends at the next literal.
unfoldable pub strptime : Text → Option DateTime
strptime value = do
  (y, v) ← field is_dash year_field value
  (m, v) ← field is_dash month_field v
  (d, v) ← field is_t day_field v
  (hour, v) ← field is_colon hour_field v
  (minute, v) ← field is_colon minute_field v
  (sec, v) ← field is_z second_field v
  at_end v (make y m d hour minute sec)

-- int((a - b).total_seconds()): towards zero
unfoldable pub seconds_between : DateTime → DateTime → ℤ
seconds_between a b = if leb b a then pos ((a - b) / second) else neg ((b - a) / second)
