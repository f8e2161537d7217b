-- ===== src/Ttl/Deadline.antt =====
-- The expiry that `parse_ttl` computes, and when `is_expired` says that it has passed.
use shard_vpn.Prelude.{
  length, refl, ℕ, ◌+◌, ◌*◌, ◌/◌, ◌≤◌, ◌<◌, ◌≡◌, ◌⊎◌, inl, inr, Text, txt, ==_iff, ==_refl, true,
  false, none, some, arith, ltb, leb, Bool-cases, Option-cases,
}
use shard_vpn.Python.{is_value_error, Exc, ok, err, ◌>>=◌}
use shard_vpn.Python.Json.{Json, null, str}
use shard_vpn.Python.Decimal.{read_digits}
use shard_vpn.DateTime.{strptime, DateTime, second, end_of_time}
use shard_vpn.DateTime.Fields.{field, split}
use shard_vpn.DateTime.RoundTrip.{strptime-strftime}
use shard_vpn.Ttl.Lifetime.{
  IsLifetime, IsUnlimited, absent, match_ttl-IsLifetime, no_expiry-IsUnlimited,
}
use shard_vpn.Ttl.{
  never, no_expiry, max_ttl_seconds, rfc3339, parse_rfc3339, match_ttl, int_of_digits, add_seconds,
  expiry, parse_ttl_str, parse_ttl, is_expired,
}

-- The expiry that a TTL of `n` seconds gives: whole seconds, between a minute and a year away.
pub record IsDeadline (now : DateTime) (n : ℕ) (e : Text) : Type 0 where
  pub at_least : 60 ≤ n
  pub at_most : n ≤ max_ttl_seconds
  pub reads : parse_rfc3339 e ≡ some ((now + n * second) / second * second)

-- The stamp of a time, up to the end of year 9999, reads back as that time without its microseconds.
pub parse_rfc3339-rfc3339 :
    (t : DateTime) → t < end_of_time → parse_rfc3339 (rfc3339 t) ≡ some (t / second * second)
unfolding parse_rfc3339 rfc3339
parse_rfc3339-rfc3339 t h = strptime-strftime t h

expiry-IsDeadline :
    (now : DateTime) (unit n : ℕ) (e : Text)
    → expiry now unit n ≡ ok e
    → IsDeadline now (n * unit) e
unfolding expiry add_seconds
expiry-IsDeadline now unit n e h = ground (arith, parse_rfc3339-rfc3339 (now + n * unit * second))

int_of_digits-IsDeadline :
    (ds : Text) (unit : ℕ) (now : DateTime) (e : Text)
    → (int_of_digits ds >>= expiry now unit) ≡ ok e
    → IsDeadline now (read_digits 0 ds * unit) e
unfolding int_of_digits
int_of_digits-IsDeadline ds unit now e h = elim (Bool-cases (ltb 4300 (length ds))) [
  | inl long ↦ cc (rw long at h)
  | inr short ↦ expiry-IsDeadline now unit (read_digits 0 ds) e (rw short at h)
]

-- No end for a TTL that has none, and otherwise the deadline of the TTL's length.
abbrev pub Accepted : Json → DateTime → Text → Type 0
Accepted ttl now e =
    (IsUnlimited ttl × (e ≡ never)) ⊎ ((n : ℕ) × IsLifetime ttl n × IsDeadline now n e)

parse_ttl_str-Accepted :
    (ttl : Text) (now : DateTime) (e : Text)
    → parse_ttl_str ttl now ≡ ok e
    → Accepted (str ttl) now e
unfolding parse_ttl_str
parse_ttl_str-Accepted ttl now e h = elim (Bool-cases (no_expiry ttl)) [
  | inl none_given ↦ inl (no_expiry-IsUnlimited ttl none_given, ground arith)
  | inr given ↦ elim (Option-cases (match_ttl ttl)) [
    | inl malformed ↦ absurd (ground arith)
    | inr (p, matched) ↦ inr (
      read_digits 0 p.0 * p.1,
      match_ttl-IsLifetime ttl p matched,
      int_of_digits-IsDeadline p.0 p.1 now e (rw (given, matched) at h),
    )
  ]
]

-- Whatever JSON value is given as the TTL, `parse_ttl` returns 'never', for null, "never" and "none"
-- alone, or the value is a decimal count with the letter of a unit, and the result a timestamp that
-- reads back as the current time plus that many minutes, hours or days, in whole seconds, between a
-- minute and a year away.
pub parse_ttl-IsDeadline :
    (ttl : Json) (now : DateTime) (e : Text) → parse_ttl ttl now ≡ ok e → Accepted ttl now e
unfolding parse_ttl
parse_ttl-IsDeadline null now e h = inl (absent, ground arith)
parse_ttl-IsDeadline (str ttl) now e h = parse_ttl_str-Accepted ttl now e h
parse_ttl-IsDeadline _ now e h = absurd (cc)

-- Up to a year before the end of year 9999, `parse_ttl` raises nothing but a ValueError, whatever
-- JSON value it is given: its callers catch everything that it raises.
pub parse_ttl_raises :
    (ttl : Json) (now : DateTime) (x : Exc)
    → now + max_ttl_seconds * second < end_of_time
    → parse_ttl ttl now ≡ err x
    → is_value_error x ≡ true
unfolding parse_ttl parse_ttl_str int_of_digits expiry add_seconds
parse_ttl_raises ttl now x room h = ground arith

-- 'never' does not read as a time.
never-ne : parse_rfc3339 never ≡ none
unfolding parse_rfc3339 strptime never txt field split
never-ne = refl

-- A node launched with an accepted TTL never expires if the TTL is null, "never" or "none"; otherwise the
-- TTL is a decimal count with the letter of a unit, and the node has expired exactly from the launch
-- time plus that many minutes, hours or days on, in whole seconds.
pub is_expired-parse_ttl :
    (ttl : Json) (launched : DateTime) (e : Text)
    → parse_ttl ttl launched ≡ ok e
    → (IsUnlimited ttl × ((now : DateTime) → is_expired e now ≡ false))
      ⊎ ((n : ℕ) × IsLifetime ttl n
          × (60 ≤ n)
          × (n ≤ max_ttl_seconds)
          × ((now : DateTime)
              → is_expired e now ≡ leb ((launched + n * second) / second * second) now))
unfolding is_expired
is_expired-parse_ttl ttl launched e h = elim (parse_ttl-IsDeadline ttl launched e h) [
  | inl (unlimited, without) ↦ inl (unlimited, λ now. rw (without, ==_refl))
  | inr (n, length, d) ↦
      inr
        (n, length, d.at_least, d.at_most, λ now. ground (arith, d.reads, never-ne, ==_iff e never))
]
