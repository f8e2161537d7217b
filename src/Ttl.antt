-- ===== src/Ttl.antt =====
-- lambda/shardvpn/ttl.py: TTL parsing, expiry and durations. A `str` is a list of code points, a
-- `datetime` a count of microseconds. The text of a ValueError leaves out the value's `repr`, which
-- no caller reads.
pub mod Lifetime
pub mod Deadline
use shard_vpn.Prelude.{
  ℕ, ◌+◌, ◌*◌, ◌/◌, ◌%◌, Text, txt, ◌==◌, Bool, true, false, ◌||◌, Option, none, some, List, [],
  ◌∷◌, ◌++◌, length, leb, ltb, eqb, ℤ, pos_part, if◌then◌else◌,
}
use shard_vpn.Python.{Exc, Outcome, ok, err, ◌>>=◌}
use shard_vpn.Python.Json.{Json, null, str}
use shard_vpn.Python.Decimal.{is_digit, read_digits, print}
use shard_vpn.DateTime.{DateTime, second, end_of_time, strftime, strptime}

unfoldable pub never : Text
never = txt "never"

-- ttl in _NO_EXPIRY
unfoldable pub no_expiry : Text → Bool
no_expiry ttl = ttl == never || ttl == txt "none"

abbrev pub max_ttl_seconds : ℕ
max_ttl_seconds = 365 * 86_400

-- dt.astimezone(UTC).strftime(…): every `datetime` of the program is in UTC
unfoldable pub rfc3339 : DateTime → Text
rfc3339 dt = strftime dt

-- `none` is a ValueError
unfoldable pub parse_rfc3339 : Text → Option DateTime
parse_rfc3339 value = strptime value

-- _UNIT_SECONDS[unit] for the units that the pattern lets through
unfoldable pub unit_seconds : ℕ → Option ℕ
unit_seconds c =
    if eqb c b'm'
    then some 60
    else if eqb c b'h'
    then some 3600
    else if eqb c b'd'
    then some 86_400
    else none

-- The longest run of [0-9] in front, and what stands behind it.
unfoldable pub span_digits : Text → Text × Text
span_digits [] = ([], [])
span_digits (c ∷ s) =
    let (ds, rest) = span_digits s in if is_digit c then (c ∷ ds, rest) else ([], c ∷ s)

abbrev pub groups : Text → Text → Option (Text × ℕ)
groups (d ∷ ds) (c ∷ []) = elim (unit_seconds c) [ none ↦ none | some u ↦ some (d ∷ ds, u) ]
groups _ _ = none

-- The groups of \A([0-9]+)([mhd])\Z, the second as its seconds. No unit is a digit, so the longest
-- run of digits is the only one that can match.
unfoldable pub match_ttl : Text → Option (Text × ℕ)
match_ttl ttl = let (ds, rest) = span_digits ttl in groups ds rest

-- int(digits): Python refuses more than 4300 of them, by a ValueError
unfoldable pub int_of_digits : Text → Outcome ℕ
int_of_digits ds =
    if ltb 4300 (length ds)
    then err (Exc.value_error (txt "Exceeds the limit for integer string conversion"))
    else ok (read_digits 0 ds)

-- dt + timedelta(seconds=n)
unfoldable pub add_seconds : DateTime → ℕ → Outcome DateTime
add_seconds dt n =
    if ltb (dt + n * second) end_of_time
    then ok (dt + n * second)
    else err (Exc.overflow_error (txt "date value out of range"))

-- The tests behind the pattern: `n` is the count and `unit` the seconds of its unit.
unfoldable pub expiry : DateTime → ℕ → ℕ → Outcome Text
expiry now unit n =
    let seconds = n * unit in
    if ltb seconds 60
    then err (Exc.value_error (txt "ttl must be at least one minute"))
    else if ltb max_ttl_seconds seconds
    then err (Exc.value_error (txt "ttl exceeds one year"))
    else do expires ← add_seconds now seconds; ok (rfc3339 expires)

unfoldable pub parse_ttl_str : Text → DateTime → Outcome Text
parse_ttl_str ttl now = if no_expiry ttl then ok never else elim (match_ttl ttl) [
  | none ↦ err (Exc.value_error (txt "malformed ttl"))
  | some (ds, unit) ↦ int_of_digits ds >>= expiry now unit
]

-- parse_ttl(ttl, now), where `null` is None and any other JSON value may come from a request.
unfoldable pub parse_ttl : Json → DateTime → Outcome Text
parse_ttl null now = ok never
parse_ttl (str ttl) now = parse_ttl_str ttl now
parse_ttl _ now = err (Exc.value_error (txt "ttl must be a string"))

unfoldable pub is_expired : Text → DateTime → Bool
is_expired expires_at now =
    if expires_at == never
    then false
    else elim (parse_rfc3339 expires_at) [ none ↦ false | some t ↦ leb t now ]

unfoldable pub format_duration : ℤ → Text
format_duration seconds =
    let total = pos_part seconds in
    let days = total / 86_400 in
    let hours = total % 86_400 / 3600 in
    let minutes = total % 86_400 % 3600 / 60 in
    if ltb 0 days
    then print days ++ b'd' ∷ (print hours ++ b'h' ∷ (print minutes ++ b'm' ∷ []))
    else if ltb 0 hours
    then print hours ++ b'h' ∷ (print minutes ++ b'm' ∷ [])
    else print minutes ++ b'm' ∷ []
