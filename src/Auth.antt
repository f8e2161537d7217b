-- ===== src/Auth.antt =====
-- lambda/shardvpn/auth.py: HMAC request verification. Bytes are numbers below 256; a header value
-- is JSON of any type, as the event's is.
pub mod Verified
use shard_vpn.Prelude.{
  ℕ, ◌+◌, ◌-◌, ◌*◌, ◌/◌, ◌%◌, Text, txt, ◌==◌, Bool, true, false, not, ◌&&◌, ◌||◌, Option, none,
  some, List, [], ◌∷◌, ◌++◌, map, leb, ltb, eqb, length, if◌then◌else◌,
}
use shard_vpn.Python.{Exc, Outcome, ok, err, ◌>>=◌, is_value_error}
use shard_vpn.Python.Decimal.{is_digit, read_digits}
use shard_vpn.Python.Json.{
  Json, null, bool, int, float, str, arr, obj, Fields, field, end, get, get_or, truthy,
}
use shard_vpn.World.{Env}

unfoldable pub timestamp_header : Text
timestamp_header = txt "x-shardvpn-timestamp"

unfoldable pub signature_header : Text
signature_header = txt "x-shardvpn-signature"

abbrev pub max_skew_seconds : ℕ
max_skew_seconds = 120

-- The UTF-8 bytes of a code point; a surrogate has none.
unfoldable pub utf8_char : ℕ → Option Text
utf8_char c =
    if ltb c 0x80
    then some (c ∷ [])
    else if ltb c 0x800
    then some ((0xc0 + c / 64) ∷ (0x80 + c % 64) ∷ [])
    else if leb 0xd800 c && leb c 0xdfff
    then none
    else if ltb c 0x10000
    then some ((0xe0 + c / 4096) ∷ (0x80 + c / 64 % 64) ∷ (0x80 + c % 64) ∷ [])
    else some (
        (0xf0 + c / 262_144) ∷ (0x80 + c / 4096 % 64) ∷ (0x80 + c / 64 % 64) ∷ (0x80 + c % 64) ∷ [])

-- s.encode()
unfoldable pub encode : Text → Outcome Text
encode [] = ok []
encode (c ∷ s) = elim (utf8_char c) [
  | none ↦ err (Exc.unicode_error (txt "surrogates not allowed"))
  | some bs ↦ elim (encode s) [ err e ↦ err e | ok rest ↦ ok (bs ++ rest) ]
]

-- `except (binascii.Error, ValueError, TypeError)`
unfoldable pub decoded : Outcome Text → Outcome Text
decoded (ok bytes) = ok bytes
decoded (err (Exc.type_error _)) = err Exc.auth_error
decoded (err e) = if is_value_error e then err Exc.auth_error else err e

-- base64.b64decode(raw, validate=True): a value that is no `str` is a TypeError
unfoldable pub decode_body : Env → Json → Outcome Text
decode_body env (str s) = decoded (env.b64decode s)
decode_body env _ = err Exc.auth_error

-- raw.encode(): a value that is no `str` has no such method. A UnicodeEncodeError passes.
unfoldable pub encode_body : Json → Outcome Text
encode_body (str s) = encode s
encode_body _ = err Exc.auth_error

unfoldable pub extract_body : Env → Fields → Outcome Text
extract_body env event =
    let raw = get_or (txt "body") (str []) event in
    elim (get (txt "isBase64Encoded") event) [
      | none ↦ encode_body raw
      | some flag ↦ if truthy flag then decode_body env raw else encode_body raw
    ]

-- str.lower, on the ASCII letters. No other character has a lower case within the two header names.
unfoldable pub lower : Text → Text
lower = map (λ c. if leb b'A' c && leb c b'Z' then c + 32 else c)

-- {k.lower(): v …}.get(name, ""): of the keys that become equal the last one counts
unfoldable pub header : Text → Fields → Json → Json
header name end found = found
header name (field k v fs) found = header name fs (if lower k == name then v else found)

unfoldable pub all_chars : (ℕ → Bool) → Text → Bool
all_chars p [] = true
all_chars p (c ∷ s) = p c && all_chars p s

-- \A[0-9]{1,11}\Z
unfoldable pub is_timestamp : Text → Bool
is_timestamp s = all_chars is_digit s && leb 1 (length s) && leb (length s) 11

-- \A[0-9a-f]{64}\Z
unfoldable pub is_signature : Text → Bool
is_signature s = all_chars (λ c. is_digit c || (leb b'a' c && leb c b'f')) s && eqb (length s) 64

-- abs(now - ts) > max_skew
unfoldable pub is_stale : ℕ → ℕ → Bool
is_stale now ts = ltb max_skew_seconds ((now - ts) + (ts - now))

-- The bytes that the client signed.
unfoldable pub signed_message : Text → Text → Text
signed_message raw_ts body = raw_ts ++ (b'.' ∷ body)

-- The checks from the shape of the two headers on.
unfoldable pub check_signature : Env → Text → Text → Text → Text → ℕ → Outcome (Unit {0})
check_signature env raw_ts provided body secret now =
    if not (is_timestamp raw_ts && is_signature provided)
    then err Exc.auth_error
    else if is_stale now (read_digits 0 raw_ts)
    then err Exc.auth_error
    else elim (encode secret) [
      | err e ↦ err e
      | ok key ↦
          if env.hmac_sha256 key (signed_message raw_ts body) == provided
          then ok tt
          else err Exc.auth_error
    ]

-- `_TIMESTAMP_RE.match` and `_SIGNATURE_RE.match` raise a TypeError on a value that is no `str`,
-- which becomes an AuthError.
unfoldable pub check_headers : Env → Json → Json → Text → Text → ℕ → Outcome (Unit {0})
check_headers env (str raw_ts) (str provided) body secret now =
    check_signature env raw_ts provided body secret now
check_headers env _ _ body secret now = err Exc.auth_error

-- verify(headers, raw_body, secret, now)
unfoldable pub verify : Env → Json → Text → Text → ℕ → Outcome (Unit {0})
verify env (obj headers) body secret now =
    check_headers env (header timestamp_header headers (str []))
      (header signature_header headers (str [])) body secret now
verify env _ body secret now = err Exc.auth_error
