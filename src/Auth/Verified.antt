-- ===== src/Auth/Verified.antt =====
-- What a verified signature says.
use shard_vpn.Prelude.{ℕ, ◌+◌, ◌≤◌, ◌≡◌, ◌↔◌, refl, Text, ==_iff, true, [], arith, inl, inr}
use shard_vpn.Python.{ok, Outcome-cases}
use shard_vpn.Python.Decimal.{read_digits}
use shard_vpn.Python.Json.{Json, str, obj, Fields}
use shard_vpn.World.{Env}
use shard_vpn.Auth.{
  timestamp_header, signature_header, max_skew_seconds, encode, header, is_timestamp, is_signature,
  is_stale, signed_message, check_signature, check_headers, verify,
}

-- A timestamp of 1 to 11 ASCII digits at most 120 seconds from `now`, and a signature of 64 lower
-- hexadecimal digits that is the HMAC of the timestamp as it was sent, a dot and the body.
pub record IsSigned (env : Env) (raw_ts provided body secret : Text) (now : ℕ) : Type 0 where
  pub timestamp : is_timestamp raw_ts ≡ true
  pub signature : is_signature provided ≡ true
  pub early : now ≤ read_digits 0 raw_ts + max_skew_seconds
  pub late : read_digits 0 raw_ts ≤ now + max_skew_seconds
  pub key : Text
  pub encoded : encode secret ≡ ok key
  pub hmac : env.hmac_sha256 key (signed_message raw_ts body) ≡ provided

module _ (env : Env) (raw_ts provided body secret : Text) (now : ℕ) where
  check_signature-IsSigned :
      check_signature env raw_ts provided body secret now ≡ ok tt
      → IsSigned env raw_ts provided body secret now
  unfolding check_signature is_stale
  check_signature-IsSigned h = elim (Outcome-cases (encode secret)) [
    | inl (k, e) ↦ record {
      timestamp = ground (arith, e);
      signature = ground (arith, e);
      early = ground (arith, e);
      late = ground (arith, e);
      key = k;
      encoded = e;
      hmac = ground (arith, e, ==_iff (env.hmac_sha256 k (signed_message raw_ts body)) provided);
    }
    | inr (x, e) ↦ absurd (ground (arith, e))
  ]

  IsSigned-check_signature :
      IsSigned env raw_ts provided body secret now
      → check_signature env raw_ts provided body secret now ≡ ok tt
  unfolding check_signature is_stale
  IsSigned-check_signature h =
      ground (arith, h, ==_iff (env.hmac_sha256 h.key (signed_message raw_ts body)) provided)

-- The two header values, found under any case of their names.
pub record IsVerified (env : Env) (headers : Fields) (body secret : Text) (now : ℕ) : Type 0 where
  pub raw_ts : Text
  pub provided : Text
  pub has_timestamp : header timestamp_header headers (str []) ≡ str raw_ts
  pub has_signature : header signature_header headers (str []) ≡ str provided
  pub signed : IsSigned env raw_ts provided body secret now

check_headers-IsSigned :
    (env : Env) (t p : Json) (body secret : Text) (now : ℕ)
    → check_headers env t p body secret now ≡ ok tt
    → (a : Text) × (b : Text) × (t ≡ str a) × (p ≡ str b) × IsSigned env a b body secret now
unfolding check_headers
check_headers-IsSigned env (str a) (str b) body secret now h =
    (a, b, refl, refl, check_signature-IsSigned env a b body secret now h)
check_headers-IsSigned env _ _ body secret now h = absurd (cc)

-- `verify` accepts exactly the requests with such headers.
pub verify-IsVerified :
    (env : Env) (headers : Fields) (body secret : Text) (now : ℕ)
    → (verify env (obj headers) body secret now ≡ ok tt) ↔ IsVerified env headers body secret now
unfolding verify
verify-IsVerified env headers body secret now = (
  (λ h.
      let (a, b, ea, eb, signed) = check_headers-IsSigned env _ _ body secret now h in
      record { raw_ts = a; provided = b; has_timestamp = ea; has_signature = eb; signed = signed }),
  (λ v.
      rw (v.has_timestamp, v.has_signature)
        (unfold check_headers in
          IsSigned-check_signature env v.raw_ts v.provided body secret now v.signed)),
)
