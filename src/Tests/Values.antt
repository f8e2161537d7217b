-- ===== src/Tests/Values.antt =====
-- Lifetimes, times, pointers, secrets and signatures at concrete inputs.

use shard_vpn.Prelude.{
  ℕ, ◌+◌, ◌*◌, ◌/◌, ◌≤◌, ◌≡◌, refl, ◌⊎◌, ◌↔◌, txt, eqb_text, true, false, leb, none, some, [],
  arith,
}
use shard_vpn.Python.{Exc, ok, err, is_value_error}
use shard_vpn.Python.Decimal.{read_digits}
use shard_vpn.Python.Json.{str, obj, Fields, field, end}
use shard_vpn.DateTime.{second}
use shard_vpn.Ttl.{
  never, no_expiry, max_ttl_seconds, span_digits, match_ttl, unit_seconds, int_of_digits,
  add_seconds, expiry, rfc3339, parse_rfc3339, parse_ttl_str, parse_ttl, is_expired,
}
use shard_vpn.Ttl.Lifetime.{IsLifetime, IsUnlimited}
use shard_vpn.Ttl.Deadline.{
  Accepted, parse_rfc3339-rfc3339, parse_ttl-IsDeadline, parse_ttl_raises, is_expired-parse_ttl,
}
use shard_vpn.Settings.{
  pointer_of_text, pointer_value, pointer_of_read, pointer_error, cached_secret,
}
use shard_vpn.Settings.Stored.{IsAbsent, pointer_of_text-pointer_value, pointer_of_read-IsAbsent}
use shard_vpn.Settings.Cached.{Served, cached_secret-Served}
use shard_vpn.Auth.{verify}
use shard_vpn.Auth.Verified.{IsVerified, verify-IsVerified}
use shard_vpn.Tests.World.{cloud, cloud-JsonObjects, fresh, noon, node}

two_hours : parse_ttl (str (txt "2h")) noon ≡ ok (rfc3339 (noon + 7200 * second))
unfolding parse_ttl parse_ttl_str no_expiry never eqb_text match_ttl span_digits unit_seconds
    int_of_digits expiry add_seconds read_digits txt
two_hours = refl

parse_ttl-IsDeadline_example : Accepted (str (txt "2h")) noon (rfc3339 (noon + 7200 * second))
parse_ttl-IsDeadline_example =
    parse_ttl-IsDeadline (str (txt "2h")) noon (rfc3339 (noon + 7200 * second)) two_hours

is_expired-parse_ttl_example :
    (IsUnlimited (str (txt "2h"))
      × ((now : ℕ) → is_expired (rfc3339 (noon + 7200 * second)) now ≡ false))
    ⊎ ((n : ℕ) × IsLifetime (str (txt "2h")) n
        × (60 ≤ n)
        × (n ≤ max_ttl_seconds)
        × ((now : ℕ)
            → is_expired (rfc3339 (noon + 7200 * second)) now
              ≡ leb ((noon + n * second) / second * second) now))
is_expired-parse_ttl_example =
    is_expired-parse_ttl (str (txt "2h")) noon (rfc3339 (noon + 7200 * second)) two_hours

too_short :
    parse_ttl (str (txt "0m")) noon ≡ err (Exc.value_error (txt "ttl must be at least one minute"))
unfolding parse_ttl parse_ttl_str no_expiry never eqb_text match_ttl span_digits unit_seconds
    int_of_digits expiry read_digits txt
too_short = refl

parse_ttl_raises_example :
    is_value_error (Exc.value_error (txt "ttl must be at least one minute")) ≡ true
parse_ttl_raises_example = parse_ttl_raises (str (txt "0m")) noon _ (omega arith) too_short

parse_rfc3339-rfc3339_example : parse_rfc3339 (rfc3339 noon) ≡ some (noon / second * second)
parse_rfc3339-rfc3339_example = parse_rfc3339-rfc3339 noon (omega arith)

pointer_of_text-pointer_value_example :
    pointer_of_text cloud (pointer_value cloud (some node)) ≡ ok (some node)
pointer_of_text-pointer_value_example =
    pointer_of_text-pointer_value cloud cloud-JsonObjects (some node)

cached_secret-Served_example :
    Served
      (txt "eu-west-1")
      (txt "/shardvpn/signing-secret")
      5
      cloud
      fresh
      (cached_secret (txt "eu-west-1") (txt "/shardvpn/signing-secret") 5 cloud fresh)
cached_secret-Served_example =
    cached_secret-Served (txt "eu-west-1") (txt "/shardvpn/signing-secret") 5 cloud fresh

missing : pointer_of_read cloud (err (Exc.client_error (txt "ParameterNotFound") [])) ≡ ok none
unfolding pointer_of_read pointer_error eqb_text txt
missing = refl

pointer_of_read-IsAbsent_example : IsAbsent (err (Exc.client_error (txt "ParameterNotFound") []))
pointer_of_read-IsAbsent_example =
    pointer_of_read-IsAbsent cloud (err (Exc.client_error (txt "ParameterNotFound") [])) missing

abbrev headers : Fields
headers =
    field (txt "X-ShardVPN-Timestamp") (str (txt "1785585600"))
      (field (txt "x-shardvpn-signature") (str (txt "00")) end)

verify-IsVerified_example :
    (verify cloud (obj headers) (txt "{}") (txt "s3cret") 1_785_585_600 ≡ ok tt)
    ↔ IsVerified cloud headers (txt "{}") (txt "s3cret") 1_785_585_600
verify-IsVerified_example = verify-IsVerified cloud headers (txt "{}") (txt "s3cret") 1_785_585_600
