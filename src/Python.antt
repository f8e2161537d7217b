-- ===== src/Python.antt =====
-- The parts of Python that the program stands on: exceptions, JSON values, decimal digits.
pub mod Json
pub mod Decimal
use shard_vpn.Prelude.{◌≡◌, refl, ◌⊎◌, inl, inr, ℕ, Text, txt, Bool, true, false}

-- The exceptions that the code raises, catches by name or shows in a message. `other` is any
-- further one, by the name of its type and by its `str()`.
pub data Exc : Type 0 where
  -- shardvpn.auth.AuthError
  auth_error : Exc
  -- shardvpn.settings.PointerUnavailable
  pointer_unavailable : Text → Exc
  -- shardvpn.tailscale.TailscaleError
  tailscale_error : Text → Exc
  -- urllib.error.HTTPError: its code and its text
  http_error : ℕ → Text → Exc
  -- botocore.exceptions.ClientError: its error code and its text
  client_error : Text → Text → Exc
  -- binascii.Error, json.JSONDecodeError, UnicodeEncodeError: subclasses of ValueError
  binascii_error : Text → Exc
  json_decode_error : Text → Exc
  unicode_error : Text → Exc
  value_error key_error type_error attribute_error overflow_error runtime_error : Text → Exc
  other : Text → Text → Exc

-- What a call returns or raises.
pub data Outcome {ℓ} (A : Type ℓ) : Type ℓ where
  ok : A → Outcome A
  err : Exc → Outcome A

infixl 5 ◌>>=◌
abbrev pub ◌>>=◌ {ℓ κ} : {A : Type ℓ} {B : Type κ} → Outcome A → (A → Outcome B) → Outcome B
ok a >>= f = f a
err e >>= f = err e

pub Outcome-cases {ℓ} :
    {A : Type ℓ} (r : Outcome A) → ((a : A) × (r ≡ ok a)) ⊎ ((e : Exc) × (r ≡ err e))
Outcome-cases (ok a) = inl (a, refl)
Outcome-cases (err e) = inr (e, refl)

-- `except ValueError`
abbrev pub is_value_error : Exc → Bool
is_value_error (Exc.value_error _) = true
is_value_error (Exc.binascii_error _) = true
is_value_error (Exc.json_decode_error _) = true
is_value_error (Exc.unicode_error _) = true
is_value_error _ = false

-- `str(exc)`
unfoldable pub exc_str : Exc → Text
exc_str Exc.auth_error = txt ""
exc_str (Exc.pointer_unavailable m) = m
exc_str (Exc.tailscale_error m) = m
exc_str (Exc.http_error _ m) = m
exc_str (Exc.client_error _ m) = m
exc_str (Exc.binascii_error m) = m
exc_str (Exc.json_decode_error m) = m
exc_str (Exc.unicode_error m) = m
exc_str (Exc.value_error m) = m
exc_str (Exc.key_error m) = m
exc_str (Exc.type_error m) = m
exc_str (Exc.attribute_error m) = m
exc_str (Exc.overflow_error m) = m
exc_str (Exc.runtime_error m) = m
exc_str (Exc.other _ m) = m

-- `type(exc).__name__`
unfoldable pub exc_name : Exc → Text
exc_name Exc.auth_error = txt "AuthError"
exc_name (Exc.pointer_unavailable _) = txt "PointerUnavailable"
exc_name (Exc.tailscale_error _) = txt "TailscaleError"
exc_name (Exc.http_error _ _) = txt "HTTPError"
exc_name (Exc.client_error _ _) = txt "ClientError"
exc_name (Exc.binascii_error _) = txt "Error"
exc_name (Exc.json_decode_error _) = txt "JSONDecodeError"
exc_name (Exc.unicode_error _) = txt "UnicodeError"
exc_name (Exc.value_error _) = txt "ValueError"
exc_name (Exc.key_error _) = txt "KeyError"
exc_name (Exc.type_error _) = txt "TypeError"
exc_name (Exc.attribute_error _) = txt "AttributeError"
exc_name (Exc.overflow_error _) = txt "OverflowError"
exc_name (Exc.runtime_error _) = txt "RuntimeError"
exc_name (Exc.other n _) = n
