-- ===== src/Settings/Stored.antt =====
-- The pointer that `write_pointer` stores is the one that `read_pointer` returns.
use shard_vpn.Prelude.{
  ◌≡◌, refl, Text, txt, ◌==◌, ==_iff, ==_refl, ◌⊎◌, inl, inr, false, ◌||◌, Option, none, some, [],
  ◌∷◌, arith, eqb_text,
}
use shard_vpn.Python.{Exc, Outcome, ok, err}
use shard_vpn.Python.Json.{get}
use shard_vpn.World.{Env}
use shard_vpn.Settings.{
  Pointer, empty, pointer_of_json, loads_pointer, pointer_of_text, pointer_of_read, pointer_error,
  pointer_json, pointer_value,
}

-- `json` round-trips the objects that the code stores, and prints no object as "" or as "none".
pub record JsonObjects (env : Env) : Type 0 where
  pub loads-dumps : (p : Pointer) → env.loads (env.dumps (pointer_json p)) ≡ ok (pointer_json p)
  pub dumps-brace : (p : Pointer) → (s : Text) × (env.dumps (pointer_json p) ≡ b'{' ∷ s)

pointer_of_json-pointer_json : (p : Pointer) → pointer_of_json (pointer_json p) ≡ ok p
unfolding pointer_of_json pointer_json get eqb_text txt
pointer_of_json-pointer_json p = refl

brace-ne : (s : Text) → ((b'{' ∷ s) == [] || (b'{' ∷ s) == empty) ≡ false
unfolding eqb_text empty txt
brace-ne s = refl

-- What `write_pointer` stores for a pointer, or for none, `read_pointer` reads back as that.
pub pointer_of_text-pointer_value :
    (env : Env)
    → JsonObjects env
    → (p : Option Pointer) → pointer_of_text env (pointer_value env p) ≡ ok p
unfolding pointer_of_text pointer_value
pointer_of_text-pointer_value env json none = ground (arith, ==_refl empty)
pointer_of_text-pointer_value env json (some p) =
    let (s, brace) = json.dumps-brace p in
    let stored : (env.dumps (pointer_json p) == [] || env.dumps (pointer_json p) == empty) ≡ false =
      rw brace (brace-ne s) in
    let parsed : loads_pointer (env.loads (env.dumps (pointer_json p))) ≡ ok p =
      rw json.loads-dumps (unfold loads_pointer in pointer_of_json-pointer_json p) in
    rw (stored, parsed)

-- The ways in which "there is no node" is read.
pub data IsAbsent : Outcome Text → Type 0 where
  not_found : (message : Text) → IsAbsent (err (Exc.client_error (txt "ParameterNotFound") message))
  no_value : IsAbsent (ok [])
  cleared : IsAbsent (ok empty)

text_absent :
    (env : Env) (raw : Text) → pointer_of_text env raw ≡ ok none → (raw ≡ []) ⊎ (raw ≡ empty)
unfolding pointer_of_text
text_absent env raw h = ground (arith, ==_iff raw [], ==_iff raw empty)

error_absent :
    (e : Exc)
    → pointer_error e ≡ ok none
    → (message : Text) × (e ≡ Exc.client_error (txt "ParameterNotFound") message)
unfolding pointer_error
error_absent (Exc.client_error code message) h =
    (message, ground (arith, ==_iff code (txt "ParameterNotFound")))
error_absent _ h = absurd (cc)

-- Reading the pointer fails closed: it says that there is no node only if SSM says that there is no
-- such parameter, or holds an empty value or "none". After any other answer it raises or names a node.
pub pointer_of_read-IsAbsent :
    (env : Env) (r : Outcome Text) → pointer_of_read env r ≡ ok none → IsAbsent r
unfolding pointer_of_read
pointer_of_read-IsAbsent env (ok raw) h = elim (text_absent env raw h) [
  | inl e ↦ rw e no_value
  | inr e ↦ rw e cleared
]
pointer_of_read-IsAbsent env (err x) h =
    let (message, e) = error_absent x h in rw e (not_found message)
