-- ===== src/Settings.antt =====
-- lambda/shardvpn/settings.py: configuration in SSM, the secret cache and the pointer to the
-- current node. A `ssm` client is its region.
pub mod Stored
pub mod Cached
use shard_vpn.Prelude.{
  ℕ, ◌+◌, ◌*◌, Text, txt, ◌==◌, Bool, true, false, ◌||◌, Option, none, some, List, [], ◌∷◌, ltb,
  if◌then◌else◌,
}
use shard_vpn.Python.{Exc, Outcome, ok, err}
use shard_vpn.Python.Json.{Json, str, obj, Fields, field, end, get}
use shard_vpn.World.{Env, Call}
use shard_vpn.Exec.{State, Exec, pure, raise, asks, call, attempt, ◌>>=◌, ◌>>◌}

-- The keys of PARAM_NAMES.
pub data Param : Type 0 where
  signing_secret ts_client_id ts_client_secret default_region default_ttl instance_type : Param
  idle_threshold_bytes current_node : Param

-- PARAM_NAMES[key]
unfoldable pub param_name : Param → Text
param_name signing_secret = txt "/shardvpn/signing-secret"
param_name ts_client_id = txt "/shardvpn/tailscale-client-id"
param_name ts_client_secret = txt "/shardvpn/tailscale-client-secret"
param_name default_region = txt "/shardvpn/default-region"
param_name default_ttl = txt "/shardvpn/default-ttl"
param_name instance_type = txt "/shardvpn/instance-type"
param_name idle_threshold_bytes = txt "/shardvpn/idle-threshold-bytes"
param_name current_node = txt "/shardvpn/current-node"

-- EMPTY
unfoldable pub empty : Text
empty = txt "none"

-- SECRET_TTL_SECONDS, in microseconds
abbrev pub secret_ttl : ℕ
secret_ttl = 300 * 1_000_000

unfoldable pub placeholder_signing_secret : Text
placeholder_signing_secret = txt "PLACEHOLDER-set-with-aws-ssm-put-parameter"

pub record Pointer : Type 0 where
  pub region : Text
  pub instance_id : Text

unfoldable pub get_parameter : Text → Text → Bool → Exec Text
get_parameter ssm name decrypt =
    call (Call.get_parameter ssm name decrypt) (λ env h. env.get_parameter h ssm name decrypt)

abbrev pub Cache : Type 0
Cache = List (Text × ℕ × Text)

unfoldable pub cache_get : Text → Cache → Option (ℕ × Text)
cache_get name [] = none
cache_get name ((k, at, value) ∷ c) = if name == k then some (at, value) else cache_get name c

-- _SECRET_CACHE[name] = (now, value)
unfoldable pub cache_put : Text → ℕ → Text → Cache → Cache
cache_put name now value [] = (name, now, value) ∷ []
cache_put name now value ((k, at, v) ∷ c) =
    if name == k then (name, now, value) ∷ c else (k, at, v) ∷ cache_put name now value c

-- The cached value, while `now - at < SECRET_TTL_SECONDS`.
unfoldable pub cached : Text → ℕ → Cache → Option Text
cached name now c = elim (cache_get name c) [
  | none ↦ none
  | some (at, value) ↦ if ltb now (at + secret_ttl) then some value else none
]

unfoldable pub store : Text → ℕ → Text → Exec (Unit {0})
store name now value env s = (ok tt, record s { cache = cache_put name now value s.cache })

unfoldable pub fetch_secret : Text → Text → ℕ → Exec Text
fetch_secret ssm name now = do value ← get_parameter ssm name true; store name now value; pure value

unfoldable pub cached_secret : Text → Text → ℕ → Exec Text
cached_secret ssm name now env s = elim (cached name now s.cache) [
  | some value ↦ (ok value, s)
  | none ↦ fetch_secret ssm name now env s
]

abbrev pub malformed_pointer : Exc
malformed_pointer = Exc.pointer_unavailable (txt "malformed pointer")

-- Pointer(region=data["region"], instance_id=data["instance_id"]). A value of another type than
-- `str`, which `write_pointer` never writes, counts as malformed.
unfoldable pub pointer_of_json : Json → Outcome Pointer
pointer_of_json (obj data') = elim (get (txt "region") data') [
  | some (str region) ↦ elim (get (txt "instance_id") data') [
    | some (str instance_id) ↦ ok (record { region = region; instance_id = instance_id })
    | _ ↦ err malformed_pointer
  ]
  | _ ↦ err malformed_pointer
]
pointer_of_json _ = err malformed_pointer

-- `except (json.JSONDecodeError, KeyError, TypeError)` around `json.loads`
unfoldable pub loads_pointer : Outcome Json → Outcome Pointer
loads_pointer (ok data') = pointer_of_json data'
loads_pointer (err (Exc.json_decode_error _)) = err malformed_pointer
loads_pointer (err (Exc.key_error _)) = err malformed_pointer
loads_pointer (err (Exc.type_error _)) = err malformed_pointer
loads_pointer (err e) = err e

-- What the value of the parameter says, once it is read.
unfoldable pub pointer_of_text : Env → Text → Outcome (Option Pointer)
pointer_of_text env raw =
    if raw == [] || raw == empty
    then ok none
    else elim (loads_pointer (env.loads raw)) [ ok p ↦ ok (some p) | err e ↦ err e ]

-- The handler of `except ClientError`; any other exception passes.
unfoldable pub pointer_error : Exc → Outcome (Option Pointer)
pointer_error (Exc.client_error code _) =
    if code == txt "ParameterNotFound" then ok none else err (Exc.pointer_unavailable code)
pointer_error e = err e

unfoldable pub pointer_of_read : Env → Outcome Text → Outcome (Option Pointer)
pointer_of_read env (ok raw) = pointer_of_text env raw
pointer_of_read env (err e) = pointer_error e

unfoldable pub read_pointer : Text → Text → Exec (Option Pointer)
read_pointer ssm name env s =
    let (r, s') = get_parameter ssm name false env s in (pointer_of_read env r, s')

unfoldable pub pointer_json : Pointer → Json
pointer_json p =
    obj (field (txt "region") (str p.region) (field (txt "instance_id") (str p.instance_id) end))

unfoldable pub pointer_value : Env → Option Pointer → Text
pointer_value env none = empty
pointer_value env (some p) = env.dumps (pointer_json p)

unfoldable pub put_parameter : Text → Text → Text → Exec (Unit {0})
put_parameter ssm name value =
    call (Call.put_parameter ssm name value) (λ env h. env.put_parameter h ssm name value)

unfoldable pub write_pointer : Text → Text → Option Pointer → Exec (Unit {0})
write_pointer ssm name pointer = do
  value ← asks (λ env. pointer_value env pointer)
  put_parameter ssm name value
