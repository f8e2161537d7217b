-- ===== src/Tailscale.antt =====
-- lambda/shardvpn/tailscale.py: the Tailscale API client. The bodies of the responses are JSON of
-- any shape.
pub mod Choice
use shard_vpn.Prelude.{
  ℕ, Text, txt, Bool, true, false, ◌&&◌, ◌||◌, Option, none, some, List, [], ◌∷◌, ◌++◌, eqb, pos,
  if◌then◌else◌,
}
use shard_vpn.Python.{Exc, Outcome, ok, err, exc_name}
use shard_vpn.Python.Decimal.{print}
use shard_vpn.Python.Json.{
  Json, bool, int, str, arr, obj, nil, item, Fields, end, field, get, get_or, truthy, is_str,
  member, has_key, items,
}
use shard_vpn.World.{Env, Call, Request}
use shard_vpn.Exec.{Exec, lift, asks, call, ◌>>=◌}

unfoldable pub api : Text
api = txt "https://api.tailscale.com/api/v2"

unfoldable pub tailscale_failure : Exc → Exc
tailscale_failure (Exc.http_error code _) =
    Exc.tailscale_error (txt "tailscale api returned " ++ print code)
tailscale_failure e = Exc.tailscale_error (txt "tailscale api call failed: " ++ exc_name e)

-- What the `try` of `_call` makes of the response: every failure is a TailscaleError.
unfoldable pub read_response : Env → Outcome Text → Outcome Json
read_response env (err e) = err (tailscale_failure e)
read_response env (ok body) = elim (env.loads_bytes body) [
  | ok v ↦ ok v
  | err e ↦ err (tailscale_failure e)
]

-- _call(request)
unfoldable pub api_call : Request → Exec Json
api_call request = call (Call.urlopen request) (λ env h. read_response env (env.urlopen h request))

-- value.get(key): only a dict has the method
unfoldable pub dict_get : Text → Json → Outcome (Option Json)
dict_get key (obj fields) = ok (get key fields)
dict_get key _ = err (Exc.attribute_error (txt "object has no attribute 'get'"))

-- A value that must be there and truthy.
unfoldable pub require : Text → Option Json → Outcome Json
require message none = err (Exc.tailscale_error message)
require message (some v) = if truthy v then ok v else err (Exc.tailscale_error message)

abbrev token_request : Text → Request
token_request body = record {
  url = api ++ txt "/oauth/token";
  body = some body;
  headers = (txt "Content-Type", txt "application/x-www-form-urlencoded") ∷ [];
  method = txt "POST";
}

unfoldable pub get_token : Text → Text → Exec Json
get_token client_id client_secret = do
  body ← asks (λ env.
      env.urlencode ((txt "client_id", client_id) ∷ (txt "client_secret", client_secret) ∷ []))
  response ← api_call (token_request body)
  token ← lift (dict_get (txt "access_token") response)
  lift (require (txt "no access_token in oauth response") token)

-- f"Bearer {token}"
unfoldable pub bearer : Env → Json → Text
bearer env token = txt "Bearer " ++ env.format token

-- The capabilities of a key: used once, ephemeral, and authorised for one tag.
unfoldable pub key_request : Text → ℕ → Text → Json
key_request tag expiry_seconds description =
    let create = obj (
      field (txt "reusable") (bool false) (
        field (txt "ephemeral") (bool true) (
          field (txt "preauthorized") (bool true)
            (field (txt "tags") (arr (item (str tag) nil)) end)))) in
    obj (
      field (txt "capabilities")
        (obj (field (txt "devices") (obj (field (txt "create") create end)) end))
        (field (txt "expirySeconds") (int (pos expiry_seconds))
          (field (txt "description") (str description) end)))

abbrev keys_request : Text → Text → Request
keys_request authorization body = record {
  url = api ++ txt "/tailnet/-/keys";
  body = some body;
  headers =
      (txt "Authorization", authorization) ∷ (txt "Content-Type", txt "application/json") ∷ [];
  method = txt "POST";
}

unfoldable pub mint_auth_key : Json → Text → ℕ → Text → Exec Json
mint_auth_key token tag expiry_seconds description = do
  body ← asks (λ env. env.dumps (key_request tag expiry_seconds description))
  authorization ← asks (λ env. bearer env token)
  response ← api_call (keys_request authorization body)
  key ← lift (dict_get (txt "key") response)
  lift (require (txt "no key in auth key response") key)

abbrev pub not_iterable : Exc
not_iterable = Exc.type_error (txt "object is not iterable")

unfoldable pub keys : Fields → List Json
keys end = []
keys (field k _ fs) = str k ∷ keys fs

unfoldable pub characters : Text → List Json
characters [] = []
characters (c ∷ s) = str (c ∷ []) ∷ characters s

-- `for d in value`
unfoldable pub iterate : Json → Outcome (List Json)
iterate (arr vs) = ok (items vs)
iterate (obj fs) = ok (keys fs)
iterate (str s) = ok (characters s)
iterate _ = err not_iterable

unfoldable pub starts_with : Text → Text → Bool
starts_with [] s = true
starts_with (c ∷ p) [] = false
starts_with (c ∷ p) (d ∷ s) = eqb c d && starts_with p s

-- `p in s` on two `str`
unfoldable pub substring : Text → Text → Bool
substring p [] = starts_with p []
substring p (c ∷ s) = starts_with p (c ∷ s) || substring p s

-- `tag in value`
unfoldable pub contains : Text → Json → Outcome Bool
contains tag (arr vs) = ok (member tag vs)
contains tag (obj fs) = ok (has_key tag fs)
contains tag (str s) = ok (substring tag s)
contains tag _ = err not_iterable

-- tag in (d.get("tags") or [])
unfoldable pub has_tag : Text → Json → Outcome Bool
has_tag tag (obj fs) = contains tag (get_or (txt "tags") (arr nil) fs)
has_tag tag _ = err (Exc.attribute_error (txt "object has no attribute 'get'"))

-- [d for d in devices if tag in (d.get("tags") or [])]
unfoldable pub tagged_devices : Text → List Json → Outcome (List Json)
tagged_devices tag [] = ok []
tagged_devices tag (d ∷ ds) = elim (has_tag tag d) [
  | err e ↦ err e
  | ok b ↦ elim (tagged_devices tag ds) [
    | err e ↦ err e
    | ok rest ↦ ok (if b then d ∷ rest else rest)
  ]
]

-- device.get("hostname") == hostname
unfoldable pub has_hostname : Text → Json → Bool
has_hostname hostname (obj fs) = elim (get (txt "hostname") fs) [
  | none ↦ false
  | some v ↦ is_str hostname v
]
has_hostname hostname _ = false

-- The first device with the hostname.
unfoldable pub first_named : Text → List Json → Option Json
first_named hostname [] = none
first_named hostname (d ∷ ds) = if has_hostname hostname d then some d else first_named hostname ds

-- The only device of a list of one.
unfoldable pub only : List Json → Option Json
only (d ∷ []) = some d
only _ = none

-- The choice among the tagged devices.
unfoldable pub choose : Option Text → List Json → Option Json
choose hostname [] = none
choose none (d ∷ ds) = some d
choose (some []) (d ∷ ds) = some d
choose (some (c ∷ h)) (d ∷ ds) = elim (first_named (c ∷ h) (d ∷ ds)) [
  | some found ↦ some found
  | none ↦ only (d ∷ ds)
]

unfoldable pub devices_of : Json → Outcome (List Json)
devices_of response = elim (dict_get (txt "devices") response) [
  | err e ↦ err e
  | ok none ↦ ok []
  | ok (some v) ↦ iterate v
]

-- Everything behind the response of the API.
unfoldable pub select_device : Text → Option Text → Json → Outcome (Option Json)
select_device tag hostname response = elim (devices_of response) [
  | err e ↦ err e
  | ok ds ↦ elim (tagged_devices tag ds) [ err e ↦ err e | ok tagged ↦ ok (choose hostname tagged) ]
]

abbrev devices_request : Text → Request
devices_request authorization = record {
  url = api ++ txt "/tailnet/-/devices";
  body = none;
  headers = (txt "Authorization", authorization) ∷ [];
  method = txt "GET";
}

unfoldable pub find_device : Json → Text → Option Text → Exec (Option Json)
find_device token tag hostname = do
  authorization ← asks (λ env. bearer env token)
  response ← api_call (devices_request authorization)
  lift (select_device tag hostname response)
