-- ===== src/Handler/Entry.antt =====
-- `lambda_handler`: routing on the shape of the event, the authentication gate, and the dispatch.
use shard_vpn.Prelude.{
  pos, List, ◌/◌, Text, txt, ◌==◌, true, false, none, some, [], ◌∷◌, if◌then◌else◌,
}
use shard_vpn.Python.{Exc, Outcome, ok, err, is_value_error}
use shard_vpn.Python.Json.{
  Json, int, arr, str, obj, Fields, field, end, get, get_or, has_key, is_str,
}
use shard_vpn.World.{Env, Service}
use shard_vpn.Exec.{Exec, pure, raise, lift, asks, attempt, ◌>>=◌, ◌>>◌}
use shard_vpn.Boto.{client, environ}
use shard_vpn.DateTime.{second}
use shard_vpn.Settings.{signing_secret, placeholder_signing_secret}
use shard_vpn.Auth.{extract_body, verify}
use shard_vpn.Watchdog.Summary.{Summary}
use shard_vpn.Watchdog.Sweep.{sweep}
use shard_vpn.Handler.{Response, forbidden, respond, error_json, texts, time, utc_now}
use shard_vpn.Handler.Describe.{secret}
use shard_vpn.Handler.Action.{status, down, up}

-- verify(event.get("headers") or {}, extract_body(event), secret, int(time.time()))
unfoldable pub authenticate : Fields → Text → Exec (Unit {0})
authenticate event key = do
  extracted ← asks (λ env. extract_body env event)
  body ← lift extracted
  now ← time
  verdict ←
      asks (λ env. verify env (get_or (txt "headers") (obj end) event) body key (now / second))
  lift verdict

-- The dict that a body holds; a body of another type is a ValueError.
unfoldable pub dict_of : Outcome Json → Outcome Fields
dict_of (ok (obj fs)) = ok fs
dict_of (ok _) = err (Exc.value_error [])
dict_of (err e) = err e

-- json.loads(extract_body(event) or b"{}")
unfoldable pub parse_body : Env → Outcome Text → Outcome Fields
parse_body env (err e) = err e
parse_body env (ok []) = dict_of (env.loads_bytes (txt "{}"))
parse_body env (ok (c ∷ s)) = dict_of (env.loads_bytes (c ∷ s))

unfoldable pub dispatch : Text → Fields → Exec Response
dispatch control body = elim (get (txt "action") body) [
  | none ↦ respond 400 (error_json (txt "unknown action"))
  | some action ↦
      if is_str (txt "up") action
      then up control body
      else if is_str (txt "down") action
      then down control
      else if is_str (txt "status") action
      then status control
      else respond 400 (error_json (txt "unknown action"))
]

-- {"error": "internal", "request_id": request_id}
unfoldable pub internal_error : Text → Json
internal_error request_id =
    obj (field (txt "error") (str (txt "internal")) (field (txt "request_id") (str request_id) end))

-- The two `except` clauses around the dispatch.
unfoldable pub finish : Text → Outcome Response → Exec Response
finish request_id (ok r) = pure r
finish request_id (err (Exc.pointer_unavailable _)) =
    respond 503 (error_json (txt "cannot determine current state"))
finish request_id (err e) = respond 500 (internal_error request_id)

unfoldable pub act_on : Text → Text → Outcome Fields → Exec Response
act_on control request_id (ok body) = do r ← attempt (dispatch control body); finish request_id r
act_on control request_id (err e) = elim (is_value_error e) [
  | true ↦ respond 400 (error_json (txt "malformed json"))
  | false ↦ raise e
]

-- `except AuthError`; any other exception passes.
unfoldable pub gate : Text → Text → Fields → Outcome (Unit {0}) → Exec Response
gate control request_id event (err Exc.auth_error) = pure forbidden
gate control request_id event (err e) = raise e
gate control request_id event (ok _) = do
  body ← asks (λ env. parse_body env (extract_body env event))
  act_on control request_id body

-- Behind the `try` around the signing secret.
unfoldable pub with_secret : Text → Text → Fields → Outcome Text → Exec Response
with_secret control request_id event (err e) =
    respond 503 (error_json (txt "cannot verify request"))
with_secret control request_id event (ok key) =
    if key == placeholder_signing_secret
    then respond 503 (error_json (txt "signing secret not configured"))
    else (do verdict ← attempt (authenticate event key); gate control request_id event verdict)

-- A request through the Function URL.
unfoldable pub serve : Text → Text → Fields → Exec Response
serve control request_id event = do
  client Service.ssm control
  key ← attempt (secret control signing_secret)
  with_secret control request_id event key

-- The headers of a response as a dict.
unfoldable pub headers_dict : List (Text × Text) → Fields
headers_dict [] = end
headers_dict ((name, value) ∷ hs) = field name (str value) (headers_dict hs)

-- A response as the dict that is returned.
unfoldable pub response_dict : Response → Json
response_dict r = obj (
    field (txt "statusCode") (int (pos r.status))
      (field (txt "headers") (obj (headers_dict r.headers)) (field (txt "body") (str r.body) end)))

-- The summary of a sweep as the dict that is returned.
unfoldable pub summary_dict : Summary → Json
summary_dict m = obj (
    field (txt "regions_scanned") (int (pos m.regions_scanned)) (
      field (txt "nodes") (arr (texts m.nodes)) (
        field (txt "reaped") (arr (texts m.reaped)) (
          field (txt "alerted") (arr (texts m.alerted)) (
            field (txt "orphans") (arr (texts m.orphans)) (
              field (txt "duplicates") (arr (texts m.duplicates))
                (field (txt "failures") (arr (texts m.failures)) end)))))))

-- lambda_handler(event, context), where `request_id` is what `getattr(context, …)` gives. The
-- module reads CONTROL_REGION when it is imported.
unfoldable pub lambda_handler : Fields → Text → Exec Json
lambda_handler event request_id = do
  control ← environ (txt "CONTROL_REGION")
  elim (has_key (txt "requestContext") event) [
    | false ↦ do now ← utc_now; m ← sweep now none none; pure (summary_dict m)
    | true ↦ do r ← serve control request_id event; pure (response_dict r)
  ]
