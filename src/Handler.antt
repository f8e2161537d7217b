-- ===== src/Handler.antt =====
-- lambda/shardvpn/handler.py: the entry point. Its three actions stand in Handler/Action.antt.
pub mod Describe
pub mod Action
pub mod Entry
pub mod Gate
pub mod Down
pub mod Launching
pub mod Minting
pub mod Routing
pub mod Up
use shard_vpn.Prelude.{ℕ, ◌*◌, Text, txt, Option, none, some, List, [], ◌∷◌}
use shard_vpn.Python.Json.{Json, str, arr, obj, Items, nil, item, field, end}
use shard_vpn.World.{Env, Call}
use shard_vpn.Exec.{Exec, asks, call, observe, ◌>>=◌}
use shard_vpn.DateTime.{DateTime, second}

-- The dict of a Function URL response.
pub record Response : Type 0 where
  pub status : ℕ
  pub headers : List (Text × Text)
  pub body : Text

abbrev pub json_headers : List (Text × Text)
json_headers = (txt "content-type", txt "application/json") ∷ []

-- FORBIDDEN
abbrev pub forbidden : Response
forbidden = record { status = 403; headers = json_headers; body = txt "{}" }

-- _respond(code, payload)
unfoldable pub response : Env → ℕ → Json → Response
response env code payload = record {
  status = code;
  headers = json_headers;
  body = env.dumps payload;
}

unfoldable pub respond : ℕ → Json → Exec Response
respond code payload = asks (λ env. response env code payload)

-- {"error": message}
unfoldable pub error_json : Text → Json
error_json message = obj (field (txt "error") (str message) end)

unfoldable pub texts : List Text → Items
texts [] = nil
texts (t ∷ ts) = item (str t) (texts ts)

-- TS_TAG
unfoldable pub ts_tag : Exec Text
ts_tag =
    asks (λ env. elim (env.environ (txt "TS_TAG")) [ none ↦ txt "tag:shardvpn-exit" | some t ↦ t ])

abbrev pub key_expiry_seconds : ℕ
key_expiry_seconds = 600

-- FRESH_NODE_SECONDS, in microseconds
abbrev pub fresh_node : ℕ
fresh_node = 900 * second

-- time.time()
unfoldable pub time : Exec ℕ
time = observe Call.time (λ env h. env.time h)

-- datetime.now(UTC)
unfoldable pub utc_now : Exec DateTime
utc_now = observe Call.utc_now (λ env h. env.utc_now h)

-- secrets.token_hex(2)
unfoldable pub token_hex : Exec Text
token_hex = observe Call.token_hex (λ env h. env.token_hex h)
