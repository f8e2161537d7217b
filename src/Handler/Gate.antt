-- ===== src/Handler/Gate.antt =====
-- The authentication gate: without a valid signature a request does nothing.
use shard_vpn.Prelude.{
  ◌/◌, ◌≡◌, refl, ap, subst, sym, ◌∙◌, ◌⊎◌, inl, inr, Text, txt, ◌==◌, Bool, true, false, List,
  Bool-cases,
}
use shard_vpn.Python.{Exc, Outcome, ok, err, Outcome-cases}
use shard_vpn.Python.Json.{Json, obj, Fields, end, get_or}
use shard_vpn.World.{Env, History, Call, Service}
use shard_vpn.DateTime.{second}
use shard_vpn.Exec.{State, pure, raise, asks, lift, attempt, observe, ◌>>=◌, after}
use shard_vpn.Exec.Frame.{Frame, frame_rules, Frame-bind}
use shard_vpn.Exec.Returns.{bind-ok, bind-err}
use shard_vpn.Boto.{client}
use shard_vpn.Settings.{signing_secret, placeholder_signing_secret, param_name}
use shard_vpn.Auth.{extract_body, verify}
use shard_vpn.Handler.{Response, forbidden, response, respond, time}
use shard_vpn.Handler.Describe.{secret}
use shard_vpn.Handler.Entry.{authenticate, gate, with_secret, serve}
use shard_vpn.Frames.{calls_of, Frame-observe, IgnoresSetup}
use shard_vpn.Frames.Aws.{client-Frame, cached_secret-Frame}

-- Every call but the creation of a client, the reading of a parameter, and the clock.
unfoldable pub is_action : Call → Bool
is_action (Call.client _ _) = false
is_action (Call.get_parameter _ _ _) = false
is_action Call.time = false
is_action _ = true

abbrev pub actions : State → List Call
actions = calls_of is_action

setup : IgnoresSetup is_action
unfolding is_action
setup = record { client = λ v r. refl; get_parameter = λ r n d. refl; time = refl }

time-Frame : Frame actions time
unfolding time
time-Frame = Frame-observe is_action Call.time _ setup.time

secret-Frame : (control : Text) → Frame actions (secret control signing_secret)
unfolding secret
secret-Frame control =
    Frame-bind _ _ time-Frame
      (λ now. cached_secret-Frame setup control (param_name signing_secret) now)

authenticate-Frame : (event : Fields) (key : Text) → Frame actions (authenticate event key)
unfolding authenticate
authenticate-Frame event key = search (frame_rules, time-Frame)

abbrev pub headers_of : Fields → Json
headers_of event = get_or (txt "headers") (obj end) event

-- A key other than the placeholder, and a signature that it verifies at a time that the clock has
-- answered.
pub record IsAuthentic (env : Env) (event : Fields) (key : Text) : Type 0 where
  pub body : Text
  pub history : History
  pub configured : (key == placeholder_signing_secret) ≡ false
  pub extracted : extract_body env event ≡ ok body
  pub verified : verify env (headers_of event) body key (env.time history / second) ≡ ok tt

-- A refusal: the fixed 403, or a 503.
abbrev pub IsRefusal : Outcome Response → Type 0
IsRefusal (ok r) = (r ≡ forbidden) ⊎ (r.status ≡ 503)
IsRefusal (err _) = Unit

-- The request did no action, and was not answered but by a refusal.
pub record IsRefused (s : State) (r : Outcome Response × State) : Type 0 where
  pub idle : actions r.1 ≡ actions s
  pub refusal : IsRefusal r.0

authenticate-IsAuthentic :
    (env : Env) (event : Fields) (key : Text) (s : State)
    → (key == placeholder_signing_secret) ≡ false
    → (authenticate event key env s).0 ≡ ok tt
    → IsAuthentic env event key
unfolding authenticate asks lift observe time ◌>>=◌
authenticate-IsAuthentic env event key s configured h =
    elim (Outcome-cases (extract_body env event)) [
      | inl (body, e) ↦ record {
        body = body;
        history = s.calls;
        configured = configured;
        extracted = e;
        verified = rw e at h;
      }
      | inr (x, e) ↦ absurd (cc (rw e at h))
    ]

-- The handler of a failed verification.
gate-IsRefused :
    (control id : Text) (event : Fields) (x : Exc) (env : Env) (s : State)
    → IsRefused s (gate control id event (err x) env s)
unfolding gate pure raise
gate-IsRefused control id event Exc.auth_error env s = record { idle = refl; refusal = inl refl }
gate-IsRefused control id event _ env s = record { idle = refl; refusal = tt }

refuse : (env : Env) (payload : Json) (s : State) → IsRefused s (respond 503 payload env s)
unfolding respond response asks
refuse env payload s = record { idle = refl; refusal = inr refl }

-- Behind a state that differs by no action.
IsRefused-after :
    (s s' : State) (r : Outcome Response × State)
    → actions s' ≡ actions s
    → IsRefused s' r
    → IsRefused s r
IsRefused-after s s' r same h = record { idle = h.idle ∙ same; refusal = h.refusal }

with_secret-gate :
    (control id : Text) (event : Fields) (key : Text) (env : Env) (s : State)
    → IsRefused s (with_secret control id event (ok key) env s) ⊎ IsAuthentic env event key
unfolding with_secret
with_secret-gate control id event key env s =
    elim (Bool-cases (key == placeholder_signing_secret)) [
      | inl placeholder ↦ inl (rw placeholder (refuse env _ s))
      | inr configured ↦ elim (Outcome-cases (authenticate event key env s).0) [
        | inl (u, e) ↦ inr (authenticate-IsAuthentic env event key s configured e)
        | inr (x, e) ↦
            let m = authenticate event key in
            let s' = (m env s).1 in
            let same = (authenticate-Frame event key).at env s in
            let refused = IsRefused-after s s' _ same (gate-IsRefused control id event x env s') in
            inl (
              rw configured (
                subst (IsRefused s)
                  (sym (
                    bind-ok (attempt m) (gate control id event) env s (err x)
                      (unfold attempt in ap ok e)))
                  (unfold attempt in refused)))
      ]
    ]

-- A request through the Function URL either does nothing but create a client, read parameters and
-- read the clock, and gets the fixed 403, a 503 or an exception; or the signing secret was read, is
-- not the published placeholder, and verifies the signature of the request's body at a time that the
-- clock has answered.
pub serve_gate :
    (control id : Text) (event : Fields) (env : Env) (s : State)
    → IsRefused s (serve control id event env s)
      ⊎ ((key : Text) × ((secret control signing_secret env
              (after (client Service.ssm control) env s)).0
            ≡ ok key)
          × IsAuthentic env event key)
unfolding serve
serve_gate control id event env s = elim (Outcome-cases (client Service.ssm control env s).0) [
  | inr (x, e) ↦ inl (
      subst (IsRefused s) (sym (bind-err (client Service.ssm control) _ env s x e))
        (record { idle = (client-Frame setup Service.ssm control).at env s; refusal = tt }))
  | inl (c, e) ↦
      let s₁ = after (client Service.ssm control) env s in
      let m = secret control signing_secret in
      let s₂ = (m env s₁).1 in
      let same : actions s₂ ≡ actions s =
        (secret-Frame control).at env s₁ ∙ (client-Frame setup Service.ssm control).at env s in
      let run = λ (k : Outcome Text) (h : (m env s₁).0 ≡ k).
        bind-ok (client Service.ssm control) (λ _. attempt m >>= with_secret control id event) env s
          c e
        ∙ bind-ok (attempt m) (with_secret control id event) env s₁ k (unfold attempt in ap ok h) in
      elim (Outcome-cases (m env s₁).0) [
        | inr (x, h) ↦ inl (
            subst (IsRefused s) (sym (run (err x) h))
              (unfold attempt with_secret in IsRefused-after s s₂ _ same (refuse env _ s₂)))
        | inl (key, h) ↦ elim (with_secret-gate control id event key env s₂) [
          | inl refused ↦ inl (
              subst (IsRefused s) (sym (run (ok key) h))
                (unfold attempt in IsRefused-after s s₂ _ same refused))
          | inr authentic ↦ inr (key, h, authentic)
        ]
      ]
]
