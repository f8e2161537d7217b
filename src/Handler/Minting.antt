-- ===== src/Handler/Minting.antt =====
-- What follows the mint of a key in `_up`.
use shard_vpn.Prelude.{
  ℕ, ◌≡◌, refl, ap, sym, subst, ◌∙◌, inl, inr, Text, txt, eqb_text, ◌++◌, true, Option, none, some,
  [], ◌∷◌, Bool-cases,
}
use shard_vpn.Python.{Exc, Outcome, ok, err, Outcome-cases}
use shard_vpn.Python.Json.{Json, truthy}
use shard_vpn.World.{Env, Call, History, LaunchSpec}
use shard_vpn.DateTime.{DateTime}
use shard_vpn.Exec.{State, Exec, pure, raise, lift, asks, call, ◌>>=◌, after}
use shard_vpn.Exec.Returns.{bind-inv, bind-ok, bind-err}
use shard_vpn.Settings.{
  Pointer, param_name, current_node, pointer_value, write_pointer, put_parameter,
}
use shard_vpn.Ec2ops.{launch, first_id}
use shard_vpn.Tailscale.{require, mint_auth_key}
use shard_vpn.Render.{Scan, substitute, launch_values, read_template, rendered, render_userdata}
use shard_vpn.Statusdoc.{to_json}
use shard_vpn.Handler.{Response, respond}
use shard_vpn.Handler.Action.{
  set_current_node, hostname_of, Prepared, prepare, mint, spec_of, started, start,
}

require-truthy :
    (message : Text) (v : Option Json) (key : Json) → require message v ≡ ok key → truthy key ≡ true
unfolding require
require-truthy message none key h = absurd (cc)
require-truthy message (some v) key h = elim (Bool-cases (truthy v)) [
  | inl full ↦ subst (λ k. truthy k ≡ true) (cc (rw full at h)) full
  | inr nothing ↦ absurd (cc (rw nothing at h))
]

lift-lem :
    {A : Type 0} (r : Outcome A) (env : Env) (s : State) (a : A)
    → (lift r env s).0 ≡ ok a
    → r ≡ ok a
unfolding lift
lift-lem r env s a h = h

mint_auth_key-truthy :
    (token : Json) (tag : Text) (n : ℕ) (description : Text) (env : Env) (s : State) (key : Json)
    → (mint_auth_key token tag n description env s).0 ≡ ok key
    → truthy key ≡ true
unfolding mint_auth_key
mint_auth_key-truthy token tag n description env s key h =
    let (_, _, _, h₁) = bind-inv _ _ env s key h in
    let (_, _, _, h₂) = bind-inv _ _ env _ key h₁ in
    let (_, _, _, h₃) = bind-inv _ _ env _ key h₂ in
    let (v, _, _, h₄) = bind-inv _ _ env _ key h₃ in
    require-truthy _ v key (lift-lem _ env _ key h₄)

mint-truthy :
    (control hostname : Text) (env : Env) (s : State) (key : Json)
    → (mint control hostname env s).0 ≡ ok key
    → truthy key ≡ true
unfolding mint
mint-truthy control hostname env s key h =
    let (token, _, _, h₁) = bind-inv _ _ env s key h in
    let (tag, _, _, h₂) = bind-inv _ _ env _ key h₁ in
    mint_auth_key-truthy token tag _ _ env _ key h₂

-- The script for a key.
abbrev pub script : Env → Json → Text → Text → Text
script env key hostname template =
    substitute (launch_values (env.format key) hostname) Scan.plain template

-- With a truthy key and a host name of the program's, the rendering is the read of the file.
render_userdata-run :
    (key : Json) (region hex : Text) (env : Env) (s : State)
    → truthy key ≡ true
    → render_userdata key (hostname_of region hex) env s
      ≡ (read_template >>= rendered key (hostname_of region hex)) env s
unfolding render_userdata hostname_of txt eqb_text
render_userdata-run key region hex env s h = rw h refl

abbrev reading : State → State
reading s = record s { calls = Call.read_template ∷ s.calls }

rendering-ok :
    (key : Json) (hostname template : Text) (env : Env) (s : State)
    → env.read_template s.calls ≡ ok template
    → (read_template >>= rendered key hostname) env s
      ≡ (ok (script env key hostname template), reading s)
unfolding read_template rendered asks call ◌>>=◌
rendering-ok key hostname template env s h = rw h refl

rendering-err :
    (key : Json) (hostname : Text) (x : Exc) (env : Env) (s : State)
    → env.read_template s.calls ≡ err x
    → (read_template >>= rendered key hostname) env s ≡ (err x, reading s)
unfolding read_template call ◌>>=◌
rendering-err key hostname x env s h = rw h refl

-- The launch, the pointer and the answer, in that order.
abbrev rest : Text → Text → Text → Text → LaunchSpec → Exec Response
rest control region hostname expires_at spec = launch region spec >>= λ (id : Text).
    set_current_node control (some (record { region = region; instance_id = id }))
    >>= λ (_ : Unit {0}). respond 200 (to_json (started region id hostname expires_at))

rest-calls :
    (control region hostname expires_at : Text) (spec : LaunchSpec) (env : Env) (s : State)
    → (later : History) × ((rest control region hostname expires_at spec env s).1.calls
        ≡ later ++ (Call.run_instances region spec ∷ s.calls))
unfolding launch call ◌>>=◌ first_id raise pure set_current_node write_pointer put_parameter respond
    asks
rest-calls control region hostname expires_at spec env s =
    elim (Outcome-cases (env.run_instances s.calls region spec)) [
      | inr (x, e) ↦ ([], rw e)
      | inl ([], e) ↦ ([], rw e)
      | inl (id ∷ ids, e) ↦
          let p : Option Pointer = some (record { region = region; instance_id = id }) in
          let value = pointer_value env p in
          elim (Outcome-cases (
            env.put_parameter (Call.run_instances region spec ∷ s.calls) control
              (param_name current_node) value)) [
                | inl (u, put) ↦
                    (Call.put_parameter control (param_name current_node) value ∷ [], rw (e, put))
                | inr (x, put) ↦
                    (Call.put_parameter control (param_name current_node) value ∷ [], rw (e, put))
              ]
    ]

-- A run that goes on from the calls of a mint: it reads the script's file, and either ends with what
-- that raised, or asks for the launch, with the script of that text, as its next call.
pub data FromMint (env : Env) (region : Text) (spec : Text → LaunchSpec) (minted : History)
    (r : Outcome Response × State) : Type 0 where
  unread :
      (x : Exc)
      → env.read_template minted ≡ err x
      → r.0 ≡ err x
      → r.1.calls ≡ Call.read_template ∷ minted
      → FromMint env region spec minted r
  launched :
      (template : Text) (later : History)
      → env.read_template minted ≡ ok template
      → r.1.calls
        ≡ later ++ (Call.run_instances region (spec template) ∷ Call.read_template ∷ minted)
      → FromMint env region spec minted r

-- What `up` does with a key.
abbrev with_key : Text → Text → DateTime → Text → Text → Prepared → Json → Exec Response
with_key control region now expires_at hostname p key =
    render_userdata key hostname >>= λ (user_data : Text).
    rest control region hostname expires_at (spec_of p user_data hostname now expires_at)

with_key-FromMint :
    (control region hex expires_at : Text) (now : DateTime) (env : Env) (s : State) (p : Prepared)
    (key : Json)
    → truthy key ≡ true
    → FromMint env region
        (λ template.
          spec_of p
            (script env key (hostname_of region hex) template)
            (hostname_of region hex)
            now
            expires_at)
        s.calls
        (with_key control region now expires_at (hostname_of region hex) p key env s)
with_key-FromMint control region hex expires_at now env s p key full =
    let hostname = hostname_of region hex in
    let render = render_userdata key hostname in
    let next = λ (user_data : Text).
      rest control region hostname expires_at (spec_of p user_data hostname now expires_at) in
    let same = render_userdata-run key region hex env s full in
    elim (Outcome-cases (env.read_template s.calls)) [
      | inr (x, e) ↦
          let read = same ∙ rendering-err key hostname x env s e in
          let run = bind-err render next env s x (ap (λ r. r.0) read) in
          unread x e (ap (λ r. r.0) run) (ap (λ r. r.1.calls) run ∙ ap (λ r. r.1.calls) read)
      | inl (template, e) ↦
          let read = same ∙ rendering-ok key hostname template env s e in
          let user_data = script env key hostname template in
          let run = bind-ok render next env s user_data (ap (λ r. r.0) read) in
          let (later, calls) =
            rest-calls control region hostname expires_at
              (spec_of p user_data hostname now expires_at) env (render env s).1 in
          launched template later e (
            ap (λ r. r.1.calls) run
            ∙ calls
            ∙ ap
                (λ h.
                  later
                  ++ (Call.run_instances region (spec_of p user_data hostname now expires_at) ∷ h))
                (ap (λ r. r.1.calls) read))
    ]

-- When `up` has minted an auth key, its next call is the read of userdata.sh. If that raises, `up` raises
-- the same, with nothing launched for the key; otherwise the very next call is the launch, with the
-- script of the key and the text that was read. Nothing else between the mint and the launch can fail.
pub start-FromMint :
    (control region hex expires_at : Text) (now : DateTime) (env : Env) (s : State) (p : Prepared)
    (key : Json)
    → (prepare control region env s).0 ≡ ok p
    → (mint control (hostname_of region hex) env (after (prepare control region) env s)).0 ≡ ok key
    → FromMint env region
        (λ template.
          spec_of p
            (script env key (hostname_of region hex) template)
            (hostname_of region hex)
            now
            expires_at)
        (mint control (hostname_of region hex) env (after (prepare control region) env s)).1.calls
        (start control region now expires_at (hostname_of region hex) env s)
unfolding start
start-FromMint control region hex expires_at now env s p key prepared minted =
    let hostname = hostname_of region hex in
    let s₁ = after (prepare control region) env s in
    let s₂ = (mint control hostname env s₁).1 in
    subst
      (FromMint env region
        (λ template. spec_of p (script env key hostname template) hostname now expires_at) s₂.calls)
      (sym (
        bind-ok (prepare control region) _ env s p prepared
        ∙ bind-ok (mint control hostname) _ env s₁ key minted))
      (with_key-FromMint control region hex expires_at now env s₂ p key
        (mint-truthy control hostname env s₁ key minted))
