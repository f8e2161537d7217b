-- ===== src/Handler/Up.antt =====
-- `_up`: when it starts an instance, and which.
use shard_vpn.Prelude.{
  ℕ, some_inj, ◌≡◌, refl, ◌∙◌, subst, inl, inr, Bool-cases, Text, txt, ◌==◌, true, Option, none,
  some, List, [], ◌∷◌,
}
use shard_vpn.Python.{Outcome, ok, err, is_value_error}
use shard_vpn.Python.Json.{Json, Fields, str}
use shard_vpn.World.{Env, History, Instance, Service}
use shard_vpn.DateTime.{DateTime}
use shard_vpn.Exec.{State, lift}
use shard_vpn.Exec.Frame.{Frame-raise, Frame-attempt}
use shard_vpn.Exec.Returns.{bind-inv}
use shard_vpn.Exec.Through.{Leads-Frame, Leads-bind}
use shard_vpn.Settings.{Pointer, default_region, default_ttl}
use shard_vpn.Ttl.{parse_ttl}
use shard_vpn.Ec2ops.{node_filters, instances}
use shard_vpn.Statusdoc.{StatusDoc, to_json}
use shard_vpn.Handler.{respond}
use shard_vpn.Handler.Action.{
  value_or_parameter, known_region, choose_region, read_expiry, hostname_of, adopt_or_start,
  up_until, up_in, up_new, up_unless, up_at, up,
}
use shard_vpn.Handler.Down.{find_nodes-lem}
use shard_vpn.Handler.Launching.{
  IsSetting, value_or_parameter-IsSetting, launches, reads, requests, IsVacant, IsExpiry, Launched,
  set_current_node-Frame, attempt-lem, valid_regions-lem, Starts, same, start-Starts,
}
use shard_vpn.Frames.Aws.{client-Frame, find_nodes-Frame, valid_regions-Frame}
use shard_vpn.Frames.Handling.{
  utc_now-Frame, token_hex-Frame, respond-Frame, get_current_node-Frame, describe-Frame,
  value_or_parameter-Frame, read_expiry-Frame,
}

-- A request's body, and `env` and `control` as they stand during it.
module _ (control : Text) (env : Env) (body : Fields) where
  adopt_or_start-Starts :
      (region : Text) (now : DateTime) (expires_at : Text) (found : List Instance)
      → (found ≡ [] → IsVacant env control body region)
      → IsExpiry env control body now expires_at
      → Starts control env body (adopt_or_start control region now expires_at found)
  unfolding adopt_or_start
  adopt_or_start-Starts region now expires_at (i ∷ is) vacant expiry =
      Leads-bind (same control env body) _ _ (set_current_node-Frame control _) λ _ _ _.
        Leads-bind (same control env body) _ _ (describe-Frame reads requests control _)
          λ doc _ _. Leads-Frame (same control env body) _ (respond-Frame reads requests 200 _)
  adopt_or_start-Starts region now expires_at [] vacant expiry =
      Leads-bind (same control env body) _ _ (token_hex-Frame reads requests) λ hex _ _.
        start-Starts control env body region now expires_at (vacant refl) expiry
          (hostname_of region hex)

  respond-Starts : (code : ℕ) (payload : Json) → Starts control env body (respond code payload)
  respond-Starts code payload =
      Leads-Frame (same control env body) _ (respond-Frame reads requests code payload)

  up_until-Starts :
      (region : Text) (now : DateTime) (r : Outcome Text)
      → ((history : History) (rs : List (List Instance))
          → env.describe_instances history region node_filters ≡ ok rs
          → instances rs ≡ []
          → IsVacant env control body region)
      → ((expires_at : Text) → r ≡ ok expires_at → IsExpiry env control body now expires_at)
      → Starts control env body (up_until control region now r)
  unfolding up_until
  up_until-Starts region now (err e) vacant expiry = elim (Bool-cases (is_value_error e)) [
    | inl malformed ↦ rw (malformed, up_until) (respond-Starts 400 _)
    | inr other ↦ rw (other, up_until) (Leads-Frame (same control env body) _ (Frame-raise e))
  ]
  up_until-Starts region now (ok expires_at) vacant expiry =
      Leads-bind (same control env body) _ _ (client-Frame reads.setup Service.ec2 region) λ _ _ _.
        Leads-bind (same control env body) _ _ (find_nodes-Frame reads region) λ found s h.
          let (rs, listed, equal, _) = find_nodes-lem region env s found h in
          adopt_or_start-Starts region now expires_at found
            (λ none_found. vacant s.calls rs listed (equal ∙ none_found)) (expiry expires_at refl)

  read_expiry-lem :
      (now : DateTime) (expires_at : Text) (s : State)
      → (read_expiry control body now env s).0 ≡ ok expires_at
      → IsExpiry env control body now expires_at
  unfolding read_expiry
  read_expiry-lem now expires_at s h =
      let (ttl, e, _, parsed) =
        bind-inv (value_or_parameter control (txt "ttl") default_ttl body)
          (λ v. lift (parse_ttl v now)) env s expires_at h in
      record {
        ttl = ttl;
        wanted = value_or_parameter-IsSetting control (txt "ttl") default_ttl body env s ttl e;
        parsed = unfold lift in parsed;
      }

  choose_region-lem :
      (v : Json) (regions : List Text) (region : Text)
      → choose_region v regions ≡ some region
      → (v ≡ str region) × (known_region region regions ≡ true)
  unfolding choose_region
  choose_region-lem (str t) regions region h = elim (Bool-cases (known_region t regions)) [
    | inl known ↦
        subst (λ x. (str t ≡ str x) × (known_region x regions ≡ true)) (some_inj (rw known at h))
          (refl, known)
    | inr unknown ↦ absurd (cc (rw unknown at h))
  ]
  choose_region-lem _ regions region h = absurd (cc)

  up_in-Starts :
      (regions : List Text) (asked : History) (r : Option Text)
      → env.describe_regions asked control ≡ ok regions
      → ((region : Text) → r ≡ some region → known_region region regions ≡ true)
      → ((region : Text)
          → r ≡ some region
          → IsSetting env control (txt "region") default_region body (str region))
      → Starts control env body (up_in control body regions r)
  unfolding up_in
  up_in-Starts regions asked none answered known wanted = respond-Starts 400 _
  up_in-Starts regions asked (some region) answered known wanted =
      Leads-bind (same control env body) _ _ (utc_now-Frame reads requests) λ now _ _.
        Leads-bind (same control env body) _ _
          (Frame-attempt _ (read_expiry-Frame reads requests control body now))
          λ r s h.
            up_until-Starts region now r
              (λ history rs listed empty. record {
                wanted = wanted region refl;
                regions = regions;
                asked = asked;
                known = answered;
                member = known region refl;
                history = history;
                reservations = rs;
                listed = listed;
                vacant = empty;
              })
              (λ expires_at e. read_expiry-lem now expires_at s (attempt-lem _ env s r h ∙ e))

  up_new-Starts : Starts control env body (up_new control body)
  unfolding up_new
  up_new-Starts =
      Leads-bind (same control env body) _ _ (client-Frame reads.setup Service.ec2 control) λ _ _ _.
        Leads-bind (same control env body) _ _ (valid_regions-Frame reads control)
          λ regions s answered.
            Leads-bind (same control env body) _ _
              (value_or_parameter-Frame reads requests control (txt "region") default_region body)
              λ v s' e.
                up_in-Starts regions s.calls (choose_region v regions)
                  (valid_regions-lem control env s regions answered)
                  (λ region h. (choose_region-lem v regions region h).1)
                  (λ region h.
                    subst (IsSetting env control (txt "region") default_region body)
                      (choose_region-lem v regions region h).0
                      (value_or_parameter-IsSetting control (txt "region") default_region body env
                        s' v e))

  up_unless-Starts :
      (existing : StatusDoc) → Starts control env body (up_unless control body existing)
  unfolding up_unless
  up_unless-Starts existing = elim (Bool-cases (existing.state == txt "absent")) [
    | inl absent ↦ rw (absent, up_unless) (up_new-Starts)
    | inr present ↦ rw (present, up_unless) (respond-Starts 200 (to_json existing))
  ]

  up_at-Starts : (q : Option Pointer) → Starts control env body (up_at control body q)
  unfolding up_at
  up_at-Starts none = up_new-Starts
  up_at-Starts (some p) =
      Leads-bind (same control env body) _ _ (describe-Frame reads requests control (some p))
        (λ existing _ _. up_unless-Starts existing)

  up-Starts : Starts control env body (up control body)
  unfolding up
  up-Starts =
      Leads-bind (same control env body) _ _ (get_current_node-Frame reads requests control)
        (λ q _ _. up_at-Starts q)

-- Whatever fails, `up` asks EC2 for at most one launch, and for one only in the region of the body or of
-- the default, which DescribeRegions has named and where DescribeInstances has shown no live node, with
-- the tags of a host name, of a time and of the expiry that `parse_ttl` computes for that time from the
-- TTL of the body or of the default.
pub up-Launched :
    (control : Text) (body : Fields) (env : Env) (s : State)
    → Launched env control body (launches s) (launches (up control body env s).1)
up-Launched control body env s = (up-Starts control env body).at s
