-- ===== src/Handler/Launching.antt =====
-- A launch of `_up`: what it rests on, and the start of the instance.
use shard_vpn.Prelude.{
  ◌≡◌, refl, ◌∙◌, sym, subst, inl, inr, Bool-cases, Text, txt, Bool, true, false, Option, some,
  List, [], ◌∷◌,
}
use shard_vpn.Python.{Outcome, ok, Outcome-cases}
use shard_vpn.Python.Json.{Json, Fields, null, str, get_or, truthy}
use shard_vpn.World.{Env, Call, History, Instance}
use shard_vpn.DateTime.{DateTime}
use shard_vpn.Exec.{State, Exec, pure, call, attempt, ◌>>=◌}
use shard_vpn.Exec.Frame.{Frame, view-bind, Frame-bind, Frame-pure, Frame-raise, Frame-asks}
use shard_vpn.Exec.Through.{Leads, Leads-bind}
use shard_vpn.Settings.{
  Param, param_name, default_region, default_ttl, get_parameter, Pointer, write_pointer,
  put_parameter,
}
use shard_vpn.Ttl.{parse_ttl}
use shard_vpn.Ec2ops.{node_filters, instances, valid_regions, launch, first_id}
use shard_vpn.Statusdoc.{to_json}
use shard_vpn.Handler.{respond}
use shard_vpn.Handler.Action.{
  parameter, value_or_parameter, set_current_node, known_region, Prepared, spec_of, started, start,
}
use shard_vpn.Frames.{calls_of, Frame-call, IgnoresReads, IgnoresRequests}
use shard_vpn.Frames.Handling.{respond-Frame, mint-Frame, render_userdata-Frame, prepare-Frame}

unfoldable pub is_run : Call → Bool
is_run (Call.run_instances _ _) = true
is_run _ = false

-- The launches asked for so far, the latest first.
abbrev pub launches : State → History
launches = calls_of is_run

pub reads : IgnoresReads is_run
unfolding is_run
reads = record {
  setup = record { client = λ v r. refl; get_parameter = λ r n d. refl; time = refl };
  describe_regions = λ r. refl;
  describe_vpcs = λ r f. refl;
  describe_security_groups = λ r f. refl;
  describe_instances = λ r f. refl;
  get_metric_statistics = λ r i a b. refl;
  utc_now = refl;
  token_hex = refl;
  read_template = refl;
}

pub requests : IgnoresRequests is_run
unfolding is_run
requests = record { urlopen = λ r. refl }

no_groups : (r n d v : Text) → is_run (Call.create_security_group r n d v) ≡ false
unfolding is_run
no_groups r n d v = refl

no_puts : (r n v : Text) → is_run (Call.put_parameter r n v) ≡ false
unfolding is_run
no_puts r n v = refl

-- The value of a setting: the body's, if it has a truthy one, and otherwise the parameter's.
pub data IsSetting (env : Env) (control key : Text) (k : Param) (body : Fields)
    : Json → Type 0 where
  given :
      truthy (get_or key null body) ≡ true → IsSetting env control key k body (get_or key null body)
  default :
      (h : History) (v : Text)
      → truthy (get_or key null body) ≡ false
      → env.get_parameter h control (param_name k) false ≡ ok v
      → IsSetting env control key k body (str v)

-- The region is the one that is asked for, EC2 knows it, and listed no live node in it.
pub record IsVacant (env : Env) (control : Text) (body : Fields) (region : Text) : Type 0 where
  pub wanted : IsSetting env control (txt "region") default_region body (str region)
  pub regions : List Text
  pub asked : History
  pub known : env.describe_regions asked control ≡ ok regions
  pub member : known_region region regions ≡ true
  pub history : History
  pub reservations : List (List Instance)
  pub listed : env.describe_instances history region node_filters ≡ ok reservations
  pub vacant : instances reservations ≡ []

-- The expiry that `parse_ttl` computes from the TTL that is asked for.
pub record IsExpiry (env : Env) (control : Text) (body : Fields) (now : DateTime)
    (expires_at : Text) : Type 0 where
  pub ttl : Json
  pub wanted : IsSetting env control (txt "ttl") default_ttl body ttl
  pub parsed : parse_ttl ttl now ≡ ok expires_at

-- At most one launch: in a vacant region, with the tags of its host name, its time and its expiry.
pub data Launched (env : Env) (control : Text) (body : Fields) (before behind : History)
    : Type 0 where
  kept : behind ≡ before → Launched env control body before behind
  one :
      (region hostname user_data expires_at : Text) (now : DateTime) (p : Prepared)
      → IsVacant env control body region
      → IsExpiry env control body now expires_at
      → behind ≡ Call.run_instances region (spec_of p user_data hostname now expires_at) ∷ before
      → Launched env control body before behind

parameter-str :
    (control key : Text) (k : Param) (env : Env) (s : State) (v : Json)
    → ((parameter control k >>= λ x. pure (str x)) env s).0 ≡ ok v
    → (x : Text) × (v ≡ str x) × (env.get_parameter s.calls control (param_name k) false ≡ ok x)
unfolding parameter get_parameter call pure ◌>>=◌
parameter-str control key k env s v h =
    elim (Outcome-cases (env.get_parameter s.calls control (param_name k) false)) [
      | inl (x, e) ↦ (x, cc (rw e at h), e)
      | inr (y, e) ↦ absurd (cc (rw e at h))
    ]

pub value_or_parameter-IsSetting :
    (control key : Text) (k : Param) (body : Fields) (env : Env) (s : State) (v : Json)
    → (value_or_parameter control key k body env s).0 ≡ ok v
    → IsSetting env control key k body v
unfolding value_or_parameter
value_or_parameter-IsSetting control key k body env s v h =
    elim (Bool-cases (truthy (get_or key null body))) [
      | inl has ↦
          let same : get_or key null body ≡ v =
            unfold pure in cc (rw (has, value_or_parameter) at h) in
          subst (IsSetting env control key k body) same (given has)
      | inr lacks ↦
          let (x, same, answered) =
            parameter-str control key k env s v (rw (lacks, value_or_parameter) at h) in
          subst (IsSetting env control key k body) (sym same) (default s.calls x lacks answered)
    ]

pub set_current_node-Frame :
    (control : Text) (q : Option Pointer) → Frame launches (set_current_node control q)
unfolding set_current_node write_pointer put_parameter is_run
set_current_node-Frame control q =
    Frame-bind _ _ (Frame-asks _) (λ v. Frame-call is_run (Call.put_parameter control _ v) _ refl)

first_id-Frame : (ids : List Text) → Frame launches (first_id ids)
unfolding first_id
first_id-Frame [] = Frame-raise _
first_id-Frame (i ∷ is) = Frame-pure _

pub attempt-lem :
    {A : Type 0} (m : Exec A) (env : Env) (s : State) (r : Outcome A)
    → (attempt m env s).0 ≡ ok r
    → (m env s).0 ≡ r
unfolding attempt
attempt-lem m env s r h = cc

pub valid_regions-lem :
    (region : Text) (env : Env) (s : State) (regions : List Text)
    → (valid_regions region env s).0 ≡ ok regions
    → env.describe_regions s.calls region ≡ ok regions
unfolding valid_regions call
valid_regions-lem region env s regions h = h

-- A request's body, and `env` and `control` as they stand during it.
module _ (control : Text) (env : Env) (body : Fields) where
  abbrev pub Starts {ℓ} : {A : Type ℓ} → Exec A → Type 0
  Starts m = Leads launches (Launched env control body) env m

  abbrev pub same : (x y : History) → y ≡ x → Launched env control body x y
  same x y = kept

  module _ (region : Text) (now : DateTime) (expires_at : Text)
      (vacant : IsVacant env control body region)
      (expiry : IsExpiry env control body now expires_at) where
    -- The launch, the pointer and the answer.
    launched-Starts :
        (hostname user_data : Text) (p : Prepared)
        → Starts (
            launch region (spec_of p user_data hostname now expires_at) >>= λ (id : Text).
            set_current_node control (some (record { region = region; instance_id = id }))
            >>= λ (_ : Unit {0}). respond 200 (to_json (started region id hostname expires_at)))
    unfolding launch
    launched-Starts hostname user_data p = record {
      at = λ s. one region hostname user_data expires_at now p vacant expiry (
          view-bind launches (launch region (spec_of p user_data hostname now expires_at)) _
            (λ id.
              Frame-bind _ _ (set_current_node-Frame control _)
                (λ _. respond-Frame reads requests 200 _))
            env s
          ∙ view-bind launches
              (call (Call.run_instances region (spec_of p user_data hostname now expires_at)) _)
              first_id first_id-Frame env s
          ∙ unfold call calls_of is_run in refl);
    }

    pub start-Starts : (hostname : Text) → Starts (start control region now expires_at hostname)
    unfolding start
    start-Starts hostname =
        Leads-bind same _ _ (prepare-Frame reads requests no_groups control region) λ p _ _.
          Leads-bind same _ _ (mint-Frame reads requests control hostname) λ key _ _.
            Leads-bind same _ _ (render_userdata-Frame reads requests key hostname)
              λ user_data _ _. launched-Starts hostname user_data p
