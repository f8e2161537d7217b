-- ===== src/Watchdog/Totality.antt =====
-- The whole sweep: it returns a summary whatever call fails.
use shard_vpn.Prelude.{◌≡◌, Text, txt, Bool, Option, none, some, List, [], ◌∷◌, ℤ}
use shard_vpn.Python.{Outcome, ok, err}
use shard_vpn.World.{Env, Service}
use shard_vpn.DateTime.{DateTime}
use shard_vpn.Exec.{State, asks, lift, ◌>>=◌}
use shard_vpn.Exec.Returns.{
  Returns, Returns-pure, Returns-asks, Returns-call, Returns-attempt, Returns-bind,
}
use shard_vpn.Boto.{client, environ}
use shard_vpn.Settings.{Pointer}
use shard_vpn.Watchdog.Summary.{Summary}
use shard_vpn.Watchdog.Step.{make_clients, scan_regions, threshold_of, pointer_of}
use shard_vpn.Watchdog.Sweep.{sweep_regions, sweep_with, control_of, topic_of, sweep}
use shard_vpn.Watchdog.Reaping.{Anything, notify_failures-Returns}
use shard_vpn.Watchdog.Terminations.{ClientsWork}
use shard_vpn.Watchdog.Acting.{act-Returns}

-- boto3 can create every client, and CONTROL_REGION is set.
pub record IsDeployed (env : Env) : Type 0 where
  pub works : ClientsWork env
  pub control : Text
  pub is_set : env.environ (txt "CONTROL_REGION") ≡ some control

client-Returns : (v : Service) (r : Text) → Returns IsDeployed Anything (client v r)
unfolding client
client-Returns v r =
    Returns-bind {Q = Anything} _ _ (Returns-call _ _ (λ env e h. (tt, e.works.created h v r, tt)))
      (λ _ _. Returns-pure r tt)

make_clients-Returns : (rs : List Text) → Returns IsDeployed Anything (make_clients rs)
unfolding make_clients
make_clients-Returns [] = Returns-pure tt tt
make_clients-Returns (r ∷ rs) =
    Returns-bind _ _ (client-Returns Service.ec2 r) (λ _ _. make_clients-Returns rs)

scan_regions-Returns : {E : Env → Type 0} (rs : List Text) → Returns E Anything (scan_regions rs)
unfolding scan_regions
scan_regions-Returns [] = Returns-pure [] tt
scan_regions-Returns (r ∷ rs) =
    Returns-bind _ _ (Returns-attempt {P = Anything} _ (λ _. tt))
      λ x _. Returns-bind _ _ (scan_regions-Returns rs) (λ _ _. Returns-pure _ tt)

module _ (now : DateTime) (control topic : Text) where
  sweep_regions-Returns :
      (threshold : Option ℤ) (pointer : Option Pointer) (readable : Bool)
      (regions : Outcome (List Text)) (m : Summary)
      → Returns IsDeployed Anything
          (sweep_regions now control topic threshold pointer readable regions m)
  unfolding sweep_regions
  sweep_regions-Returns threshold pointer readable (err e) m =
      Returns-bind _ _ (notify_failures-Returns control topic _) (λ _ _. Returns-pure _ tt)
  sweep_regions-Returns threshold pointer readable (ok regions) m =
      Returns-bind _ _ (make_clients-Returns regions) λ _ _.
        Returns-bind _ _ (scan_regions-Returns regions)
          λ scans _. act-Returns now control topic threshold pointer readable scans _

  sweep_with-Returns : Returns IsDeployed Anything (sweep_with now control topic)
  unfolding sweep_with
  sweep_with-Returns = Returns-bind _ _ (client-Returns Service.ssm control) λ _ _.
      Returns-bind _ _ (client-Returns Service.sns control) λ _ _.
        Returns-bind _ _ (Returns-attempt {P = Anything} _ (λ _. tt)) λ t _.
          Returns-bind _ _ (Returns-attempt {P = Anything} _ (λ _. tt)) λ p _.
            Returns-bind _ _ (Returns-attempt {P = Anything} _ (λ _. tt)) λ regions _.
              sweep_regions-Returns (threshold_of t _).0 (pointer_of p).0 (pointer_of p).1 regions _

environ-Returns : Returns IsDeployed Anything (environ (txt "CONTROL_REGION"))
unfolding environ asks lift ◌>>=◌
environ-Returns = record { at = λ env e s. (e.control, rw e.is_set, tt) }

control_of-Returns : (r : Option Text) → Returns IsDeployed Anything (control_of r)
unfolding control_of
control_of-Returns none = environ-Returns
control_of-Returns (some []) = environ-Returns
control_of-Returns (some (c ∷ r)) = Returns-pure _ tt

topic_of-Returns : (t : Option Text) → Returns IsDeployed Anything (topic_of t)
unfolding topic_of
topic_of-Returns none = Returns-asks _ (λ env. tt)
topic_of-Returns (some t) = Returns-pure _ tt

sweep-Returns : (now : DateTime) (r t : Option Text) → Returns IsDeployed Anything (sweep now r t)
unfolding sweep
sweep-Returns now r t = Returns-bind _ _ (control_of-Returns r) λ control _.
    Returns-bind _ _ (topic_of-Returns t) (λ topic _. sweep_with-Returns now control topic)

-- Where clients can be created and CONTROL_REGION is set, a sweep returns a summary: no failing call
-- of SSM, EC2, CloudWatch or SNS, at any point and with any exception, makes it raise.
pub sweep_total :
    (env : Env)
    → IsDeployed env
    → (now : DateTime) (control_region topic_arn : Option Text) (s : State)
    → (m : Summary) × ((sweep now control_region topic_arn env s).0 ≡ ok m)
sweep_total env deployed now r t s =
    let (m, returned, _) = (sweep-Returns now r t).at env deployed s in (m, returned)
