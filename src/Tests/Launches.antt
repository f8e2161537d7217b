-- ===== src/Tests/Launches.antt =====
-- The launch of a node, and the routing of events.
use shard_vpn.Prelude.{refl, eqb_text, txt, ◌≡◌}
use shard_vpn.Python.{ok}
use shard_vpn.Python.Json.{Fields, obj, field, end, str, get, truthy, has_key}
use shard_vpn.Exec.{after, asks, call, observe, lift, pure, ◌>>=◌}
use shard_vpn.Boto.{client}
use shard_vpn.Settings.{
  get_parameter, cached_secret, cached, cache_get, cache_put, store, fetch_secret, param_name,
}
use shard_vpn.Ttl.{never}
use shard_vpn.Ec2ops.{
  resolve_ami, ensure_security_group, default_vpc_id, first_vpc, reuse_or_create,
}
use shard_vpn.Tailscale.{api_call, read_response, dict_get, require, get_token, mint_auth_key}
use shard_vpn.Handler.{time, ts_tag}
use shard_vpn.Handler.Entry.{lambda_handler}
use shard_vpn.Frames.{calls_of}
use shard_vpn.Handler.Routing.{foreign, lambda_handler-foreign}
use shard_vpn.Handler.Describe.{secret, tailscale_token}
use shard_vpn.Handler.Action.{parameter, Prepared, prepare, mint, hostname_of, spec_of, start}
use shard_vpn.Handler.Minting.{script, FromMint, start-FromMint}
use shard_vpn.Tests.World.{cloud, fresh, noon}

abbrev prepared : Prepared
prepared = record { ami = txt "s3cret"; machine = txt "s3cret"; sg_id = txt "sg-1" }

is_prepared : (prepare (txt "eu-west-1") (txt "eu-west-1") cloud fresh).0 ≡ ok prepared
unfolding prepare client parameter get_parameter resolve_ami ensure_security_group default_vpc_id
    first_vpc reuse_or_create call pure ◌>>=◌ txt
is_prepared = refl

is_minted :
    (mint
      (txt "eu-west-1")
      (hostname_of (txt "eu-west-1") (txt "ab12"))
      cloud
      (after (prepare (txt "eu-west-1") (txt "eu-west-1")) cloud fresh)).0
    ≡ ok (str (txt "k"))
unfolding prepare client parameter get_parameter resolve_ami ensure_security_group default_vpc_id
    first_vpc reuse_or_create call pure ◌>>=◌ txt mint tailscale_token secret time observe
    cached_secret cached cache_get cache_put store fetch_secret param_name eqb_text get_token asks
    lift api_call read_response dict_get get truthy require ts_tag mint_auth_key
is_minted = refl

start-FromMint_example :
    FromMint cloud
      (txt "eu-west-1")
      (λ template.
        spec_of prepared
          (script cloud (str (txt "k")) (hostname_of (txt "eu-west-1") (txt "ab12")) template)
          (hostname_of (txt "eu-west-1") (txt "ab12"))
          noon
          never)
      (mint
        (txt "eu-west-1")
        (hostname_of (txt "eu-west-1") (txt "ab12"))
        cloud
        (after (prepare (txt "eu-west-1") (txt "eu-west-1")) cloud fresh)).1.calls
      (start
        (txt "eu-west-1")
        (txt "eu-west-1")
        noon
        never
        (hostname_of (txt "eu-west-1") (txt "ab12"))
        cloud
        fresh)
start-FromMint_example =
    start-FromMint (txt "eu-west-1") (txt "eu-west-1") (txt "ab12") never noon cloud fresh prepared
      (str (txt "k")) is_prepared is_minted

abbrev event : Fields
event = field (txt "requestContext") (obj end) end

lambda_handler-foreign_example :
    calls_of
      (foreign (has_key (txt "requestContext") event))
      (after (lambda_handler event (txt "r-1")) cloud fresh)
    ≡ calls_of (foreign (has_key (txt "requestContext") event)) fresh
lambda_handler-foreign_example = lambda_handler-foreign event (txt "r-1") cloud fresh
