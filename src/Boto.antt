-- ===== src/Boto.antt =====
-- boto3.client, and the environment variables. A client is known by its region.
use shard_vpn.Prelude.{Text, none, some}
use shard_vpn.Python.{Exc, ok, err}
use shard_vpn.World.{Call, Service}
use shard_vpn.Exec.{Exec, lift, asks, call, ◌>>=◌, ◌>>◌, pure}

-- client_factory(service, region_name=region)
unfoldable pub client : Service → Text → Exec Text
client service region = do
  call (Call.client service region) (λ env h. env.client h service region)
  pure region

-- os.environ[name]
unfoldable pub environ : Text → Exec Text
environ name = do
  value ← asks (λ env. env.environ name)
  lift (elim value [ some v ↦ ok v | none ↦ err (Exc.key_error name) ])
