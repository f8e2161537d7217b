-- ===== src/Frames/Aws.antt =====
-- The reading operations of settings.py, ec2ops.py and the handler, under a test that passes over
-- the calls that they make.
use shard_vpn.Prelude.{
  refl, ◌≡◌, Option-cases, inl, inr, ℕ, Text, Bool, Option, none, some, List, [], ◌∷◌,
}
use shard_vpn.Prelude
use shard_vpn.World.{Call, Service}
use shard_vpn.DateTime.{DateTime}
use shard_vpn.Exec.Frame.{Frame, frame_rules}
use shard_vpn.Boto.{client, environ}
use shard_vpn.Settings.{cached, store, fetch_secret, cached_secret, get_parameter, read_pointer}
use shard_vpn.Ec2ops.{valid_regions, find_nodes, network_out}
use shard_vpn.Frames.{calls_of, Frame-call, IgnoresReads, IgnoresSetup}

module _ {p : Call → Bool} (setup : IgnoresSetup p) where
  pub client-Frame : (v : Service) (r : Text) → Frame (calls_of p) (client v r)
  unfolding client
  client-Frame v r = search (frame_rules, Frame-call, setup.client)

  pub environ-Frame : (name : Text) → Frame (calls_of p) (environ name)
  unfolding environ
  environ-Frame name = search frame_rules

  pub get_parameter-Frame : (r n : Text) (d : Bool) → Frame (calls_of p) (get_parameter r n d)
  unfolding get_parameter
  get_parameter-Frame r n d = search (Frame-call, setup.get_parameter)

  pub read_pointer-Frame : (r n : Text) → Frame (calls_of p) (read_pointer r n)
  unfolding read_pointer
  read_pointer-Frame r n = record { at = λ env s. (get_parameter-Frame r n Prelude.false).at env s }

  store-Frame : (name : Text) (now : ℕ) (value : Text) → Frame (calls_of p) (store name now value)
  unfolding store calls_of
  store-Frame name now value = record { at = λ env s. refl }

  fetch_secret-Frame : (r n : Text) (now : ℕ) → Frame (calls_of p) (fetch_secret r n now)
  unfolding fetch_secret
  fetch_secret-Frame r n now = search (frame_rules, get_parameter-Frame, store-Frame)

  pub cached_secret-Frame : (r n : Text) (now : ℕ) → Frame (calls_of p) (cached_secret r n now)
  unfolding cached_secret
  cached_secret-Frame r n now = record {
    at = λ env s. elim (Option-cases (cached n now s.cache)) [
      | inl miss ↦ rw (miss, cached_secret) ((fetch_secret-Frame r n now).at env s)
      | inr (v, hit) ↦ rw (hit, cached_secret)
    ];
  }

module _ {p : Call → Bool} (reads : IgnoresReads p) where
  pub valid_regions-Frame : (r : Text) → Frame (calls_of p) (valid_regions r)
  unfolding valid_regions
  valid_regions-Frame r = search (Frame-call, reads.describe_regions)

  pub find_nodes-Frame : (r : Text) → Frame (calls_of p) (find_nodes r)
  unfolding find_nodes
  find_nodes-Frame r = search (frame_rules, Frame-call, reads.describe_instances)

  pub network_out-Frame :
      (r i : Text) (h : ℕ) (now : DateTime) → Frame (calls_of p) (network_out r i h now)
  unfolding network_out
  network_out-Frame r i h now = search (frame_rules, Frame-call, reads.get_metric_statistics)
