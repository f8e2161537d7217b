-- ===== src/Tests/World.antt =====
-- An outside in which every call succeeds and there is one region, and the nodes that the tests use.
use shard_vpn.Prelude.{
  ℕ, zero, suc, ◌*◌, Text, txt, none, some, List, [], ◌∷◌, ◌≡◌, refl, ap, ◌++◌, length,
}
use shard_vpn.Python.{Exc, Outcome, ok, err}
use shard_vpn.Python.Json.{Json, str, obj, field, end}
use shard_vpn.World.{Env, Tag, Instance}
use shard_vpn.DateTime.{DateTime}
use shard_vpn.Exec.{State}
use shard_vpn.Settings.{Pointer, pointer_json}
use shard_vpn.Settings.Stored.{JsonObjects}
use shard_vpn.Ec2ops.{tag_launched, tag_expires}

-- 2026-08-01T12:00:00Z
abbrev pub noon : DateTime
noon = 63_921_182_400 * 1_000_000

-- A codec of the objects that the program stores: a brace, the length of the first text, and the
-- two texts.
abbrev dumps : Json → Text
dumps (obj (field _ (str r) (field _ (str i) end))) = b'{' ∷ length r ∷ (r ++ i)
dumps _ = []

abbrev split_at : ℕ → Text → Text × Text
split_at zero s = ([], s)
split_at (suc n) [] = ([], [])
split_at (suc n) (c ∷ s) = (c ∷ (split_at n s).0, (split_at n s).1)

abbrev pair : Text × Text → Json
pair (r, i) = pointer_json (record { region = r; instance_id = i })

abbrev loads : Text → Outcome Json
loads (_ ∷ n ∷ s) = ok (pair (split_at n s))
loads _ = err (Exc.json_decode_error [])

split_at-length : (r i : Text) → split_at (length r) (r ++ i) ≡ (r, i)
split_at-length [] i = refl
split_at-length (c ∷ r) i = ap (λ (x : Text × Text). (c ∷ x.0, x.1)) (split_at-length r i)

abbrev pub node : Pointer
node = record { region = b'e' ∷ []; instance_id = b'i' ∷ [] }

abbrev pub cloud : Env
cloud = record {
  client = λ h v r. ok tt;
  get_parameter = λ h r n d. ok (txt "s3cret");
  put_parameter = λ h r n v. ok tt;
  describe_regions = λ h r. ok (txt "eu-west-1" ∷ []);
  describe_vpcs = λ h r f. ok (txt "vpc-1" ∷ []);
  describe_security_groups = λ h r f. ok [];
  create_security_group = λ h r n d v. ok (txt "sg-1");
  describe_instances = λ h r f. ok [];
  run_instances = λ h r s. ok (txt "i-new" ∷ []);
  terminate_instances = λ h r i. ok tt;
  create_tags = λ h r i k v. ok tt;
  get_metric_statistics = λ h r i a b. ok [];
  publish = λ h r t m. ok tt;
  urlopen = λ h r. ok (txt "{}");
  time = λ h. 1_785_585_600 * 1_000_000;
  utc_now = λ h. noon;
  token_hex = λ h. txt "ab12";
  environ = λ n. some (txt "eu-west-1");
  read_template = λ h. ok [];
  loads = loads;
  loads_bytes = λ s.
      ok (obj (field (txt "access_token") (str (txt "t")) (field (txt "key") (str (txt "k")) end)));
  dumps = dumps;
  format = λ v. [];
  urlencode = λ ps. [];
  b64decode = λ s. ok s;
  hmac_sha256 = λ k m. [];
}

pub cloud-JsonObjects : JsonObjects cloud
unfolding pointer_json
cloud-JsonObjects = record {
  loads-dumps = λ p. ap (λ x. ok (pair x)) (split_at-length p.region p.instance_id);
  dumps-brace = λ p. (length p.region ∷ (p.region ++ p.instance_id), refl);
}

abbrev pub fresh : State
fresh = record { calls = []; cache = [] }

abbrev pub tagged : Text → List Tag → Instance
tagged id tags = record {
  instance_id = id;
  state = txt "running";
  public_ip = none;
  tags = some tags;
}

abbrev launched_at : Text → Tag
launched_at t = record { key = tag_launched; value = t }

abbrev expires_at : Text → Tag
expires_at t = record { key = tag_expires; value = t }

-- A node that has expired, and two that have not, the older one first.
abbrev pub expired : Instance
expired = tagged (txt "i-expired") (expires_at (txt "2026-08-01T11:00:00Z") ∷ [])

abbrev pub older : Instance
older = tagged (txt "i-older") (launched_at (txt "2026-08-01T09:00:00Z") ∷ [])

abbrev pub newer : Instance
newer = tagged (txt "i-newer") (launched_at (txt "2026-08-01T10:00:00Z") ∷ [])

-- A node with no tags.
abbrev pub untagged : Instance
untagged = tagged (txt "i-untagged") []

-- The outside with a pointer to a node of region "e", in which one node runs.
abbrev pub tracking : Env
tracking = record cloud {
  get_parameter = λ h r n d. ok (b'{' ∷ 1 ∷ b'e' ∷ b'i' ∷ []);
  describe_instances = λ h r f. ok ((older ∷ []) ∷ []);
}
