-- ===== src/Ec2ops.antt =====
-- lambda/shardvpn/ec2ops.py: EC2, SSM parameter and CloudWatch operations. A client is its region.
use shard_vpn.Prelude.{
  ℕ, ◌+◌, ◌-◌, ◌*◌, Text, txt, ◌==◌, Bool, false, ◌&&◌, ◌||◌, Option, none, some, List, [], ◌∷◌,
  ◌++◌, leb, ltb, eqb, if◌then◌else◌,
}
use shard_vpn.Python.{Exc}
use shard_vpn.World.{Call, Tag, Instance, Group, Datapoint, Filters, LaunchSpec}
use shard_vpn.Exec.{Exec, pure, raise, call, ◌>>=◌}
use shard_vpn.DateTime.{DateTime, second}
use shard_vpn.Settings.{get_parameter}

unfoldable pub tag_role : Text
tag_role = txt "shardvpn:role"

unfoldable pub role_value : Text
role_value = txt "exit-node"

unfoldable pub tag_launched : Text
tag_launched = txt "shardvpn:launched-at"

unfoldable pub tag_expires : Text
tag_expires = txt "shardvpn:expires-at"

unfoldable pub tag_alerted : Text
tag_alerted = txt "shardvpn:last-idle-alert"

unfoldable pub tag_hostname : Text
tag_hostname = txt "shardvpn:ts-hostname"

unfoldable pub sg_name : Text
sg_name = txt "shardvpn-exit"

unfoldable pub sg_description : Text
sg_description = txt "shardVPN exit node: no ingress rules, default egress only"

unfoldable pub ami_parameter : Text
ami_parameter = txt "/aws/service/ami-amazon-linux-latest/al2023-ami-kernel-default-arm64"

-- LIVE_STATES
unfoldable pub live_states : List Text
live_states = txt "pending" ∷ txt "running" ∷ []

unfoldable pub resolve_ami : Text → Exec Text
resolve_ami ssm = get_parameter ssm ami_parameter false

unfoldable pub valid_regions : Text → Exec (List Text)
valid_regions ec2 = call (Call.describe_regions ec2) (λ env h. env.describe_regions h ec2)

abbrev vpc_filters : Filters
vpc_filters = (txt "isDefault", txt "true" ∷ []) ∷ []

unfoldable pub first_vpc : List Text → Exec Text
first_vpc [] = raise (Exc.runtime_error (txt "no default VPC in this region"))
first_vpc (vpc ∷ _) = pure vpc

unfoldable pub default_vpc_id : Text → Exec Text
default_vpc_id ec2 = do
  vpcs ← call (Call.describe_vpcs ec2 vpc_filters) (λ env h. env.describe_vpcs h ec2 vpc_filters)
  first_vpc vpcs

abbrev group_filters : Text → Filters
group_filters vpc_id = (txt "group-name", sg_name ∷ []) ∷ (txt "vpc-id", vpc_id ∷ []) ∷ []

unfoldable pub ingress_refused : Text → Text
ingress_refused group_id =
    txt "security group "
    ++ (group_id
        ++ (txt " ("
            ++ (sg_name
                ++ txt
                    ") has ingress rules; refusing to reuse it — shardVPN's zero-inbound guarantee only holds for a group this code created itself")))

-- An existing group is taken only if it has no ingress rule.
unfoldable pub reuse_or_create : Text → Text → List Group → Exec Text
reuse_or_create ec2 vpc_id [] =
    call (Call.create_security_group ec2 sg_name sg_description vpc_id)
      (λ env h. env.create_security_group h ec2 sg_name sg_description vpc_id)
reuse_or_create ec2 vpc_id (group ∷ _) =
    if group.has_ingress
    then raise (Exc.runtime_error (ingress_refused group.group_id))
    else pure group.group_id

unfoldable pub ensure_security_group : Text → Exec Text
ensure_security_group ec2 = do
  vpc_id ← default_vpc_id ec2
  existing ←
      call (Call.describe_security_groups ec2 (group_filters vpc_id))
        (λ env h. env.describe_security_groups h ec2 (group_filters vpc_id))
  reuse_or_create ec2 vpc_id existing

abbrev pub node_filters : Filters
node_filters =
    (txt "tag:" ++ tag_role, role_value ∷ []) ∷ (txt "instance-state-name", live_states) ∷ []

-- The instances of all reservations.
unfoldable pub instances : List (List Instance) → List Instance
instances [] = []
instances (r ∷ rs) = r ++ instances rs

unfoldable pub find_nodes : Text → Exec (List Instance)
find_nodes ec2 = do
  reservations ←
      call (Call.describe_instances ec2 node_filters)
        (λ env h. env.describe_instances h ec2 node_filters)
  pure (instances reservations)

unfoldable pub first_id : List Text → Exec Text
first_id [] = raise (Exc.other (txt "IndexError") (txt "list index out of range"))
first_id (id ∷ _) = pure id

-- The fixed arguments of `run_instances` (MinCount and MaxCount 1, shutdown terminates, IMDSv2) are
-- part of the call.
unfoldable pub launch : Text → LaunchSpec → Exec Text
launch ec2 spec = do
  ids ← call (Call.run_instances ec2 spec) (λ env h. env.run_instances h ec2 spec)
  first_id ids

unfoldable pub terminate : Text → Text → Exec (Unit {0})
terminate ec2 instance_id =
    call (Call.terminate_instances ec2 instance_id)
      (λ env h. env.terminate_instances h ec2 instance_id)

unfoldable pub stamp_tag : Text → Text → Text → Text → Exec (Unit {0})
stamp_tag ec2 instance_id key value =
    call (Call.create_tags ec2 instance_id key value)
      (λ env h. env.create_tags h ec2 instance_id key value)

unfoldable pub find_tag : Text → List Tag → Option Text
find_tag key [] = none
find_tag key (tag ∷ tags) = if tag.key == key then some tag.value else find_tag key tags

unfoldable pub tag_value : Instance → Text → Option Text
tag_value instance' key = elim (instance'.tags) [ none ↦ none | some tags ↦ find_tag key tags ]

-- Tuples compare by their times, then by their sums.
unfoldable pub point_le : Datapoint → Datapoint → Bool
point_le (t, v) (t', v') = ltb t t' || (eqb t t' && leb v v')

unfoldable pub insert_point : Datapoint → List Datapoint → List Datapoint
insert_point p [] = p ∷ []
insert_point p (q ∷ ps) = if point_le p q then p ∷ q ∷ ps else q ∷ insert_point p ps

-- sorted(…)
unfoldable pub sort_points : List Datapoint → List Datapoint
sort_points [] = []
sort_points (p ∷ ps) = insert_point p (sort_points ps)

unfoldable pub network_out : Text → Text → ℕ → DateTime → Exec (List Datapoint)
network_out cw instance_id hours now = do
  let start = now - hours * 3600 * second
  points ←
      call (Call.get_metric_statistics cw instance_id start now)
        (λ env h. env.get_metric_statistics h cw instance_id start now)
  pure (sort_points points)

-- int(sum(value for _, value in points))
unfoldable pub sum_points : List Datapoint → ℕ
sum_points [] = 0
sum_points ((_, v) ∷ ps) = v + sum_points ps

unfoldable pub network_out_bytes : Text → Text → ℕ → DateTime → Exec ℕ
network_out_bytes cw instance_id hours now = do
  points ← network_out cw instance_id hours now
  pure (sum_points points)
