-- ===== src/World.antt =====
-- What stands outside the program: AWS through boto3, the Tailscale API through urllib, the clock,
-- the environment, and the codecs that the code calls. Each answer is a function of the calls made
-- before it, so the outside may keep any state, answer two equal calls differently, and fail at any
-- call with any exception.
use shard_vpn.Prelude.{ℕ, Text, Bool, Option, List}
use shard_vpn.Python.{Outcome}
use shard_vpn.Python.Json.{Json}
use shard_vpn.DateTime.{DateTime}

-- One entry of an instance's `Tags`.
pub record Tag : Type 0 where
  pub key : Text
  pub value : Text

-- What the code reads of an instance of `DescribeInstances`.
pub record Instance : Type 0 where
  pub instance_id : Text
  -- State.Name
  pub state : Text
  pub public_ip : Option Text
  pub tags : Option (List Tag)

-- A security group, and whether its `IpPermissions` has a rule.
pub record Group : Type 0 where
  pub group_id : Text
  pub has_ingress : Bool

-- A datapoint of `GetMetricStatistics`: its time, and its sum in bytes.
abbrev pub Datapoint : Type 0
Datapoint = DateTime × ℕ

-- The `Filters` of a call: names, and the values that each lets through.
abbrev pub Filters : Type 0
Filters = List (Text × List Text)

-- The arguments of `RunInstances` that vary.
pub record LaunchSpec : Type 0 where
  pub ami : Text
  pub instance_type : Text
  pub sg_id : Text
  pub user_data : Text
  pub tags : List (Text × Text)
  pub client_token : Text

-- A `urllib.request.Request`.
pub record Request : Type 0 where
  pub url : Text
  pub body : Option Text
  pub headers : List (Text × Text)
  pub method : Text

pub data Service : Type 0 where
  ssm sns ec2 cloudwatch : Service

-- The calls that the program makes. Those of a boto3 client begin with the client's region.
pub data Call : Type 0 where
  client : Service → Text → Call
  get_parameter : Text → Text → Bool → Call
  put_parameter : Text → Text → Text → Call
  describe_regions : Text → Call
  describe_vpcs : Text → Filters → Call
  describe_security_groups : Text → Filters → Call
  create_security_group : Text → Text → Text → Text → Call
  describe_instances : Text → Filters → Call
  run_instances : Text → LaunchSpec → Call
  terminate_instances : Text → Text → Call
  create_tags : Text → Text → Text → Text → Call
  get_metric_statistics : Text → Text → DateTime → DateTime → Call
  publish : Text → Text → Text → Call
  urlopen : Request → Call
  time utc_now token_hex read_template : Call

abbrev pub History : Type 0
History = List Call

-- The answers, and the parts of the outside that do not change during a run.
pub record Env : Type 0 where
  pub client : History → Service → Text → Outcome (Unit {0})
  pub get_parameter : History → Text → Text → Bool → Outcome Text
  pub put_parameter : History → Text → Text → Text → Outcome (Unit {0})
  pub describe_regions : History → Text → Outcome (List Text)
  pub describe_vpcs : History → Text → Filters → Outcome (List Text)
  pub describe_security_groups : History → Text → Filters → Outcome (List Group)
  pub create_security_group : History → Text → Text → Text → Text → Outcome Text
  pub describe_instances : History → Text → Filters → Outcome (List (List Instance))
  -- the ids of the instances that were started
  pub run_instances : History → Text → LaunchSpec → Outcome (List Text)
  pub terminate_instances : History → Text → Text → Outcome (Unit {0})
  pub create_tags : History → Text → Text → Text → Text → Outcome (Unit {0})
  pub get_metric_statistics : History → Text → Text → DateTime → DateTime → Outcome (List Datapoint)
  pub publish : History → Text → Text → Text → Outcome (Unit {0})
  -- the bytes of the response
  pub urlopen : History → Request → Outcome Text
  -- time.time(), in microseconds
  pub time : History → ℕ
  -- datetime.now(UTC)
  pub utc_now : History → DateTime
  -- secrets.token_hex(2)
  pub token_hex : History → Text
  -- the text of userdata.sh, read from its file
  pub read_template : History → Outcome Text
  -- os.environ
  pub environ : Text → Option Text
  -- json.loads on a `str` and on bytes, json.dumps, the text of a value in an f-string
  pub loads : Text → Outcome Json
  pub loads_bytes : Text → Outcome Json
  pub dumps : Json → Text
  pub format : Json → Text
  pub urlencode : List (Text × Text) → Text
  pub b64decode : Text → Outcome Text
  -- hmac.new(key, message, sha256).hexdigest()
  pub hmac_sha256 : Text → Text → Text
