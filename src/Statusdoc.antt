-- ===== src/Statusdoc.antt =====
-- lambda/shardvpn/statusdoc.py: the one document that every action returns.
use shard_vpn.Prelude.{ℕ, Text, txt, ◌==◌, Bool, Option, none, some, [], ◌∷◌, pos, if◌then◌else◌}
use shard_vpn.Python.Json.{Json, null, str, obj, field, end}
use shard_vpn.World.{Instance}
use shard_vpn.DateTime.{DateTime, seconds_between}
use shard_vpn.Ttl.{never, format_duration, parse_rfc3339}
use shard_vpn.Ec2ops.{tag_expires, tag_hostname, tag_launched, tag_value}

pub record StatusDoc : Type 0 where
  pub state : Text
  pub region : Option Text
  pub instance_id : Option Text
  pub public_ip : Option Text
  pub tailnet : Text
  pub hostname : Option Text
  pub age : Option Text
  pub expires_at : Option Text
  pub idle_for : Option Text

-- ABSENT
unfoldable pub absent : StatusDoc
absent = record {
  state = txt "absent";
  region = none;
  instance_id = none;
  public_ip = none;
  tailnet = txt "unknown";
  hostname = none;
  age = none;
  expires_at = none;
  idle_for = none;
}

-- _age(launched, now)
unfoldable pub age_of : Option Text → DateTime → Option Text
age_of none now = none
age_of (some []) now = none
age_of (some (c ∷ s)) now = elim (parse_rfc3339 (c ∷ s)) [
  | none ↦ none
  | some launched ↦ some (format_duration (seconds_between now launched))
]

unfoldable pub tailnet_of : Option Bool → Text
tailnet_of none = txt "unknown"
tailnet_of (some online) = if online then txt "online" else txt "absent"

-- None if expires in (None, NEVER) else expires
unfoldable pub shown_expiry : Option Text → Option Text
shown_expiry none = none
shown_expiry (some expires) = if expires == never then none else some expires

unfoldable pub build : Option Instance → Option Text → Option Bool → Option ℕ → DateTime → StatusDoc
build none region online idle_seconds now = absent
build (some i) region online idle_seconds now = record {
  state = i.state;
  region = region;
  instance_id = some i.instance_id;
  public_ip = i.public_ip;
  tailnet = tailnet_of online;
  hostname = tag_value i tag_hostname;
  age = age_of (tag_value i tag_launched) now;
  expires_at = shown_expiry (tag_value i tag_expires);
  idle_for = elim idle_seconds [ none ↦ none | some n ↦ some (format_duration (pos n)) ];
}

unfoldable pub optional : Option Text → Json
optional none = null
optional (some t) = str t

-- The document as the dict that is dumped.
unfoldable pub to_json : StatusDoc → Json
to_json d = obj (
    field (txt "state") (str d.state) (
      field (txt "region") (optional d.region) (
        field (txt "instance_id") (optional d.instance_id) (
          field (txt "public_ip") (optional d.public_ip) (
            field (txt "tailnet") (str d.tailnet) (
              field (txt "hostname") (optional d.hostname) (
                field (txt "age") (optional d.age) (
                  field (txt "expires_at") (optional d.expires_at)
                    (field (txt "idle_for") (optional d.idle_for) end)))))))))
