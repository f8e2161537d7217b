-- ===== src/Watchdog/Alert.antt =====
-- When the idle alert is sent, and what the idle time is.
use shard_vpn.Prelude.{◌+◌, ◌≤◌, ◌≡◌, Text, Option, some}
use shard_vpn.DateTime.{DateTime}
use shard_vpn.Ttl.{parse_rfc3339}
use shard_vpn.Watchdog.{alert_interval}

-- The stamp, if it is there and reads as a time, is of an interval ago or more.
abbrev pub IsOld : Option Text → DateTime → Type 0
IsOld stamp now =
    (raw : Text) (t : DateTime)
    → stamp ≡ some raw
    → parse_rfc3339 raw ≡ some t
    → t + alert_interval ≤ now
