-- ===== src/Watchdog.antt =====
-- lambda/shardvpn/watchdog.py: the pure decisions of the hourly sweep. The sweep itself stands in
-- the modules below.
pub mod Message
pub mod Summary
pub mod Step
pub mod Sweep
pub mod Order
pub mod Alert
pub mod LastUse
pub mod Reaping
pub mod Terminations
pub mod Dropped
pub mod Pointing
pub mod Acting
pub mod Totality
use shard_vpn.Prelude.{
  ℕ, ◌+◌, ◌-◌, ◌*◌, ◌/◌, Text, txt, Bool, true, false, Option, none, some, List, [], ◌∷◌, map,
  reverse, leb, ltb, ℤ, pos_part, if◌then◌else◌,
}
use shard_vpn.World.{Instance, Datapoint}
use shard_vpn.DateTime.{DateTime, second}
use shard_vpn.Ttl.{parse_rfc3339}
use shard_vpn.Ec2ops.{tag_launched, tag_value}

abbrev pub idle_window_hours : ℕ
idle_window_hours = 24

-- ALERT_INTERVAL, in microseconds
abbrev pub alert_interval : ℕ
alert_interval = 24 * 3600 * second

-- A launch stamp that is there, reads as a time, and is younger than the interval.
unfoldable pub is_young : Option Text → DateTime → Bool
is_young none now = false
is_young (some launched_at) now = elim (parse_rfc3339 launched_at) [
  | none ↦ false
  | some t ↦ ltb now (t + alert_interval)
]

-- No alert yet, an alert stamp that does not read as a time, or one of an interval ago or more.
unfoldable pub is_alert_due : Option Text → DateTime → Bool
is_alert_due none now = true
is_alert_due (some last_alert) now = elim (parse_rfc3339 last_alert) [
  | none ↦ true
  | some t ↦ leb (t + alert_interval) now
]

-- `idle_bytes >= threshold` is `max(threshold, 0) <= idle_bytes`, since a sum of bytes is not
-- negative.
unfoldable pub should_alert : ℕ → ℤ → Option Text → DateTime → Option Text → Bool
should_alert idle_bytes threshold last_alert now launched_at =
    if leb (pos_part threshold) idle_bytes
    then false
    else if is_young launched_at now
    then false
    else is_alert_due last_alert now

abbrev pub idle_bucket_floor_bytes : ℕ
idle_bucket_floor_bytes = 1_000_000

-- max(int((now - t).total_seconds()), 0)
unfoldable pub seconds_since : DateTime → DateTime → ℕ
seconds_since now t = (now - t) / second

-- The first of the points with a value above the floor.
unfoldable pub first_busy : ℕ → List Datapoint → Option DateTime
first_busy floor [] = none
first_busy floor ((t, v) ∷ ps) = if ltb floor v then some t else first_busy floor ps

unfoldable pub idle_seconds : List Datapoint → DateTime → ℕ → Option ℕ
idle_seconds [] now floor = none
idle_seconds ((t₀, v₀) ∷ ps) now floor = elim (first_busy floor (reverse ((t₀, v₀) ∷ ps))) [
  | some t ↦ some (seconds_since now t)
  | none ↦ some (seconds_since now t₀)
]

-- A node and its region.
abbrev pub Node : Type 0
Node = Text × Instance

-- The parsed launch time of a node.
unfoldable pub launch_time : Node → Option DateTime
launch_time (_, i) = elim (tag_value i tag_launched) [ none ↦ none | some raw ↦ parse_rfc3339 raw ]

-- The launch times of all survivors, if every one reads as a time.
unfoldable pub launch_times : List Node → Option (List (DateTime × Node))
launch_times [] = some []
launch_times (n ∷ ns) = elim (launch_time n) [
  | none ↦ none
  | some t ↦ elim (launch_times ns) [ none ↦ none | some rest ↦ some ((t, n) ∷ rest) ]
]

-- Into a list that is sorted newest first; an earlier node stands before one of the same time.
unfoldable pub insert_node : DateTime × Node → List (DateTime × Node) → List (DateTime × Node)
insert_node x [] = x ∷ []
insert_node x (y ∷ ys) = if leb y.0 x.0 then x ∷ y ∷ ys else y ∷ insert_node x ys

-- parsed.sort(key=lambda item: item[0], reverse=True), which is stable
unfoldable pub sort_nodes : List (DateTime × Node) → List (DateTime × Node)
sort_nodes [] = []
sort_nodes (x ∷ xs) = insert_node x (sort_nodes xs)

unfoldable pub node_of : DateTime × Node → Node
node_of (_, n) = n

-- The survivors as they are, or by their parsed launch times.
unfoldable pub ordered_by : List Node → Option (List (DateTime × Node)) → List Node × Bool
ordered_by survivors none = (survivors, false)
ordered_by survivors (some parsed) = (map node_of (sort_nodes parsed), true)

-- _order_survivors(survivors)
unfoldable pub order_survivors : List Node → List Node × Bool
order_survivors [] = ([], true)
order_survivors (n ∷ []) = (n ∷ [], true)
order_survivors (n ∷ m ∷ ns) = ordered_by (n ∷ m ∷ ns) (launch_times (n ∷ m ∷ ns))
