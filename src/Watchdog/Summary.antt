-- ===== src/Watchdog/Summary.antt =====
-- The `summary` dict of a sweep, and what is appended to its lists.
use shard_vpn.Prelude.{ℕ, Text, List, [], ◌∷◌, ◌++◌}

pub record Summary : Type 0 where
  pub regions_scanned : ℕ
  pub nodes : List Text
  pub reaped : List Text
  pub alerted : List Text
  pub orphans : List Text
  pub duplicates : List Text
  pub failures : List Text

abbrev pub empty : Summary
empty = record {
  regions_scanned = 0;
  nodes = [];
  reaped = [];
  alerted = [];
  orphans = [];
  duplicates = [];
  failures = [];
}

unfoldable pub fail : Text → Summary → Summary
fail what m = record m { failures = m.failures ++ what ∷ [] }

unfoldable pub add_reaped : Text → Summary → Summary
add_reaped id m = record m { reaped = m.reaped ++ id ∷ [] }

unfoldable pub add_duplicate : Text → Summary → Summary
add_duplicate id m = record m { duplicates = m.duplicates ++ id ∷ [] }

unfoldable pub add_orphan : Text → Summary → Summary
add_orphan id m = record m { orphans = m.orphans ++ id ∷ [] }

unfoldable pub add_alerted : Text → Summary → Summary
add_alerted id m = record m { alerted = m.alerted ++ id ∷ [] }
