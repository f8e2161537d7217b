-- ===== src/Tests/Sweeps.antt =====
-- The sweep at concrete nodes.
use mathlib.Core.List.{Perm}
use shard_vpn.Prelude.{
  ◌≤◌, ◌≡◌, refl, ◌↔◌, length, Text, txt, eqb_text, true, false, none, some, List, [], ◌∷◌, pos,
}
use shard_vpn.Python.{ok}
use shard_vpn.Exec.{after}
use shard_vpn.Python.Decimal.{read_digits, decimal}
use shard_vpn.Ttl.{parse_rfc3339}
use shard_vpn.DateTime.{strptime, make}
use shard_vpn.DateTime.Fields.{
  field, split, year_field, month_field, day_field, hour_field, minute_field, second_field,
}
use shard_vpn.DateTime.Calendar.{
  is_date, is_leap, month_length, lengths, february, days_before, before_year, before_month,
}
use shard_vpn.Ec2ops.{tag_value, find_tag, tag_launched}
use shard_vpn.Watchdog.{
  Node, launch_time, launch_times, ordered_by, sort_nodes, insert_node, node_of, order_survivors,
}
use shard_vpn.Watchdog.Summary
use shard_vpn.Watchdog.Summary.{Summary}
use shard_vpn.Watchdog.Step.{Scanned, found_nodes, any_failed}
use shard_vpn.Watchdog.Sweep.{act, sweep}
use shard_vpn.Watchdog.Order.{
  AnyUnknown, NewestFirstNodes, order_survivors-newest_first, order_survivors_refuses,
}
use shard_vpn.Watchdog.Reaping.{survivors_of, expired_of, candidate_of}
use shard_vpn.Watchdog.Terminations.{ClientsWork, terminations, ended}
use shard_vpn.Watchdog.Dropped.{IsDropped}
use shard_vpn.Watchdog.Pointing.{puts, written, decision}
use shard_vpn.Watchdog.Acting.{terminations-act, puts-act}
use shard_vpn.Watchdog.Totality.{IsDeployed, sweep_total}
use shard_vpn.Tests.World.{cloud, fresh, noon, node, expired, older, newer, untagged}

works : ClientsWork cloud
works = record { created = λ h v r. refl }

deployed : IsDeployed cloud
deployed = record { works = works; control = txt "eu-west-1"; is_set = refl }

sweep_total_example : (m : Summary) × ((sweep noon none none cloud fresh).0 ≡ ok m)
sweep_total_example = sweep_total cloud deployed noon none none fresh

abbrev ireland : Text
ireland = txt "eu-west-1"

abbrev scans : List Scanned
scans = record { region = ireland; nodes = expired ∷ older ∷ newer ∷ []; failure = none } ∷ []

terminations-act_example :
    (dropped : List Node) × IsDropped (survivors_of noon (found_nodes scans)) dropped
    × (terminations (
          after
            (act noon ireland (txt "arn") (some (pos 5)) (some node) true scans Summary.empty)
            cloud
            fresh)
        ≡ ended dropped (ended (expired_of noon (found_nodes scans)) (terminations fresh)))
terminations-act_example =
    terminations-act noon ireland (txt "arn") (some (pos 5)) (some node) true cloud scans
      Summary.empty fresh works

puts-act_example :
    puts (
      after
        (act noon ireland (txt "arn") (some (pos 5)) (some node) true scans Summary.empty)
        cloud
        fresh)
    ≡ written cloud ireland
        (decision true
          (order_survivors (survivors_of noon (found_nodes scans))).1
          (some node)
          (any_failed scans)
          (candidate_of (order_survivors (survivors_of noon (found_nodes scans)))))
        (puts fresh)
puts-act_example =
    puts-act noon ireland (txt "arn") (some (pos 5)) (some node) true cloud scans Summary.empty
      fresh

abbrev both_orders : List Node × List Node
both_orders = ((ireland, older) ∷ (ireland, newer) ∷ [], (ireland, newer) ∷ (ireland, older) ∷ [])

two_survivors : order_survivors both_orders.0 ≡ (both_orders.1, true)
unfolding order_survivors ordered_by launch_times launch_time tag_value find_tag tag_launched txt
    eqb_text parse_rfc3339 strptime field split year_field month_field day_field hour_field
    minute_field second_field make is_date is_leap month_length lengths february days_before
    before_year before_month sort_nodes insert_node node_of read_digits decimal
two_survivors = refl

order_survivors-newest_first_example :
    Perm both_orders.1 both_orders.0 × NewestFirstNodes both_orders.1
order_survivors-newest_first_example =
    order_survivors-newest_first both_orders.0 both_orders.1 two_survivors

abbrev unclear : List Node
unclear = (ireland, older) ∷ (ireland, untagged) ∷ []

order_survivors_refuses_example :
    (((order_survivors unclear).1 ≡ false) ↔ ((2 ≤ length unclear) × AnyUnknown unclear))
    × ((order_survivors unclear).1 ≡ false → (order_survivors unclear).0 ≡ unclear)
order_survivors_refuses_example = order_survivors_refuses unclear
