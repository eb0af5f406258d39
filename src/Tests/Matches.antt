-- ===== src/Tests/Matches.antt =====
-- The laws of the book's priority, of matching, of its health and of settlement, at the orders of
-- the test data.
use ckb_dex.Tests.Data.{sell_order, buy_order}
use ckb_dex.Prelude.{
  List, All, ◌≡◌, ◌≤◌, ◌∷◌, ◌+◌, if◌then◌else◌, arith, [], some, min, member, ◌↔◌, length, ◌*◌,
  false, refl,
}
use ckb_dex.Matching.Priority.{IsSorted, sort_priority}
use ckb_dex.Health.{
  is_order_quarantined, MatchHealth, is_pair_blocked, base_pair_backoff_ms, quarantine_order,
  record_pair_failure, prune, healthy, max_pair_backoff_ms, record_success,
}
use ckb_dex.Settlement.{
  SettlementCapacityInput, SettlementCapacity, allocate_settlement_capacity, max_settlement_fee,
  allocate_exact,
}
use ckb_dex.Faucet.Throttle.{
  prune_throttle, throttle_by_ip, Seen, last_request_at, min_ms_between_requests_per_ip,
  max_tracked_ips,
}
use ckb_dex.Order.{Order}
use ckb_dex.Matching.{sort, find_matches}
use ckb_dex.Matching.Sound.{IsMatch, find_matches-IsMatch}
use ckb_dex.Health.Laws.{prune_keeps_answers, backoff_schedule}
use ckb_dex.Prelude.Result.{ok}
use ckb_dex.Faucet.Throttle.Laws.{throttle_spaces_requests}
use mathlib.Core.List.{Perm}

abbrev orders : List Order
orders = sell_order ∷ buy_order ∷ []

sort_priority_example : IsSorted (sort orders) × Perm (sort orders) orders
sort_priority_example = sort_priority orders

find_matches-IsMatch_example : All (IsMatch healthy 7 orders) (find_matches healthy orders 7).1
find_matches-IsMatch_example = find_matches-IsMatch healthy orders 7

abbrev hurt : MatchHealth
hurt = quarantine_order healthy "0xb:0" 100 7

backoff_schedule_example :
    (base_pair_backoff_ms ≤ (record_pair_failure healthy "b" "s" 7).1)
    × ((record_pair_failure healthy "b" "s" 7).1 ≤ max_pair_backoff_ms)
    × ((record_pair_failure (record_pair_failure healthy "b" "s" 7).0 "b" "s" 9).1
        ≡ min (2 * (record_pair_failure healthy "b" "s" 7).1) max_pair_backoff_ms)
    × ((record_pair_failure (record_success healthy "b" "s") "b" "s" 9).1 ≡ base_pair_backoff_ms)
backoff_schedule_example = backoff_schedule healthy "b" "s" 7 9

prune_keeps_answers_example :
    (is_pair_blocked (prune hurt ("0xb:0" ∷ []) 20) "0xb:0" "s" 30
      ≡ is_pair_blocked hurt "0xb:0" "s" 30)
    × ((is_order_quarantined (prune hurt ("0xb:0" ∷ []) 20) "0xb:0" 30).1 ≡ (
        if member "0xb:0" ("0xb:0" ∷ []) then (is_order_quarantined hurt "0xb:0" 30).1 else false))
prune_keeps_answers_example =
    prune_keeps_answers hurt ("0xb:0" ∷ []) "0xb:0" "s" "0xb:0" 20 30 (omega arith)

abbrev capacity_input : SettlementCapacityInput
capacity_input = record { buy_capacity = 500; price = 5; minimum_token_capacity = 142; fee = 3 }

abbrev allocation : SettlementCapacity
allocation = record { token_capacity = 492; fee = 3 }

allocate_exact_example : (allocate_settlement_capacity capacity_input ≡ ok (some allocation)) ↔ (
    (3 ≤ max_settlement_fee)
    × (142 ≤ 492)
    × (allocation.fee ≡ capacity_input.fee)
    × (5 + 492 + 3 ≡ 500))
allocate_exact_example = allocate_exact capacity_input allocation

abbrev seen : List Seen
seen = record { ip = "1.2.3.4"; at = 1000 } ∷ []

throttle_spaces_requests_example :
    (1000 + min_ms_between_requests_per_ip ≤ 6000)
    × (last_request_at "1.2.3.4" (throttle_by_ip "1.2.3.4" 6000 seen).1 ≡ some 6000)
    × (length (throttle_by_ip "1.2.3.4" 6000 seen).1 ≤ max_tracked_ips)
unfolding throttle_by_ip last_request_at prune_throttle
throttle_spaces_requests_example = throttle_spaces_requests "1.2.3.4" 6000 1000 seen refl refl
