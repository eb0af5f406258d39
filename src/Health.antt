-- ===== src/Health.antt =====
-- backend/src/bot/match-health.ts: failed settlement attempts, by order and by pair. Each JS Map is
-- a function from its key; the text key `buy|sell` of a pair is kept as its two parts, which
-- `key.split("|")` recovers (an order id holds no bar). A method that writes returns the new state.
pub mod Laws
use ckb_dex.Prelude.{
  ℕ, ◌+◌, ◌-◌, ◌*◌, ◌^◌, min, String, Bool, true, false, not, ◌&&◌, ◌||◌, Option, none, some, List,
  ltb, leb, ◌==◌, member, if◌then◌else◌,
}

abbrev pub base_pair_backoff_ms : ℕ
base_pair_backoff_ms = 5000

abbrev pub max_pair_backoff_ms : ℕ
max_pair_backoff_ms = 600000

abbrev pub order_quarantine_ms : ℕ
order_quarantine_ms = 3600000

pub record PairState : Type 0 where
  pub failures : ℕ
  pub until : ℕ

pub record MatchHealth : Type 0 where
  pub quarantined_orders : String → Option ℕ
  pub pairs : String → String → Option PairState

-- new MatchHealth()
abbrev pub healthy : MatchHealth
healthy = record { quarantined_orders = λ id. none; pairs = λ buy sell. none }

-- Map.set and Map.delete on the map of quarantined orders
set_quarantine : MatchHealth → String → Option ℕ → MatchHealth
set_quarantine h order_id entry = record h {
  quarantined_orders = λ id. if order_id == id then entry else h.quarantined_orders id;
}

-- Map.set and Map.delete on the map of pairs
set_pair : MatchHealth → String → String → Option PairState → MatchHealth
set_pair h buy_id sell_id entry = record h {
  pairs = λ buy sell. if (buy_id == buy) && (sell_id == sell) then entry else h.pairs buy sell;
}

unfoldable pub quarantine_order : MatchHealth → String → ℕ → ℕ → MatchHealth
unfolding set_quarantine
quarantine_order h order_id ms now = set_quarantine h order_id (some (now + ms))

unfoldable pub is_order_quarantined : MatchHealth → String → ℕ → MatchHealth × Bool
unfolding set_quarantine
is_order_quarantined h order_id now = elim (h.quarantined_orders order_id) [
  | none ↦ (h, false)
  | some until ↦ if leb until now then (set_quarantine h order_id none, false) else (h, true)
]

-- `this.pairs.get(key)?.failures ?? 0`
failures_of : Option PairState → ℕ
failures_of none = 0
failures_of (some state) = state.failures

unfoldable pub record_pair_failure : MatchHealth → String → String → ℕ → MatchHealth × ℕ
unfolding set_pair failures_of
record_pair_failure h buy_id sell_id now =
    let failures = failures_of (h.pairs buy_id sell_id) + 1 in
    let delay = min (base_pair_backoff_ms * 2 ^ (failures - 1)) max_pair_backoff_ms in
    (set_pair h buy_id sell_id (some (record { failures = failures; until = now + delay })), delay)

blocks : ℕ → Option PairState → Bool
blocks now none = false
blocks now (some state) = ltb now state.until

unfoldable pub is_pair_blocked : MatchHealth → String → String → ℕ → Bool
unfolding blocks
is_pair_blocked h buy_id sell_id now = blocks now (h.pairs buy_id sell_id)

unfoldable pub record_success : MatchHealth → String → String → MatchHealth
unfolding set_pair
record_success h buy_id sell_id = set_pair h buy_id sell_id none

keep_quarantine : List String → ℕ → String → Option ℕ → Option ℕ
keep_quarantine live now id none = none
keep_quarantine live now id (some until) =
    if leb until now || not (member id live) then none else some until

keep_pair : List String → ℕ → String → String → Option PairState → Option PairState
keep_pair live now buy_id sell_id none = none
keep_pair live now buy_id sell_id (some state) =
    if leb state.until now && (not (member buy_id live) || not (member sell_id live))
    then none
    else some state

unfoldable pub prune : MatchHealth → List String → ℕ → MatchHealth
unfolding keep_quarantine keep_pair
prune h live_order_ids now = record {
  quarantined_orders = λ id. keep_quarantine live_order_ids now id (h.quarantined_orders id);
  pairs = λ buy sell. keep_pair live_order_ids now buy sell (h.pairs buy sell);
}
