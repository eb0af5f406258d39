-- ===== src/Health/Laws.antt =====
-- What quarantine, backoff and pruning of backend/src/bot/match-health.ts guarantee.
use native.Mathlib.Nat.{pow-suc}
use ckb_dex.Prelude.{
  eq_refl, ℕ, zero, suc, sym, ap, ◌∙◌, ◌+◌, ◌-◌, ◌*◌, ◌^◌, ◌≤◌, min, String, ◌≡◌, false, ◌&&◌, List,
  arith, eq_iff, ltb, ◌==◌, member, if◌then◌else◌, refl,
}
use ckb_dex.Health.{
  MatchHealth, base_pair_backoff_ms, max_pair_backoff_ms, quarantine_order, is_order_quarantined,
  record_pair_failure, is_pair_blocked, record_success, prune, failures_of,
}

-- After an order is quarantined at `now` for `ms`, it is quarantined at a time exactly when that
-- time lies before `now + ms`, and the answer for every other order is what it was.
pub quarantine_window :
    (h : MatchHealth) (order_id id : String) (ms now t : ℕ)
    → (is_order_quarantined (quarantine_order h order_id ms now) id t).1
      ≡ (if order_id == id then ltb t (now + ms) else (is_order_quarantined h id t).1)
unfolding is_order_quarantined quarantine_order
quarantine_window h order_id id ms now t = ground (arith, eq_iff order_id id)

-- Asking whether an order is quarantined may drop its expired entry; no later question about any
-- order is answered differently for that, and the pairs are untouched.
pub lookup_keeps_answers :
    (h : MatchHealth) (order_id id : String) (now t : ℕ)
    → now ≤ t
    → ((is_order_quarantined (is_order_quarantined h order_id now).0 id t).1
        ≡ (is_order_quarantined h id t).1)
      × ((is_order_quarantined h order_id now).0.pairs ≡ h.pairs)
unfolding is_order_quarantined
lookup_keeps_answers h order_id id now t le =
    (ground (arith, eq_iff order_id id), ground (arith, eq_iff order_id id))

-- A failure recorded at `now` blocks its pair exactly until `now + delay`, and no other pair.
pub failure_blocks_pair :
    (h : MatchHealth) (buy_id sell_id buy sell : String) (now t : ℕ)
    → is_pair_blocked (record_pair_failure h buy_id sell_id now).0 buy sell t ≡ (
        if (buy_id == buy) && (sell_id == sell)
        then ltb t (now + (record_pair_failure h buy_id sell_id now).1)
        else is_pair_blocked h buy sell t)
unfolding record_pair_failure is_pair_blocked
failure_blocks_pair h buy_id sell_id buy sell now t =
    ground (arith, eq_iff buy_id buy, eq_iff sell_id sell)

two_pow-suc : (n : ℕ) → 2 ^ suc n ≡ 2 * 2 ^ n
two_pow-suc n = omega (arith, pow-suc 2 n)

two_pow_pos : (n : ℕ) → 1 ≤ 2 ^ n
two_pow_pos zero = omega arith
two_pow_pos (suc n) = omega (arith, two_pow-suc n, two_pow_pos n)

-- The delay after `n` earlier failures.
delay_after : ℕ → ℕ
delay_after n = min (base_pair_backoff_ms * 2 ^ n) max_pair_backoff_ms

delay_after-suc : (n : ℕ) → delay_after (suc n) ≡ min (2 * delay_after n) max_pair_backoff_ms
unfolding delay_after
delay_after-suc n = omega (arith, two_pow-suc n)

delay_after_bounds :
    (n : ℕ) → (base_pair_backoff_ms ≤ delay_after n) × (delay_after n ≤ max_pair_backoff_ms)
unfolding delay_after
delay_after_bounds n = omega (arith, two_pow_pos n)

delay_lem :
    (h : MatchHealth) (buy sell : String) (now : ℕ)
    → (record_pair_failure h buy sell now).1 ≡ delay_after (failures_of (h.pairs buy sell))
unfolding record_pair_failure delay_after
delay_lem h buy sell now =
    let e : failures_of (h.pairs buy sell) + 1 - 1 ≡ failures_of (h.pairs buy sell) = omega arith in
    rw e

failures_lem :
    (h : MatchHealth) (buy sell : String) (now : ℕ)
    → failures_of ((record_pair_failure h buy sell now).0.pairs buy sell)
      ≡ suc (failures_of (h.pairs buy sell))
unfolding record_pair_failure
failures_lem h buy sell now = ground (arith, eq_iff buy buy, eq_iff sell sell)

success_lem :
    (h : MatchHealth) (buy sell : String)
    → failures_of ((record_success h buy sell).pairs buy sell) ≡ 0
unfolding record_success failures_of
success_lem h buy sell = simp eq_refl

delay_after-zero : delay_after 0 ≡ base_pair_backoff_ms
unfolding delay_after
delay_after-zero = refl

-- The delay of a failed pair lies between the base and the maximum; a failure that follows on
-- another one waits twice as long, up to the maximum; after a success the delay is the base again.
pub backoff_schedule :
    (h : MatchHealth) (buy sell : String) (now later : ℕ)
    → (base_pair_backoff_ms ≤ (record_pair_failure h buy sell now).1)
      × ((record_pair_failure h buy sell now).1 ≤ max_pair_backoff_ms)
      × ((record_pair_failure (record_pair_failure h buy sell now).0 buy sell later).1
          ≡ min (2 * (record_pair_failure h buy sell now).1) max_pair_backoff_ms)
      × ((record_pair_failure (record_success h buy sell) buy sell later).1 ≡ base_pair_backoff_ms)
backoff_schedule h buy sell now later =
    let (lower, upper) = delay_after_bounds (failures_of (h.pairs buy sell)) in
    (
      rw delay_lem lower,
      rw delay_lem upper,
      delay_lem (record_pair_failure h buy sell now).0 buy sell later
          ∙ ap delay_after (failures_lem h buy sell now)
          ∙ delay_after-suc (failures_of (h.pairs buy sell))
          ∙ ap (λ d. min (2 * d) max_pair_backoff_ms) (sym (delay_lem h buy sell now)),
      delay_lem (record_success h buy sell) buy sell later
          ∙ ap delay_after (success_lem h buy sell)
          ∙ delay_after-zero,
    )

-- Pruning at `now` changes no answer given from then on about a pair, nor about an order that is
-- live, and an order that is not live is no longer quarantined.
pub prune_keeps_answers :
    (h : MatchHealth) (live : List String) (buy sell id : String) (now t : ℕ)
    → now ≤ t
    → (is_pair_blocked (prune h live now) buy sell t ≡ is_pair_blocked h buy sell t)
      × ((is_order_quarantined (prune h live now) id t).1
          ≡ (if member id live then (is_order_quarantined h id t).1 else false))
unfolding is_pair_blocked prune is_order_quarantined
prune_keeps_answers h live buy sell id now t le = (ground arith, ground arith)
