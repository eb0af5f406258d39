-- ===== src/Bot/Tick.antt =====
-- The poll loop of `DexOrderBot` in backend/src/bot/index.ts: `handleMatchFailure`,
-- `matchPendingOrders`, `refreshPendingPairOrders` and the tick of `start`. A tick does not overlap
-- the next one, so ticks are a sequence. The first call of a tick, the check of the deployment
-- against the node, is a parameter.
use ckb_dex.Prelude.{
  ℕ, String, Bool, List, map, ◌∷◌, Option, if◌then◌else◌, filter, true, eqb, take, [], none, false,
  some, ◌||◌,
}
use ckb_dex.Bot.Session.{Action, orders_of}
use ckb_dex.Bot.Node.{Node}
use ckb_dex.Bot.Trade.{execute_trade}
use ckb_dex.Bot.Flight.{retry_fail_swaps}
use ckb_dex.Bot.Scan.{Deployment, scan_for_pending_orders, Scanned}
use ckb_dex.Order.{Order, live, same_text, status_eq}
use ckb_dex.Health.{
  MatchHealth, quarantine_order, record_pair_failure, record_success, prune, order_quarantine_ms,
}
use ckb_dex.Ingestion.{Database}
use ckb_dex.Args.{Codec}
use ckb_dex.Prelude.Result.{Failure, Result, app_error, ok, other_error, err}
use ckb_dex.Matching.{Pair, sort, find_matches}
use ckb_dex.Bot.Checkpoints.{detect_reorg, Checkpoint}
use ckb_dex.Bot.Reconcile.{sweep_tracked_orders, check_order_liveness}
use ckb_dex.Verify.{ChainVerification}

-- MAX_MATCHES_PER_TICK
abbrev pub max_matches_per_tick : ℕ
max_matches_per_tick = 10

-- What the bot has in its memory and in its database.
pub record Bot : Type 0 where
  pub database : Database
  pub checkpoints : List Checkpoint
  pub health : MatchHealth
  pub pending_pair_orders : List Order

-- What stays the same during a tick.
pub record Surroundings : Type 0 where
  pub codec : Codec
  pub deployment : Deployment
  pub node : Node
  pub registered : Option ChainVerification
  pub now : ℕ
  pub stamp : String
  pub print : ℕ → String
  pub verified : Result (Unit {0})
  pub end_hash_after : Option String

abbrev pub code_of : Failure → Option String
code_of (app_error status message code) = code
code_of (other_error message) = none

abbrev pub is_bad_request : Failure → Bool
is_bad_request (app_error status message code) = eqb status 400
is_bad_request (other_error message) = false

-- `Promise.allSettled` of two checks: what they throw is dropped.
unfoldable pub settle_all : Action Bool → Action Bool → Database → Database
settle_all first second db = (second (first db).1).1

module _ (w : Surroundings) where
  unfoldable pub recheck : Order → Order → Database → Database
  recheck buy sell =
      settle_all (check_order_liveness w.node w.registered w.stamp buy)
        (check_order_liveness w.node w.registered w.stamp sell)

  unfoldable pub handle_match_failure : Order → Order → Failure → Bot → Bot
  handle_match_failure buy sell e b =
      if same_text (code_of e) (some "INSUFFICIENT_BUY_CAPACITY")
      then record b { health = quarantine_order b.health buy.id order_quarantine_ms w.now }
      else if is_bad_request e
      then record b {
        health =
            quarantine_order (quarantine_order b.health buy.id order_quarantine_ms w.now) sell.id
              order_quarantine_ms w.now;
      }
      else record b {
        health = (record_pair_failure b.health buy.id sell.id w.now).0;
        database =
            if same_text (code_of e) (some "ORDER_SPENT")
              || same_text (code_of e) (some "COMPETING_SETTLEMENT")
            then recheck buy sell b.database
            else b.database;
      }

  unfoldable pub match_pair : Pair → Bot → Bot
  match_pair p b =
      let done =
        execute_trade w.node w.registered w.now w.stamp w.deployment.supported_asset_hashes p.buy
          p.sell b.database in
      let after = record b { database = done.1 } in
      elim done.0 [
        | ok tx_hash ↦ record after { health = record_success b.health p.buy.id p.sell.id }
        | err e ↦ handle_match_failure p.buy p.sell e after
      ]

  unfoldable pub match_pairs : List Pair → Bot → Bot
  match_pairs [] b = b
  match_pairs (p ∷ ps) b = match_pairs ps (match_pair p b)

  unfoldable pub match_pending_orders : Bot → Bot
  match_pending_orders b =
      let health = prune b.health (map (λ o. o.id) b.pending_pair_orders) w.now in
      let (health', pairs) = find_matches health b.pending_pair_orders w.now in
      match_pairs (take max_matches_per_tick pairs) (record b { health = health' })

  unfoldable pub refresh_pending_pair_orders : Bot → Bot
  refresh_pending_pair_orders b = record b {
    pending_pair_orders = sort (filter (λ o. status_eq o.status live) (orders_of b.database));
  }

  -- A step of a tick: the state that it leaves, and whether the steps after it run.
  abbrev pub TickStep : Type 0
  TickStep = Bot → Bool × Bot

  abbrev pub then_run : Bool × Bot → TickStep → Bool × Bot
  then_run (true, b) next = next b
  then_run (false, b) next = (false, b)

  abbrev pub succeeded : {A : Type 0} → Result A → Bool
  succeeded (ok a) = true
  succeeded (err e) = false

  unfoldable pub run_detect_reorg : TickStep
  run_detect_reorg b =
      let done =
        detect_reorg w.registered w.node.header_hash w.print w.stamp b.database b.checkpoints in
      (
        succeeded done.outcome,
        record b { database = done.database; checkpoints = done.checkpoints },
      )

  abbrev scanned_checkpoints : Result Scanned → List Checkpoint → List Checkpoint
  scanned_checkpoints (ok s) old = s.checkpoints
  scanned_checkpoints (err e) old = old

  unfoldable pub run_scan : TickStep
  run_scan b =
      let done =
        scan_for_pending_orders w.codec w.deployment w.node w.registered w.stamp w.end_hash_after
          b.checkpoints b.database in
      (
        succeeded done.0,
        record b { database = done.1; checkpoints = scanned_checkpoints done.0 b.checkpoints },
      )

  unfoldable pub run_action : Action (Unit {0}) → TickStep
  run_action action b =
      let done = action b.database in (succeeded done.0, record b { database = done.1 })

  -- The whole tick; a step that throws ends it.
  unfoldable pub tick : Bot → Bot
  tick b =
      let s = then_run (succeeded w.verified, b) run_detect_reorg in
      let s = then_run s run_scan in
      let s = then_run s (run_action (sweep_tracked_orders w.node w.registered w.stamp)) in
      let s = then_run s (run_action (retry_fail_swaps w.node w.registered w.now w.stamp)) in
      let s = then_run s (λ b. (true, match_pending_orders (refresh_pending_pair_orders b))) in s.1
