-- ===== src/Bot/Flight.antt =====
-- `retryFailSwaps` and `confirmTrade` of backend/src/bot/index.ts: the orders in flight. The clock
-- is read once for the loop.
use ckb_dex.Prelude.{
  ℕ, String, Bool, Option, some, none, ◌+◌, true, false, ◌||◌, ◌&&◌, find, if◌then◌else◌, List,
  filter, ◌∷◌, leb, not, ◌==◌, [], update_where,
}
use ckb_dex.Bot.Session.{Action, ◌>>=◌, ◌>>◌, pure, write, emit, orders_of, continue}
use ckb_dex.Bot.Node.{Node, NodeTransaction, present}
use ckb_dex.Bot.Reconcile.{check_order_liveness, trade_event, ◌<>◌}
use ckb_dex.Bot.Trade.{reservation_ttl_ms, revert_to_live, has_id}
use ckb_dex.Order.{Order, reserved, pending, bid, status_eq, same_text, direction_eq}
use ckb_dex.Verify.{ChainVerification}
use ckb_dex.Prelude.Result.{ok}

-- `order.reservedUntil && order.reservedUntil <= new Date()`
abbrev pub is_expired : ℕ → Order → Bool
is_expired now o = elim o.reserved_until [ none ↦ false | some until ↦ leb until now ]

abbrev pub is_in_flight : Order → Bool
is_in_flight o = status_eq o.status reserved || status_eq o.status pending

-- `{ pendingTxHash: order.pendingTxHash, _id: { $ne: order._id } }`
abbrev pub is_counterpart : Order → Order → Bool
is_counterpart order o = same_text o.pending_tx_hash order.pending_tx_hash && not (o.id == order.id)

-- `${blockHash}` of a hash that may be undefined
abbrev pub printed : Option String → String
printed none = "undefined"
printed (some s) = s

abbrev pub extend_deadline : ℕ → Order → Order
extend_deadline now o = record o { reserved_until = some (now + reservation_ttl_ms) }

module _ (node : Node) (registered : Option ChainVerification) (now : ℕ) (stamp : String) where
  -- The event of a settlement with the hash `tx_hash`, whose legs are sorted by direction.
  unfoldable pub record_trade : String → Order → Order → NodeTransaction → Action Bool
  record_trade tx_hash order counterpart tx db = elim tx.block_number [
    | none ↦ (ok false, db)
    | some number ↦
        let is_buy = direction_eq order.direction bid in
        let buy = if is_buy then order else counterpart in
        let sell = if is_buy then counterpart else order in
        continue
          (emit registered
            (trade_event ("trade-confirmed:" <> tx_hash <> ":" <> printed tx.block_hash) stamp
              tx_hash number tx.block_hash buy sell)
            db)
          (λ emitted. pure true)
  ]

  unfoldable pub confirm_trade : String → Order → NodeTransaction → Action Bool
  confirm_trade tx_hash order tx db = elim (find (is_counterpart order) (orders_of db)) [
    | none ↦ (ok false, db)
    | some counterpart ↦ record_trade tx_hash order counterpart tx db
  ]

  unfoldable pub revert_when : Bool → Order → Action (Unit {0})
  revert_when true order = revert_to_live order.id
  revert_when false order = pure tt

  -- An order whose settlement the node does not know, or has rejected.
  unfoldable pub retry_lost : Bool → Order → Action (Unit {0})
  retry_lost rejected order = do
    alive ← check_order_liveness node registered stamp order
    revert_when (alive && (rejected || is_expired now order)) order

  unfoldable pub retry_known : String → Order → NodeTransaction → Action (Unit {0})
  retry_known tx_hash order tx =
      if tx.status == "committed"
      then (do
        recorded ← confirm_trade tx_hash order tx
        revert_when (not recorded && is_expired now order) order)
      else if tx.status == "rejected"
      then retry_lost true order
      else if is_expired now order
      then write (update_where (has_id order.id) (extend_deadline now))
      else pure tt

  -- The body of the loop.
  unfoldable pub retry_order : Order → Action (Unit {0})
  retry_order order = elim (present order.pending_tx_hash) [
    | none ↦ revert_when (is_expired now order) order
    | some tx_hash ↦ elim (node.transaction tx_hash) [
      | none ↦ retry_lost false order
      | some tx ↦ retry_known tx_hash order tx
    ]
  ]

  unfoldable pub retry_all : List Order → Action (Unit {0})
  retry_all [] = pure tt
  retry_all (o ∷ os) = do retry_order o; retry_all os

  unfoldable pub retry_fail_swaps : Action (Unit {0})
  retry_fail_swaps db = retry_all (filter is_in_flight (orders_of db)) db
