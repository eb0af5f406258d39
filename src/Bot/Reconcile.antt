-- ===== src/Bot/Reconcile.antt =====
-- backend/src/bot/index.ts: `checkOrderLiveness`, `reconcileSpentOrder`,
-- `confirmExternalSettlement`, `findInputWithLockHash` and `sweepTrackedOrders`.
use Prim.Native.String
use ckb_dex.Prelude.{
  ℕ, String, Option, Bool, List, some, any, none, ◌∷◌, ◌==◌, if◌then◌else◌, filter, [], ◌&&◌,
  member, true, map, ◌||◌, false, find,
}
use ckb_dex.Bot.Session.{Action, pure, emit, orders_of, continue}
use ckb_dex.Bot.Node.{Node, NodeTransaction, LockRecord, present}
use ckb_dex.Order.{
  Order, Script, OutPoint, reserved, live, canceled, filled, bid, ask, status_eq, direction_eq,
}
use ckb_dex.Events.{BotEvent, order_cancelled, trade_confirmed, EventBody}
use ckb_dex.Verify.{ChainVerification}
use ckb_dex.Prelude.Result.{ok}
use ckb_dex.Projection.Lifecycle.{to_order_id}

infixr 66 ◌<>◌
abbrev pub ◌<>◌ : String → String → String
a <> b = String.◌++◌ a b

-- The block of a committed transaction: its number, and its hash if that is not empty.
unfoldable pub block_of : NodeTransaction → Option (ℕ × String)
block_of tx = elim tx.block_number [
  | none ↦ none
  | some number ↦ elim (present tx.block_hash) [ none ↦ none | some hash ↦ some (number, hash) ]
]

-- The fields that every event of the bot about a block has.
abbrev pub block_event : String → String → String → ℕ → Option String → EventBody → BotEvent
block_event id now tx_hash number hash body = record {
  event_id = id;
  occurred_at = now;
  transaction_hash = some tx_hash;
  block_number = some number;
  block_hash = hash;
  confirmations = none;
  body = body;
}

-- The trade-confirmed event of a settlement in a block, with the terms of its sell order.
unfoldable pub trade_event : String → String → String → ℕ → Option String → Order → Order → BotEvent
trade_event id now tx_hash number hash buy sell = block_event id now tx_hash number hash (
    trade_confirmed (record {
      buy_order_out_point = buy.out_point;
      sell_order_out_point = sell.out_point;
      trade = record {
        settlement_tx_hash = tx_hash;
        buyer_lock_hash = buy.owner_lock_hash;
        seller_lock_hash = sell.owner_lock_hash;
        xudt_type_hash = sell.xudt_type_hash;
        token_amount = sell.remaining_amount;
        price = sell.price_per_token;
        paid_capacity = sell.price_per_token;
        confirmed_at_block = number;
      };
    }))

module _ (node : Node) where
  -- `candidate.transaction.inputs.some(...)`
  abbrev pub spends_out_point : OutPoint → NodeTransaction → Bool
  spends_out_point p tx =
      any (λ input. (input.tx_hash == p.tx_hash) && (input.index == p.index)) tx.inputs

  -- The loop over the records of the order's lock: the first committed transaction that spends the
  -- out point.
  unfoldable pub find_spend : OutPoint → List LockRecord → Option (String × NodeTransaction)
  find_spend p [] = none
  find_spend p (r ∷ rs) =
      let later = find_spend p rs in
      elim (node.transaction r.tx_hash) [
        | none ↦ later
        | some tx ↦
            if r.is_input && ((tx.status == "committed") && spends_out_point p tx)
            then some (r.tx_hash, tx)
            else later
      ]

  unfoldable pub find_input_with_lock_hash : String → List OutPoint → Option Script
  find_input_with_lock_hash lock_hash [] = none
  find_input_with_lock_hash lock_hash (p ∷ ps) =
      let later = find_input_with_lock_hash lock_hash ps in
      elim (node.cell_of p) [
        | none ↦ later
        | some cell ↦ if node.script_hash cell.lock == lock_hash then some cell.lock else later
      ]

module _ (node : Node) (registered : Option ChainVerification) (now : String) where
  -- The trade of a settlement that consumed two orders of the database.
  unfoldable pub confirm_external_settlement : NodeTransaction → Action (Unit {0})
  confirm_external_settlement tx db = elim (block_of tx) [
    | none ↦ (ok tt, db)
    | some (number, hash) ↦
        let spent = filter (λ o. member o.id (map to_order_id tx.inputs)) (orders_of db) in
        elim (find (λ o. direction_eq o.direction bid) spent) [
          | none ↦ (ok tt, db)
          | some buy ↦ elim (find (λ o. direction_eq o.direction ask) spent) [
            | none ↦ (ok tt, db)
            | some sell ↦
                continue
                  (emit registered
                    (trade_event ("trade-confirmed:" <> tx.hash <> ":" <> hash) now tx.hash number
                      (some hash) buy sell)
                    db)
                  (λ emitted. pure tt)
          ]
        ]
  ]

  abbrev pub cancel_event : Order → String → ℕ → String → BotEvent
  cancel_event order tx_hash number hash =
      block_event ("order-cancelled:" <> tx_hash <> ":" <> hash <> ":" <> order.id) now tx_hash
        number (some hash)
        (order_cancelled (record { out_point = order.out_point; cancelled_by_tx_hash = tx_hash }))

  -- The spend by the transaction of hash `tx_hash`: a cancellation if the maker's lock is on an
  -- input, else a settlement.
  unfoldable pub reconcile_spend : Order → String → NodeTransaction → Action (Unit {0})
  reconcile_spend order tx_hash tx db =
      elim (find_input_with_lock_hash node order.owner_lock_hash tx.inputs) [
        | none ↦ confirm_external_settlement tx db
        | some lock ↦ elim (block_of tx) [
          | none ↦ (ok tt, db)
          | some (number, hash) ↦
              continue (emit registered (cancel_event order tx_hash number hash) db)
                (λ emitted. pure tt)
        ]
      ]

  unfoldable pub reconcile_spent_order : Order → Action (Unit {0})
  reconcile_spent_order order db =
      if status_eq order.status filled || status_eq order.status canceled
      then (ok tt, db)
      else elim (find_spend node order.out_point (node.transactions_by_lock order.lock_script)) [
        | none ↦ (ok tt, db)
        | some (tx_hash, tx) ↦ reconcile_spend order tx_hash tx db
      ]

  unfoldable pub check_order_liveness : Order → Action Bool
  check_order_liveness order db =
      if node.cell_live order.out_point
      then (ok true, db)
      else continue (reconcile_spent_order order db) (λ done. pure false)

  -- The loop of `sweepTrackedOrders` over the documents that the query read.
  unfoldable pub check_all : List Order → Action (Unit {0})
  check_all [] db = (ok tt, db)
  check_all (o ∷ os) db = continue (check_order_liveness o db) (λ checked. check_all os)

  unfoldable pub sweep_tracked_orders : Action (Unit {0})
  sweep_tracked_orders db =
      check_all
        (filter (λ o. status_eq o.status live || status_eq o.status reserved) (orders_of db)) db
