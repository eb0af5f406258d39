-- ===== src/Projection/Spend.antt =====
-- backend/src/services/event-ingestion.ts: `applyOrderCancelled`, `applySettlementSubmitted` and
-- `applyTradeConfirmed`. The loop that saves each document that a query has returned rewrites just
-- the documents that the query selects: `update_where`.
use ckb_dex.Prelude.{
  String, Bool, not, Option, none, some, List, [], ◌∷◌, ◌++◌, map, length, filter, any, member, eqb,
  ◌==◌, update_where, if◌then◌else◌,
}
use ckb_dex.Prelude.Result.{Result, ok, err, other_error, ◌>>=◌}
use ckb_dex.Order.{
  Order, OrderStatus, Trade, pending, filled, canceled, confirmed, find_by_id, save,
}
use ckb_dex.Events.{BotEvent, OrderCancelled, SettlementSubmitted, TradeConfirmed}
use ckb_dex.Projection.Lifecycle.{
  Projection, Applied, emit_orderbook, emit_maker_orders, emit_trades, can_transition, to_order_id,
  ignore, apply,
}

-- The new status and event id, or the error of a transition that is not allowed.
unfoldable pub update_order_status : Order → OrderStatus → String → Result Order
update_order_status order next event_id =
    if can_transition order.status next
    then ok (record order { status = next; last_event_id = some event_id })
    else err (other_error "Invalid order transition")

-- The fields that `applyOrderCancelled` writes after the status.
unfoldable pub cancel_order : BotEvent → OrderCancelled → Order → Order
cancel_order event e order = record order {
  confirmed_at_block = event.block_number;
  spent_at_block = event.block_number;
  spent_block_hash = event.block_hash;
  settlement_tx_hash = some e.cancelled_by_tx_hash;
}

unfoldable pub apply_order_cancelled : BotEvent → OrderCancelled → Projection → Result Applied
apply_order_cancelled event e p = elim (find_by_id (to_order_id e.out_point) p.orders) [
  | none ↦ ok (ignore event.event_id "order-not-found" p)
  | some order ↦ do
    moved ← update_order_status order canceled event.event_id
    ok (
        apply event.event_id (record p { orders = save (cancel_order event e moved) p.orders })
          (emit_orderbook order.xudt_type_hash ∷ emit_maker_orders order.owner_lock_hash ∷ []))
]

-- `{ _id: { $in: ids } }`
abbrev pub selected : List String → Order → Bool
selected ids o = member o.id ids

distinct_from : List String → List String → List String
distinct_from seen [] = []
distinct_from seen (s ∷ ss) =
    let known = distinct_from seen ss in
    let fresh = s ∷ distinct_from (s ∷ seen) ss in if member s seen then known else fresh

-- `[...new Set(texts)]`: without repetition, in the order of first occurrence.
unfoldable pub distinct : List String → List String
unfolding distinct_from
distinct texts = distinct_from [] texts

unfoldable pub submit_order : BotEvent → SettlementSubmitted → Order → Order
submit_order event e order = record order {
  status = pending;
  pending_tx_hash = some e.settlement_tx_hash;
  settlement_tx_hash = some e.settlement_tx_hash;
  last_event_id = some event.event_id;
}

unfoldable pub apply_settlement_submitted :
    BotEvent → SettlementSubmitted → Projection → Result Applied
apply_settlement_submitted event e p =
    let ids = map to_order_id e.order_out_points in
    let orders = filter (selected ids) p.orders in
    if not (eqb (length orders) (length e.order_out_points))
    then ok (ignore event.event_id "order-not-found" p)
    else if any (λ o. not (can_transition o.status pending)) orders
    then ok (ignore event.event_id "invalid-transition-to-pending" p)
    else ok (
        apply event.event_id
          (record p { orders = update_where (selected ids) (submit_order event e) p.orders })
          (map emit_orderbook (distinct (map (λ o. o.xudt_type_hash) orders))
            ++ map (λ o. emit_maker_orders o.owner_lock_hash) orders))

unfoldable pub fill_order : BotEvent → TradeConfirmed → Order → Order
fill_order event e order = record order {
  status = filled;
  confirmed_at_block = some e.trade.confirmed_at_block;
  spent_at_block = some e.trade.confirmed_at_block;
  spent_block_hash = event.block_hash;
  pending_tx_hash = some e.trade.settlement_tx_hash;
  settlement_tx_hash = some e.trade.settlement_tx_hash;
  last_event_id = some event.event_id;
}

-- `a ?? b`
abbrev pub or_default {ℓ} : {A : Type ℓ} → Option A → A → A
or_default none d = d
or_default (some a) d = a

unfoldable pub new_trade : BotEvent → TradeConfirmed → Trade
new_trade event e =
    let t = e.trade in
    record {
      id = t.settlement_tx_hash;
      settlement_tx_hash = t.settlement_tx_hash;
      buy_order_out_point = e.buy_order_out_point;
      sell_order_out_point = e.sell_order_out_point;
      buyer_lock_hash = t.buyer_lock_hash;
      seller_lock_hash = t.seller_lock_hash;
      xudt_type_hash = t.xudt_type_hash;
      token_amount = t.token_amount;
      price = t.price;
      paid_capacity = t.paid_capacity;
      block_number = or_default event.block_number t.confirmed_at_block;
      block_hash = or_default event.block_hash "";
      confirmed_at_block = t.confirmed_at_block;
      block_num = some (or_default event.block_number t.confirmed_at_block);
      status = confirmed;
      last_event_id = event.event_id;
    }

-- `$set` on a trade that exists: the block facts, the status and the event.
unfoldable pub reconfirm_trade : BotEvent → TradeConfirmed → Trade → Trade
reconfirm_trade event e old = record old {
  block_number = or_default event.block_number e.trade.confirmed_at_block;
  block_hash = or_default event.block_hash "";
  block_num = some (or_default event.block_number e.trade.confirmed_at_block);
  confirmed_at_block = e.trade.confirmed_at_block;
  status = confirmed;
  last_event_id = event.event_id;
}

unfoldable pub upsert_trade : BotEvent → TradeConfirmed → List Trade → List Trade
upsert_trade event e [] = new_trade event e ∷ []
upsert_trade event e (t ∷ ts) =
    if t.id == e.trade.settlement_tx_hash
    then reconfirm_trade event e t ∷ ts
    else t ∷ upsert_trade event e ts

unfoldable pub apply_trade_confirmed : BotEvent → TradeConfirmed → Projection → Result Applied
apply_trade_confirmed event e p =
    let ids = to_order_id e.buy_order_out_point ∷ to_order_id e.sell_order_out_point ∷ [] in
    let orders = filter (selected ids) p.orders in
    if not (eqb (length orders) 2)
    then ok (ignore event.event_id "order-not-found" p)
    else if any (λ o. not (can_transition o.status filled)) orders
    then ok (ignore event.event_id "invalid-transition-to-filled" p)
    else ok (
        apply event.event_id
          (record {
            orders = update_where (selected ids) (fill_order event e) p.orders;
            trades = upsert_trade event e p.trades;
          })
          (emit_orderbook e.trade.xudt_type_hash
            ∷ emit_trades e.trade.xudt_type_hash
            ∷ map (λ o. emit_maker_orders o.owner_lock_hash) orders))
