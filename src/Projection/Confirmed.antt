-- ===== src/Projection/Confirmed.antt =====
-- What `applyOrderConfirmed` of backend/src/services/event-ingestion.ts writes.
use Prim.Native.String
use ckb_dex.Prelude.{
  String, ◌≡◌, refl, sym, ◌∙◌, ◌⊎◌, inl, inr, true, false, Option, none, some, List, arith, eq_iff,
  Option-cases,
}
use ckb_dex.Prelude.Result.{ok}
use ckb_dex.Order.{Order, live, find_by_id, upsert}
use ckb_dex.Events.{BotEvent, OrderConfirmed}
use ckb_dex.Projection.Lifecycle.{Projection, Applied, applied, to_order_id, ignore}
use ckb_dex.Projection.Confirm.{new_order, confirm_order, already_indexed, apply_order_confirmed}
use ckb_dex.Projection.Ids.{find-upsert}

-- A document that carries the terms of a confirmed order and is open for matching.
pub record IsOpened (event : BotEvent) (e : OrderConfirmed) (o : Order) : Type 0 where
  pub id_eq : o.id ≡ to_order_id e.out_point
  pub status_live : o.status ≡ live
  pub price_eq : o.price_per_token ≡ e.order.price_per_token
  pub amount_eq : o.remaining_amount ≡ e.order.token_amount
  pub direction_eq : o.direction ≡ e.order.direction
  pub same_out_point : o.out_point ≡ e.out_point
  pub same_lock : o.lock_script ≡ e.order.lock_script
  pub same_data : o.cell_data ≡ e.order.cell_data
  pub same_capacity : o.capacity ≡ e.order.capacity
  pub same_owner : o.owner_lock ≡ e.order.owner_lock
  pub same_owner_hash : o.owner_lock_hash ≡ e.order.owner_lock_hash
  pub same_token : o.xudt_type_hash ≡ e.order.xudt_type_hash
  pub same_pair : o.token_pair ≡ String.◌++◌ e.order.xudt_type_hash ":CKB"
  pub same_block_number : o.block_number ≡ e.order.block_number
  pub same_index : o.tx_index ≡ e.order.tx_index
  pub price_key : o.price_value ≡ some e.order.price_per_token
  pub block_key : o.block_num ≡ some e.order.block_number
  pub index_key : o.tx_idx ≡ some e.order.tx_index
  pub created_block : o.created_at_block ≡ some e.order.block_number
  pub not_pending : o.pending_tx_hash ≡ none
  pub no_spend_block : o.spent_block_hash ≡ none
  pub last_event : o.last_event_id ≡ some event.event_id
  pub not_reserved : o.reserved_until ≡ none
  pub not_settled : o.settlement_tx_hash ≡ none
  pub not_spent : o.spent_at_block ≡ none

-- The document under the id of a confirmed order, from the one that was there before.
stored : BotEvent → OrderConfirmed → Option Order → Order
stored event e none = new_order event e
stored event e (some o) = confirm_order event e o

confirmed_cases :
    (event : BotEvent) (e : OrderConfirmed) (p : Projection) (a : Applied)
    → apply_order_confirmed event e p ≡ ok a
    → ((already_indexed event (find_by_id (to_order_id e.out_point) p.orders) ≡ true)
        × (a ≡ ignore event.event_id "order-already-indexed" p))
      ⊎ ((already_indexed event (find_by_id (to_order_id e.out_point) p.orders) ≡ false)
          × (a.result.status ≡ applied)
          × (a.projection.trades ≡ p.trades)
          × (a.projection.orders
              ≡ upsert
                  (to_order_id e.out_point)
                  (confirm_order event e)
                  (new_order event e)
                  p.orders))
unfolding apply_order_confirmed
confirmed_cases event e p a h = ground arith

find-confirmed :
    (event : BotEvent) (e : OrderConfirmed) (os : List Order)
    → find_by_id
        (to_order_id e.out_point)
        (upsert (to_order_id e.out_point) (confirm_order event e) (new_order event e) os)
      ≡ some (stored event e (find_by_id (to_order_id e.out_point) os))
unfolding stored confirm_order
find-confirmed event e os =
    find-upsert (to_order_id e.out_point) (confirm_order event e) (new_order event e) os (λ o. refl)
      refl
    ∙ ground (arith, Option-cases (find_by_id (to_order_id e.out_point) os))

stored-already_indexed :
    (event again : BotEvent) (e : OrderConfirmed) (before : Option Order) (hash : String)
    → event.block_hash ≡ some hash
    → again.block_hash ≡ some hash
    → already_indexed again (some (stored event e before)) ≡ true
unfolding stored confirm_order already_indexed
stored-already_indexed event again e none hash h k = ground (arith, eq_iff hash hash)
stored-already_indexed event again e (some o) hash h k = ground (arith, eq_iff hash hash)

same_block :
    (event again : BotEvent) (before : Option Order)
    → event.block_hash ≡ again.block_hash
    → already_indexed event before ≡ true
    → already_indexed again before ≡ true
unfolding already_indexed
same_block event again before e h = ground arith

already-ignored :
    (event : BotEvent) (e : OrderConfirmed) (p : Projection)
    → already_indexed event (find_by_id (to_order_id e.out_point) p.orders) ≡ true
    → apply_order_confirmed event e p ≡ ok (ignore event.event_id "order-already-indexed" p)
unfolding apply_order_confirmed
already-ignored event e p h = rw h

-- Redelivery is harmless: once an order event of a block has been handled, a second event about
-- the same order in the same block is ignored, and writes and pushes nothing.
pub redelivery_ignored :
    (event again : BotEvent) (e : OrderConfirmed) (p : Projection) (a : Applied) (hash : String)
    → event.block_hash ≡ some hash
    → again.block_hash ≡ some hash
    → apply_order_confirmed event e p ≡ ok a
    → apply_order_confirmed again e a.projection
      ≡ ok (ignore again.event_id "order-already-indexed" a.projection)
redelivery_ignored event again e p a hash h k done = elim (confirmed_cases event e p a done) [
  | inl (old, same) ↦
      already-ignored again e a.projection (rw same (same_block event again _ (h ∙ sym k) old))
  | inr (new, status, trades, orders) ↦ already-ignored again e a.projection (
      rw (orders, find-confirmed event e p.orders)
        (stored-already_indexed event again e _ hash h k))
]
