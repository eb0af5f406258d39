-- ===== src/Projection/Invariants.antt =====
-- What `applyEvent` of backend/src/services/event-ingestion.ts keeps, whatever the event.
use ckb_dex.Prelude.{
  map, ◌≡◌, refl, sym, ap, ◌∙◌, ◌⊎◌, inl, inr, some, [], ◌∷◌, arith, Option-cases, update_where,
}
use mathlib.Core.Path.{subst}
use ckb_dex.Prelude.Result.{ok}
use ckb_dex.Order.{find_by_id, upsert, canceled}
use ckb_dex.Events.{
  BotEvent, EventBody, OrderConfirmed, OrderCancelled, SettlementSubmitted, TradeConfirmed,
  ChainReorg, order_confirmed, order_cancelled, settlement_submitted, trade_confirmed, chain_reorg,
}
use ckb_dex.Projection.Lifecycle.{Projection, Applied, applied, ignored, to_order_id}
use ckb_dex.Projection.Confirm.{new_order, confirm_order, apply_order_confirmed}
use ckb_dex.Projection.Spend.{
  update_order_status, cancel_order, apply_order_cancelled, selected, submit_order,
  apply_settlement_submitted, fill_order, apply_trade_confirmed,
}
use ckb_dex.Projection.Reorg.{
  apply_chain_reorg, rollback_from, orphan_order, reopen_order, was_created_reverted,
  was_spent_reverted,
}
use ckb_dex.Projection.Ids.{UniqueIds, ids_of, ids-update_where, ids-save, upsert-UniqueIds}
use ckb_dex.Projection.Transitions.{submitted_cases, confirmed_cases}
use ckb_dex.Projection.Rollback.{passes, created_ids, reorg_lem}
use ckb_dex.Projection.{apply_body, apply_event}

-- Writing nothing: the collections are as they were, and nothing is pushed.
abbrev pub WritesNothing : Projection → Applied → Type 0
WritesNothing p a = (a.projection ≡ p) × (a.after_commit ≡ [])

confirmed-ignored :
    (event : BotEvent) (e : OrderConfirmed) (p : Projection) (a : Applied)
    → apply_order_confirmed event e p ≡ ok a
    → a.result.status ≡ ignored
    → WritesNothing p a
unfolding apply_order_confirmed
confirmed-ignored event e p a h i = ground arith

cancelled-ignored :
    (event : BotEvent) (e : OrderCancelled) (p : Projection) (a : Applied)
    → apply_order_cancelled event e p ≡ ok a
    → a.result.status ≡ ignored
    → WritesNothing p a
unfolding apply_order_cancelled update_order_status
cancelled-ignored event e p a h i = ground arith

submitted-ignored :
    (event : BotEvent) (e : SettlementSubmitted) (p : Projection) (a : Applied)
    → apply_settlement_submitted event e p ≡ ok a
    → a.result.status ≡ ignored
    → WritesNothing p a
unfolding apply_settlement_submitted
submitted-ignored event e p a h i = ground arith

trade-ignored :
    (event : BotEvent) (e : TradeConfirmed) (p : Projection) (a : Applied)
    → apply_trade_confirmed event e p ≡ ok a
    → a.result.status ≡ ignored
    → WritesNothing p a
unfolding apply_trade_confirmed
trade-ignored event e p a h i = ground arith

reorg-applied :
    (event : BotEvent) (e : ChainReorg) (p : Projection) (a : Applied)
    → apply_chain_reorg event e p ≡ ok a
    → a.result.status ≡ applied
unfolding apply_chain_reorg
reorg-applied event e p a h = ground arith

body-ignored :
    (event : BotEvent) (body : EventBody) (p : Projection) (a : Applied)
    → apply_body event body p ≡ ok a
    → a.result.status ≡ ignored
    → WritesNothing p a
unfolding apply_body
body-ignored event (order_confirmed e) p a h i = confirmed-ignored event e p a h i
body-ignored event (order_cancelled e) p a h i = cancelled-ignored event e p a h i
body-ignored event (settlement_submitted e) p a h i = submitted-ignored event e p a h i
body-ignored event (trade_confirmed e) p a h i = trade-ignored event e p a h i
body-ignored event (chain_reorg e) p a h i = cc (reorg-applied event e p a h)

-- An event of any type that is reported as ignored has written nothing and pushes nothing.
pub ignored-WritesNothing :
    (event : BotEvent) (p : Projection) (a : Applied)
    → apply_event event p ≡ ok a
    → a.result.status ≡ ignored
    → WritesNothing p a
unfolding apply_event
ignored-WritesNothing event p a h i = body-ignored event event.body p a h i

confirmed-UniqueIds :
    (event : BotEvent) (e : OrderConfirmed) (p : Projection) (a : Applied)
    → UniqueIds (ids_of p.orders)
    → apply_order_confirmed event e p ≡ ok a
    → UniqueIds (ids_of a.projection.orders)
unfolding apply_order_confirmed confirm_order
confirmed-UniqueIds event e p a u h =
    let id = to_order_id e.out_point in
    let written = upsert id (confirm_order event e) (new_order event e) p.orders in
    let cases : (a.projection.orders ≡ p.orders) ⊎ (a.projection.orders ≡ written) = ground arith in
    elim cases [
      | inl same ↦ rw same u
      | inr new ↦ rw new (
          upsert-UniqueIds id (confirm_order event e) (new_order event e) p.orders (λ o. refl) refl
            u)
    ]

cancelled-ids :
    (event : BotEvent) (e : OrderCancelled) (p : Projection) (a : Applied)
    → apply_order_cancelled event e p ≡ ok a
    → ids_of a.projection.orders ≡ ids_of p.orders
unfolding apply_order_cancelled update_order_status cancel_order
cancelled-ids event e p a h = elim (Option-cases (find_by_id (to_order_id e.out_point) p.orders)) [
  | inl missing ↦ ground arith
  | inr (o, found) ↦
      let moved = record o { status = canceled; last_event_id = some event.event_id } in
      ground (arith, ids-save (cancel_order event e moved) p.orders)
]

submitted-ids :
    (event : BotEvent) (e : SettlementSubmitted) (p : Projection) (a : Applied)
    → apply_settlement_submitted event e p ≡ ok a
    → ids_of a.projection.orders ≡ ids_of p.orders
unfolding submit_order
submitted-ids event e p a h = elim (submitted_cases event e p a h) [
  | inl same ↦ ap ids_of same
  | inr (free, moved) ↦
      ap ids_of moved
      ∙ ids-update_where (selected (map to_order_id e.order_out_points)) (submit_order event e)
          p.orders (λ o. refl)
]

trade-ids :
    (event : BotEvent) (e : TradeConfirmed) (p : Projection) (a : Applied)
    → apply_trade_confirmed event e p ≡ ok a
    → ids_of a.projection.orders ≡ ids_of p.orders
unfolding fill_order
trade-ids event e p a h = elim (confirmed_cases event e p a h) [
  | inl same ↦ ap ids_of same
  | inr (free, moved) ↦
      ap ids_of moved
      ∙ ids-update_where
          (selected (to_order_id e.buy_order_out_point ∷ to_order_id e.sell_order_out_point ∷ []))
          (fill_order event e) p.orders (λ o. refl)
]

reorg-ids :
    (event : BotEvent) (e : ChainReorg) (p : Projection) (a : Applied)
    → apply_chain_reorg event e p ≡ ok a
    → ids_of a.projection.orders ≡ ids_of p.orders
unfolding passes orphan_order reopen_order
reorg-ids event e p a h =
    let from = rollback_from e in
    let created = created_ids from p.orders in
    let orphaned_orders = update_where (was_created_reverted from) (orphan_order event) p.orders in
    ap ids_of (reorg_lem event e p a h).1
    ∙ ids-update_where (was_spent_reverted from created) (reopen_order event) orphaned_orders
        (λ o. refl)
    ∙ ids-update_where (was_created_reverted from) (orphan_order event) p.orders (λ o. refl)

body-UniqueIds :
    (event : BotEvent) (body : EventBody) (p : Projection) (a : Applied)
    → UniqueIds (ids_of p.orders)
    → apply_body event body p ≡ ok a
    → UniqueIds (ids_of a.projection.orders)
unfolding apply_body
body-UniqueIds event (order_confirmed e) p a u h = confirmed-UniqueIds event e p a u h
body-UniqueIds event (order_cancelled e) p a u h =
    subst UniqueIds (sym (cancelled-ids event e p a h)) u
body-UniqueIds event (settlement_submitted e) p a u h =
    subst UniqueIds (sym (submitted-ids event e p a h)) u
body-UniqueIds event (trade_confirmed e) p a u h = subst UniqueIds (sym (trade-ids event e p a h)) u
body-UniqueIds event (chain_reorg e) p a u h = subst UniqueIds (sym (reorg-ids event e p a h)) u

-- Applying an event of any type keeps the ids of the order documents unique.
pub apply_event-UniqueIds :
    (event : BotEvent) (p : Projection) (a : Applied)
    → UniqueIds (ids_of p.orders)
    → apply_event event p ≡ ok a
    → UniqueIds (ids_of a.projection.orders)
unfolding apply_event
apply_event-UniqueIds event p a u h = body-UniqueIds event event.body p a u h
