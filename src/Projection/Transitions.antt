-- ===== src/Projection/Transitions.antt =====
-- What `applyOrderCancelled`, `applySettlementSubmitted` and `applyTradeConfirmed` of
-- backend/src/services/event-ingestion.ts do to the states of the orders.
use mathlib.Core.Path.{subst}
use ckb_dex.Prelude.{
  String, ◌≡◌, refl, sym, ◌⊎◌, inl, inr, Bool, true, false, not, some, List, [], ◌∷◌, map, arith,
  eq_iff, ◌==◌, update_where, filter, any, Bool-cases, Option-cases,
}
use ckb_dex.Prelude.Result.{ok}
use ckb_dex.Order.{Order, OrderStatus, pending, filled, canceled, find_by_id, save}
use ckb_dex.Events.{BotEvent, OrderCancelled, SettlementSubmitted, TradeConfirmed}
use ckb_dex.Projection.Lifecycle.{Projection, Applied, can_transition, to_order_id}
use ckb_dex.Projection.Spend.{
  update_order_status, cancel_order, apply_order_cancelled, selected, submit_order,
  apply_settlement_submitted, fill_order, apply_trade_confirmed,
}
use ckb_dex.Projection.Ids.{find_by_id-id}

-- A document as it was, or moved to a state that the table of transitions allows.
abbrev pub Moves : Order → Order → Type 0
Moves o o' = (o ≡ o') ⊎ ((can_transition o.status o'.status ≡ true) × (o.id ≡ o'.id))

-- The two lists have the same documents in the same places, each as it was or moved.
abbrev pub Stepwise : List Order → List Order → Type 0
Stepwise [] [] = Unit
Stepwise (o ∷ os) (o' ∷ os') = Moves o o' × Stepwise os os'
Stepwise _ _ = ⊥

Stepwise-refl : (os : List Order) → Stepwise os os
Stepwise-refl [] = tt
Stepwise-refl (o ∷ os) = (inl refl, Stepwise-refl os)

Stepwise-save :
    (id : String) (old new : Order) (os : List Order)
    → new.id ≡ id
    → find_by_id id os ≡ some old
    → can_transition old.status new.status ≡ true
    → Stepwise os (save new os)
unfolding save
Stepwise-save id old new [] e found can = cc
Stepwise-save id old new (o ∷ os) e found can = elim (Bool-cases (o.id == new.id)) [
  | inl same ↦
      let first : o ≡ old = ground arith in
      rw same (
        inr (
          subst (λ (x : Order). can_transition x.status new.status ≡ true) (sym first) can,
          (eq_iff o.id new.id).0 same,
        ),
        Stepwise-refl os,
      )
  | inr other ↦ rw other (inl refl, Stepwise-save id old new os e (ground arith) can)
]

Stepwise-update_where :
    (p : Order → Bool) (f : Order → Order) (next : OrderStatus) (os : List Order)
    → ((o : Order) → (f o).id ≡ o.id)
    → ((o : Order) → (f o).status ≡ next)
    → any (λ o. not (can_transition o.status next)) (filter p os) ≡ false
    → Stepwise os (update_where p f os)
Stepwise-update_where p f next [] ids moves none_stuck = tt
Stepwise-update_where p f next (o ∷ os) ids moves none_stuck = elim (Bool-cases (p o)) [
  | inl yes_p ↦ rw yes_p (
    inr (ground (arith, moves o), sym (ids o)),
    Stepwise-update_where p f next os ids moves (ground arith),
  )
  | inr no_p ↦ rw no_p (inl refl, Stepwise-update_where p f next os ids moves (ground arith))
]

cancelled_Stepwise :
    (event : BotEvent) (e : OrderCancelled) (p : Projection) (a : Applied)
    → apply_order_cancelled event e p ≡ ok a
    → Stepwise p.orders a.projection.orders
unfolding apply_order_cancelled update_order_status cancel_order
cancelled_Stepwise event e p a h =
    elim (Option-cases (find_by_id (to_order_id e.out_point) p.orders)) [
      | inl missing ↦
          let same : a.projection.orders ≡ p.orders = ground arith in
          rw same (Stepwise-refl p.orders)
      | inr (o, found) ↦
          let moved = record o { status = canceled; last_event_id = some event.event_id } in
          let can : can_transition o.status canceled ≡ true = ground arith in
          let saved : a.projection.orders ≡ save (cancel_order event e moved) p.orders =
            ground arith in
          let same_id : o.id ≡ to_order_id e.out_point =
            find_by_id-id (to_order_id e.out_point) p.orders o found in
          rw saved (
            Stepwise-save (to_order_id e.out_point) o (cancel_order event e moved) p.orders same_id
              found can)
    ]

pub submitted_cases :
    (event : BotEvent) (e : SettlementSubmitted) (p : Projection) (a : Applied)
    → apply_settlement_submitted event e p ≡ ok a
    → let ids = map to_order_id e.order_out_points in
      (a.projection.orders ≡ p.orders)
      ⊎ ((any (λ o. not (can_transition o.status pending)) (filter (selected ids) p.orders) ≡ false)
          × (a.projection.orders ≡ update_where (selected ids) (submit_order event e) p.orders))
unfolding apply_settlement_submitted
submitted_cases event e p a h = ground arith

pub confirmed_cases :
    (event : BotEvent) (e : TradeConfirmed) (p : Projection) (a : Applied)
    → apply_trade_confirmed event e p ≡ ok a
    → let ids = to_order_id e.buy_order_out_point ∷ to_order_id e.sell_order_out_point ∷ [] in
      (a.projection.orders ≡ p.orders)
      ⊎ ((any (λ o. not (can_transition o.status filled)) (filter (selected ids) p.orders) ≡ false)
          × (a.projection.orders ≡ update_where (selected ids) (fill_order event e) p.orders))
unfolding apply_trade_confirmed
confirmed_cases event e p a h = ground arith

submitted_Stepwise :
    (event : BotEvent) (e : SettlementSubmitted) (p : Projection) (a : Applied)
    → apply_settlement_submitted event e p ≡ ok a
    → Stepwise p.orders a.projection.orders
unfolding submit_order
submitted_Stepwise event e p a h = elim (submitted_cases event e p a h) [
  | inl same ↦ rw same (Stepwise-refl p.orders)
  | inr (free, moved) ↦ rw moved (
      Stepwise-update_where (selected (map to_order_id e.order_out_points)) (submit_order event e)
        pending p.orders (λ o. refl) (λ o. refl) free)
]

confirmed_Stepwise :
    (event : BotEvent) (e : TradeConfirmed) (p : Projection) (a : Applied)
    → apply_trade_confirmed event e p ≡ ok a
    → Stepwise p.orders a.projection.orders
unfolding fill_order
confirmed_Stepwise event e p a h = elim (confirmed_cases event e p a h) [
  | inl same ↦ rw same (Stepwise-refl p.orders)
  | inr (free, moved) ↦ rw moved (
      Stepwise-update_where
        (selected (to_order_id e.buy_order_out_point ∷ to_order_id e.sell_order_out_point ∷ []))
        (fill_order event e) filled p.orders (λ o. refl) (λ o. refl) free)
]

-- The events that report a spend or a submission move an order only along the allowed transitions:
-- each document keeps its place, and is as it was or has gone, under its id, to a state that the
-- table allows from its state.
pub spend_events_move_by_table :
    (event : BotEvent) (c : OrderCancelled) (s : SettlementSubmitted) (t : TradeConfirmed)
    (p : Projection) (a : Applied)
    → (apply_order_cancelled event c p ≡ ok a)
      ⊎ (apply_settlement_submitted event s p ≡ ok a)
      ⊎ (apply_trade_confirmed event t p ≡ ok a)
    → Stepwise p.orders a.projection.orders
spend_events_move_by_table event c s t p a (inl h) = cancelled_Stepwise event c p a h
spend_events_move_by_table event c s t p a (inr (inl h)) = submitted_Stepwise event s p a h
spend_events_move_by_table event c s t p a (inr (inr h)) = confirmed_Stepwise event t p a h
