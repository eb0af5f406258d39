-- ===== src/Projection/Trades.antt =====
-- What `applyTradeConfirmed` of backend/src/services/event-ingestion.ts writes.
use ckb_dex.Prelude.{
  eq_refl, String, ◌≡◌, refl, ap, ◌⊎◌, inl, inr, not, some, List, [], ◌∷◌, arith, ◌==◌,
  update_where, find, filter, Bool-cases, All,
}
use ckb_dex.Prelude.Result.{ok}
use ckb_dex.Order.{Order, Trade, filled, confirmed}
use ckb_dex.Events.{BotEvent, TradeConfirmed}
use ckb_dex.Projection.Lifecycle.{Projection, Applied, applied, ignored, to_order_id}
use ckb_dex.Projection.Spend.{
  selected, fill_order, apply_trade_confirmed, new_trade, reconfirm_trade, upsert_trade,
}

-- The ids of the two orders of a trade.
abbrev pub legs : TradeConfirmed → List String
legs e = to_order_id e.buy_order_out_point ∷ to_order_id e.sell_order_out_point ∷ []

-- An order that a settlement has filled.
pub record FilledBy (e : TradeConfirmed) (o : Order) : Type 0 where
  pub status_filled : o.status ≡ filled
  pub settled_by : o.settlement_tx_hash ≡ some e.trade.settlement_tx_hash
  pub spent_at : o.spent_at_block ≡ some e.trade.confirmed_at_block

-- A trade that is stored as confirmed under the hash of its settlement.
pub record Recorded (e : TradeConfirmed) (ts : List Trade) : Type 0 where
  pub stored : Trade
  pub found : find (λ (t : Trade). t.id == e.trade.settlement_tx_hash) ts ≡ some stored
  pub status_confirmed : stored.status ≡ confirmed
  pub at_block : stored.confirmed_at_block ≡ e.trade.confirmed_at_block

abbrev pub untouched : List String → List Order → List Order
untouched ids = filter (λ o. not (selected ids o))

All-filled :
    (event : BotEvent) (e : TradeConfirmed) (ids : List String) (os : List Order)
    → All (FilledBy e) (filter (selected ids) (update_where (selected ids) (fill_order event e) os))
unfolding fill_order
All-filled event e ids [] = tt
All-filled event e ids (o ∷ os) = elim (Bool-cases (selected ids o)) [
  | inl hit ↦
      rw (hit, hit)
        (
          record { status_filled = refl; settled_by = refl; spent_at = refl },
          All-filled event e ids os,
        )
  | inr miss ↦ rw (miss, miss) (All-filled event e ids os)
]

others_kept :
    (event : BotEvent) (e : TradeConfirmed) (ids : List String) (os : List Order)
    → untouched ids (update_where (selected ids) (fill_order event e) os) ≡ untouched ids os
unfolding fill_order
others_kept event e ids [] = refl
others_kept event e ids (o ∷ os) = elim (Bool-cases (selected ids o)) [
  | inl hit ↦ rw (hit, hit) (others_kept event e ids os)
  | inr miss ↦ rw (miss, miss) (ap (λ l. o ∷ l) (others_kept event e ids os))
]

upsert_trade-Recorded :
    (event : BotEvent) (e : TradeConfirmed) (ts : List Trade) → Recorded e (upsert_trade event e ts)
unfolding upsert_trade new_trade reconfirm_trade
upsert_trade-Recorded event e [] = record {
  stored = new_trade event e;
  found = simp eq_refl;
  status_confirmed = refl;
  at_block = refl;
}
upsert_trade-Recorded event e (t ∷ ts) = elim (Bool-cases (t.id == e.trade.settlement_tx_hash)) [
  | inl same ↦ record {
    stored = reconfirm_trade event e t;
    found = rw (same, same) refl;
    status_confirmed = refl;
    at_block = refl;
  }
  | inr other ↦
      let rest = upsert_trade-Recorded event e ts in
      record {
        stored = rest.stored;
        found = rw (other, other) rest.found;
        status_confirmed = rest.status_confirmed;
        at_block = rest.at_block;
      }
]

-- What an applied or an ignored trade returns.
confirmed_exact :
    (event : BotEvent) (e : TradeConfirmed) (p : Projection) (a : Applied)
    → apply_trade_confirmed event e p ≡ ok a
    → ((a.result.status ≡ ignored) × (a.projection ≡ p) × (a.after_commit ≡ []))
      ⊎ ((a.result.status ≡ applied)
          × (a.projection.orders ≡ update_where (selected (legs e)) (fill_order event e) p.orders)
          × (a.projection.trades ≡ upsert_trade event e p.trades))
unfolding apply_trade_confirmed
confirmed_exact event e p a h = ground arith

-- A confirmed trade is all or nothing: either nothing is written and nothing is pushed, or every
-- document with the id of one of the two orders is filled by the settlement at its block, the
-- other documents are as they were and in the same order, and the trade is stored under the hash
-- of the settlement as confirmed at that block.
pub confirmed_trade_atomic :
    (event : BotEvent) (e : TradeConfirmed) (p : Projection) (a : Applied)
    → apply_trade_confirmed event e p ≡ ok a
    → ((a.result.status ≡ ignored) × (a.projection ≡ p) × (a.after_commit ≡ []))
      ⊎ ((a.result.status ≡ applied)
          × All (FilledBy e) (filter (selected (legs e)) a.projection.orders)
          × (untouched (legs e) a.projection.orders ≡ untouched (legs e) p.orders)
          × Recorded e a.projection.trades)
confirmed_trade_atomic event e p a h = elim (confirmed_exact event e p a h) [
  | inl nothing ↦ inl nothing
  | inr (done, orders, trades) ↦ inr (
    done,
    rw orders (All-filled event e (legs e) p.orders),
    rw orders (others_kept event e (legs e) p.orders),
    rw trades (upsert_trade-Recorded event e p.trades),
  )
]
