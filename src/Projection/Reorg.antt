-- ===== src/Projection/Reorg.antt =====
-- backend/src/services/event-ingestion.ts: `applyChainReorg`.
use ckb_dex.Prelude.{
  ℕ, ◌+◌, String, Bool, true, false, not, ◌&&◌, ◌||◌, Option, none, some, List, [], ◌∷◌, ◌++◌, map,
  filter, member, leb, update_where,
}
use mathlib.Core.List.{flat_map}
use ckb_dex.Prelude.Result.{Result, ok}
use ckb_dex.Order.{
  Order, OrderStatus, Trade, live, filled, canceled, orphaned, cancelled, reverted, confirmed,
  status_eq, TradeStatus,
}
use ckb_dex.Events.{BotEvent, ChainReorg}
use ckb_dex.Projection.Lifecycle.{
  Projection, Applied, emit_orderbook, emit_maker_orders, emit_trades, apply,
}
use ckb_dex.Projection.Spend.{distinct}

-- The first block that is rolled back.
unfoldable pub rollback_from : ChainReorg → ℕ
rollback_from e = elim e.ancestor_block_number [
  | none ↦ e.reverted_block_number
  | some ancestor ↦ ancestor + 1
]

-- `$gte` after `$convert`, which makes an absent field null: below every number.
abbrev pub at_or_after : ℕ → Option ℕ → Bool
at_or_after from none = false
at_or_after from (some n) = leb from n

abbrev pub is_spent : OrderStatus → Bool
is_spent s = status_eq s filled || status_eq s canceled || status_eq s cancelled

abbrev pub is_reverted : TradeStatus → Bool
is_reverted reverted = true
is_reverted confirmed = false

unfoldable pub was_created_reverted : ℕ → Order → Bool
was_created_reverted from o =
    at_or_after from (some o.block_number) && not (status_eq o.status orphaned)

unfoldable pub was_spent_reverted : ℕ → List String → Order → Bool
was_spent_reverted from created o =
    at_or_after from o.spent_at_block && is_spent o.status && not (member o.id created)

unfoldable pub was_trade_reverted : ℕ → Trade → Bool
was_trade_reverted from t = at_or_after from (some t.block_number) && not (is_reverted t.status)

unfoldable pub orphan_order : BotEvent → Order → Order
orphan_order event o = record o {
  status = orphaned;
  reserved_until = none;
  pending_tx_hash = none;
  last_event_id = some event.event_id;
}

unfoldable pub reopen_order : BotEvent → Order → Order
reopen_order event o = record o {
  status = live;
  reserved_until = none;
  pending_tx_hash = none;
  spent_at_block = none;
  spent_block_hash = none;
  settlement_tx_hash = none;
  last_event_id = some event.event_id;
}

unfoldable pub revert_trade : BotEvent → Trade → Trade
revert_trade event t = record t { status = reverted; last_event_id = event.event_id }

-- Both queries run before the first save. A document that the first loop orphans fails the second
-- query whether it is read before or after that loop, so the second loop is a pass of its own.
unfoldable pub apply_chain_reorg : BotEvent → ChainReorg → Projection → Result Applied
apply_chain_reorg event e p =
    let from = rollback_from e in
    let created_reverted = filter (was_created_reverted from) p.orders in
    let created_ids = map (λ o. o.id) created_reverted in
    let spent_reverted = filter (was_spent_reverted from created_ids) p.orders in
    let reverted_trades = filter (was_trade_reverted from) p.trades in
    let touched = created_reverted ++ spent_reverted in
    ok (
      apply event.event_id
        (record {
          orders =
              update_where (was_spent_reverted from created_ids) (reopen_order event)
                (update_where (was_created_reverted from) (orphan_order event) p.orders);
          trades = update_where (was_trade_reverted from) (revert_trade event) p.trades;
        })
        (flat_map (λ hash. emit_orderbook hash ∷ emit_trades hash ∷ [])
            (distinct
              (map (λ o. o.xudt_type_hash) touched ++ map (λ t. t.xudt_type_hash) reverted_trades))
          ++ map emit_maker_orders (distinct (map (λ o. o.owner_lock_hash) touched))))
