-- ===== src/Projection.antt =====
-- backend/src/services/event-ingestion.ts: how an event changes the order and trade projections.
-- An `apply` function returns the result of the event, the projection that the transaction writes
-- and the realtime pushes that wait for its commit (backend/src/services/realtime.ts emits them).
pub mod Lifecycle
pub mod Confirm
pub mod Spend
pub mod Reorg
pub mod Ids
pub mod Transitions
pub mod Trades
pub mod Rollback
pub mod Confirmed
pub mod Invariants
use ckb_dex.Prelude.{ℕ, String, Option, List, Bool, any, if◌then◌else◌}
use ckb_dex.Prelude.Result.{Result}
use ckb_dex.Order.{Order, Trade}
use ckb_dex.Events.{
  BotEvent, EventBody, order_confirmed, order_cancelled, settlement_submitted, trade_confirmed,
  chain_reorg,
}
use Lifecycle.{Projection, Applied}
use Confirm.{apply_order_confirmed}
use Spend.{apply_order_cancelled, apply_settlement_submitted, apply_trade_confirmed}
use Reorg.{apply_chain_reorg}

unfoldable pub apply_body : BotEvent → EventBody → Projection → Result Applied
apply_body event (order_confirmed e) = apply_order_confirmed event e
apply_body event (order_cancelled e) = apply_order_cancelled event e
apply_body event (settlement_submitted e) = apply_settlement_submitted event e
apply_body event (trade_confirmed e) = apply_trade_confirmed event e
apply_body event (chain_reorg e) = apply_chain_reorg event e

-- the `switch` on the event's type
unfoldable pub apply_event : BotEvent → Projection → Result Applied
unfolding apply_body
apply_event event = apply_body event event.body
