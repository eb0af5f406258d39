-- ===== src/Verify/Event.antt =====
-- backend/src/services/event-verification.ts: `verifyTradeConfirmed`, and `verifyEvent`, which
-- picks the check of an event by its type.
use ckb_dex.Prelude.{
  Bool, false, ◌&&◌, Option, none, some, List, [], ◌∷◌, find, length, eqb, ◌==◌, if◌then◌else◌, ℕ,
}
use ckb_dex.Prelude.Result.{Result, ok, err, ensure, ◌>>=◌, ◌>>◌}
use ckb_dex.Order.{Order, ask, bid, direction_eq}
use ckb_dex.Events.{
  BotEvent, EventBody, TradeConfirmed, TradePayload, order_confirmed, order_cancelled,
  settlement_submitted, trade_confirmed, chain_reorg,
}
use ckb_dex.Bytes.{same_hex}
use ckb_dex.Projection.Lifecycle.{to_order_id}
use ckb_dex.Verify.{
  ChainVerification, rejection, require_confirmed, spends, load, verify_order_confirmed,
  verify_order_cancelled, verify_settlement_submitted, verify_chain_reorg,
}

-- `!buy || !sell || buy.direction !== "BID" || sell.direction !== "ASK"`
unfoldable pub order_pair : Option Order → Option Order → Result (Order × Order)
order_pair (some buy) (some sell) =
    if direction_eq buy.direction bid && direction_eq sell.direction ask
    then ok (buy, sell)
    else err (rejection "orders are not a buy/sell pair")
order_pair _ _ = err (rejection "orders are not a buy/sell pair")

-- The trade of the event against the two orders.
unfoldable pub trade_matches : TradePayload → Order → Order → Bool
trade_matches t buy sell =
    same_hex (some t.buyer_lock_hash) (some buy.owner_lock_hash)
    && (same_hex (some t.seller_lock_hash) (some sell.owner_lock_hash)
        && (same_hex (some t.xudt_type_hash) (some sell.xudt_type_hash)
            && (eqb t.token_amount sell.remaining_amount && eqb t.price sell.price_per_token)))

unfoldable pub same_block : Option ℕ → ℕ → Bool
same_block none n = false
same_block (some m) n = eqb n m

module _ (v : ChainVerification) where
  -- The checks of a trade whose two orders are known.
  unfoldable pub verify_known_trade : BotEvent → TradeConfirmed → List Order → Result (Unit {0})
  verify_known_trade event e orders = do
    (buy, sell) ←
        order_pair (find (λ o. o.id == to_order_id e.buy_order_out_point) orders)
          (find (λ o. o.id == to_order_id e.sell_order_out_point) orders)
    tx ← require_confirmed v e.trade.settlement_tx_hash event
    ensure (spends v tx e.buy_order_out_point && spends v tx e.sell_order_out_point)
        (rejection "settlement does not spend both orders")
    ensure (trade_matches e.trade buy sell)
        (rejection "trade fields differ from the matched orders")

  unfoldable pub verify_trade_confirmed : BotEvent → TradeConfirmed → List Order → Result (Unit {0})
  unfolding same_block
  verify_trade_confirmed event e orders = do
    ensure (same_block event.block_number e.trade.confirmed_at_block)
        (rejection "confirmed block disagrees with event block")
    let ids = to_order_id e.buy_order_out_point ∷ to_order_id e.sell_order_out_point ∷ []
    let found = load v orders ids
    if eqb (length found) 2 then verify_known_trade event e found else ok tt

  verify_body : BotEvent → EventBody → List Order → Result (Unit {0})
  verify_body event (order_confirmed e) orders = verify_order_confirmed v event e
  verify_body event (order_cancelled e) orders = verify_order_cancelled v event e orders
  verify_body event (settlement_submitted e) orders = verify_settlement_submitted v e
  verify_body event (trade_confirmed e) orders = verify_trade_confirmed event e orders
  verify_body event (chain_reorg e) orders = verify_chain_reorg v e

  -- `orders` are the documents that `load` reads
  unfoldable pub verify_event : BotEvent → List Order → Result (Unit {0})
  unfolding verify_body
  verify_event event orders = verify_body event event.body orders
