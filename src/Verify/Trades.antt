-- ===== src/Verify/Trades.antt =====
-- What a trade event that passes `verifyTradeConfirmed` of
-- backend/src/services/event-verification.ts says truly of the chain and of the two orders.
use ckb_dex.Prelude.{
  ◌<◌, ◌≡◌, List, Option, true, find, some, arith, none, ◌==◌, and_left, length, and_right,
}
use ckb_dex.Prelude.Result.{ok, ensure_last, >>=-eq-ok, ensure-eq-ok}
use ckb_dex.Order.{Order, ask, bid}
use ckb_dex.Events.{BotEvent, TradeConfirmed}
use ckb_dex.Projection.Lifecycle.{to_order_id}
use ckb_dex.Verify.{ChainVerification, ChainTransaction, require_confirmed, spends, load}
use ckb_dex.Bytes.{same_hex}
use ckb_dex.Verify.Event.{
  same_block, order_pair, trade_matches, verify_known_trade, verify_trade_confirmed,
}
use ckb_dex.Projection.Trades.{legs}
use ckb_dex.Verify.Soundness.{IsConfirmed, require_confirmed_sound}

-- A trade that the chain and the projection bear out.
pub record IsSettled (v : ChainVerification) (event : BotEvent) (e : TradeConfirmed)
    (orders : List Order) : Type 0 where
  pub buy : Order
  pub sell : Order
  pub buy_found : find (λ o. o.id == to_order_id e.buy_order_out_point) orders ≡ some buy
  pub sell_found : find (λ o. o.id == to_order_id e.sell_order_out_point) orders ≡ some sell
  pub buy_bids : buy.direction ≡ bid
  pub sell_asks : sell.direction ≡ ask
  pub tx : ChainTransaction
  pub confirmed : IsConfirmed v e.trade.settlement_tx_hash event tx
  pub spends_buy : spends v tx e.buy_order_out_point ≡ true
  pub spends_sell : spends v tx e.sell_order_out_point ≡ true
  pub bought_by : same_hex (some e.trade.buyer_lock_hash) (some buy.owner_lock_hash) ≡ true
  pub sold_by : same_hex (some e.trade.seller_lock_hash) (some sell.owner_lock_hash) ≡ true
  pub token_sold : same_hex (some e.trade.xudt_type_hash) (some sell.xudt_type_hash) ≡ true
  pub at_block : event.block_number ≡ some e.trade.confirmed_at_block
  pub amount_sold : e.trade.token_amount ≡ sell.remaining_amount
  pub price_asked : e.trade.price ≡ sell.price_per_token

order_pair_lem :
    (b s : Option Order) (buy sell : Order)
    → order_pair b s ≡ ok (buy, sell)
    → (b ≡ some buy) × (s ≡ some sell) × (buy.direction ≡ bid) × (sell.direction ≡ ask)
unfolding order_pair
order_pair_lem none s buy sell h = cc
order_pair_lem (some b) none buy sell h = cc
order_pair_lem (some b) (some s) buy sell h = ground arith

trade_matches_lem :
    (e : TradeConfirmed) (buy sell : Order)
    → trade_matches e.trade buy sell ≡ true
    → (same_hex (some e.trade.buyer_lock_hash) (some buy.owner_lock_hash) ≡ true)
      × (same_hex (some e.trade.seller_lock_hash) (some sell.owner_lock_hash) ≡ true)
      × (same_hex (some e.trade.xudt_type_hash) (some sell.xudt_type_hash) ≡ true)
      × (e.trade.token_amount ≡ sell.remaining_amount)
      × (e.trade.price ≡ sell.price_per_token)
unfolding trade_matches
trade_matches_lem e buy sell h =
    (ground arith, ground arith, ground arith, ground arith, ground arith)

known_trade_sound :
    (v : ChainVerification) (event : BotEvent) (e : TradeConfirmed) (orders : List Order)
    (u : Unit {0})
    → 0 < v.confirmation_depth
    → event.block_number ≡ some e.trade.confirmed_at_block
    → verify_known_trade v event e orders ≡ ok u
    → IsSettled v event e orders
unfolding verify_known_trade
known_trade_sound v event e orders u depth block h =
    let buys = find (λ o. o.id == to_order_id e.buy_order_out_point) orders in
    let sells = find (λ o. o.id == to_order_id e.sell_order_out_point) orders in
    let ((buy, sell), pair, h1) = >>=-eq-ok (order_pair buys sells) _ h in
    let (tx, confirmed, h2) =
      >>=-eq-ok (require_confirmed v e.trade.settlement_tx_hash event) _ h1 in
    let (spent, h3) = ensure-eq-ok _ _ _ h2 in
    let (bought, sold, bids, asks) = order_pair_lem buys sells buy sell pair in
    let (buyer, seller, token, amount, price) = trade_matches_lem e buy sell (ensure_last _ _ h3) in
    record {
      buy = buy;
      sell = sell;
      buy_found = bought;
      sell_found = sold;
      buy_bids = bids;
      sell_asks = asks;
      tx = tx;
      confirmed = require_confirmed_sound v e.trade.settlement_tx_hash event tx depth confirmed;
      spends_buy = and_left _ _ spent;
      spends_sell = and_right _ _ spent;
      bought_by = buyer;
      sold_by = seller;
      token_sold = token;
      at_block = block;
      amount_sold = amount;
      price_asked = price;
    }

same_block_lem :
    (event : BotEvent) (e : TradeConfirmed)
    → same_block event.block_number e.trade.confirmed_at_block ≡ true
    → event.block_number ≡ some e.trade.confirmed_at_block
unfolding same_block
same_block_lem event e h = ground arith

-- A trade event about two known orders passes verification only if one is a buy and the other a
-- sell order, a confirmed transaction with the hash of the settlement, in the block that the trade
-- names, spends the cells of both, the buyer owns the buy order and the seller the sell order, and
-- token, amount and price of the trade are those of the sell order. The confirmation depth is not
-- zero. The terms of the buy order are not compared with those of the trade.
pub verify_trade_confirmed_sound :
    (v : ChainVerification) (event : BotEvent) (e : TradeConfirmed) (orders : List Order)
    (u : Unit {0})
    → 0 < v.confirmation_depth
    → length (load v orders (legs e)) ≡ 2
    → verify_trade_confirmed v event e orders ≡ ok u
    → IsSettled v event e (load v orders (legs e))
unfolding verify_trade_confirmed
verify_trade_confirmed_sound v event e orders u depth two h =
    let (block, rest) = ensure-eq-ok _ _ _ h in
    known_trade_sound v event e (load v orders (legs e)) u depth (same_block_lem event e block)
      (ground arith)
