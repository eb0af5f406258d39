-- ===== src/Events.antt =====
-- backend/src/schemas/bot-events.ts: the events that the bot sends to the ingestion pipeline.
use ckb_dex.Prelude.{ℕ, String, Option, List}
use ckb_dex.Order.{Script, OutPoint, OrderDirection}

pub record OrderPayload : Type 0 where
  pub lock_script : Script
  pub type_script : Option Script
  pub cell_data : String
  pub capacity : ℕ
  pub owner_lock : Script
  pub owner_lock_hash : String
  pub owner_address : Option String
  pub direction : OrderDirection
  pub price_per_token : ℕ
  pub token_amount : ℕ
  pub xudt_type_hash : String
  pub block_number : ℕ
  pub tx_index : ℕ

pub record TradePayload : Type 0 where
  pub settlement_tx_hash : String
  pub buyer_lock_hash : String
  pub seller_lock_hash : String
  pub xudt_type_hash : String
  pub token_amount : ℕ
  pub price : ℕ
  pub paid_capacity : ℕ
  pub confirmed_at_block : ℕ

pub record OrderConfirmed : Type 0 where
  pub out_point : OutPoint
  pub order : OrderPayload

pub record OrderCancelled : Type 0 where
  pub out_point : OutPoint
  pub cancelled_by_tx_hash : String

-- The schema asks for exactly two out points.
pub record SettlementSubmitted : Type 0 where
  pub order_out_points : List OutPoint
  pub settlement_tx_hash : String

pub record TradeConfirmed : Type 0 where
  pub buy_order_out_point : OutPoint
  pub sell_order_out_point : OutPoint
  pub trade : TradePayload

pub record ChainReorg : Type 0 where
  pub reverted_block_hash : String
  pub reverted_block_number : ℕ
  pub ancestor_block_number : Option ℕ

pub data EventBody : Type 0 where
  order_confirmed : OrderConfirmed → EventBody
  order_cancelled : OrderCancelled → EventBody
  settlement_submitted : SettlementSubmitted → EventBody
  trade_confirmed : TradeConfirmed → EventBody
  chain_reorg : ChainReorg → EventBody

-- The fields of `botEventBaseSchema`; its schema version is always 1.
pub record BotEvent : Type 0 where
  pub event_id : String
  pub occurred_at : String
  pub transaction_hash : Option String
  pub block_number : Option ℕ
  pub block_hash : Option String
  pub confirmations : Option ℕ
  pub body : EventBody
