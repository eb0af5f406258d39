-- ===== src/Tests/Data.antt =====
-- A buy and a sell order, the events about them, and the database that holds them.
use ckb_dex.Prelude.{ℕ, String, Option, none, some, [], ◌∷◌}
use ckb_dex.Prelude.Result.{Result, ok, err}
use ckb_dex.Order.{Order, OutPoint, Script, type1, ask, bid, live, OrderDirection}
use ckb_dex.Events.{
  BotEvent, OrderPayload, OrderConfirmed, OrderCancelled, SettlementSubmitted, TradeConfirmed,
  ChainReorg, EventBody,
}
use ckb_dex.Projection.Lifecycle.{Projection, Applied, ignore}

abbrev pub script_of : String → Script
script_of args = record { code_hash = "0xdex"; hash_type = type1; args = args }

abbrev pub out_point_of : String → OutPoint
out_point_of tx_hash = record { tx_hash = tx_hash; index = "0" }

abbrev pub payload_of : OrderDirection → String → ℕ → OrderPayload
payload_of direction args capacity = record {
  lock_script = script_of args;
  type_script = none;
  cell_data = "0x";
  capacity = capacity;
  owner_lock = script_of "0xaa";
  owner_lock_hash = "0xaa";
  owner_address = none;
  direction = direction;
  price_per_token = 5;
  token_amount = 100;
  xudt_type_hash = "0xt";
  block_number = 10;
  tx_index = 1;
}

abbrev pub order_of : String → String → OrderDirection → Order
order_of id tx_hash direction = record {
  id = id;
  out_point = out_point_of tx_hash;
  lock_script = script_of "0x01";
  type_script = none;
  cell_data = "0x";
  capacity = 500;
  owner_lock = script_of "0xaa";
  owner_lock_hash = "0xaa";
  owner_address = none;
  direction = direction;
  price_per_token = 5;
  remaining_amount = 100;
  token_pair = "0xt";
  xudt_type_hash = "0xt";
  block_number = 10;
  tx_index = 1;
  status = live;
  reserved_until = none;
  pending_tx_hash = none;
  settlement_tx_hash = none;
  last_event_id = none;
  confirmed_at_block = some 10;
  created_at_block = some 10;
  price_value = some 5;
  block_num = some 10;
  tx_idx = some 1;
  created_block_hash = some "0xb10";
  spent_at_block = none;
  spent_block_hash = none;
}

abbrev pub buy_order : Order
buy_order = order_of "0xb:0" "0xb" bid

abbrev pub sell_order : Order
sell_order = order_of "0xs:0" "0xs" ask

abbrev pub event_of : String → Option String → EventBody → BotEvent
event_of id hash body = record {
  event_id = id;
  occurred_at = "now";
  transaction_hash = some "0xtx";
  block_number = some 12;
  block_hash = hash;
  confirmations = none;
  body = body;
}

abbrev pub opened : OrderConfirmed
opened = record { out_point = out_point_of "0xn"; order = payload_of bid "0x01" 500 }

abbrev pub cancelled_buy : OrderCancelled
cancelled_buy = record { out_point = out_point_of "0xb"; cancelled_by_tx_hash = "0xc" }

abbrev pub submitted : SettlementSubmitted
submitted = record {
  order_out_points = out_point_of "0xb" ∷ out_point_of "0xs" ∷ [];
  settlement_tx_hash = "0xtx";
}

abbrev pub traded : TradeConfirmed
traded = record {
  buy_order_out_point = out_point_of "0xb";
  sell_order_out_point = out_point_of "0xs";
  trade = record {
    settlement_tx_hash = "0xtx";
    buyer_lock_hash = "0xaa";
    seller_lock_hash = "0xaa";
    xudt_type_hash = "0xt";
    token_amount = 100;
    price = 5;
    paid_capacity = 5;
    confirmed_at_block = 12;
  };
}

abbrev pub reorg : ChainReorg
reorg = record {
  reverted_block_hash = "0xb12";
  reverted_block_number = 12;
  ancestor_block_number = some 11;
}

abbrev pub book : Projection
book = record { orders = buy_order ∷ sell_order ∷ []; trades = [] }

abbrev pub value_of : BotEvent → Projection → Result Applied → Applied
value_of event p (ok a) = a
value_of event p (err e) = ignore event.event_id "failed" p
