-- ===== src/Tests/Bots.antt =====
-- The laws of the bot, at a node where the maker of the buy order has cancelled it, and at a node
-- that refuses the settlement.
use ckb_dex.Settlement.{allocate_settlement_capacity}
use ckb_dex.Prelude.{inl, some, none, [], ◌∷◌, refl, Bool, not, true, if◌then◌else◌, ◌==◌, ◌≡◌}
use ckb_dex.Tests.Data.{buy_order, sell_order, script_of, out_point_of}
use ckb_dex.Prelude.Result.{ok, err, Failure, other_error}
use ckb_dex.Tests.Chain.{codec}
use ckb_dex.Bot.Trade.Release.{failed_trade_releases, LeftBy}
use ckb_dex.Bot.Trade.Exclusive.{reserved_order_not_traded}
use ckb_dex.Order.{OutPoint, Order}
use ckb_dex.Bot.Node.{NodeTransaction, Cell, Node, Settlement}
use ckb_dex.Verify.{ChainTransaction, ChainVerification}
use ckb_dex.Ingestion.{Database}
use ckb_dex.Bot.Trade.{
  check_both, holds_any, submit, send_settlement, settle, release_failed, reserve_sell,
  reserve_order, reserve_buy, reserve, reserve_and_settle, build, check_pair, execute_trade,
  settle_or_release, competing_failure, settlement_of,
}
use ckb_dex.Bot.Reconcile.{check_order_liveness}

abbrev maker_input : OutPoint
maker_input = out_point_of "0xm"

abbrev cancelling_tx : NodeTransaction
cancelling_tx = record {
  status = "committed";
  block_number = some 12;
  block_hash = some "0xb12";
  tx_index = some 1;
  hash = "0xc";
  inputs = maker_input ∷ out_point_of "0xb" ∷ [];
}

abbrev maker_cell : Cell
maker_cell = record {
  out_point = maker_input;
  lock = script_of "0xaa";
  type_script = none;
  capacity = 100;
  output_data = "0x";
}

-- A node where the cells are live as `alive` says.
abbrev pub node_where : (OutPoint → Bool) → Node
node_where alive = record {
  tip = 20;
  header_hash = λ n. some "0xb12";
  transaction = λ hash. if hash == "0xc" then some cancelling_tx else none;
  cell_live = alive;
  cell_of = λ p. if p.tx_hash == "0xm" then some maker_cell else none;
  transactions_by_lock = λ lock. record { is_input = true; tx_hash = "0xc" } ∷ [];
  cells_between = λ first last. [];
  script_hash = λ script. script.args;
  address_of = λ script. "ckt1";
  minimum_capacity = λ tx. 61;
  fee_of = λ tx. 1000;
  hash_of = λ tx. "0xsettled";
  send = λ tx. err (other_error "PoolRejectedTransactionByMinFeeRate");
}

abbrev after_cancel : Node
after_cancel = node_where (λ p. not (p.tx_hash == "0xb"))

abbrev pub refusing : Node
refusing = node_where (λ p. true)

abbrev cancelling_chain_tx : ChainTransaction
cancelling_chain_tx = record {
  status = "committed";
  block_number = some 12;
  block_hash = some "0xb12";
  tx_index = some 1;
  inputs = cancelling_tx.inputs;
  outputs = [];
  input_lock_hashes = "0xaa" ∷ [];
}

abbrev chain_of_cancel : ChainVerification
chain_of_cancel = record {
  chain = record {
    get_tip = 20;
    get_transaction = λ hash. some cancelling_chain_tx;
    get_canonical_block_hash = λ n. none;
    script_hash = λ script. script.args;
    number_of = λ index. 0;
  };
  codec = codec;
  dex_lock = script_of "0x";
  confirmation_depth = 3;
  supported_asset_hashes = "0xt" ∷ [];
}

abbrev pub rich_buy : Order
rich_buy = record buy_order { capacity = 5000 }

abbrev rich_book : Database
rich_book = record {
  projection = record { orders = rich_buy ∷ sell_order ∷ []; trades = [] };
  events = [];
}

failed_trade_releases_example :
    LeftBy "0xb:0" "0xs:0" rich_book
      (execute_trade refusing none 1000 "now" ("0xt" ∷ []) rich_buy sell_order rich_book).1
unfolding execute_trade check_pair build allocate_settlement_capacity reserve_and_settle reserve
    reserve_buy reserve_order reserve_sell settle_or_release release_failed settle
    check_order_liveness send_settlement submit holds_any check_both
failed_trade_releases_example =
    failed_trade_releases refusing none 1000 "now" ("0xt" ∷ []) rich_buy sell_order rich_book
      competing_failure refl

abbrev settlement : Settlement
settlement = settlement_of rich_buy sell_order

abbrev left_by_attempt : Database
left_by_attempt =
    (settle_or_release after_cancel (some chain_of_cancel) 1000 "now" settlement rich_buy sell_order
      rich_book).1

abbrev reserved_book : Database
reserved_book = (reserve 1000 "0xb:0" rich_book).1

reserved_order_not_traded_example :
    (reserve 2000 "0xb:0" reserved_book ≡ (ok none, reserved_book))
    × ((e : Failure) × ((execute_trade refusing none 2000 "now"
            ("0xt" ∷ [])
            rich_buy
            sell_order
            reserved_book).0
          ≡ err e))
unfolding reserve
reserved_order_not_traded_example =
    reserved_order_not_traded refusing none 1000 2000 "now" "0xb:0" ("0xt" ∷ []) rich_buy sell_order
      (reserve_order 1000 rich_buy) rich_book reserved_book refl (inl refl)
