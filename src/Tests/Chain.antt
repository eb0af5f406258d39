-- ===== src/Tests/Chain.antt =====
-- The laws of verification, ingestion and the order lock's arguments, at a chain with the
-- transactions of the test data.
use ckb_dex.Prelude.{ℕ, String, List, some, if◌then◌else◌, ◌∷◌, none, ◌≡◌, [], ◌==◌, arith, refl}
use ckb_dex.Tests.Data.{book, traded, event_of, script_of, out_point_of}
use ckb_dex.Args.{decode_buffer, decode_dex_order_args, Codec}
use ckb_dex.Verify.{
  spends, confirmations, ChainTransaction, ChainReader, ChainVerification, require_confirmed,
  verify_order_confirmed, load,
}
use ckb_dex.Events.{OrderConfirmed, BotEvent, order_confirmed, trade_confirmed}
use ckb_dex.Verify.Orders.{IsGenuine, verify_order_confirmed_sound}
use ckb_dex.Verify.Event.{trade_matches, order_pair, verify_known_trade, verify_trade_confirmed}
use ckb_dex.Projection.Lifecycle.{to_order_id}
use ckb_dex.Bytes.{
  hex_digit, hex_text, hex_value, hex_pairs, same_lower, same_hex, from_le, to_buffer, to_le,
  to_hex,
}
use ckb_dex.Verify.Soundness.{IsConfirmed, require_confirmed_sound}
use ckb_dex.Verify.Trades.{IsSettled, verify_trade_confirmed_sound}
use ckb_dex.Order.{bid}
use ckb_dex.Prelude.Result.{ok, err}
use ckb_dex.Projection.Trades.{legs}

abbrev pub bytes_of : String → List ℕ
bytes_of hex = elim (to_buffer hex) [ ok bytes ↦ bytes | err e ↦ [] ]

pub bytes_of_lem : (hex : String) (bytes : List ℕ) → to_buffer hex ≡ ok bytes → bytes_of hex ≡ bytes
bytes_of_lem hex bytes h = rw (bytes_of, h) refl

abbrev pub codec : Codec
codec = record {
  num_le_from_bytes = from_le;
  num_le_to_bytes = λ n width. to_le width n;
  bytes_from = bytes_of;
  hex_from = to_hex;
  num_le_from_bytes_lem = λ bytes. refl;
  num_le_to_bytes_lem = λ n width small. refl;
  bytes_from_lem = bytes_of_lem;
  hex_from_lem = λ bytes. refl;
}

abbrev maker : String
maker = "0xaaaaaaaaaaaaaaaaaaaaaaaaaaaaaaaaaaaaaaaaaaaaaaaaaaaaaaaaaaaaaaaa"

abbrev token : String
token = "0xbbbbbbbbbbbbbbbbbbbbbbbbbbbbbbbbbbbbbbbbbbbbbbbbbbbbbbbbbbbbbbbb"

abbrev pub buy_args : String
buy_args =
    "0x0100aaaaaaaaaaaaaaaaaaaaaaaaaaaaaaaaaaaaaaaaaaaaaaaaaaaaaaaaaaaaaaaabbbbbbbbbbbbbbbbbbbbbbbbbbbbbbbbbbbbbbbbbbbbbbbbbbbbbbbbbbbbbbbb640000000000000000000000000000000500000000000000"

abbrev creating_tx : ChainTransaction
creating_tx = record {
  status = "committed";
  block_number = some 12;
  block_hash = some "0xb12";
  tx_index = some 1;
  inputs = [];
  outputs =
      record { lock = script_of buy_args; type_script = none; capacity = 500; cell_data = "0x" }
      ∷ [];
  input_lock_hashes = maker ∷ [];
}

abbrev settling_tx : ChainTransaction
settling_tx = record {
  status = "committed";
  block_number = some 12;
  block_hash = some "0xb12";
  tx_index = some 2;
  inputs = out_point_of "0xb" ∷ out_point_of "0xs" ∷ [];
  outputs = [];
  input_lock_hashes = [];
}

abbrev reader : ChainReader
reader = record {
  get_tip = 20;
  get_transaction = λ hash. if hash == "0xtx" then some settling_tx else some creating_tx;
  get_canonical_block_hash = λ n. none;
  script_hash = λ script. maker;
  number_of = λ index. 0;
}

abbrev pub chain : ChainVerification
chain = record {
  chain = reader;
  codec = codec;
  dex_lock = script_of "0x";
  confirmation_depth = 3;
  supported_asset_hashes = token ∷ [];
}

abbrev opened : OrderConfirmed
opened = record {
  out_point = out_point_of "0xn";
  order = record {
    lock_script = script_of buy_args;
    type_script = none;
    cell_data = "0x";
    capacity = 500;
    owner_lock = script_of "0xaa";
    owner_lock_hash = maker;
    owner_address = none;
    direction = bid;
    price_per_token = 5;
    token_amount = 100;
    xudt_type_hash = token;
    block_number = 12;
    tx_index = 1;
  };
}

abbrev order_event : BotEvent
order_event = event_of "e1" (some "0xb12") (order_confirmed opened)

require_confirmed_sound_example : IsConfirmed chain "0xn" order_event creating_tx
unfolding require_confirmed same_hex same_lower confirmations
require_confirmed_sound_example =
    require_confirmed_sound chain "0xn" order_event creating_tx (omega arith) refl

opened_verified : verify_order_confirmed chain order_event opened ≡ ok tt
unfolding verify_order_confirmed require_confirmed same_hex same_lower confirmations
    decode_dex_order_args to_buffer hex_pairs hex_value decode_buffer from_le to_hex hex_text
    hex_digit
opened_verified = refl

verify_order_confirmed_sound_example : IsGenuine chain order_event opened
verify_order_confirmed_sound_example =
    verify_order_confirmed_sound chain order_event opened tt (omega arith) opened_verified

abbrev pub trade_event : BotEvent
trade_event = event_of "e2" (some "0xb12") (trade_confirmed traded)

trade_verified : verify_trade_confirmed chain trade_event traded book.orders ≡ ok tt
unfolding verify_trade_confirmed to_order_id verify_known_trade order_pair require_confirmed
    same_hex same_lower confirmations spends trade_matches
trade_verified = refl

verify_trade_confirmed_sound_example :
    IsSettled chain trade_event traded (load chain book.orders (legs traded))
unfolding to_order_id
verify_trade_confirmed_sound_example =
    verify_trade_confirmed_sound chain trade_event traded book.orders tt (omega arith) refl
      trade_verified
