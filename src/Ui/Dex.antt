-- ===== src/Ui/Dex.antt =====
-- ui/src/services/ckb/dex.js: the lock and the capacity of an order, and the check of a cell that
-- is read back. Building, funding and signing transactions is the client library's.
use ckb_dex.Prelude.{
  ℕ, String, Bool, Option, some, none, ◌+◌, ◌*◌, ◌==◌, ◌&&◌, eqb, length, if◌then◌else◌, get_elem?,
}
use ckb_dex.Prelude.Result.{Result, ok, err, other_error}
use ckb_dex.Order.{OrderDirection, OutPoint, Script, ask, bid}
use ckb_dex.Args.{Codec, dex_args_bytes}
use ckb_dex.Settlement.{max_settlement_fee}
use ckb_dex.Bytes.{subarray}
use ckb_dex.Bot.Node.{Cell}
use ckb_dex.Verify.{hash_type_eq}

-- ORDER_ARGS_LEN, SIDE_BUY and SIDE_SELL
abbrev pub order_args_len : ℕ
order_args_len = 90

abbrev pub side_buy : ℕ
side_buy = 0

abbrev pub side_sell : ℕ
side_sell = 1

-- SETTLEMENT_FEE_RESERVE
abbrev pub settlement_fee_reserve : ℕ
settlement_fee_reserve = 2 * max_settlement_fee

-- The minimum capacity that the library computes of a cell from its lock, its type script and the
-- bytes of its data, `cell_capacity`.
module _ (cell_capacity : Script → Option Script → ℕ → ℕ) where
  -- The amount takes the 16 bytes of `numLeToBytes(tokenAmount, 16)`, whatever it is.
  unfoldable pub settlement_token_cell_capacity : Script → Script → ℕ
  settlement_token_cell_capacity maker_lock token_type =
      cell_capacity maker_lock (some token_type) 16

  unfoldable pub buy_order_capacity : Script → Script → ℕ → ℕ
  buy_order_capacity maker_lock token_type total_price =
      total_price + settlement_token_cell_capacity maker_lock token_type + settlement_fee_reserve

module _ (codec : Codec) (dex_script : Script) where
  unfoldable pub build_dex_lock : ℕ → String → String → ℕ → ℕ → Result Script
  build_dex_lock side maker_lock_hash xudt_type_hash token_amount price =
      let args =
        dex_args_bytes codec side (codec.bytes_from maker_lock_hash)
          (codec.bytes_from xudt_type_hash) token_amount price in
      if eqb (length args) order_args_len
      then ok (record dex_script { args = codec.hex_from args })
      else err (other_error "Expected 90-byte order args")

-- What `readOwnOrderCell` returns.
pub record OwnOrder : Type 0 where
  pub out_point : OutPoint
  pub direction : OrderDirection
  pub capacity : ℕ
  pub owner_lock : Script
  pub type_script : Option Script
  pub cell_data : String

-- `args[1] === SIDE_SELL`
abbrev pub direction_at : Option ℕ → OrderDirection
direction_at none = bid
direction_at (some side) = if eqb side side_sell then ask else bid

module _ (codec : Codec) (dex_script : Script) (script_hash : Script → String) where
  unfoldable pub is_our_order : Script → Script → Bool
  is_our_order maker_lock lock =
      (lock.code_hash == dex_script.code_hash)
      && (hash_type_eq lock.hash_type dex_script.hash_type
          && (eqb (length (codec.bytes_from lock.args)) order_args_len
              && (codec.hex_from (subarray (codec.bytes_from lock.args) 2 34)
                  == script_hash maker_lock)))

  -- `live` is the live cell that the node has at the out point.
  unfoldable pub read_own_order_cell : Script → OutPoint → Option Cell → Result OwnOrder
  read_own_order_cell maker_lock out_point none = err (other_error "Still confirming")
  read_own_order_cell maker_lock out_point (some cell) =
      if is_our_order maker_lock cell.lock
      then ok (record {
        out_point = out_point;
        direction = direction_at (get_elem? (codec.bytes_from cell.lock.args) 1);
        capacity = cell.capacity;
        owner_lock = maker_lock;
        type_script = cell.type_script;
        cell_data = cell.output_data;
      })
      else err (other_error "That cell isn't one of your DEX orders")
