-- ===== src/Args.antt =====
-- The 90-byte arguments of the DEX order lock: `decodeDexOrderArgs` of
-- backend/src/utils/dex-order-args.ts, `readOrderTerms` of offchain/src/fill-order.ts, and the
-- arguments that offchain/src/shared.ts writes. What the client library @ckb-ccc/core does with
-- numbers and bytes is a parameter.
pub mod Layout
pub mod Laws
use ckb_dex.Prelude.{
  ℕ, ◌+◌, ◌^◌, ◌<◌, String, ◌≡◌, Bool, true, false, not, ◌&&◌, ◌||◌, List, [], ◌∷◌, ◌++◌, length,
  eqb, none, if◌then◌else◌,
}
use ckb_dex.Prelude.Result.{Result, ok, err, app_error, other_error, ensure, ◌>>=◌, ◌>>◌}
use ckb_dex.Order.{OrderDirection, ask, bid}
use ckb_dex.Bytes.{subarray, read_u8, from_le, to_le, to_buffer, to_hex}

-- ccc.numLeFromBytes, ccc.numLeToBytes, ccc.bytesFrom and ccc.hexFrom, with what their
-- documentation says of little-endian numbers and of hex texts.
pub record Codec : Type 0 where
  pub num_le_from_bytes : List ℕ → ℕ
  pub num_le_to_bytes : ℕ → ℕ → List ℕ
  pub bytes_from : String → List ℕ
  pub hex_from : List ℕ → String
  pub num_le_from_bytes_lem : (bytes : List ℕ) → num_le_from_bytes bytes ≡ from_le bytes
  pub num_le_to_bytes_lem :
      (n width : ℕ) → n < 256 ^ width → num_le_to_bytes n width ≡ to_le width n
  pub bytes_from_lem :
      (hex : String) (bytes : List ℕ) → to_buffer hex ≡ ok bytes → bytes_from hex ≡ bytes
  pub hex_from_lem : (bytes : List ℕ) → hex_from bytes ≡ to_hex bytes

abbrev pub order_version : ℕ
order_version = 1

abbrev pub side_buy : ℕ
side_buy = 0

abbrev pub side_sell : ℕ
side_sell = 1

abbrev pub hash_len : ℕ
hash_len = 32

abbrev pub amount_len : ℕ
amount_len = 16

abbrev pub price_len : ℕ
price_len = 8

abbrev pub order_args_len : ℕ
order_args_len = 1 + 1 + hash_len + hash_len + amount_len + price_len

pub record DecodedDexOrderArgs : Type 0 where
  pub maker_lock_hash : String
  pub direction : OrderDirection
  pub udt_type_hash : String
  pub token_amount : ℕ
  pub price_per_token : ℕ

module _ (c : Codec) where
  -- `decodeDexOrderArgs` past `toBuffer`; `offset` is written out
  unfoldable pub decode_buffer : List ℕ → Result DecodedDexOrderArgs
  decode_buffer buf = do
    ensure (eqb (length buf) order_args_len) (app_error 400 "dex order args must be 90 bytes" none)
    ensure (eqb (read_u8 buf 0) order_version)
        (app_error 400 "unsupported dex order args version" none)
    ensure (eqb (read_u8 buf 1) side_buy || eqb (read_u8 buf 1) side_sell)
        (app_error 400 "unknown order side byte" none)
    ok (record {
      maker_lock_hash = to_hex (subarray buf 2 34);
      direction = if eqb (read_u8 buf 1) side_sell then ask else bid;
      udt_type_hash = to_hex (subarray buf 34 66);
      token_amount = c.num_le_from_bytes (subarray buf 66 82);
      price_per_token = from_le (subarray buf 82 90);
    })

  unfoldable pub decode_dex_order_args : String → Result DecodedDexOrderArgs
  decode_dex_order_args args = do buf ← to_buffer args; decode_buffer buf

  pub record OrderTerms : Type 0 where
    pub side : ℕ
    pub maker_lock_hash : String
    pub xudt_type_hash : String
    pub amount : ℕ
    pub price : ℕ

  -- offchain/src/fill-order.ts; it throws plain errors
  unfoldable pub read_order_terms : String → Result OrderTerms
  read_order_terms lock_args =
      let args = c.bytes_from lock_args in
      do
        ensure (eqb (length args) 90) (other_error "Expected 90-byte DEX args")
        ensure (eqb (read_u8 args 0) order_version) (other_error "Unsupported DEX order version")
        ensure (eqb (read_u8 args 1) side_buy || eqb (read_u8 args 1) side_sell)
            (other_error "Unknown DEX order side")
        ok (record {
          side = read_u8 args 1;
          maker_lock_hash = c.hex_from (subarray args 2 34);
          xudt_type_hash = c.hex_from (subarray args 34 66);
          amount = c.num_le_from_bytes (subarray args 66 82);
          price = c.num_le_from_bytes (subarray args 82 90);
        })

  -- offchain/src/shared.ts: `ccc.bytesConcat` of the six parts, with the sell side there
  unfoldable pub dex_args_bytes : ℕ → List ℕ → List ℕ → ℕ → ℕ → List ℕ
  dex_args_bytes side maker_lock_hash xudt_type_hash token_amount price =
      order_version
      ∷ side
      ∷ (maker_lock_hash
          ++ (xudt_type_hash ++ (c.num_le_to_bytes token_amount 16 ++ c.num_le_to_bytes price 8)))
