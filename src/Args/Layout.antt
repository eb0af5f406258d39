-- ===== src/Args/Layout.antt =====
-- The parts of the buffer that carries the order lock's arguments.
use ckb_dex.Prelude.{
  ℕ, ◌≡◌, ap, ◌∙◌, ◌⊎◌, inl, inr, List, [], ◌∷◌, ◌++◌, length, eqb, arith, if◌then◌else◌, take, All,
}
use ckb_dex.Prelude.Result.{ok}
use ckb_dex.Order.{ask, bid}
use ckb_dex.Bytes.{subarray, read_u8, from_le, to_le, to_hex}
use ckb_dex.Bytes.Hex.{IsByte}
use ckb_dex.Bytes.Little.{length-to_le, take-append, drop-append, take-length, length-append}
use ckb_dex.Args.{Codec, DecodedDexOrderArgs, decode_buffer, side_sell, side_buy}

pub All-append : (xs ys : List ℕ) → All IsByte xs → All IsByte ys → All IsByte (xs ++ ys)
All-append [] ys h k = k
All-append (x ∷ xs) ys h k = (h.0, All-append xs ys h.1 k)

-- The six parts of the arguments, as a buffer.
unfoldable pub layout : ℕ → List ℕ → List ℕ → ℕ → ℕ → List ℕ
layout side maker udt amount price =
    1 ∷ side ∷ (maker ++ (udt ++ (to_le 16 amount ++ to_le 8 price)))

module _ (side : ℕ) (maker udt : List ℕ) (amount price : ℕ) (m32 : length maker ≡ 32)
    (u32 : length udt ≡ 32) where
  pub length-layout : length (layout side maker udt amount price) ≡ 90
  unfolding layout
  length-layout = omega (
    arith,
    length-append maker (udt ++ (to_le 16 amount ++ to_le 8 price)),
    length-append udt (to_le 16 amount ++ to_le 8 price),
    length-append (to_le 16 amount) (to_le 8 price),
    length-to_le 16 amount,
    length-to_le 8 price,
  )

  pub maker_part : subarray (layout side maker udt amount price) 2 34 ≡ maker
  unfolding layout
  maker_part = take-append 32 maker (udt ++ (to_le 16 amount ++ to_le 8 price)) m32

  pub udt_part : subarray (layout side maker udt amount price) 34 66 ≡ udt
  unfolding layout
  udt_part =
      ap (take 32) (drop-append 32 0 maker (udt ++ (to_le 16 amount ++ to_le 8 price)) m32)
      ∙ take-append 32 udt (to_le 16 amount ++ to_le 8 price) u32

  pub amount_part : subarray (layout side maker udt amount price) 66 82 ≡ to_le 16 amount
  unfolding layout
  amount_part =
      ap (take 16) (
        drop-append 32 32 maker (udt ++ (to_le 16 amount ++ to_le 8 price)) m32
        ∙ drop-append 32 0 udt (to_le 16 amount ++ to_le 8 price) u32)
      ∙ take-append 16 (to_le 16 amount) (to_le 8 price) (length-to_le 16 amount)

  pub price_part : subarray (layout side maker udt amount price) 82 90 ≡ to_le 8 price
  unfolding layout
  price_part =
      ap (take 8) (
        drop-append 32 48 maker (udt ++ (to_le 16 amount ++ to_le 8 price)) m32
        ∙ drop-append 32 16 udt (to_le 16 amount ++ to_le 8 price) u32
        ∙ drop-append 16 0 (to_le 16 amount) (to_le 8 price) (length-to_le 16 amount))
      ∙ take-length 8 (to_le 8 price) (length-to_le 8 price)

-- What a buffer of the right length, version and side byte is decoded to.
unfoldable pub decoded_of : Codec → ℕ → List ℕ → DecodedDexOrderArgs
decoded_of c side buf = record {
  maker_lock_hash = to_hex (subarray buf 2 34);
  direction = if eqb side side_sell then ask else bid;
  udt_type_hash = to_hex (subarray buf 34 66);
  token_amount = c.num_le_from_bytes (subarray buf 66 82);
  price_per_token = from_le (subarray buf 82 90);
}

abbrev pub IsSide : ℕ → Type 0
IsSide side = (side ≡ side_buy) ⊎ (side ≡ side_sell)

pub decode_buffer_lem :
    (c : Codec) (side : ℕ) (buf : List ℕ)
    → length buf ≡ 90
    → read_u8 buf 0 ≡ 1
    → read_u8 buf 1 ≡ side
    → IsSide side
    → decode_buffer c buf ≡ ok (decoded_of c side buf)
unfolding decode_buffer decoded_of
decode_buffer_lem c side buf len version at_one (inl buy) = ground arith
decode_buffer_lem c side buf len version at_one (inr sell) = ground arith
