-- ===== src/Args/Laws.antt =====
-- Round trip and agreement of the readers of the order lock's arguments.
use mathlib.Core.Path.{ap₂}
use ckb_dex.Prelude.{
  ℕ, ◌≡◌, ap, ◌∙◌, ◌⊎◌, inl, inr, List, ◌∷◌, ◌++◌, length, eqb, arith, if◌then◌else◌, All, ◌<◌, ◌^◌,
  String, Bool-cases, ◌||◌, refl, none,
}
use ckb_dex.Prelude.Result.{ok, Failure, err, app_error, other_error}
use ckb_dex.Order.{ask, bid}
use ckb_dex.Bytes.{subarray, read_u8, from_le, to_le, to_hex}
use ckb_dex.Bytes.Hex.{IsByte, to_buffer-to_hex}
use ckb_dex.Bytes.Little.{to_le-All_bytes, from_le-to_le}
use ckb_dex.Args.{
  Codec, DecodedDexOrderArgs, decode_buffer, side_sell, side_buy, dex_args_bytes,
  decode_dex_order_args, OrderTerms, read_order_terms, to_buffer,
}
use ckb_dex.Args.Layout.{
  All-append, layout, length-layout, maker_part, udt_part, amount_part, price_part, decoded_of,
  IsSide, decode_buffer_lem,
}

dex_args_bytes_lem :
    (c : Codec) (side : ℕ) (maker udt : List ℕ) (amount price : ℕ)
    → amount < 2 ^ 128
    → price < 2 ^ 64
    → dex_args_bytes c side maker udt amount price ≡ layout side maker udt amount price
unfolding dex_args_bytes layout
dex_args_bytes_lem c side maker udt amount price a p =
    ap₂ (λ x y. 1 ∷ side ∷ (maker ++ (udt ++ (x ++ y)))) (c.num_le_to_bytes_lem amount 16 a)
      (c.num_le_to_bytes_lem price 8 p)

layout-All_bytes :
    (side : ℕ) (maker udt : List ℕ) (amount price : ℕ)
    → IsSide side
    → All IsByte maker
    → All IsByte udt
    → All IsByte (layout side maker udt amount price)
unfolding layout
layout-All_bytes side maker udt amount price s m u =
    let tail = All-append maker (udt ++ (to_le 16 amount ++ to_le 8 price)) m (
      All-append udt (to_le 16 amount ++ to_le 8 price) u (
        All-append (to_le 16 amount) (to_le 8 price) (to_le-All_bytes 16 amount)
          (to_le-All_bytes 8 price))) in
    (omega arith, (omega arith, tail))

decoded_of-layout :
    (c : Codec) (side : ℕ) (maker udt : List ℕ) (amount price : ℕ)
    → length maker ≡ 32
    → length udt ≡ 32
    → amount < 2 ^ 128
    → price < 2 ^ 64
    → decoded_of c side (layout side maker udt amount price) ≡ record {
      maker_lock_hash = to_hex maker;
      direction = if eqb side side_sell then ask else bid;
      udt_type_hash = to_hex udt;
      token_amount = amount;
      price_per_token = price;
    }
unfolding decoded_of
decoded_of-layout c side maker udt amount price m u a p =
    let amount_read : c.num_le_from_bytes (subarray (layout side maker udt amount price) 66 82)
        ≡ amount =
      ap c.num_le_from_bytes (amount_part side maker udt amount price m u)
      ∙ c.num_le_from_bytes_lem (to_le 16 amount)
      ∙ from_le-to_le 16 amount a in
    let price_read : from_le (subarray (layout side maker udt amount price) 82 90) ≡ price =
      ap from_le (price_part side maker udt amount price m u) ∙ from_le-to_le 8 price p in
    λ i. record {
      maker_lock_hash = to_hex (maker_part side maker udt amount price m u i);
      direction = if eqb side side_sell then ask else bid;
      udt_type_hash = to_hex (udt_part side maker udt amount price m u i);
      token_amount = amount_read i;
      price_per_token = price_read i;
    }

-- Arguments written by the order builder are decoded to what they were written from: for a maker
-- lock hash and a token type hash of 32 bytes each, an amount below 2^128, a price below 2^64 and
-- a side byte of 0 or 1, the decoder returns the two hashes in hex, the amount, the price, and
-- the direction ASK exactly for the sell side.
pub decode-dex_args_bytes :
    (c : Codec) (side : ℕ) (maker udt : List ℕ) (amount price : ℕ)
    → (side ≡ side_buy) ⊎ (side ≡ side_sell)
    → (length maker ≡ 32) × All IsByte maker
    → (length udt ≡ 32) × All IsByte udt
    → amount < 2 ^ 128
    → price < 2 ^ 64
    → decode_dex_order_args c (c.hex_from (dex_args_bytes c side maker udt amount price))
      ≡ ok (record {
        maker_lock_hash = to_hex maker;
        direction = if eqb side side_sell then ask else bid;
        udt_type_hash = to_hex udt;
        token_amount = amount;
        price_per_token = price;
      })
unfolding decode_dex_order_args
decode-dex_args_bytes c side maker udt amount price s (m, mb) (u, ub) a p =
    let bytes = layout side maker udt amount price in
    let text : c.hex_from (dex_args_bytes c side maker udt amount price) ≡ to_hex bytes =
      c.hex_from_lem _ ∙ ap to_hex (dex_args_bytes_lem c side maker udt amount price a p) in
    let read : to_buffer (c.hex_from (dex_args_bytes c side maker udt amount price)) ≡ ok bytes =
      ap to_buffer text
      ∙ to_buffer-to_hex bytes (layout-All_bytes side maker udt amount price s mb ub) in
    rw read (
      decode_buffer_lem c side bytes (length-layout side maker udt amount price m u)
        (unfold layout in refl) (unfold layout in refl) s
      ∙ ap ok (decoded_of-layout c side maker udt amount price m u a p))

-- The terms that the settlement script reads agree with a decoded order.
pub record SameTerms (c : Codec) (d : DecodedDexOrderArgs) (t : OrderTerms c) : Type 0 where
  pub same_maker : t.maker_lock_hash ≡ d.maker_lock_hash
  pub same_token : t.xudt_type_hash ≡ d.udt_type_hash
  pub same_amount : t.amount ≡ d.token_amount
  pub same_price : t.price ≡ d.price_per_token
  pub same_side : d.direction ≡ (if eqb t.side side_sell then ask else bid)

-- What the settlement script reads of a buffer of the right length, version and side byte.
terms_of : (c : Codec) → List ℕ → OrderTerms c
terms_of c buf = record {
  side = read_u8 buf 1;
  maker_lock_hash = c.hex_from (subarray buf 2 34);
  xudt_type_hash = c.hex_from (subarray buf 34 66);
  amount = c.num_le_from_bytes (subarray buf 66 82);
  price = c.num_le_from_bytes (subarray buf 82 90);
}

terms_of-SameTerms :
    (c : Codec) (buf : List ℕ) → SameTerms c (decoded_of c (read_u8 buf 1) buf) (terms_of c buf)
unfolding decoded_of terms_of
terms_of-SameTerms c buf = record {
  same_maker = c.hex_from_lem (subarray buf 2 34);
  same_token = c.hex_from_lem (subarray buf 34 66);
  same_amount = refl;
  same_price = c.num_le_from_bytes_lem (subarray buf 82 90);
  same_side = refl;
}

-- The decoder of the backend and the reader of the settlement script agree on every text that is
-- valid hex: both succeed, with the same terms, or both fail.
pub readers_agree :
    (c : Codec) (args : String) (buf : List ℕ)
    → to_buffer args ≡ ok buf
    → ((d : DecodedDexOrderArgs) × (t : OrderTerms c) × (decode_dex_order_args c args ≡ ok d)
        × (read_order_terms c args ≡ ok t)
        × SameTerms c d t)
      ⊎ ((f g : Failure) × (decode_dex_order_args c args ≡ err f)
          × (read_order_terms c args ≡ err g))
unfolding decode_dex_order_args decode_buffer read_order_terms decoded_of terms_of
readers_agree c args buf h =
    let same : c.bytes_from args ≡ buf = c.bytes_from_lem args buf h in
    elim (Bool-cases (eqb (length buf) 90)) [
      | inr short ↦ inr (
        app_error 400 "dex order args must be 90 bytes" none,
        other_error "Expected 90-byte DEX args",
        rw (h, short),
        rw (same, short),
      )
      | inl len ↦ elim (Bool-cases (eqb (read_u8 buf 0) 1)) [
        | inr other ↦ inr (
          app_error 400 "unsupported dex order args version" none,
          other_error "Unsupported DEX order version",
          rw (h, len, other),
          rw (same, len, other),
        )
        | inl version ↦ elim (Bool-cases (eqb (read_u8 buf 1) 0 || eqb (read_u8 buf 1) 1)) [
          | inr unknown ↦ inr (
            app_error 400 "unknown order side byte" none,
            other_error "Unknown DEX order side",
            rw (h, len, version, unknown),
            rw (same, len, version, unknown),
          )
          | inl known ↦ inl (
            decoded_of c (read_u8 buf 1) buf,
            terms_of c buf,
            rw (h, len, version, known),
            rw (same, len, version, known),
            terms_of-SameTerms c buf,
          )
        ]
      ]
    ]
