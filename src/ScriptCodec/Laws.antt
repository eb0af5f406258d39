-- ===== src/ScriptCodec/Laws.antt =====
-- Round trip of the scripts of backend/src/utils/shared.ts.
use native.Mathlib.Nat.{zero-add}
use ckb_dex.Prelude.{
  ℕ, List, length, ◌≡◌, ◌∷◌, ◌++◌, ◌+◌, refl, arith, ap, ◌-◌, [], take, ◌∙◌, suc, ◌<◌, zero, ◌≤◌,
  ◌^◌, leb, true, ◌&&◌, eqb,
}
use ckb_dex.ScriptCodec.{script_bytes, decode_script, hash_type_to_byte, hash_type_at}
use ckb_dex.Order.{data0, type1, data1, data2, HashType}
use ckb_dex.Bytes.{to_le, read_u8, subarray, from_le, to_hex}
use ckb_dex.Prelude.Result.{ok}
use ckb_dex.Bytes.Little.{take-append, drop-append, length-append, from_le-to_le}
use mathlib.Core.Path.{ap₂}

read_u8-append :
    (n m : ℕ) (xs ys : List ℕ) → length xs ≡ n → read_u8 (xs ++ ys) (n + m) ≡ read_u8 ys m
read_u8-append zero m [] ys h = rw (zero-add) refl
read_u8-append zero m (x ∷ xs) ys h = absurd (omega arith)
read_u8-append (suc n) m [] ys h = absurd (omega arith)
read_u8-append (suc n) m (x ∷ xs) ys h =
    let e : suc n + m ≡ suc (n + m) = omega arith in rw e (read_u8-append n m xs ys (omega arith))

hash_type_at_lem : (t : HashType) → hash_type_at (hash_type_to_byte t) ≡ ok t
unfolding hash_type_at
hash_type_at_lem data0 = refl
hash_type_at_lem type1 = refl
hash_type_at_lem data1 = refl
hash_type_at_lem data2 = refl

module _ (h : List ℕ) (t : ℕ) (a after : List ℕ) where
  abbrev encoded : List ℕ
  encoded = script_bytes h t a after

  abbrev tail : List ℕ
  tail = t ∷ (to_le 4 (length a) ++ (a ++ after))

  full_size_lem : subarray encoded 0 4 ≡ to_le 4 (53 + length a)
  unfolding script_bytes to_le
  full_size_lem = refl

  code_hash_lem : length h ≡ 32 → subarray encoded 16 48 ≡ h
  unfolding script_bytes to_le
  code_hash_lem l = take-append 32 h tail l

  hash_type_lem : length h ≡ 32 → read_u8 encoded 48 ≡ t
  unfolding script_bytes to_le
  hash_type_lem l = read_u8-append 32 0 h tail l

  args_len_lem : length h ≡ 32 → subarray encoded 49 53 ≡ to_le 4 (length a)
  unfolding script_bytes to_le
  args_len_lem l = ap (take 4) (drop-append 32 1 h tail l)

  args_lem : length h ≡ 32 → subarray encoded 53 (53 + length a) ≡ a
  unfolding script_bytes to_le
  args_lem l =
      let width : 53 + length a - 53 ≡ length a = omega arith in
      rw width
        (ap (take (length a)) (drop-append 32 5 h tail l) ∙ take-append (length a) a after refl)

  length_lem : length h ≡ 32 → length encoded ≡ 53 + length a + length after
  unfolding script_bytes to_le
  length_lem l = omega (arith, length-append h tail, length-append a after)

-- A buffer with the given fields is decoded to the script that they describe.
fields_lem :
    (buf : List ℕ) (n : ℕ) (t : HashType)
    → from_le (subarray buf 0 4) ≡ 53 + n
    → from_le (subarray buf 49 53) ≡ n
    → hash_type_at (read_u8 buf 48) ≡ ok t
    → 53 + n ≤ length buf
    → decode_script buf 0
      ≡ ok (
        record {
          code_hash = to_hex (subarray buf 16 48);
          hash_type = t;
          args = to_hex (subarray buf 53 (53 + n));
        },
        53 + n,
      )
unfolding decode_script
fields_lem buf n t full len kind fits =
    let room : leb 53 (length buf) ≡ true = ground arith in
    let whole : (leb 53 (53 + n) && leb (53 + n) (length buf)) ≡ true = ground arith in
    let agrees : eqb (53 + n) (53 + n) ≡ true = ground arith in
    let end : 0 + (53 + n) ≡ 53 + n = omega arith in
    rw (room, full, end, whole, kind, len, agrees) refl

-- Decoding the bytes of a script gives back its code hash, hash type and arguments, and the place
-- where they end, whatever bytes follow. The code hash has 32 bytes, and the size fits 32 bits.
pub decode_script-script_bytes :
    (code_hash : List ℕ) (t : HashType) (args after : List ℕ)
    → length code_hash ≡ 32
    → 53 + length args < 2 ^ 32
    → decode_script (script_bytes code_hash (hash_type_to_byte t) args after) 0
      ≡ ok (
        record { code_hash = to_hex code_hash; hash_type = t; args = to_hex args },
        53 + length args,
      )
decode_script-script_bytes h t a after l small =
    let b = hash_type_to_byte t in
    fields_lem (script_bytes h b a after) (length a) t
      (ap from_le (full_size_lem h b a after) ∙ from_le-to_le 4 (53 + length a) small)
      (ap from_le (args_len_lem h b a after l) ∙ from_le-to_le 4 (length a) (omega arith))
      (ap hash_type_at (hash_type_lem h b a after l) ∙ hash_type_at_lem t)
      (omega (arith, length_lem h b a after l))
    ∙ ap₂
        (λ x y. ok (record { code_hash = to_hex x; hash_type = t; args = to_hex y }, 53 + length a))
        (code_hash_lem h b a after l) (args_lem h b a after l)
