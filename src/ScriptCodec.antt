-- ===== src/ScriptCodec.antt =====
-- backend/src/utils/shared.ts: the binary form of a script, and the arguments of the first order
-- lock, which hold the owner's script, the order type and the price.
pub mod Laws
use Prim.Native.String
use ckb_dex.Prelude.Result.{◌>>=◌, ◌>>◌, Result, err, other_error, ok, ensure}
use ckb_dex.Prelude.{
  ℕ, Option, String, List, Bool, if◌then◌else◌, suc, eqb, some, ◌+◌, ◌||◌, length, ◌++◌, ◌∷◌, none,
  ltb, leb, ◌^◌, [], ◌&&◌,
}
use ckb_dex.Order.{HashType, Script, data0, type1, data1, data2}
use ckb_dex.Bytes.{to_le, to_buffer, to_hex, read_u8, from_le, subarray}

-- HASH_TYPE_TO_BYTE
abbrev pub hash_type_to_byte : HashType → ℕ
hash_type_to_byte data0 = 0
hash_type_to_byte type1 = 1
hash_type_to_byte data1 = 2
hash_type_to_byte data2 = 4

-- BYTE_TO_HASH_TYPE
abbrev pub byte_to_hash_type : ℕ → Option HashType
byte_to_hash_type b =
    if eqb b 0
    then some data0
    else if eqb b 1
    then some type1
    else if eqb b 2
    then some data1
    else if eqb b 4
    then some data2
    else none

unfoldable pub text_length : String → ℕ
text_length String.[] = 0
text_length (String.◌∷◌ c s) = suc (text_length s)

-- What the writes of `encodeScript` leave in the buffer, before the bytes of `after`.
unfoldable pub script_bytes : List ℕ → ℕ → List ℕ → List ℕ → List ℕ
script_bytes code_hash hash_type args after =
    to_le 4 (53 + length args)
    ++ (to_le 4 16
        ++ (to_le 4 48
            ++ (to_le 4 49
                ++ (code_hash ++ (hash_type ∷ (to_le 4 (length args) ++ (args ++ after)))))))

-- `byteLength` is 32 for a text of 66 characters; a write of 32 bits throws out of their range.
unfoldable pub encode_script : Script → Result (List ℕ)
encode_script s = do
  ensure (eqb (text_length s.code_hash) 66) (other_error "codeHash must be 32 bytes")
  args ← to_buffer s.args
  ensure (ltb (53 + length args) (2 ^ 32)) (other_error "value out of range")
  code_hash ← to_buffer s.code_hash
  ok (script_bytes code_hash (hash_type_to_byte s.hash_type) args [])

unfoldable pub hash_type_at : ℕ → Result HashType
hash_type_at b = elim (byte_to_hash_type b) [
  | none ↦ err (other_error "unknown hash_type byte")
  | some t ↦ ok t
]

-- The script at `offset`, and where it ends.
unfoldable pub decode_script : List ℕ → ℕ → Result (Script × ℕ)
decode_script buf offset = do
  ensure (leb (offset + 53) (length buf)) (other_error "script truncated")
  let full = from_le (subarray buf offset (offset + 4))
  ensure (leb 53 full && leb (offset + full) (length buf))
      (other_error "script overruns the buffer")
  hash_type ← hash_type_at (read_u8 buf (offset + 48))
  let args_len = from_le (subarray buf (offset + 49) (offset + 53))
  ensure (eqb (53 + args_len) full) (other_error "script args length disagrees with full_size")
  ok (
    record {
      code_hash = to_hex (subarray buf (offset + 16) (offset + 48));
      hash_type = hash_type;
      args = to_hex (subarray buf (offset + 53) (offset + full));
    },
    offset + full,
  )

-- DexLockArgs; the order type is its number, ASK 0 and BID 1.
pub record DexLockArgs : Type 0 where
  pub owner_lock : Script
  pub order_type : ℕ
  pub price : ℕ

-- MAX_U64
abbrev pub max_u64 : ℕ
max_u64 = 18446744073709551615

abbrev pub is_order_type : ℕ → Bool
is_order_type t = eqb t 0 || eqb t 1

unfoldable pub encode_dex_lock_script_args : DexLockArgs → Result String
encode_dex_lock_script_args a = do
  ensure (ltb 0 a.price) (other_error "price must be positive")
  ensure (leb a.price max_u64) (other_error "price exceeds u64")
  ensure (is_order_type a.order_type) (other_error "unknown order type")
  lock ← encode_script a.owner_lock
  ok (to_hex (lock ++ (a.order_type ∷ to_le 8 a.price)))

unfoldable pub decode_dex_lock_buffer : List ℕ → Result DexLockArgs
decode_dex_lock_buffer buf = do
  (owner_lock, end) ← decode_script buf 0
  ensure (eqb (length buf) (end + 9)) (other_error "dex args have the wrong length")
  ensure (is_order_type (read_u8 buf end)) (other_error "unknown order type byte")
  ok (record {
    owner_lock = owner_lock;
    order_type = read_u8 buf end;
    price = from_le (subarray buf (end + 1) (end + 9));
  })

unfoldable pub decode_dex_lock_script_args : String → Result DexLockArgs
decode_dex_lock_script_args hex = do buf ← to_buffer hex; decode_dex_lock_buffer buf

-- `ownerSearchPrefix`
unfoldable pub owner_search_prefix : Script → Result String
owner_search_prefix owner_lock = do bytes ← encode_script owner_lock; ok (to_hex bytes)
