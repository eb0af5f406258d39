-- ===== src/Bytes.antt =====
-- Buffers as lists of bytes, and their hex texts: `toBuffer`, `toHex` and `byteLength` of
-- backend/src/utils/shared.ts, the reads of Node's Buffer that the services use, and `sameHex` of
-- backend/src/services/event-verification.ts.
pub mod Hex
pub mod Little
use Prim.Native.Char.{Char, code}
use Prim.Native.String
use ckb_dex.Prelude.{
  ℕ, ◌+◌, ◌-◌, ◌*◌, ◌/◌, ◌%◌, ◌<◌, String, Bool, true, false, ◌&&◌, Option, none, some, List, [],
  ◌∷◌, map, eqb, leb, take, drop, zero, suc, if◌then◌else◌,
}
use ckb_dex.Prelude.Result.{Result, ok, err, app_error}

-- buf.subarray(start, end)
abbrev pub subarray : List ℕ → ℕ → ℕ → List ℕ
subarray buf start end = take (end - start) (drop start buf)

-- buf.readUInt8(offset), for an offset within the buffer
abbrev pub read_u8 : List ℕ → ℕ → ℕ
read_u8 [] offset = 0
read_u8 (b ∷ buf) zero = b
read_u8 (b ∷ buf) (suc offset) = read_u8 buf offset

-- The number that little-endian bytes stand for, and `width` bytes of a number.
unfoldable pub from_le : List ℕ → ℕ
from_le [] = 0
from_le (b ∷ bs) = b + 256 * from_le bs

unfoldable pub to_le : ℕ → ℕ → List ℕ
to_le zero n = []
to_le (suc width) n = (n % 256) ∷ to_le width (n / 256)

-- The value of a hex digit of either case.
unfoldable pub hex_value : Char → Option ℕ
hex_value c =
    if leb b'0' (code c) && leb (code c) b'9'
    then some (code c - b'0')
    else if leb b'a' (code c) && leb (code c) b'f'
    then some (code c - 87)
    else if leb b'A' (code c) && leb (code c) b'F'
    then some (code c - 55)
    else none

abbrev pub hex_pair : Option ℕ → Option ℕ → Option (List ℕ) → Option (List ℕ)
hex_pair (some high) (some low) (some bytes) = some ((high * 16 + low) ∷ bytes)
hex_pair _ _ _ = none

-- `(?:[0-9a-fA-F]{2})*`, read to its end
unfoldable pub hex_pairs : String → Option (List ℕ)
hex_pairs String.[] = some []
hex_pairs (String.◌∷◌ a String.[]) = none
hex_pairs (String.◌∷◌ a (String.◌∷◌ b s)) = hex_pair (hex_value a) (hex_value b) (hex_pairs s)

abbrev pub after_prefix : String → Option (List ℕ)
after_prefix (String.◌∷◌ a (String.◌∷◌ b s)) =
    if eqb (code a) b'0' && eqb (code b) b'x' then hex_pairs s else none
after_prefix _ = none

abbrev pub valid_hex : Option (List ℕ) → Result (List ℕ)
valid_hex none = err (app_error 400 "not a valid 0x-prefixed even-length hex string" none)
valid_hex (some bytes) = ok bytes

unfoldable pub to_buffer : String → Result (List ℕ)
to_buffer hex = valid_hex (after_prefix hex)

abbrev hex_alphabet : List Char
hex_alphabet =
    "0" ∷ "1" ∷ "2" ∷ "3" ∷ "4" ∷ "5" ∷ "6" ∷ "7" ∷ "8" ∷ "9" ∷ "a" ∷ "b" ∷ "c" ∷ "d" ∷ "e" ∷ "f"
    ∷ []

letter_at : List Char → ℕ → Char
letter_at [] d = "0"
letter_at (c ∷ cs) zero = c
letter_at (c ∷ cs) (suc d) = letter_at cs d

unfoldable pub hex_digit : ℕ → Char
unfolding letter_at
hex_digit d = letter_at hex_alphabet d

unfoldable pub hex_text : List ℕ → String
hex_text [] = String.[]
hex_text (b ∷ bs) = String.◌∷◌ (hex_digit (b / 16)) (String.◌∷◌ (hex_digit (b % 16)) (hex_text bs))

unfoldable pub to_hex : List ℕ → String
to_hex bytes = String.◌∷◌ "0" (String.◌∷◌ "x" (hex_text bytes))

abbrev codes : String → List ℕ
codes String.[] = []
codes (String.◌∷◌ c s) = code c ∷ codes s

lower : ℕ → ℕ
lower c = if leb b'A' c && leb c b'Z' then c + 32 else c

same_codes : List ℕ → List ℕ → Bool
same_codes [] [] = true
same_codes (a ∷ as') (b ∷ bs) = eqb a b && same_codes as' bs
same_codes _ _ = false

-- `left.toLowerCase() === right.toLowerCase()`, on the ASCII texts that hex strings are
unfoldable pub same_lower : String → String → Bool
unfolding lower same_codes
same_lower left right = same_codes (map lower (codes left)) (map lower (codes right))

unfoldable pub same_hex : Option String → Option String → Bool
same_hex (some left) (some right) = same_lower left right
same_hex _ _ = false
