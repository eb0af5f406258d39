-- ===== src/Bytes/Hex.antt =====
-- Reading back the hex text of a buffer (backend/src/utils/shared.ts).
use ckb_dex.Prelude.{
  ℕ, zero, suc, ◌/◌, ◌%◌, ◌<◌, ◌≡◌, refl, ap, none, some, List, [], ◌∷◌, arith, All, Bool, true,
  false, eqb, if◌then◌else◌, Bool-cases,
}
use ckb_dex.Prelude.Result.{ok}
use ckb_dex.Bytes.{to_buffer, to_hex, hex_text, hex_pairs, hex_value, hex_digit}

abbrev pub IsByte : ℕ → Type 0
IsByte b = b < 256

-- Whether a digit is read back from its letter.
reads_back : ℕ → Bool
reads_back d = elim (hex_value (hex_digit d)) [ none ↦ false | some v ↦ eqb v d ]

-- The digits below a bound that are read back as something else.
misread_below : ℕ → List ℕ
misread_below zero = []
misread_below (suc d) = let others = misread_below d in if reads_back d then others else d ∷ others

none_misread : misread_below 16 ≡ []
unfolding misread_below reads_back hex_value hex_digit
none_misread = refl

reads_back-below : (d bound : ℕ) → misread_below bound ≡ [] → d < bound → reads_back d ≡ true
unfolding misread_below
reads_back-below d zero clean below = absurd (omega arith)
reads_back-below d (suc last) clean below =
    ground (arith, reads_back-below d last, Bool-cases (reads_back last))

reads_back→eq : (d : ℕ) → reads_back d ≡ true → hex_value (hex_digit d) ≡ some d
unfolding reads_back
reads_back→eq d h = ground arith

hex_value-hex_digit : (d : ℕ) → d < 16 → hex_value (hex_digit d) ≡ some d
hex_value-hex_digit d h = reads_back→eq d (reads_back-below d 16 none_misread h)

hex_pairs-hex_text : (bytes : List ℕ) → All IsByte bytes → hex_pairs (hex_text bytes) ≡ some bytes
unfolding hex_pairs hex_text
hex_pairs-hex_text [] h = refl
hex_pairs-hex_text (b ∷ bs) h =
    rw
      (
        hex_value-hex_digit (b / 16) (omega arith),
        hex_value-hex_digit (b % 16) (omega arith),
        hex_pairs-hex_text bs h.1,
      )
      (ap (λ n. some (n ∷ bs)) (omega arith))

-- Reading the hex text of a buffer gives the buffer back.
pub to_buffer-to_hex : (bytes : List ℕ) → All IsByte bytes → to_buffer (to_hex bytes) ≡ ok bytes
unfolding to_buffer to_hex
to_buffer-to_hex bytes h = rw (hex_pairs-hex_text bytes h)
