-- ===== src/Bytes/Little.antt =====
-- Little-endian numbers and slices of concatenated buffers.
use native.Mathlib.Nat.{pow-suc, zero-add}
use ckb_dex.Prelude.{
  ℕ, zero, suc, ◌+◌, ◌/◌, ◌^◌, ◌<◌, ◌≡◌, refl, ap, List, [], ◌∷◌, ◌++◌, arith, All, take, drop,
  length,
}
use ckb_dex.Bytes.{from_le, to_le}
use ckb_dex.Bytes.Hex.{IsByte}

pub from_le-to_le : (width n : ℕ) → n < 256 ^ width → from_le (to_le width n) ≡ n
unfolding from_le to_le
from_le-to_le zero n h = omega arith
from_le-to_le (suc width) n h =
    let bound : n / 256 < 256 ^ width = omega (arith, pow-suc 256 width) in
    omega (arith, from_le-to_le width (n / 256) bound)

pub length-to_le : (width n : ℕ) → length (to_le width n) ≡ width
unfolding to_le
length-to_le zero n = refl
length-to_le (suc width) n = ap suc (length-to_le width (n / 256))

pub to_le-All_bytes : (width n : ℕ) → All IsByte (to_le width n)
unfolding to_le
to_le-All_bytes zero n = tt
to_le-All_bytes (suc width) n = (omega arith, to_le-All_bytes width (n / 256))

pub take-append : (n : ℕ) (xs ys : List ℕ) → length xs ≡ n → take n (xs ++ ys) ≡ xs
take-append zero [] ys h = refl
take-append zero (x ∷ xs) ys h = absurd (omega arith)
take-append (suc n) [] ys h = absurd (omega arith)
take-append (suc n) (x ∷ xs) ys h = ap (λ l. x ∷ l) (take-append n xs ys (omega arith))

pub drop-append : (n m : ℕ) (xs ys : List ℕ) → length xs ≡ n → drop (n + m) (xs ++ ys) ≡ drop m ys
drop-append zero m [] ys h = rw (zero-add)
drop-append zero m (x ∷ xs) ys h = absurd (omega arith)
drop-append (suc n) m [] ys h = absurd (omega arith)
drop-append (suc n) m (x ∷ xs) ys h =
    let e : suc n + m ≡ suc (n + m) = omega arith in rw e (drop-append n m xs ys (omega arith))

pub take-length : (n : ℕ) (xs : List ℕ) → length xs ≡ n → take n xs ≡ xs
take-length zero [] h = refl
take-length zero (x ∷ xs) h = absurd (omega arith)
take-length (suc n) [] h = absurd (omega arith)
take-length (suc n) (x ∷ xs) h = ap (λ l. x ∷ l) (take-length n xs (omega arith))

pub length-append : (xs ys : List ℕ) → length (xs ++ ys) ≡ length xs + length ys
length-append [] ys = omega arith
length-append (x ∷ xs) ys = omega (arith, length-append xs ys)
