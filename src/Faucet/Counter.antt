-- ===== src/Faucet/Counter.antt =====
-- The integer fields of a budget document of faucet/src/models: `$inc` adds to them or subtracts
-- from them without a bound, so they are integers.
use ckb_dex.Prelude.{ℕ, Bool, true, ◌+◌, ◌-◌, ltb, leb, if◌then◌else◌, arith, ◌≡◌}

-- `negsuc n` is `-(n + 1)`.
pub data ℤ : Type 0 where
  pos negsuc : (n : ℕ) → ℤ

-- `$inc` by a positive amount
unfoldable pub add : ℤ → ℕ → ℤ
add (pos m) n = pos (m + n)
add (negsuc m) n = if leb n m then negsuc (m - n) else pos (n - (m + 1))

-- `$inc` by a negative amount
unfoldable pub sub : ℤ → ℕ → ℤ
sub (pos m) n = if leb n m then pos (m - n) else negsuc (n - (m + 1))
sub (negsuc m) n = negsuc (m + n)

-- `$lt`
unfoldable pub is_below : ℤ → ℕ → Bool
is_below (pos m) n = ltb m n
is_below (negsuc m) n = true

-- `$lte`
unfoldable pub is_at_most : ℤ → ℕ → Bool
is_at_most (pos m) n = leb m n
is_at_most (negsuc m) n = true

pub sub-add : (z : ℤ) (n : ℕ) → sub (add z n) n ≡ z
unfolding add sub
sub-add (pos m) n = ground arith
sub-add (negsuc m) n = ground arith
