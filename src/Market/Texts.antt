-- ===== src/Market/Texts.antt =====
-- The order in which the database sorts texts: by their bytes in UTF-8.
use Prim.Native.Nat.{Ordering}
use Prim.Native.String.{compare}
use Prim.Native.String.compare
use text.Mathlib.TextEquality.{path_by_compare, eq_iff}
use text.Mathlib.TextPositions.{compare_refl}
use ckb_dex.Prelude.{String, Bool, true, false, ◌≡◌, arith, refl, ◌==◌}

abbrev is_lt : Ordering → Bool
is_lt Ordering.lt = true
is_lt _ = false

-- `$lt` on texts
abbrev pub text_below : String → String → Bool
text_below s t = is_lt (compare s t)

below_trans :
    (s t u : String)
    → compare s t ≡ Ordering.lt
    → compare t u ≡ Ordering.lt
    → compare s u ≡ Ordering.lt
below_trans String.[] String.[] u h k = ground (arith, compare.nil-nil)
below_trans String.[] (String.◌∷◌ d t) String.[] h k = ground (arith, compare.cons-nil d t)
below_trans String.[] (String.◌∷◌ d t) (String.◌∷◌ e u) h k = compare.nil-cons e u
below_trans (String.◌∷◌ c s) String.[] u h k = ground (arith, compare.cons-nil c s)
below_trans (String.◌∷◌ c s) (String.◌∷◌ d t) String.[] h k = ground (arith, compare.cons-nil d t)
below_trans (String.◌∷◌ c s) (String.◌∷◌ d t) (String.◌∷◌ e u) h k = ground (
  arith,
  compare.cons-cons c d s t,
  compare.cons-cons d e t u,
  compare.cons-cons c e s u,
  below_trans s t u,
)

below_flip : (s t : String) → compare s t ≡ Ordering.gt → compare t s ≡ Ordering.lt
below_flip String.[] String.[] h = ground (arith, compare.nil-nil)
below_flip String.[] (String.◌∷◌ d t) h = ground (arith, compare.nil-cons d t)
below_flip (String.◌∷◌ c s) String.[] h = compare.nil-cons c s
below_flip (String.◌∷◌ c s) (String.◌∷◌ d t) h =
    ground (arith, compare.cons-cons c d s t, compare.cons-cons d c t s, below_flip s t)

pub text_below_trans :
    (s t u : String) → text_below s t ≡ true → text_below t u ≡ true → text_below s u ≡ true
text_below_trans s t u h k = ground (arith, below_trans s t u)

pub text_below_irrefl : (s : String) → text_below s s ≡ false
text_below_irrefl s = rw (compare_refl s) refl

-- Of two different texts one is below the other.
pub text_below_total :
    (s t : String) → (s == t) ≡ false → text_below s t ≡ false → text_below t s ≡ true
text_below_total s t h k = ground (arith, below_flip s t, path_by_compare s t, eq_iff s t)
