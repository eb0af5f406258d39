-- ===== src/Market/Keyset/Cuts.antt =====
-- Cutting sorted rows into pages: lemmas on lists for the listings of
-- backend/src/routes/market.ts.
use ckb_dex.Prelude.{
  ℕ, zero, suc, Bool, true, false, List, [], ◌∷◌, ◌++◌, some, filter, take, length, ◌≤◌, ◌<◌,
  String, ◌≡◌, All, arith, refl, Bool-cases, inl, inr, ap, ◌&&◌, ◌==◌,
}
use ckb_dex.Market.Keyset.{last_of}
use ckb_dex.Market.Keyset.Sorted.{IsOrder, IsSorted, DistinctIds, All-filter}

pub filter_and :
    {A : Type 0} (p q : A → Bool) (xs : List A)
    → filter (λ x. p x && q x) xs ≡ filter q (filter p xs)
filter_and p q [] = refl
filter_and p q (x ∷ xs) = ground (arith, filter_and p q xs)

pub filter_cong :
    {A : Type 0} (p q : A → Bool) (xs : List A)
    → All (λ x. p x ≡ q x) xs
    → filter p xs ≡ filter q xs
filter_cong p q [] h = refl
filter_cong p q (x ∷ xs) h = ground (arith, h.0, filter_cong p q xs h.1)

filter_every :
    {A : Type 0} (p : A → Bool) (xs : List A) → All (λ x. p x ≡ true) xs → filter p xs ≡ xs
filter_every p [] h = refl
filter_every p (x ∷ xs) h = ground (arith, h.0, filter_every p xs h.1)

pub All-mid :
    {A : Type 0} (P : A → Type 0) (front : List A) (a : A) (rest : List A)
    → All P (front ++ a ∷ rest)
    → P a
All-mid P [] a rest h = h.0
All-mid P (x ∷ xs) a rest h = All-mid P xs a rest h.1

-- The rows past a row of the sorted rows are those that follow it.
pub filter_suffix :
    {A : Type 0} (id_of : A → String) (before : A → A → Bool)
    → IsOrder id_of before
    → (front : List A) (a : A) (rest : List A) → IsSorted before (front ++ a ∷ rest)
    → filter (before a) (front ++ a ∷ rest) ≡ rest
filter_suffix id_of before o [] a rest s =
    ground (arith, o.irrefl a, filter_every (before a) rest s.0)
filter_suffix id_of before o (x ∷ xs) a rest s =
    let x_first = All-mid (λ b. before x b ≡ true) xs a rest s.0 in
    ground (arith, o.irrefl x, o.trans x a x x_first, filter_suffix id_of before o xs a rest s.1)

pub DistinctIds-filter :
    {A : Type 0} (id_of : A → String) (before : A → A → Bool) (o : IsOrder id_of before)
    (p : A → Bool) (xs : List A)
    → DistinctIds id_of before o xs
    → DistinctIds id_of before o (filter p xs)
DistinctIds-filter id_of before o p [] d = tt
DistinctIds-filter id_of before o p (x ∷ xs) d = elim (Bool-cases (p x)) [
  | inl in_x ↦ rw in_x (
    All-filter (λ y. (id_of x == id_of y) ≡ false) p xs d.0,
    DistinctIds-filter id_of before o p xs d.1,
  )
  | inr out_x ↦ rw out_x (DistinctIds-filter id_of before o p xs d.1)
]

pub take_short : {A : Type 0} (n : ℕ) (xs : List A) → length xs ≤ n → take n xs ≡ xs
take_short zero [] h = refl
take_short zero (x ∷ xs) h = ground arith
take_short (suc n) [] h = refl
take_short (suc n) (x ∷ xs) h = ground (arith, take_short n xs)

pub take-take : {A : Type 0} (n : ℕ) (xs : List A) → take n (take (suc n) xs) ≡ take n xs
take-take zero xs = refl
take-take (suc n) [] = refl
take-take (suc n) (x ∷ xs) = ap (λ ys. x ∷ ys) (take-take n xs)

pub length-take_more :
    {A : Type 0} (n : ℕ) (xs : List A) → n < length xs → length (take (suc n) xs) ≡ suc n
length-take_more zero [] h = ground arith
length-take_more zero (x ∷ xs) h = refl
length-take_more (suc n) [] h = ground arith
length-take_more (suc n) (x ∷ xs) h = ap suc (length-take_more n xs (ground arith))

last_of_cons :
    {A : Type 0} (x a : A) (xs : List A) → last_of xs ≡ some a → last_of (x ∷ xs) ≡ some a
unfolding last_of
last_of_cons x a [] h = cc
last_of_cons x a (y ∷ ys) h = h

-- The last row of a page that is not the last page.
pub cut :
    {A : Type 0} (n : ℕ) (xs : List A)
    → suc n < length xs
    → (front : List A) × (a : A) × (rest : List A) × (take (suc n) xs ≡ front ++ a ∷ [])
      × (xs ≡ front ++ a ∷ rest)
      × (last_of (take (suc n) xs) ≡ some a)
unfolding last_of
cut n [] h = ground arith
cut zero (x ∷ xs) h = ([], x, xs, refl, refl, refl)
cut (suc n) (x ∷ xs) h =
    let (front, a, rest, taken, whole, last) = cut n xs (ground arith) in
    (
      x ∷ front,
      a,
      rest,
      ap (λ ys. x ∷ ys) taken,
      ap (λ ys. x ∷ ys) whole,
      last_of_cons x a (take (suc n) xs) last,
    )

pub cut_at :
    {A : Type 0} (n : ℕ) (xs : List A)
    → 1 ≤ n
    → n < length xs
    → (front : List A) × (a : A) × (rest : List A) × (take n xs ≡ front ++ a ∷ [])
      × (xs ≡ front ++ a ∷ rest)
      × (last_of (front ++ a ∷ []) ≡ some a)
cut_at zero xs one h = ground arith
cut_at (suc n) xs one h =
    let (front, a, rest, taken, whole, last) = cut n xs h in
    (front, a, rest, taken, whole, rw taken at last)

pub append_assoc : {A : Type 0} (xs ys zs : List A) → (xs ++ ys) ++ zs ≡ xs ++ (ys ++ zs)
append_assoc [] ys zs = refl
append_assoc (x ∷ xs) ys zs = ap (λ l. x ∷ l) (append_assoc xs ys zs)

pub length_append_cons :
    {A : Type 0} (xs : List A) (a : A) (ys : List A) → length ys < length (xs ++ a ∷ ys)
length_append_cons [] a ys = ground arith
length_append_cons (x ∷ xs) a ys = ground (arith, length_append_cons xs a ys)

pub All-every : {A : Type 0} (P : A → Type 0) (xs : List A) → ((x : A) → P x) → All P xs
All-every P [] f = tt
All-every P (x ∷ xs) f = (f x, All-every P xs f)
