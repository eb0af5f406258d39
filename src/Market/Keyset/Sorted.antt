-- ===== src/Market/Keyset/Sorted.antt =====
-- The sorted rows of a query of backend/src/routes/market.ts, for an order in which the rows of
-- different ids are comparable.
use ckb_dex.Prelude.{
  Bool, true, false, List, [], ◌∷◌, filter, String, ◌≡◌, ◌==◌, All, arith, refl, Bool-cases, inl,
  inr, sym, ◌∙◌, ap,
}
use ckb_dex.Market.Keyset.{insert_by, sort_by}

-- What makes a comparison of rows an order on rows of different ids.
pub record IsOrder {A : Type 0} (id_of : A → String) (before : A → A → Bool) : Type 0 where
  pub irrefl : (a : A) → before a a ≡ false
  pub trans : (a b c : A) → before a b ≡ true → before b c ≡ true → before a c ≡ true
  pub total : (a b : A) → (id_of a == id_of b) ≡ false → before a b ≡ false → before b a ≡ true

module _ {A : Type 0} (before : A → A → Bool) where
  -- Each row is before all that follow it.
  abbrev pub IsSorted : List A → Type 0
  IsSorted [] = Unit
  IsSorted (a ∷ as') = All (λ b. before a b ≡ true) as' × IsSorted as'

pub All-filter :
    {A : Type 0} (P : A → Type 0) (p : A → Bool) (xs : List A) → All P xs → All P (filter p xs)
All-filter P p [] h = tt
All-filter P p (x ∷ xs) h = elim (Bool-cases (p x)) [
  | inl yes_x ↦ rw yes_x (h.0, All-filter P p xs h.1)
  | inr no_x ↦ rw no_x (All-filter P p xs h.1)
]

pub All-map :
    {A : Type 0} (P Q : A → Type 0) (xs : List A) → ((x : A) → P x → Q x) → All P xs → All Q xs
All-map P Q [] f h = tt
All-map P Q (x ∷ xs) f h = (f x h.0, All-map P Q xs f h.1)

module _ {A : Type 0} (id_of : A → String) (before : A → A → Bool) (o : IsOrder id_of before) where
  All-insert :
      (P : A → Type 0) (a : A) (xs : List A) → P a → All P xs → All P (insert_by before a xs)
  unfolding insert_by
  All-insert P a [] p h = (p, tt)
  All-insert P a (x ∷ xs) p h = elim (Bool-cases (before a x)) [
    | inl yes_x ↦ rw (yes_x, insert_by) (p, h)
    | inr no_x ↦ rw (no_x, insert_by) (h.0, All-insert P a xs p h.1)
  ]

  pub All-sort : (P : A → Type 0) (xs : List A) → All P xs → All P (sort_by before xs)
  unfolding sort_by
  All-sort P [] h = tt
  All-sort P (x ∷ xs) h = All-insert P x (sort_by before xs) h.0 (All-sort P xs h.1)

  -- The rows with another id.
  abbrev Apart : A → List A → Type 0
  Apart a xs = All (λ x. (id_of a == id_of x) ≡ false) xs

  insert-IsSorted :
      (a : A) (xs : List A)
      → Apart a xs
      → IsSorted before xs
      → IsSorted before (insert_by before a xs)
  unfolding insert_by
  insert-IsSorted a [] h s = (tt, tt)
  insert-IsSorted a (x ∷ xs) h s = elim (Bool-cases (before a x)) [
    | inl first ↦
        rw (first, insert_by)
          (
            (
              first,
              All-map (λ b. before x b ≡ true) (λ b. before a b ≡ true) xs
                  (λ b k. o.trans a x b first k) s.0,
            ),
            s,
          )
    | inr later ↦
        rw (later, insert_by)
          (
            All-insert (λ b. before x b ≡ true) a xs (o.total a x h.0 later) s.0,
            insert-IsSorted a xs h.1 s.1,
          )
  ]

  -- The ids of the rows are different.
  abbrev pub DistinctIds : List A → Type 0
  DistinctIds [] = Unit
  DistinctIds (a ∷ as') = Apart a as' × DistinctIds as'

  pub sort-IsSorted : (xs : List A) → DistinctIds xs → IsSorted before (sort_by before xs)
  unfolding sort_by
  sort-IsSorted [] d = tt
  sort-IsSorted (x ∷ xs) d =
      insert-IsSorted x (sort_by before xs) (All-sort (λ y. (id_of x == id_of y) ≡ false) xs d.0)
        (sort-IsSorted xs d.1)

  insert_front :
      (a : A) (xs : List A) → All (λ b. before a b ≡ true) xs → insert_by before a xs ≡ a ∷ xs
  unfolding insert_by
  insert_front a [] h = refl
  insert_front a (x ∷ xs) h = rw (h.0, insert_by) refl

  insert_later :
      (a x : A) (xs : List A)
      → before a x ≡ false
      → insert_by before a (x ∷ xs) ≡ x ∷ insert_by before a xs
  unfolding insert_by
  insert_later a x xs later = rw (later, insert_by) refl

  filter-insert_in :
      (p : A → Bool) (a : A) (xs : List A)
      → p a ≡ true
      → IsSorted before xs
      → filter p (insert_by before a xs) ≡ insert_by before a (filter p xs)
  unfolding insert_by
  filter-insert_in p a [] in_a s = rw in_a refl
  filter-insert_in p a (x ∷ xs) in_a s = elim (Bool-cases (before a x)) [
    | inl first ↦
        let all : All (λ b. before a b ≡ true) (x ∷ xs) = (
          first,
          All-map (λ b. before x b ≡ true) (λ b. before a b ≡ true) xs
              (λ b k. o.trans a x b first k) s.0,
        ) in
        rw (first, insert_by, in_a)
          (sym (insert_front a (filter p (x ∷ xs)) (All-filter _ p (x ∷ xs) all)))
    | inr later ↦ elim (Bool-cases (p x)) [
      | inl in_x ↦
          rw (later, insert_by, in_x)
            (ap (λ ys. x ∷ ys) (filter-insert_in p a xs in_a s.1)
              ∙ sym (insert_later a x (filter p xs) later))
      | inr out_x ↦ rw (later, insert_by, out_x) (filter-insert_in p a xs in_a s.1)
    ]
  ]

  filter-insert_out :
      (p : A → Bool) (a : A) (xs : List A)
      → p a ≡ false
      → filter p (insert_by before a xs) ≡ filter p xs
  unfolding insert_by
  filter-insert_out p a [] out_a = rw out_a refl
  filter-insert_out p a (x ∷ xs) out_a = elim (Bool-cases (before a x)) [
    | inl first ↦ rw (first, insert_by, out_a) refl
    | inr later ↦ rw (later, insert_by) (ground (arith, filter-insert_out p a xs out_a))
  ]

  -- Filtering before the sort and after it is the same.
  pub filter-sort_by :
      (p : A → Bool) (xs : List A)
      → DistinctIds xs
      → filter p (sort_by before xs) ≡ sort_by before (filter p xs)
  unfolding sort_by
  filter-sort_by p [] d = refl
  filter-sort_by p (x ∷ xs) d = elim (Bool-cases (p x)) [
    | inl in_x ↦
        let step = filter-insert_in p x (sort_by before xs) in_x (sort-IsSorted xs d.1) in
        rw in_x (step ∙ ap (insert_by before x) (filter-sort_by p xs d.1))
    | inr out_x ↦
        rw out_x (filter-insert_out p x (sort_by before xs) out_x ∙ filter-sort_by p xs d.1)
  ]
