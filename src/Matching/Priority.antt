-- ===== src/Matching/Priority.antt =====
-- Price-time priority: what `sort` of backend/src/bot/index.ts returns.
use mathlib.Core.List.{Perm}
use mathlib.Core.List.Perm
use ckb_dex.Prelude.{
  ◌<◌, ◌≤◌, ◌≡◌, ◌⊎◌, List, [], ◌∷◌, All, arith, false, true, Bool-cases, inl, inr, refl,
}
use ckb_dex.Order.{Order, OrderDirection, ask, bid}
use ckb_dex.Matching.{compare_orders, compare_prices, is_gt, insert_sorted, sort}

-- Earlier on the chain, or at the same place.
abbrev pub NoLater : Order → Order → Type 0
NoLater a b =
    (a.block_number < b.block_number)
    ⊎ ((a.block_number ≡ b.block_number) × (a.tx_index ≤ b.tx_index))

-- Asks before bids; the lower ask and the higher bid first; ties by the place on the chain.
abbrev pub PriorityBy : OrderDirection → OrderDirection → Order → Order → Type 0
PriorityBy ask bid a b = Unit
PriorityBy bid ask a b = ⊥
PriorityBy ask ask a b =
    (a.price_per_token < b.price_per_token)
    ⊎ ((a.price_per_token ≡ b.price_per_token) × NoLater a b)
PriorityBy bid bid a b =
    (b.price_per_token < a.price_per_token)
    ⊎ ((a.price_per_token ≡ b.price_per_token) × NoLater a b)

abbrev pub HasPriority : Order → Order → Type 0
HasPriority a b = PriorityBy a.direction b.direction a b

abbrev pub IsSorted : List Order → Type 0
IsSorted [] = Unit
IsSorted (x ∷ xs) = All (HasPriority x) xs × IsSorted xs

by_sides :
    (d e : OrderDirection) (a b : Order)
    → a.direction ≡ d
    → b.direction ≡ e
    → (is_gt (compare_orders a b) ≡ false → PriorityBy d e a b)
      × (is_gt (compare_orders a b) ≡ true → PriorityBy e d b a)
unfolding compare_orders compare_prices
by_sides ask ask a b p q = (λ h. ground arith, λ h. ground arith)
by_sides bid bid a b p q = (λ h. ground arith, λ h. ground arith)
by_sides ask bid a b p q = (λ h. tt, λ h. ground arith)
by_sides bid ask a b p q = (λ h. ground arith, λ h. tt)

priority_trans :
    (d e f : OrderDirection) (a b c : Order)
    → PriorityBy d e a b
    → PriorityBy e f b c
    → PriorityBy d f a c
priority_trans ask ask ask a b c p q = omega arith
priority_trans ask ask bid a b c p q = tt
priority_trans ask bid ask a b c p q = absurd q
priority_trans ask bid bid a b c p q = tt
priority_trans bid ask f a b c p q = absurd p
priority_trans bid bid ask a b c p q = absurd q
priority_trans bid bid bid a b c p q = omega arith

All-priority_trans :
    (x y : Order) (ys : List Order)
    → HasPriority x y
    → All (HasPriority y) ys
    → All (HasPriority x) ys
All-priority_trans x y [] p h = tt
All-priority_trans x y (z ∷ zs) p h = (
  priority_trans x.direction y.direction z.direction x y z p h.0,
  All-priority_trans x y zs p h.1,
)

pub All-insert_sorted :
    (P : Order → Type 0) (x : Order) (ys : List Order) → P x → All P ys → All P (insert_sorted x ys)
unfolding insert_sorted
All-insert_sorted P x [] p h = (p, tt)
All-insert_sorted P x (y ∷ ys) p h = elim (Bool-cases (is_gt (compare_orders x y))) [
  | inl later ↦ rw later (h.0, All-insert_sorted P x ys p h.1)
  | inr first ↦ rw first (p, h)
]

insert_sorted-IsSorted : (x : Order) (ys : List Order) → IsSorted ys → IsSorted (insert_sorted x ys)
unfolding insert_sorted
insert_sorted-IsSorted x [] h = (tt, tt)
insert_sorted-IsSorted x (y ∷ ys) h =
    let sides = by_sides x.direction y.direction x y refl refl in
    elim (Bool-cases (is_gt (compare_orders x y))) [
      | inl later ↦ rw later (
        All-insert_sorted (HasPriority y) x ys (sides.1 later) h.0,
        insert_sorted-IsSorted x ys h.1,
      )
      | inr first ↦ let p = sides.0 first in rw first ((p, All-priority_trans x y ys p h.0), h)
    ]

insert_sorted-perm : (x : Order) (ys : List Order) → Perm (insert_sorted x ys) (x ∷ ys)
unfolding insert_sorted
insert_sorted-perm x [] = Perm.refl (x ∷ [])
insert_sorted-perm x (y ∷ ys) = elim (Bool-cases (is_gt (compare_orders x y))) [
  | inl later ↦ rw later (Perm.trans (Perm.cons y (insert_sorted-perm x ys)) (Perm.swap x y ys))
  | inr first ↦ rw first (Perm.refl (x ∷ y ∷ ys))
]

sorted_lem : (os : List Order) → IsSorted (sort os) × Perm (sort os) os
unfolding sort
sorted_lem [] = (tt, Perm.refl [])
sorted_lem (x ∷ xs) =
    let (ordered, same) = sorted_lem xs in
    (
      insert_sorted-IsSorted x (sort xs) ordered,
      Perm.trans (insert_sorted-perm x (sort xs)) (Perm.cons x same),
    )

-- Sorting rearranges the orders by price-time priority: the result is a permutation of the orders
-- in which each order has priority over all that follow it. Asks come before bids, the lowest ask
-- and the highest bid first, and equal prices go by block and then by place in the block.
pub sort_priority : (os : List Order) → IsSorted (sort os) × Perm (sort os) os
sort_priority os = sorted_lem os
