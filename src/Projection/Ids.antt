-- ===== src/Projection/Ids.antt =====
-- The primary key of the orders collection: how applying an event treats the ids of the documents.
use ckb_dex.Prelude.{
  String, ◌≡◌, refl, ◌∙◌, inl, inr, Bool, false, none, some, List, [], ◌∷◌, map, arith, eq_iff,
  ◌==◌, member, update_where, Bool-cases,
}
use ckb_dex.Order.{Order, find_by_id, save, upsert}

abbrev pub ids_of : List Order → List String
ids_of os = map (λ o. o.id) os

-- No two documents have the same id.
abbrev pub UniqueIds : List String → Type 0
UniqueIds [] = Unit
UniqueIds (s ∷ ss) = (member s ss ≡ false) × UniqueIds ss

pub ids-update_where :
    (p : Order → Bool) (f : Order → Order) (os : List Order)
    → ((o : Order) → (f o).id ≡ o.id)
    → ids_of (update_where p f os) ≡ ids_of os
ids-update_where p f [] keeps = refl
ids-update_where p f (o ∷ os) keeps = ground (arith, keeps o, ids-update_where p f os keeps)

pub ids-save : (order : Order) (os : List Order) → ids_of (save order os) ≡ ids_of os
unfolding save
ids-save order [] = refl
ids-save order (o ∷ os) = ground (arith, eq_iff o.id order.id, ids-save order os)

member-upsert :
    (s id : String) (change : Order → Order) (fresh : Order) (os : List Order)
    → ((o : Order) → (change o).id ≡ o.id)
    → fresh.id ≡ id
    → (id == s) ≡ false
    → member s (ids_of (upsert id change fresh os)) ≡ member s (ids_of os)
unfolding upsert
member-upsert s id change fresh [] keeps e ne = ground arith
member-upsert s id change fresh (o ∷ os) keeps e ne =
    ground (arith, keeps o, member-upsert s id change fresh os keeps e ne)

pub upsert-UniqueIds :
    (id : String) (change : Order → Order) (fresh : Order) (os : List Order)
    → ((o : Order) → (change o).id ≡ o.id)
    → fresh.id ≡ id
    → UniqueIds (ids_of os)
    → UniqueIds (ids_of (upsert id change fresh os))
unfolding upsert
upsert-UniqueIds id change fresh [] keeps e u = (refl, tt)
upsert-UniqueIds id change fresh (o ∷ os) keeps e u = elim (Bool-cases (o.id == id)) [
  | inl same ↦ rw (same, keeps o) u
  | inr other ↦ rw other (
    member-upsert o.id id change fresh os keeps e (ground (arith, eq_iff o.id id, eq_iff id o.id))
        ∙ u.0,
    upsert-UniqueIds id change fresh os keeps e u.1,
  )
]

pub find-upsert :
    (id : String) (change : Order → Order) (fresh : Order) (os : List Order)
    → ((o : Order) → (change o).id ≡ o.id)
    → fresh.id ≡ id
    → find_by_id id (upsert id change fresh os)
      ≡ some (elim (find_by_id id os) [ none ↦ fresh | some o ↦ change o ])
unfolding upsert
find-upsert id change fresh [] keeps e = ground (arith, eq_iff fresh.id id)
find-upsert id change fresh (o ∷ os) keeps e =
    ground (arith, keeps o, eq_iff o.id id, find-upsert id change fresh os keeps e)

pub find-upsert_ne :
    (id other : String) (change : Order → Order) (fresh : Order) (os : List Order)
    → ((o : Order) → (change o).id ≡ o.id)
    → fresh.id ≡ id
    → (id == other) ≡ false
    → find_by_id other (upsert id change fresh os) ≡ find_by_id other os
unfolding upsert
find-upsert_ne id other change fresh [] keeps e ne = ground arith
find-upsert_ne id other change fresh (o ∷ os) keeps e ne = ground (
  arith,
  keeps o,
  eq_iff o.id id,
  eq_iff id other,
  find-upsert_ne id other change fresh os keeps e ne,
)

pub find_by_id-id :
    (id : String) (os : List Order) (o : Order) → find_by_id id os ≡ some o → o.id ≡ id
find_by_id-id id [] o h = cc
find_by_id-id id (x ∷ xs) o h = ground (arith, eq_iff x.id id, find_by_id-id id xs o)
