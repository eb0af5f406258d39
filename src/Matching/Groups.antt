-- ===== src/Matching/Groups.antt =====
-- The groups that `findMatches` of backend/src/bot/index.ts collects the orders in.
use ckb_dex.Prelude.{
  ℕ, ◌≡◌, inl, inr, true, false, List, [], ◌∷◌, ◌++◌, All, In, arith, eq_iff, Bool-cases, refl, sym,
  String, ◌∙◌,
}
use ckb_dex.Order.{Order, OrderDirection, ask, bid}
use ckb_dex.Health.{MatchHealth, is_order_quarantined}
use ckb_dex.Health.Laws.{lookup_keeps_answers}
use ckb_dex.Matching.Priority.{All-insert_sorted}
use ckb_dex.Matching.{
  sort, GroupKey, Group, match_group_key, same_key, push_by, add_to_group, collect,
}

-- What is known of an order in a group: it satisfies `P`, stands on its side and has the key.
abbrev pub Filed : (Order → Type 0) → GroupKey → OrderDirection → Order → Type 0
Filed P key d o = P o × (o.direction ≡ d) × (match_group_key o ≡ key)

-- Every order of a group is filed on its side.
pub record IsTidy (P : Order → Type 0) (g : Group) : Type 0 where
  pub buys_filed : All (Filed P g.key bid) g.buys
  pub sells_filed : All (Filed P g.key ask) g.sells

same_key→eq : (a b : GroupKey) → same_key a b ≡ true → a ≡ b
unfolding same_key
same_key→eq a b h = ground (arith, eq_iff a.xudt_type_hash b.xudt_type_hash)

All-snoc :
    (P : Order → Type 0) (os : List Order) (o : Order) → All P os → P o → All P (os ++ o ∷ [])
All-snoc P [] o h p = (p, tt)
All-snoc P (x ∷ xs) o h p = (h.0, All-snoc P xs o h.1 p)

push_by-IsTidy :
    (P : Order → Type 0) (d : OrderDirection) (o : Order) (g : Group)
    → P o
    → o.direction ≡ d
    → match_group_key o ≡ g.key
    → IsTidy P g
    → IsTidy P (push_by d o g)
unfolding push_by
push_by-IsTidy P bid o g p side key t = record {
  buys_filed = All-snoc (Filed P g.key bid) g.buys o t.buys_filed (p, side, key);
  sells_filed = t.sells_filed;
}
push_by-IsTidy P ask o g p side key t = record {
  buys_filed = t.buys_filed;
  sells_filed = All-snoc (Filed P g.key ask) g.sells o t.sells_filed (p, side, key);
}

pub add_to_group-IsTidy :
    (P : Order → Type 0) (o : Order) (gs : List Group)
    → P o
    → All (IsTidy P) gs
    → All (IsTidy P) (add_to_group o gs)
unfolding add_to_group
add_to_group-IsTidy P o [] p h = (
  push_by-IsTidy P o.direction o (record { key = match_group_key o; buys = []; sells = [] }) p refl
      refl (record { buys_filed = tt; sells_filed = tt }),
  tt,
)
add_to_group-IsTidy P o (g ∷ gs) p h = elim (Bool-cases (same_key g.key (match_group_key o))) [
  | inl same ↦ rw same (
    push_by-IsTidy P o.direction o g p refl (sym (same_key→eq g.key (match_group_key o) same)) h.0,
    h.1,
  )
  | inr other ↦ rw other (h.0, add_to_group-IsTidy P o gs p h.1)
]

-- An order that may be matched: one of `os` that is not quarantined at `now`.
abbrev pub IsEligible : MatchHealth → ℕ → List Order → Order → Type 0
IsEligible h now os o = In o os × ((is_order_quarantined h o.id now).1 ≡ false)

-- The two answers of the health state that matter at `now` are those of `h`.
pub record SameAnswers (h h' : MatchHealth) (now : ℕ) : Type 0 where
  pub same_quarantine :
      (id : String) → (is_order_quarantined h' id now).1 ≡ (is_order_quarantined h id now).1
  pub same_pairs : h'.pairs ≡ h.pairs

SameAnswers-lookup :
    (h h' : MatchHealth) (id : String) (now : ℕ)
    → SameAnswers h h' now
    → SameAnswers h (is_order_quarantined h' id now).0 now
SameAnswers-lookup h h' id now s = record {
  same_quarantine =
      λ other. (lookup_keeps_answers h' id other now now (omega arith)).0 ∙ s.same_quarantine other;
  same_pairs = (lookup_keeps_answers h' id id now now (omega arith)).1 ∙ s.same_pairs;
}

pub collect_lem :
    (h h' : MatchHealth) (now : ℕ) (P : Order → Type 0) (os : List Order) (gs : List Group)
    → SameAnswers h h' now
    → All (λ o. (is_order_quarantined h o.id now).1 ≡ false → P o) os
    → All (IsTidy P) gs
    → SameAnswers h (collect h' now os gs).0 now × All (IsTidy P) (collect h' now os gs).1
unfolding collect
collect_lem h h' now P [] gs s all t = (s, t)
collect_lem h h' now P (o ∷ os) gs s all t =
    let next = SameAnswers-lookup h h' o.id now s in
    elim (Bool-cases (is_order_quarantined h' o.id now).1) [
      | inl hit ↦
          rw (hit, collect)
            (collect_lem h (is_order_quarantined h' o.id now).0 now P os gs next all.1 t)
      | inr free ↦
          rw (free, collect)
            (collect_lem h (is_order_quarantined h' o.id now).0 now P os (add_to_group o gs) next
              all.1 (add_to_group-IsTidy P o gs (all.0 (sym (s.same_quarantine o.id) ∙ free)) t))
    ]

All-weaken :
    (P Q : Order → Type 0) (os : List Order) → ((o : Order) → P o → Q o) → All P os → All Q os
All-weaken P Q [] f h = tt
All-weaken P Q (o ∷ os) f h = (f o h.0, All-weaken P Q os f h.1)

All-In-sort : (os : List Order) → All (λ o. In o os) (sort os)
unfolding sort
All-In-sort [] = tt
All-In-sort (o ∷ os) =
    All-insert_sorted (λ x. In x (o ∷ os)) o (sort os) (inl refl)
      (All-weaken (λ x. In x os) (λ x. In x (o ∷ os)) (sort os) (λ x h. inr h) (All-In-sort os))

-- The groups of the sorted orders, at a time.
pub collect-IsTidy :
    (h : MatchHealth) (now : ℕ) (os : List Order)
    → SameAnswers h (collect h now (sort os) []).0 now
      × All (IsTidy (IsEligible h now os)) (collect h now (sort os) []).1
collect-IsTidy h now os =
    collect_lem h h now (IsEligible h now os) (sort os) []
      (record { same_quarantine = λ id. refl; same_pairs = refl })
      (All-weaken (λ o. In o os)
        (λ o. (is_order_quarantined h o.id now).1 ≡ false → IsEligible h now os o) (sort os)
        (λ o i free. (i, free)) (All-In-sort os))
      tt
