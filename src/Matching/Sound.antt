-- ===== src/Matching/Sound.antt =====
-- Every pair that `findMatches` of backend/src/bot/index.ts returns is an exact match.
use ckb_dex.Prelude.{
  ℕ, ◌≡◌, inl, inr, Bool, true, false, List, [], ◌∷◌, ◌++◌, All, arith, find, Option-cases, some,
  String, Bool-cases, ◌∙◌, sym,
}
use ckb_dex.Order.{Order, ask, bid}
use ckb_dex.Health.{MatchHealth, is_pair_blocked}
use ckb_dex.Matching.{
  GroupKey, Group, Pair, match_group_key, is_candidate, pair_up, pair_groups, find_matches, collect,
  sort,
}
use ckb_dex.Matching.Groups.{Filed, IsTidy, IsEligible, SameAnswers, collect-IsTidy}
use mathlib.Core.Path.{subst}

-- A buy and a sell order of the list, with the same token type, amount and price, neither of them
-- in quarantine and the pair not in backoff.
pub record IsMatch (h : MatchHealth) (now : ℕ) (orders : List Order) (p : Pair) : Type 0 where
  pub buy_eligible : IsEligible h now orders p.buy
  pub sell_eligible : IsEligible h now orders p.sell
  pub buy_bids : p.buy.direction ≡ bid
  pub sell_asks : p.sell.direction ≡ ask
  pub same_terms : match_group_key p.buy ≡ match_group_key p.sell
  pub not_blocked : is_pair_blocked h p.buy.id p.sell.id now ≡ false

find-All :
    (P : Order → Type 0) (t : Order → Bool) (os : List Order) (o : Order)
    → All P os
    → find t os ≡ some o
    → P o × (t o ≡ true)
find-All P t [] o h e = cc
find-All P t (x ∷ xs) o h e = elim (Bool-cases (t x)) [
  | inl hit ↦
      let same : x ≡ o = ground arith in subst (λ (y : Order). P y × (t y ≡ true)) same (h.0, hit)
  | inr miss ↦ find-All P t xs o h.1 (ground arith)
]

blocked_same :
    (h h' : MatchHealth) (now : ℕ) (buy sell : Order)
    → SameAnswers h h' now
    → is_pair_blocked h' buy.id sell.id now ≡ is_pair_blocked h buy.id sell.id now
unfolding is_pair_blocked
blocked_same h h' now buy sell s = rw s.same_pairs

pair_up-IsMatch :
    (h h' : MatchHealth) (now : ℕ) (os : List Order) (key : GroupKey) (sells : List Order)
    (taken : List String) (buys : List Order)
    → SameAnswers h h' now
    → All (Filed (IsEligible h now os) key ask) sells
    → All (Filed (IsEligible h now os) key bid) buys
    → All (IsMatch h now os) (pair_up h' now sells taken buys)
unfolding pair_up
pair_up-IsMatch h h' now os key sells taken [] s fs fb = tt
pair_up-IsMatch h h' now os key sells taken (b ∷ bs) s fs fb =
    elim (Option-cases (find (is_candidate h' now taken b) sells)) [
      | inl missing ↦
          rw (missing, pair_up) (pair_up-IsMatch h h' now os key sells taken bs s fs fb.1)
      | inr (sell, found) ↦
          let (filed, candidate) =
            find-All (Filed (IsEligible h now os) key ask) (is_candidate h' now taken b) sells sell
              fs found in
          rw (found, pair_up)
            (
              record {
                buy_eligible = fb.0.0;
                sell_eligible = filed.0;
                buy_bids = fb.0.1;
                sell_asks = filed.1;
                same_terms = fb.0.2 ∙ sym filed.2;
                not_blocked = sym (blocked_same h h' now b sell s) ∙ ground arith;
              },
              pair_up-IsMatch h h' now os key sells (sell.id ∷ taken) bs s fs fb.1,
            )
    ]

All-append : (P : Pair → Type 0) (xs ys : List Pair) → All P xs → All P ys → All P (xs ++ ys)
All-append P [] ys h k = k
All-append P (x ∷ xs) ys h k = (h.0, All-append P xs ys h.1 k)

pair_groups-IsMatch :
    (h h' : MatchHealth) (now : ℕ) (os : List Order) (gs : List Group)
    → SameAnswers h h' now
    → All (IsTidy (IsEligible h now os)) gs
    → All (IsMatch h now os) (pair_groups h' now gs)
unfolding pair_groups
pair_groups-IsMatch h h' now os [] s t = tt
pair_groups-IsMatch h h' now os (g ∷ gs) s t =
    All-append (IsMatch h now os) (pair_up h' now g.sells [] g.buys) (pair_groups h' now gs)
      (pair_up-IsMatch h h' now os g.key g.sells [] g.buys s t.0.sells_filed t.0.buys_filed)
      (pair_groups-IsMatch h h' now os gs s t.1)

-- Every pair that `findMatches` returns is an exact match: a buy and a sell order of the book with
-- the same token type, amount and price, neither of them quarantined at the time, and the pair
-- not in backoff.
pub find_matches-IsMatch :
    (h : MatchHealth) (orders : List Order) (now : ℕ)
    → All (IsMatch h now orders) (find_matches h orders now).1
unfolding find_matches
find_matches-IsMatch h orders now =
    let (same, tidy) = collect-IsTidy h now orders in
    pair_groups-IsMatch h (collect h now (sort orders) []).0 now orders
      (collect h now (sort orders) []).1 same tidy
