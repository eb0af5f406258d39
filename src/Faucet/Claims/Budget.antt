-- ===== src/Faucet/Claims/Budget.antt =====
-- The daily budget of faucet/src/services/claims.ts under every interleaving of its operations.
use ckb_dex.Prelude.{
  ℕ, ◌+◌, ◌≤◌, ◌≡◌, refl, String, List, [], ◌∷◌, ◌++◌, arith, eq_refl, ◌==◌, if◌then◌else◌, false,
  Bool-cases, inl, ap, inr, ◌∙◌, eq_iff,
}
use ckb_dex.Prelude.Result.{Result, ok, err}
use ckb_dex.Faucet.Counter.{pos, add, sub, is_below, is_at_most}
use ckb_dex.Faucet.Claims.{
  ClaimLimits, Store, Reservation, take_budget, reserve, commit, release, usage,
}
use ckb_dex.Faucet.Claims.Writes.{restore-budgets, commit-budgets}
use ckb_dex.Faucet.Claims.Reserve.{reserve_err-budgets, reserve-Taken, day-reservation_of}

-- The limits that the configuration allows: at least one claim a day, and room for one drip.
pub record AreSane (limits : ClaimLimits) : Type 0 where
  pub some_claims : 1 ≤ limits.daily_max_claims
  pub room_for_drip : limits.drip_amount ≤ limits.daily_max_tokens

-- The store, the reservations that callers hold, and those whose transaction was sent, each a drip
-- handed out.
pub record Ledger : Type 0 where
  pub store : Store
  pub held : List Reservation
  pub sent : List Reservation

abbrev pub hold : Ledger → Result Reservation × Store → Ledger
hold l (ok r, s) = record { store = s; held = r ∷ l.held; sent = l.sent }
hold l (err e, s) = record l { store = s }

-- One operation of a caller: a reservation, which the caller then holds if it goes through; the
-- sending of the transaction of a held reservation, whose release is then past; a commit, of any
-- reservation; and the release of a held one. A caller that dies keeps what it holds.
pub data Step (limits : ClaimLimits) : Ledger → Ledger → Type 0 where
  reserving :
      (lock_hash address id day : String) (now : ℕ) (l : Ledger)
      → Step limits l (hold l (reserve limits lock_hash address id day now l.store))
  sending :
      (r : Reservation) (before after sent : List Reservation) (s : Store)
      → Step limits
          (record { store = s; held = before ++ r ∷ after; sent = sent })
          (record { store = s; held = before ++ after; sent = r ∷ sent })
  committing :
      (r : Reservation) (tx_hash : String) (now : ℕ) (l : Ledger)
      → Step limits l (record l { store = commit limits r tx_hash now l.store })
  releasing :
      (r : Reservation) (before after sent : List Reservation) (s : Store)
      → Step limits
          (record { store = s; held = before ++ r ∷ after; sent = sent })
          (record { store = release limits r s; held = before ++ after; sent = sent })

-- Any number of operations, of any callers in any order.
pub data Reach (limits : ClaimLimits) (l : Ledger) : Ledger → Type 0 where
  here : Reach limits l l
  next : {m n : Ledger} → Reach limits l m → Step limits m n → Reach limits l n

-- How many reservations are of a day.
unfoldable pub claims_of : String → List Reservation → ℕ
claims_of day [] = 0
claims_of day (r ∷ rs) = let rest = claims_of day rs in if r.day == day then rest + 1 else rest

-- Their drips.
unfoldable pub tokens_of : ℕ → String → List Reservation → ℕ
tokens_of drip day [] = 0
tokens_of drip day (r ∷ rs) =
    let rest = tokens_of drip day rs in if r.day == day then rest + drip else rest

-- The reservations of a day that are held or sent, and their drips.
abbrev pub outstanding : ClaimLimits → String → Ledger → ℕ × ℕ
outstanding limits day l = (
  claims_of day l.held + claims_of day l.sent,
  tokens_of limits.drip_amount day l.held + tokens_of limits.drip_amount day l.sent,
)

-- The budget of a day counts so many reservations and drips, and these are within the limits.
abbrev pub Counts : ClaimLimits → String → Store → ℕ × ℕ → Type 0
Counts limits day s n =
    (usage limits day s ≡ (pos n.0, pos n.1))
    × (n.0 ≤ limits.daily_max_claims)
    × (n.1 ≤ limits.daily_max_tokens)

-- The budget of each day counts what is held or sent of it.
pub record IsAccounted (limits : ClaimLimits) (l : Ledger) : Type 0 where
  pub at_day : (day : String) → Counts limits day l.store (outstanding limits day l)

claims_of-insert :
    (day : String) (r : Reservation) (before after : List Reservation)
    → claims_of day (before ++ r ∷ after) ≡ claims_of day (r ∷ before ++ after)
unfolding claims_of
claims_of-insert day r [] after = refl
claims_of-insert day r (x ∷ before) after = ground (arith, claims_of-insert day r before after)

tokens_of-insert :
    (drip : ℕ) (day : String) (r : Reservation) (before after : List Reservation)
    → tokens_of drip day (before ++ r ∷ after) ≡ tokens_of drip day (r ∷ before ++ after)
unfolding tokens_of
tokens_of-insert drip day r [] after = refl
tokens_of-insert drip day r (x ∷ before) after =
    ground (arith, tokens_of-insert drip day r before after)

module _ (limits : ClaimLimits) where
  -- The budget of a day that hands out one drip more.
  take_budget-usage :
      (day : String) (s t : Store) (c k : ℕ)
      → AreSane limits
      → take_budget limits day s ≡ ok t
      → usage limits day s ≡ (pos c, pos k)
      → (usage limits day t ≡ (pos (c + 1), pos (k + limits.drip_amount)))
        × (c + 1 ≤ limits.daily_max_claims)
        × (k + limits.drip_amount ≤ limits.daily_max_tokens)
  unfolding take_budget usage add is_below is_at_most
  take_budget-usage day s t c k sane h u =
      (ground (arith, eq_refl day), ground (arith, eq_refl day), ground (arith, eq_refl day))

  take_budget-usage_other :
      (day d : String) (s t : Store)
      → take_budget limits day s ≡ ok t
      → (d == day) ≡ false
      → usage limits d t ≡ usage limits d s
  unfolding take_budget usage
  take_budget-usage_other day d s t h other = ground arith

  release-usage :
      (r : Reservation) (s : Store) (c k : ℕ)
      → usage limits r.day s ≡ (pos (c + 1), pos (k + limits.drip_amount))
      → usage limits r.day (release limits r s) ≡ (pos c, pos k)
  unfolding release usage sub
  release-usage r s c k u = ground (arith, eq_refl r.day, restore-budgets limits r s r.day)

  release-usage_other :
      (r : Reservation) (s : Store) (d : String)
      → (d == r.day) ≡ false
      → usage limits d (release limits r s) ≡ usage limits d s
  unfolding release usage
  release-usage_other r s d other = ground (arith, restore-budgets limits r s d)

  -- A budget that counts one reservation more.
  taken-Counts :
      (day d : String) (s t : Store) (c k : ℕ) (r : Reservation)
      → AreSane limits
      → take_budget limits day s ≡ ok t
      → r.day ≡ day
      → Counts limits d s (c, k)
      → Counts limits d t
          (if r.day == d then c + 1 else c, if r.day == d then k + limits.drip_amount else k)
  taken-Counts day d s t c k r sane h on_day w = elim (Bool-cases (r.day == d)) [
    | inl same ↦
        let is_day : d ≡ day = ground (arith, eq_iff r.day d, on_day) in
        let (u, fc, ft) = w in
        let at_day : usage limits day s ≡ (pos c, pos k) = rw (← is_day) u in
        rw (same, is_day) (take_budget-usage day s t c k sane h at_day)
    | inr other ↦
        let apart : (d == day) ≡ false = ground (arith, eq_iff r.day d, eq_iff d day, on_day) in
        rw (other, take_budget-usage_other day d s t h apart) w
  ]

  taken-IsAccounted :
      (lock_hash address id day : String) (now : ℕ) (l : Ledger) (r : Reservation) (t : Store)
      → AreSane limits
      → reserve limits lock_hash address id day now l.store ≡ (ok r, t)
      → IsAccounted limits l
      → IsAccounted limits (hold l (ok r, t))
  unfolding claims_of tokens_of usage
  taken-IsAccounted lock_hash address id day now l r t sane h w =
      let taken = reserve-Taken limits lock_hash address id day now l.store r t h in
      let on_day : r.day ≡ day =
        ap (λ (x : Reservation). x.day) taken.the_reservation
        ∙ day-reservation_of lock_hash id day (l.store.claims lock_hash) in
      record {
        at_day = λ d.
            let counts =
              taken-Counts day d _ t (outstanding limits d l).0 (outstanding limits d l).1 r sane
                taken.the_budget on_day (w.at_day d) in
            ground (arith, counts, Bool-cases (r.day == d));
      }

  rejected-IsAccounted :
      (l : Ledger) (t : Store)
      → ((day : String) → t.budgets day ≡ l.store.budgets day)
      → IsAccounted limits l
      → IsAccounted limits (record l { store = t })
  unfolding usage
  rejected-IsAccounted l t same w = record {
    at_day = λ day. ground (arith, same day, w.at_day day);
  }

  reserving-IsAccounted :
      (lock_hash address id day : String) (now : ℕ) (l : Ledger)
      (taken : Result Reservation × Store)
      → AreSane limits
      → reserve limits lock_hash address id day now l.store ≡ taken
      → IsAccounted limits l
      → IsAccounted limits (hold l taken)
  reserving-IsAccounted lock_hash address id day now l (ok r, t) sane h w =
      taken-IsAccounted lock_hash address id day now l r t sane h w
  reserving-IsAccounted lock_hash address id day now l (err e, t) sane h w =
      rejected-IsAccounted l t
        (λ d. reserve_err-budgets limits lock_hash address id day now l.store t e d h) w

  sending-IsAccounted :
      (r : Reservation) (before after sent : List Reservation) (s : Store)
      → IsAccounted limits (record { store = s; held = before ++ r ∷ after; sent = sent })
      → IsAccounted limits (record { store = s; held = before ++ after; sent = r ∷ sent })
  unfolding claims_of tokens_of
  sending-IsAccounted r before after sent s w = record {
    at_day = λ day. ground (
      arith,
      claims_of-insert day r before after,
      tokens_of-insert limits.drip_amount day r before after,
      w.at_day day,
    );
  }

  -- A budget that counts one reservation less.
  released-Counts :
      (r : Reservation) (d : String) (s : Store) (c k : ℕ)
      → Counts limits d s
          (if r.day == d then c + 1 else c, if r.day == d then k + limits.drip_amount else k)
      → Counts limits d (release limits r s) (c, k)
  released-Counts r d s c k w = elim (Bool-cases (r.day == d)) [
    | inl same ↦
        let is_day : d ≡ r.day = ground (arith, eq_iff r.day d) in
        let (u, fc, ft) = rw same at w in
        let at_day : usage limits r.day s ≡ (pos (c + 1), pos (k + limits.drip_amount)) =
          rw (← is_day) u in
        (rw is_day (release-usage r s c k at_day), omega arith, omega arith)
    | inr other ↦
        let apart : (d == r.day) ≡ false = ground (arith, eq_iff r.day d, eq_iff d r.day) in
        rw (release-usage_other r s d apart) (rw other at w)
  ]

  releasing-IsAccounted :
      (r : Reservation) (before after sent : List Reservation) (s : Store)
      → IsAccounted limits (record { store = s; held = before ++ r ∷ after; sent = sent })
      → IsAccounted limits
          (record { store = release limits r s; held = before ++ after; sent = sent })
  unfolding claims_of tokens_of
  releasing-IsAccounted r before after sent s w = record {
    at_day = λ day.
        let held = before ++ after in
        released-Counts r day s (claims_of day held + claims_of day sent)
          (tokens_of limits.drip_amount day held + tokens_of limits.drip_amount day sent)
          (ground (
            arith,
            claims_of-insert day r before after,
            tokens_of-insert limits.drip_amount day r before after,
            w.at_day day,
            Bool-cases (r.day == day),
          ));
  }

  Step-IsAccounted :
      {l m : Ledger}
      → AreSane limits
      → Step limits l m
      → IsAccounted limits l
      → IsAccounted limits m
  Step-IsAccounted sane (reserving lock_hash address id day now l) w =
      reserving-IsAccounted lock_hash address id day now l _ sane refl w
  Step-IsAccounted sane (sending r before after sent s) w =
      sending-IsAccounted r before after sent s w
  Step-IsAccounted sane (committing r tx_hash now l) w =
      rejected-IsAccounted l _ (commit-budgets limits r tx_hash now l.store) w
  Step-IsAccounted sane (releasing r before after sent s) w =
      releasing-IsAccounted r before after sent s w

-- Under limits that allow one claim and one drip, and whatever operations any callers make in any
-- order, where only a reservation that its caller holds, unsent, is released: the budget of a day is
-- the count, and the drips, of the reservations of that day that are held or whose transaction was
-- sent, and these are within the daily limits. So no day sends more than its limits. It holds at the
-- start of the sequence, as of an empty store.
pub budget_never_exceeded :
    (limits : ClaimLimits) {l m : Ledger}
    → AreSane limits
    → IsAccounted limits l
    → Reach limits l m
    → IsAccounted limits m
budget_never_exceeded limits sane w here = w
budget_never_exceeded limits sane w (next r step) =
    Step-IsAccounted limits sane step (budget_never_exceeded limits sane w r)
