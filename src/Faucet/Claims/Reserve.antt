-- ===== src/Faucet/Claims/Reserve.antt =====
-- The cooldown of a recipient in faucet/src/services/claims.ts.
use ckb_dex.Prelude.{
  ℕ, ◌≡◌, refl, String, Option, none, some, arith, Bool-cases, Option-cases, inl, inr, ◌∙◌, eq_refl,
  ap, sym,
}
use ckb_dex.Prelude.Result.{Result, ok, err, Failure}
use ckb_dex.Faucet.Claims.{
  ClaimLimits, FaucetClaim, Store, Reservation, take_budget, reserve_budget, reserve, put_claim,
  reservation_of, reserved_claim, is_claimable, restore_claim,
}
use ckb_dex.Faucet.Claims.Writes.{reserve_budget_cases, restore-budgets}

pub day-reservation_of :
    (lock_hash id day : String) (before : Option FaucetClaim)
    → (reservation_of lock_hash id day before).day ≡ day
day-reservation_of lock_hash id day none = refl
day-reservation_of lock_hash id day (some old) = refl

module _ (limits : ClaimLimits) where
  pub take_budget-claims :
      (day : String) (s t : Store) (key : String)
      → take_budget limits day s ≡ ok t
      → t.claims key ≡ s.claims key
  unfolding take_budget
  take_budget-claims day s t key h = ground arith

  -- What a reservation that goes through leaves: the document that it wrote, and the reservation.
  pub record Taken (lock_hash address id day : String) (now : ℕ) (s : Store) (r : Reservation)
      (t : Store) : Type 0 where
    pub the_reservation : r ≡ reservation_of lock_hash id day (s.claims lock_hash)
    pub the_claim : t.claims lock_hash ≡ some (reserved_claim address id now (s.claims lock_hash))
    pub the_budget :
        take_budget limits day
          (put_claim s lock_hash (some (reserved_claim address id now (s.claims lock_hash))))
        ≡ ok t

  module _ (lock_hash address id day : String) (now : ℕ) (s : Store) (r : Reservation)
      (t : Store) where
    budget-Taken :
        (before : Option FaucetClaim)
        → s.claims lock_hash ≡ before
        → reserve_budget limits
            (reservation_of lock_hash id day before)
            (put_claim s lock_hash (some (reserved_claim address id now before)))
          ≡ (ok r, t)
        → Taken lock_hash address id day now s r t
    budget-Taken before b h =
        let r0 = reservation_of lock_hash id day before in
        let c0 = reserved_claim address id now before in
        let s0 = put_claim s lock_hash (some c0) in
        elim (reserve_budget_cases limits r0 s0) [
          | inl (u, taken, done) ↦
              let same_r : r ≡ r0 = ground arith in
              let same_t : u ≡ t = ground arith in
              let on_day : r0.day ≡ day = day_of before in
              let taken_day : take_budget limits day s0 ≡ ok t = rw (← on_day, ← same_t) taken in
              record {
                the_reservation = rw b same_r;
                the_claim = rw b (take_budget-claims day s0 t lock_hash taken_day ∙ rw eq_refl);
                the_budget = rw b taken_day;
              }
          | inr (e, failed) ↦ cc
        ]
      where
        day_of : (o : Option FaucetClaim) → (reservation_of lock_hash id day o).day ≡ day
        day_of none = refl
        day_of (some c) = refl

    pub reserve-Taken :
        reserve limits lock_hash address id day now s ≡ (ok r, t)
        → Taken lock_hash address id day now s r t
    unfolding reserve
    reserve-Taken h = elim (Option-cases (s.claims lock_hash)) [
      | inl fresh ↦ budget-Taken none fresh (rw (fresh, reserve) at h)
      | inr (old, known) ↦ elim (Bool-cases (is_claimable limits old now)) [
        | inl free ↦ budget-Taken (some old) known (rw (known, reserve, free) at h)
        | inr busy ↦ cc (rw (known, reserve, busy) at h)
      ]
    ]

  reserve_budget_err-budgets :
      (r : Reservation) (s t : Store) (e : Failure) (d : String)
      → reserve_budget limits r s ≡ (err e, t)
      → t.budgets d ≡ s.budgets d
  reserve_budget_err-budgets r s t e d h = elim (reserve_budget_cases limits r s) [
    | inl (u, taken, done) ↦ cc
    | inr (f, failed) ↦
        let same : restore_claim limits r s ≡ t = ground arith in
        ap (λ (x : Store). x.budgets d) (sym same) ∙ restore-budgets limits r s d
  ]

  -- A reservation that is rejected leaves the budgets.
  pub reserve_err-budgets :
      (lock_hash address id day : String) (now : ℕ) (s t : Store) (e : Failure) (d : String)
      → reserve limits lock_hash address id day now s ≡ (err e, t)
      → t.budgets d ≡ s.budgets d
  unfolding reserve
  reserve_err-budgets lock_hash address id day now s t e d h =
      elim (Option-cases (s.claims lock_hash)) [
        | inl fresh ↦ reserve_budget_err-budgets _ _ t e d (rw (fresh, reserve) at h)
        | inr (old, known) ↦ elim (Bool-cases (is_claimable limits old now)) [
          | inl free ↦ reserve_budget_err-budgets _ _ t e d (rw (known, reserve, free) at h)
          | inr busy ↦
              ap (λ (x : Result Reservation × Store). x.1.budgets d)
                (sym (rw (known, reserve, busy) at h))
        ]
      ]
