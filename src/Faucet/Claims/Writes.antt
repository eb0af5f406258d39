-- ===== src/Faucet/Claims/Writes.antt =====
-- What the operations of faucet/src/services/claims.ts write to the budgets.
use ckb_dex.Prelude.{inl, inr, ◌⊎◌, ℕ, ◌≡◌, refl, String, arith}
use ckb_dex.Prelude.Result.{Result, ok, err, Failure}
use ckb_dex.Faucet.Claims.{
  ClaimLimits, Store, Reservation, restore_claim, take_budget, reserve_budget, commit,
}

module _ (limits : ClaimLimits) where
  pub restore-budgets :
      (r : Reservation) (s : Store) (day : String)
      → (restore_claim limits r s).budgets day ≡ s.budgets day
  unfolding restore_claim
  restore-budgets r s day = ground arith

  pub commit-budgets :
      (r : Reservation) (tx_hash : String) (now : ℕ) (s : Store) (day : String)
      → (commit limits r tx_hash now s).budgets day ≡ s.budgets day
  unfolding commit
  commit-budgets r tx_hash now s day = ground arith

  pub reserve_budget_cases :
      (r : Reservation) (s : Store)
      → ((t : Store) × (take_budget limits r.day s ≡ ok t)
          × (reserve_budget limits r s ≡ (ok r, t)))
        ⊎ ((e : Failure) × (reserve_budget limits r s ≡ (err e, restore_claim limits r s)))
  unfolding reserve_budget
  reserve_budget_cases r s = cases (take_budget limits r.day s) refl
    where
      cases :
          (m : Result Store)
          → take_budget limits r.day s ≡ m
          → ((t : Store) × (take_budget limits r.day s ≡ ok t)
              × (reserve_budget limits r s ≡ (ok r, t)))
            ⊎ ((e : Failure) × (reserve_budget limits r s ≡ (err e, restore_claim limits r s)))
      cases (ok t) h = inl (t, h, rw (h, reserve_budget))
      cases (err e) h = inr (e, rw (h, reserve_budget))
