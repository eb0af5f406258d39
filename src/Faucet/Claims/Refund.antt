-- ===== src/Faucet/Claims/Refund.antt =====
-- What a reservation that is given up has used, in faucet/src/services/claims.ts.
use ckb_dex.Prelude.{
  Option-cases, inl, inr, ℕ, String, ◌≡◌, some, ap, none, ◌∙◌, arith, eq_iff, eq_refl,
}
use ckb_dex.Faucet.Claims.{
  ClaimLimits, Store, put_budget, give_back, take_budget, usage, release, reserve, restore_claim,
  Reservation,
}
use ckb_dex.Faucet.Claims.Reserve.{reserve-Taken, day-reservation_of}
use ckb_dex.Faucet.Claims.Writes.{restore-budgets}
use ckb_dex.Faucet.Counter.{sub-add, sub}
use ckb_dex.Prelude.Result.{ok}

taken_usage :
    (limits : ClaimLimits) (day d : String) (s0 t u : Store)
    → take_budget limits day s0 ≡ ok t
    → u.budgets d ≡ t.budgets d
    → u.budgets day ≡ t.budgets day
    → usage limits d
        (elim (u.budgets day) [ none ↦ u | some b ↦ put_budget u day (some (give_back limits b)) ])
      ≡ usage limits d s0
unfolding take_budget usage sub
taken_usage limits day d s0 t u h same same_day = elim (Option-cases (s0.budgets day)) [
  | inl missing ↦ ground (arith, eq_iff d day, eq_refl day)
  | inr (b, found) ↦
      ground
        (arith, eq_iff d day, eq_refl day, sub-add b.claims 1, sub-add b.tokens limits.drip_amount)
]

-- The budget of a release, at the day of its reservation.
usage-release :
    (limits : ClaimLimits) (r : Reservation) (day d : String) (t : Store)
    → r.day ≡ day
    → usage limits d (release limits r t)
      ≡ usage limits d (elim ((restore_claim limits r t).budgets day) [
        | none ↦ restore_claim limits r t
        | some b ↦ put_budget (restore_claim limits r t) day (some (give_back limits b))
      ])
unfolding release
usage-release limits r day d t e =
    ap
      (λ x. usage limits d (elim ((restore_claim limits r t).budgets x) [
        | none ↦ restore_claim limits r t
        | some b ↦ put_budget (restore_claim limits r t) x (some (give_back limits b))
      ]))
      e

-- A reservation that went through and is released leaves the usage of every day as it was before.
pub release_restores_usage :
    (limits : ClaimLimits) (lock_hash address id day d : String) (now : ℕ) (s t : Store)
    (r : Reservation)
    → reserve limits lock_hash address id day now s ≡ (ok r, t)
    → usage limits d (release limits r t) ≡ usage limits d s
unfolding usage
release_restores_usage limits lock_hash address id day d now s t r h =
    let taken = reserve-Taken limits lock_hash address id day now s r t h in
    let on_day : r.day ≡ day =
      ap (λ (x : Reservation). x.day) taken.the_reservation
      ∙ day-reservation_of lock_hash id day (s.claims lock_hash) in
    usage-release limits r day d t on_day
    ∙ taken_usage limits day d _ t (restore_claim limits r t) taken.the_budget
        (restore-budgets limits r t d) (restore-budgets limits r t day)
