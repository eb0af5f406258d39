-- ===== src/Faucet/Service/Laws.antt =====
-- What a claim leaves in the budgets: `TokenFaucet.claim` of faucet/src/services/faucet.ts.
use ckb_dex.Prelude.{
  ℕ, String, Bool-cases, suc, ltb, inl, ◌≡◌, inr, zero, refl, Option-cases, some, ◌==◌, arith,
  if◌then◌else◌, ◌∙◌, eq_iff, eq_refl, false,
}
use ckb_dex.Faucet.Counter.{ℤ, add}
use ckb_dex.Faucet.Claims.{
  ClaimLimits, Store, reserve, Reservation, take_budget, usage, put_claim, reserved_claim,
}
use ckb_dex.Faucet.Claims.Writes.{commit-budgets}
use ckb_dex.Faucet.Claims.Reserve.{reserve-Taken, reserve_err-budgets}
use ckb_dex.Faucet.Claims.Refund.{release_restores_usage}
use ckb_dex.Faucet.Service.{
  Outside, Request, claim, after_reserve, send_claim, commit_attempts, max_address_length,
}
use ckb_dex.Prelude.Result.{Result, ok, err}

-- The usage of a day after one claim and one drip more.
abbrev one_more : ClaimLimits → ℤ × ℤ → ℤ × ℤ
one_more limits u = (add u.0 1, add u.1 limits.drip_amount)

-- The usage of each day after a request: of the day of the request one claim and one drip more
-- where the answer is the hash of a transaction that was sent to the lock of the address, and as it
-- was where the answer is an error.
unfoldable pub Accounts : ClaimLimits → Outside → Request → Store → Result String → Store → Type 0
Accounts limits out q s (ok tx_hash) t =
    ((lock_hash : String) × (out.lock_hash_of q.address ≡ some lock_hash)
      × (out.send lock_hash ≡ ok tx_hash))
    × ((day : String)
        → usage limits day t
          ≡ (if day == q.day then one_more limits (usage limits day s) else usage limits day s))
Accounts limits out q s (err e) t = (day : String) → usage limits day t ≡ usage limits day s

take_budget-one_more :
    (limits : ClaimLimits) (day d : String) (s t : Store)
    → take_budget limits day s ≡ ok t
    → usage limits d t ≡ (if d == day then one_more limits (usage limits d s) else usage limits d s)
unfolding take_budget usage add
take_budget-one_more limits day d s t h = ground (arith, eq_iff d day, eq_refl day)

module _ (limits : ClaimLimits) (out : Outside) where
  commit_attempts-budgets :
      (left : ℕ) (r : Reservation) (tx_hash : String) (now : ℕ) (s : Store) (day : String)
      → (commit_attempts limits out left r tx_hash now s).budgets day ≡ s.budgets day
  unfolding commit_attempts
  commit_attempts-budgets zero r tx_hash now s day = refl
  commit_attempts-budgets (suc left) r tx_hash now s day =
      elim (Bool-cases (out.commit_throws left)) [
        | inl thrown ↦ rw thrown (commit_attempts-budgets left r tx_hash now s day)
        | inr fine ↦ rw fine (commit-budgets limits r tx_hash now s day)
      ]

  same_budget-usage :
      (day : String) (s t : Store)
      → t.budgets day ≡ s.budgets day
      → usage limits day t ≡ usage limits day s
  unfolding usage
  same_budget-usage day s t h = rw (h, usage) refl

  module _ (q : Request) (lock_hash : String) (s : Store) where
    send_claim-Accounts :
        (r : Reservation) (t : Store) (sent : Result String)
        → out.release_throws ≡ false
        → out.lock_hash_of q.address ≡ some lock_hash
        → reserve limits lock_hash q.address q.reservation_id q.day q.now s ≡ (ok r, t)
        → out.send lock_hash ≡ sent
        → Accounts limits out q s
            (send_claim limits out q lock_hash r t).0
            (send_claim limits out q lock_hash r t).1
    unfolding send_claim Accounts usage
    send_claim-Accounts r t (ok tx_hash) calm known h e =
        let taken = reserve-Taken limits lock_hash q.address q.reservation_id q.day q.now s r t h in
        let s0 =
          put_claim s lock_hash
            (some (reserved_claim q.address q.reservation_id q.now (s.claims lock_hash))) in
        let end = commit_attempts limits out 3 r tx_hash q.sent_at t in
        rw (e, send_claim, Accounts)
          (
            (lock_hash, known, e),
            λ d.
                same_budget-usage d t end (commit_attempts-budgets 3 r tx_hash q.sent_at t d)
                ∙ take_budget-one_more limits q.day d s0 t taken.the_budget,
          )
    send_claim-Accounts r t (err f) calm known h e =
        rw (e, send_claim, calm, Accounts)
          (λ d.
            release_restores_usage limits lock_hash q.address q.reservation_id q.day d q.now s t r
              h)

    after_reserve-Accounts :
        (taken : Result Reservation × Store)
        → out.release_throws ≡ false
        → out.lock_hash_of q.address ≡ some lock_hash
        → reserve limits lock_hash q.address q.reservation_id q.day q.now s ≡ taken
        → Accounts limits out q s
            (after_reserve limits out q lock_hash taken).0
            (after_reserve limits out q lock_hash taken).1
    unfolding after_reserve Accounts
    after_reserve-Accounts (ok r, t) calm known h =
        send_claim-Accounts r t (out.send lock_hash) calm known h refl
    after_reserve-Accounts (err e, t) calm known h = λ d.
        same_budget-usage d s t
          (reserve_err-budgets limits lock_hash q.address q.reservation_id q.day q.now s t e d h)

-- Where the call of the database that releases does not throw: a claim that answers with the hash
-- of a transaction has sent it to the lock of the address and counts as one claim and one drip of
-- the day of the request and of no other day, however many attempts to commit it fail; a claim that
-- answers with an error, in whichever step, leaves the usage of every day as it was.
pub claim-Accounts :
    (limits : ClaimLimits) (out : Outside) (q : Request) (s : Store)
    → out.release_throws ≡ false
    → Accounts limits out q s (claim limits out q s).0 (claim limits out q s).1
unfolding claim Accounts
claim-Accounts limits out q s calm =
    elim (Bool-cases (ltb max_address_length (out.length_of q.address))) [
      | inl long ↦ rw (long, Accounts) (λ d. refl)
      | inr short ↦ elim (Option-cases (out.lock_hash_of q.address)) [
        | inl unknown ↦ rw (short, unknown, Accounts) (λ d. refl)
        | inr (lock_hash, known) ↦
            rw (short, known)
              (after_reserve-Accounts limits out q lock_hash s
                (reserve limits lock_hash q.address q.reservation_id q.day q.now s) calm known refl)
      ]
    ]
