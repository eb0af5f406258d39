-- ===== src/Tests/Claims.antt =====
-- The laws of the faucet's claims, at one recipient and one day.
use ckb_dex.Faucet.Counter.{add, is_at_most, is_below}
use ckb_dex.Prelude.{[], ◌∷◌, none, ◌≡◌, arith, some, refl}
use ckb_dex.Faucet.Claims.{
  is_claimable, take_budget, ClaimLimits, Store, Reservation, reserve, FaucetClaim, reserve_budget,
  commit, release, reservation_of, reserved_claim, usage,
}
use ckb_dex.Faucet.Claims.Budget.{
  IsAccounted, AreSane, budget_never_exceeded, next, here, reserving, sending, Reach, hold, Ledger,
  claims_of, tokens_of,
}
use ckb_dex.Prelude.Result.{ok, err}
use ckb_dex.Faucet.Claims.Cooldown.{
  in_progress, already_claimed, reservation_excludes, commit_starts_cooldown,
  retaken_release_locks_out,
}
use ckb_dex.Faucet.Claims.Refund.{release_restores_usage}

abbrev limits : ClaimLimits
limits = record {
  cooldown_ms = 1000;
  reservation_timeout_ms = 300;
  drip_amount = 100;
  daily_max_claims = 2;
  daily_max_tokens = 500;
}

abbrev empty : Store
empty = record { claims = λ key. none; budgets = λ day. none }

abbrev after_reserve : Store
after_reserve = (reserve limits "0xl" "ckt1" "r1" "monday" 10 empty).1

abbrev ticket : Reservation
ticket = reservation_of "0xl" "r1" "monday" none

reserve_lem : reserve limits "0xl" "ckt1" "r1" "monday" 10 empty ≡ (ok ticket, after_reserve)
unfolding reserve reserve_budget take_budget
reserve_lem = refl

reservation_excludes_example :
    reserve limits "0xl" "ckt1" "r2" "monday" 50 after_reserve ≡ (err in_progress, after_reserve)
reservation_excludes_example =
    reservation_excludes limits "0xl" "ckt1" "r1" "monday" "ckt1" "r2" "monday" 10 50 empty
      after_reserve ticket reserve_lem (omega arith)

commit_starts_cooldown_example :
    reserve limits "0xl" "ckt1" "r2" "monday" 900 (commit limits ticket "0xtx" 20 after_reserve)
    ≡ (err already_claimed, commit limits ticket "0xtx" 20 after_reserve)
commit_starts_cooldown_example =
    commit_starts_cooldown limits "0xl" "ckt1" "r1" "monday" "ckt1" "r2" "monday" "0xtx" 10 20 900
      empty after_reserve ticket reserve_lem (omega arith)

-- The claim that the first reservation left, which nothing committed or released.
abbrev abandoned_claim : FaucetClaim
abandoned_claim = reserved_claim "ckt1" "r1" 10 none

abbrev retaken : Store
retaken = (reserve limits "0xl" "ckt1" "r2" "monday" 400 after_reserve).1

abbrev second_ticket : Reservation
second_ticket = reservation_of "0xl" "r2" "monday" (some abandoned_claim)

left_lem : after_reserve.claims "0xl" ≡ some abandoned_claim
unfolding reserve reserve_budget take_budget
left_lem = refl

retaken_lem :
    reserve limits "0xl" "ckt1" "r2" "monday" 400 after_reserve ≡ (ok second_ticket, retaken)
unfolding reserve reserve_budget take_budget is_claimable is_below is_at_most add
retaken_lem = refl

retaken_release_locks_out_example :
    reserve limits "0xl" "ckt1" "r3" "monday" 99999 (release limits second_ticket retaken)
    ≡ (err in_progress, release limits second_ticket retaken)
retaken_release_locks_out_example =
    retaken_release_locks_out limits "0xl" "ckt1" "r2" "monday" "ckt1" "r3" "monday" 400 99999
      after_reserve retaken second_ticket abandoned_claim left_lem refl retaken_lem

abbrev start : Ledger
start = record { store = empty; held = []; sent = [] }

start-IsAccounted : IsAccounted limits start
unfolding usage claims_of tokens_of
start-IsAccounted = record { at_day = λ day. (refl, omega arith, omega arith) }

limits-AreSane : AreSane limits
limits-AreSane = record { some_claims = omega arith; room_for_drip = omega arith }

held_lem :
    hold start (reserve limits "0xl" "ckt1" "r1" "monday" 10 empty)
    ≡ record { store = after_reserve; held = ticket ∷ []; sent = [] }
held_lem = rw reserve_lem refl

abbrev after_send : Ledger
after_send = record { store = after_reserve; held = []; sent = ticket ∷ [] }

sent_run : Reach limits start after_send
sent_run =
    let first : Reach limits start
        (record { store = after_reserve; held = ticket ∷ []; sent = [] }) =
      rw (← held_lem) (next here (reserving "0xl" "ckt1" "r1" "monday" 10 start)) in
    next first (sending ticket [] [] [] after_reserve)

budget_never_exceeded_example : IsAccounted limits after_send
budget_never_exceeded_example =
    budget_never_exceeded limits limits-AreSane start-IsAccounted sent_run

release_restores_usage_example :
    usage limits "monday" (release limits ticket after_reserve) ≡ usage limits "monday" empty
release_restores_usage_example =
    release_restores_usage limits "0xl" "ckt1" "r1" "monday" "monday" 10 empty after_reserve ticket
      reserve_lem
