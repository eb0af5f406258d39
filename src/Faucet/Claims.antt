-- ===== src/Faucet/Claims.antt =====
-- faucet/src/services/claims.ts, with the documents of faucet/src/models. Each operation on a
-- collection is atomic in the database, so an interleaving of callers is a sequence of these
-- operations. The claim of a recipient and the budget of a day are found by their key: a function.
-- A reservation id is what `randomUUID` returned; dates are milliseconds, a day is a text.
pub mod Writes
pub mod Reserve
pub mod Budget
pub mod Cooldown
pub mod Refund
use ckb_dex.Prelude.{
  ℕ, ◌+◌, ◌-◌, ◌*◌, ◌/◌, String, Bool, true, false, not, ◌&&◌, ◌||◌, Option, none, some, ltb, leb,
  ◌==◌, if◌then◌else◌,
}
use ckb_dex.Faucet.Counter.{ℤ, pos, add, sub, is_below, is_at_most}
use ckb_dex.Prelude.Result.{Result, ok, err, Failure, app_error, other_error}

pub record ClaimLimits : Type 0 where
  pub cooldown_ms : ℕ
  pub reservation_timeout_ms : ℕ
  pub drip_amount : ℕ
  pub daily_max_claims : ℕ
  pub daily_max_tokens : ℕ

-- A legacy document has no status.
pub data ClaimStatus : Type 0 where
  reserved sent : ClaimStatus

pub record FaucetClaim : Type 0 where
  pub address : String
  pub status : Option ClaimStatus
  pub reserved_at : Option ℕ
  pub reservation_id : Option String
  pub last_claimed_at : Option ℕ
  pub claim_count : ℕ
  pub last_tx_hash : Option String

pub record FaucetBudget : Type 0 where
  pub claims : ℤ
  pub tokens : ℤ

pub record Store : Type 0 where
  pub claims : String → Option FaucetClaim
  pub budgets : String → Option FaucetBudget

pub record Reservation : Type 0 where
  pub lock_hash : String
  pub reservation_id : String
  pub day : String
  pub had_previous : Bool
  pub previous_status : Option ClaimStatus

abbrev pub put_claim : Store → String → Option FaucetClaim → Store
put_claim s lock_hash claim = record s {
  claims = λ key. if key == lock_hash then claim else s.claims key;
}

abbrev pub put_budget : Store → String → Option FaucetBudget → Store
put_budget s day budget = record s { budgets = λ key. if key == day then budget else s.budgets key }

abbrev pub is_reserved : Option ClaimStatus → Bool
is_reserved (some reserved) = true
is_reserved _ = false

-- `lastClaimedAt: { $not: { $gt: now - cooldown } }`: absent, or no later than the cutoff.
abbrev cooled_down : ℕ → ℕ → Option ℕ → Bool
cooled_down now cooldown none = true
cooled_down now cooldown (some last) = leb (last + cooldown) now

-- `reservedAt: { $lte: now - timeout }`, false of an absent field
abbrev abandoned : ℕ → ℕ → Option ℕ → Bool
abandoned now timeout none = false
abandoned now timeout (some at) = leb (at + timeout) now

abbrev claimed_at_or : Option ℕ → ℕ → ℕ
claimed_at_or none now = now
claimed_at_or (some at) now = at

-- The claim document that `reserve` writes.
abbrev pub reserved_claim : String → String → ℕ → Option FaucetClaim → FaucetClaim
reserved_claim address id now none = record {
  address = address;
  status = some reserved;
  reserved_at = some now;
  reservation_id = some id;
  last_claimed_at = none;
  claim_count = 0;
  last_tx_hash = none;
}
reserved_claim address id now (some old) = record old {
  address = address;
  status = some reserved;
  reserved_at = some now;
  reservation_id = some id;
}

abbrev pub reservation_of : String → String → String → Option FaucetClaim → Reservation
reservation_of lock_hash id day none = record {
  lock_hash = lock_hash;
  reservation_id = id;
  day = day;
  had_previous = false;
  previous_status = none;
}
reservation_of lock_hash id day (some old) = record {
  lock_hash = lock_hash;
  reservation_id = id;
  day = day;
  had_previous = true;
  previous_status = old.status;
}

module _ (limits : ClaimLimits) where
  -- The filter of the `findOneAndUpdate` in `reserve`, past the `_id`.
  unfoldable pub is_claimable : FaucetClaim → ℕ → Bool
  is_claimable claim now =
      (not (is_reserved claim.status) && cooled_down now limits.cooldown_ms claim.last_claimed_at)
      || (is_reserved claim.status && abandoned now limits.reservation_timeout_ms claim.reserved_at)

  -- `Math.max(1, Math.ceil((claimedAt + cooldown - now) / 1000))`
  unfoldable pub retry_after_seconds : ℕ → ℕ → ℕ
  retry_after_seconds claimed_at now =
      let wait = (claimed_at + limits.cooldown_ms - now + 999) / 1000 in
      if ltb wait 1 then 1 else wait

  -- The seconds that the message of a rejection names.
  unfoldable pub reported_wait : FaucetClaim → ℕ → ℕ
  unfolding retry_after_seconds
  reported_wait existing now = retry_after_seconds (claimed_at_or existing.last_claimed_at now) now

  -- `rejection` of a document that exists; `reported_wait` is left out of the message
  unfoldable pub rejection : FaucetClaim → ℕ → Failure
  rejection existing now =
      if is_reserved existing.status
      then app_error 409 "A claim for this address is already in progress" none
      else app_error 429 "This address already claimed - try again later" none

  unfoldable pub restore_claim : Reservation → Store → Store
  restore_claim r s = elim (s.claims r.lock_hash) [
    | none ↦ s
    | some claim ↦ elim claim.reservation_id [
      | none ↦ s
      | some id ↦
          if id == r.reservation_id
          then put_claim s r.lock_hash (
              if r.had_previous
              then some (record claim {
                status = elim r.previous_status [ none ↦ some sent | some st ↦ some st ];
                reserved_at = none;
                reservation_id = none;
              })
              else none)
          else s
    ]
  ]

  -- `takeBudget`: the update of the day's document under its guard, or the insert of a new one,
  -- which collides where a document exists that fails the guard.
  unfoldable pub take_budget : String → Store → Result Store
  take_budget day s = elim (s.budgets day) [
    | none ↦
        ok (put_budget s day (some (record { claims = pos 1; tokens = pos limits.drip_amount })))
    | some b ↦
        if is_below b.claims limits.daily_max_claims
          && is_at_most (add b.tokens limits.drip_amount) limits.daily_max_tokens
        then ok (
            put_budget s day
              (some (record { claims = add b.claims 1; tokens = add b.tokens limits.drip_amount })))
        else err (
            app_error 503 "The faucet has reached its daily limit - please try again tomorrow" none)
  ]

  -- The second half of `reserve`: the budget, and the claim restored where it is spent.
  unfoldable pub reserve_budget : Reservation → Store → Result Reservation × Store
  reserve_budget r s = elim (take_budget r.day s) [
    | ok s' ↦ (ok r, s')
    | err e ↦ (err e, restore_claim r s)
  ]

  -- `id` is the fresh reservation id and `day` the key of the day of `now`.
  unfoldable pub reserve :
      String → String → String → String → ℕ → Store → Result Reservation × Store
  reserve lock_hash address id day now s = elim (s.claims lock_hash) [
    | none ↦
        reserve_budget (reservation_of lock_hash id day none)
          (put_claim s lock_hash (some (reserved_claim address id now none)))
    | some old ↦
        let taken =
          reserve_budget (reservation_of lock_hash id day (some old))
            (put_claim s lock_hash (some (reserved_claim address id now (some old)))) in
        if is_claimable old now then taken else (err (rejection old now), s)
  ]

  unfoldable pub commit : Reservation → String → ℕ → Store → Store
  commit r tx_hash now s = elim (s.claims r.lock_hash) [
    | none ↦ s
    | some claim ↦ elim claim.reservation_id [
      | none ↦ s
      | some id ↦
          if id == r.reservation_id
          then put_claim s r.lock_hash (
              some (record claim {
                status = some sent;
                last_claimed_at = some now;
                last_tx_hash = some tx_hash;
                reserved_at = none;
                reservation_id = none;
                claim_count = claim.claim_count + 1;
              }))
          else s
    ]
  ]

  -- `$inc` of the budget document by minus one claim and minus one drip, whatever it holds.
  abbrev pub give_back : FaucetBudget → FaucetBudget
  give_back b = record { claims = sub b.claims 1; tokens = sub b.tokens limits.drip_amount }

  unfoldable pub release : Reservation → Store → Store
  release r s =
      let restored = restore_claim r s in
      elim (restored.budgets r.day) [
        | none ↦ restored
        | some b ↦ put_budget restored r.day (some (give_back b))
      ]

  unfoldable pub usage : String → Store → ℤ × ℤ
  usage day s = elim (s.budgets day) [ none ↦ (pos 0, pos 0) | some b ↦ (b.claims, b.tokens) ]
