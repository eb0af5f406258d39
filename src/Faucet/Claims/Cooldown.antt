-- ===== src/Faucet/Claims/Cooldown.antt =====
-- What a recipient meets after a reservation, a commit or a release (faucet/src/services/claims.ts).
use ckb_dex.Prelude.{
  ℕ, ◌+◌, ◌<◌, ◌≡◌, refl, sym, ◌∙◌, String, true, false, Option, none, some, arith, eq_refl, ap,
}
use ckb_dex.Prelude.Result.{ok, err, app_error, Failure}
use ckb_dex.Faucet.Claims.{
  ClaimLimits, reserved, sent, FaucetClaim, Store, Reservation, restore_claim, reserve, commit,
  release, reservation_of, reserved_claim, is_claimable, rejection,
}
use ckb_dex.Faucet.Claims.Reserve.{Taken, reserve-Taken}

abbrev pub in_progress : Failure
in_progress = app_error 409 "A claim for this address is already in progress" none

abbrev pub already_claimed : Failure
already_claimed = app_error 429 "This address already claimed - try again later" none

reserved_claim_lem :
    (address id : String) (now : ℕ) (before : Option FaucetClaim)
    → let c = reserved_claim address id now before in
      (c.status ≡ some reserved) × (c.reserved_at ≡ some now) × (c.reservation_id ≡ some id)
reserved_claim_lem address id now none = (refl, refl, refl)
reserved_claim_lem address id now (some old) = (refl, refl, refl)

reservation_of_lem :
    (lock_hash id day : String) (before : Option FaucetClaim)
    → let r = reservation_of lock_hash id day before in
      (r.lock_hash ≡ lock_hash) × (r.reservation_id ≡ id) × (r.day ≡ day)
reservation_of_lem lock_hash id day none = (refl, refl, refl)
reservation_of_lem lock_hash id day (some old) = (refl, refl, refl)

-- The names under which a reservation stands, and the document that it wrote.
module _ (limits : ClaimLimits) (lock_hash address id day : String) (now : ℕ) (s t : Store)
    (r : Reservation) (h : reserve limits lock_hash address id day now s ≡ (ok r, t)) where
  written : FaucetClaim
  written = reserved_claim address id now (s.claims lock_hash)

  taken : Taken limits lock_hash address id day now s r t
  taken = reserve-Taken limits lock_hash address id day now s r t h

  lock_eq : r.lock_hash ≡ lock_hash
  lock_eq =
      ap (λ (x : Reservation). x.lock_hash) taken.the_reservation
      ∙ (reservation_of_lem lock_hash id day (s.claims lock_hash)).0

  id_eq : r.reservation_id ≡ id
  id_eq =
      ap (λ (x : Reservation). x.reservation_id) taken.the_reservation
      ∙ (reservation_of_lem lock_hash id day (s.claims lock_hash)).1

  day_eq : r.day ≡ day
  day_eq =
      ap (λ (x : Reservation). x.day) taken.the_reservation
      ∙ (reservation_of_lem lock_hash id day (s.claims lock_hash)).2

  stored_eq : t.claims r.lock_hash ≡ some written
  unfolding written
  stored_eq = ap t.claims lock_eq ∙ taken.the_claim

  mine : written.reservation_id ≡ some r.reservation_id
  unfolding written
  mine = (reserved_claim_lem address id now (s.claims lock_hash)).2 ∙ ap some (sym id_eq)

module _ (limits : ClaimLimits) where
  refused :
      (lock_hash address id day : String) (now : ℕ) (s : Store) (c : FaucetClaim)
      → s.claims lock_hash ≡ some c
      → is_claimable limits c now ≡ false
      → reserve limits lock_hash address id day now s ≡ (err (rejection limits c now), s)
  unfolding reserve
  refused lock_hash address id day now s c known busy = rw (known, reserve, busy)

  held-not_claimable :
      (c : FaucetClaim) (since now : ℕ)
      → c.status ≡ some reserved
      → c.reserved_at ≡ some since
      → now < since + limits.reservation_timeout_ms
      → (is_claimable limits c now ≡ false) × (rejection limits c now ≡ in_progress)
  unfolding is_claimable rejection
  held-not_claimable c since now st at early = (ground arith, ground arith)

  sent-not_claimable :
      (c : FaucetClaim) (last now : ℕ)
      → c.status ≡ some sent
      → c.last_claimed_at ≡ some last
      → now < last + limits.cooldown_ms
      → (is_claimable limits c now ≡ false) × (rejection limits c now ≡ already_claimed)
  unfolding is_claimable rejection
  sent-not_claimable c last now st at early = (ground arith, ground arith)

  -- A reserved document with no date of reservation is never claimable.
  stuck-not_claimable :
      (c : FaucetClaim) (now : ℕ)
      → c.status ≡ some reserved
      → c.reserved_at ≡ none
      → (is_claimable limits c now ≡ false) × (rejection limits c now ≡ in_progress)
  unfolding is_claimable rejection
  stuck-not_claimable c now st at = (ground arith, ground arith)

-- While a reservation is in progress and has not timed out, every other request for the same
-- recipient is refused with status 409 and changes nothing.
pub reservation_excludes :
    (limits : ClaimLimits) (lock_hash address id day address' id' day' : String) (now later : ℕ)
    (s t : Store) (r : Reservation)
    → reserve limits lock_hash address id day now s ≡ (ok r, t)
    → later < now + limits.reservation_timeout_ms
    → reserve limits lock_hash address' id' day' later t ≡ (err in_progress, t)
reservation_excludes limits lock_hash address id day address' id' day' now later s t r h early =
    let taken = reserve-Taken limits lock_hash address id day now s r t h in
    let c = reserved_claim address id now (s.claims lock_hash) in
    let (st, at, by) = reserved_claim_lem address id now (s.claims lock_hash) in
    let (busy, why) = held-not_claimable limits c now later st at early in
    refused limits lock_hash address' id' day' later t c taken.the_claim busy
    ∙ ap (λ e. (err e, t)) why

commit_lem :
    (limits : ClaimLimits) (r : Reservation) (tx_hash : String) (at : ℕ) (s : Store)
    (c : FaucetClaim)
    → s.claims r.lock_hash ≡ some c
    → c.reservation_id ≡ some r.reservation_id
    → (d : FaucetClaim) × ((commit limits r tx_hash at s).claims r.lock_hash ≡ some d)
      × (d.status ≡ some sent)
      × (d.last_claimed_at ≡ some at)
      × (d.claim_count ≡ c.claim_count + 1)
unfolding commit
commit_lem limits r tx_hash at s c known mine = (
  record c {
    status = some sent;
    last_claimed_at = some at;
    last_tx_hash = some tx_hash;
    reserved_at = none;
    reservation_id = none;
    claim_count = c.claim_count + 1;
  },
  ground (arith, eq_refl r.lock_hash, eq_refl r.reservation_id),
  refl,
  refl,
  refl,
)

-- Once the claim of a reservation is committed, a request for the same recipient within the
-- cooldown is refused with status 429 and changes nothing.
pub commit_starts_cooldown :
    (limits : ClaimLimits) (lock_hash address id day address' id' day' tx_hash : String)
    (now at later : ℕ) (s t : Store) (r : Reservation)
    → reserve limits lock_hash address id day now s ≡ (ok r, t)
    → later < at + limits.cooldown_ms
    → reserve limits lock_hash address' id' day' later (commit limits r tx_hash at t)
      ≡ (err already_claimed, commit limits r tx_hash at t)
commit_starts_cooldown limits lock_hash address id day address' id' day' tx_hash now at later s t r
      h early =
    let u = commit limits r tx_hash at t in
    let (d, stored, st, last, _) =
      commit_lem limits r tx_hash at t (written limits lock_hash address id day now s t r h)
        (stored_eq limits lock_hash address id day now s t r h)
        (mine limits lock_hash address id day now s t r h) in
    let (busy, why) = sent-not_claimable limits d at later st last early in
    refused limits lock_hash address' id' day' later u d
      (ap u.claims (sym (lock_eq limits lock_hash address id day now s t r h)) ∙ stored) busy
    ∙ ap (λ e. (err e, u)) why

restore_lem :
    (limits : ClaimLimits) (r : Reservation) (s : Store) (c : FaucetClaim)
    → s.claims r.lock_hash ≡ some c
    → c.reservation_id ≡ some r.reservation_id
    → r.had_previous ≡ true
    → r.previous_status ≡ some reserved
    → (d : FaucetClaim) × ((release limits r s).claims r.lock_hash ≡ some d)
      × (d.status ≡ some reserved)
      × (d.reserved_at ≡ none)
unfolding release restore_claim
restore_lem limits r s c known mine had status = (
  record c { status = some reserved; reserved_at = none; reservation_id = none },
  ground (arith, eq_refl r.lock_hash, eq_refl r.reservation_id),
  refl,
  refl,
)

reservation_of-some :
    (lock_hash id day : String) (before : Option FaucetClaim) (old : FaucetClaim)
    → before ≡ some old
    → ((reservation_of lock_hash id day before).had_previous ≡ true)
      × ((reservation_of lock_hash id day before).previous_status ≡ old.status)
reservation_of-some lock_hash id day none old h = cc
reservation_of-some lock_hash id day (some c) old h = (refl, ground arith)

-- A reservation that was abandoned and is retaken locks its recipient out when the retry fails:
-- releasing it puts the status RESERVED back without a date of reservation, so that from then on
-- every request for the recipient, at any time, is refused with status 409 and changes nothing.
pub retaken_release_locks_out :
    (limits : ClaimLimits) (lock_hash address id day address' id' day' : String) (now later : ℕ)
    (s t : Store) (r : Reservation) (old : FaucetClaim)
    → s.claims lock_hash ≡ some old
    → old.status ≡ some reserved
    → reserve limits lock_hash address id day now s ≡ (ok r, t)
    → reserve limits lock_hash address' id' day' later (release limits r t)
      ≡ (err in_progress, release limits r t)
retaken_release_locks_out limits lock_hash address id day address' id' day' now later s t r old
      known was h =
    let u = release limits r t in
    let reservation = (taken limits lock_hash address id day now s t r h).the_reservation in
    let (had, status) = reservation_of-some lock_hash id day (s.claims lock_hash) old known in
    let (d, stored, st, no_date) =
      restore_lem limits r t (written limits lock_hash address id day now s t r h)
        (stored_eq limits lock_hash address id day now s t r h)
        (mine limits lock_hash address id day now s t r h)
        (ap (λ (x : Reservation). x.had_previous) reservation ∙ had)
        (ap (λ (x : Reservation). x.previous_status) reservation ∙ status ∙ was) in
    let (busy, why) = stuck-not_claimable limits d later st no_date in
    refused limits lock_hash address' id' day' later u d
      (ap u.claims (sym (lock_eq limits lock_hash address id day now s t r h)) ∙ stored) busy
    ∙ ap (λ e. (err e, u)) why
