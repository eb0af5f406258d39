-- ===== src/Faucet/Service.antt =====
-- `TokenFaucet.claim` of faucet/src/services/faucet.ts. Parsing an address, sending the tokens and
-- whether a call of the database throws are parameters; the mutex around `send` orders the calls.
pub mod Laws
pub mod Runs
use Prim.Native.String
use ckb_dex.Prelude.{ℕ, String, suc, Option, if◌then◌else◌, Bool, ltb, zero, none, some}
use ckb_dex.Faucet.Claims.{ClaimLimits, Store, Reservation, reserve, commit, release}
use ckb_dex.Prelude.Result.{Result, ok, err, app_error}

-- MAX_ADDRESS_LENGTH
abbrev pub max_address_length : ℕ
max_address_length = 256

-- What lies outside the service: the lock hash of an address of the network, the hash of a sent
-- transaction, and the calls of the database that throw.
pub record Outside : Type 0 where
  pub length_of : String → ℕ
  pub lock_hash_of : String → Option String
  pub send : String → Result String
  pub commit_throws : ℕ → Bool
  pub release_throws : Bool

-- One request: its address, the fresh reservation id, the day, and the times of the reservation
-- and of the commit.
pub record Request : Type 0 where
  pub address : String
  pub reservation_id : String
  pub day : String
  pub now : ℕ
  pub sent_at : ℕ

module _ (limits : ClaimLimits) (out : Outside) where
  -- The loop over the attempts to commit: `left` more of them may run, and a failed one is only
  -- logged.
  unfoldable pub commit_attempts : ℕ → Reservation → String → ℕ → Store → Store
  commit_attempts zero r tx_hash now s = s
  commit_attempts (suc left) r tx_hash now s =
      let again = commit_attempts left r tx_hash now s in
      if out.commit_throws left then again else commit limits r tx_hash now s

  unfoldable pub send_claim : Request → String → Reservation → Store → Result String × Store
  send_claim q lock_hash r s = elim (out.send lock_hash) [
    | ok tx_hash ↦ (ok tx_hash, commit_attempts 3 r tx_hash q.sent_at s)
    | err e ↦ (err e, if out.release_throws then s else release limits r s)
  ]

  unfoldable pub after_reserve :
      Request → String → Result Reservation × Store → Result String × Store
  after_reserve q lock_hash (ok r, s) = send_claim q lock_hash r s
  after_reserve q lock_hash (err e, s) = (err e, s)

  unfoldable pub claim : Request → Store → Result String × Store
  claim q s =
      if ltb max_address_length (out.length_of q.address)
      then (err (app_error 400 "Invalid address" none), s)
      else elim (out.lock_hash_of q.address) [
        | none ↦ (err (app_error 400 "Invalid address for this network" none), s)
        | some lock_hash ↦
            after_reserve q lock_hash
              (reserve limits lock_hash q.address q.reservation_id q.day q.now s)
      ]
