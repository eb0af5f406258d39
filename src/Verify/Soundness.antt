-- ===== src/Verify/Soundness.antt =====
-- What an event that passes backend/src/services/event-verification.ts is known to say truly.
use ckb_dex.Prelude.Result.{>>=-eq-ok, ensure-eq-ok, ok}
use ckb_dex.Prelude.{ℕ, ◌≤◌, ◌≡◌, String, some, Option, ◌<◌, ◌==◌, true, arith, none, ◌+◌, leb}
use ckb_dex.Events.{BotEvent}
use ckb_dex.Verify.{
  ChainVerification, ChainTransaction, require_confirmed, committed_tx, same_number, confirmations,
  same_hex,
}
use mathlib.Core.Path.{subst}

-- A transaction that the chain has committed in the block that the event names, and buried under
-- as many blocks as the configuration asks for.
pub record IsConfirmed (v : ChainVerification) (tx_hash : String) (event : BotEvent)
    (tx : ChainTransaction) : Type 0 where
  pub known : v.chain.get_transaction tx_hash ≡ some tx
  pub committed : (tx.status == "committed") ≡ true
  pub height : ℕ
  pub at_height : tx.block_number ≡ some height
  pub event_height : event.block_number ≡ some height
  pub same_block : same_hex event.block_hash tx.block_hash ≡ true
  pub buried : v.confirmation_depth + height ≤ v.chain.get_tip + 1

committed_lem :
    (v : ChainVerification) (found : Option ChainTransaction) (tx : ChainTransaction) (n : ℕ)
    (hash : String)
    → committed_tx v found ≡ ok (tx, n, hash)
    → (found ≡ some tx)
      × ((tx.status == "committed") ≡ true)
      × (tx.block_number ≡ some n)
      × (tx.block_hash ≡ some hash)
unfolding committed_tx
committed_lem v none tx n hash h = cc
committed_lem v (some t) tx n hash h = ground arith

deep_enough :
    (v : ChainVerification) (tip n : ℕ)
    → 0 < v.confirmation_depth
    → leb v.confirmation_depth (confirmations v tip n) ≡ true
    → v.confirmation_depth + n ≤ tip + 1
unfolding confirmations
deep_enough v tip n depth h = ground arith

IsConfirmed-of :
    (v : ChainVerification) (tx_hash : String) (event : BotEvent) (t tx : ChainTransaction) (n : ℕ)
    (hash : String)
    → 0 < v.confirmation_depth
    → v.chain.get_transaction tx_hash ≡ some t
    → (t.status == "committed") ≡ true
    → t.block_number ≡ some n
    → t.block_hash ≡ some hash
    → same_hex event.block_hash (some hash) ≡ true
    → same_number v event.block_number n ≡ true
    → leb v.confirmation_depth (confirmations v v.chain.get_tip n) ≡ true
    → ok t ≡ ok tx
    → IsConfirmed v tx_hash event tx
unfolding same_number
IsConfirmed-of v tx_hash event t tx n hash depth known status number block in_block at_number deep
      same =
    let e : t ≡ tx = cc in
    subst (IsConfirmed v tx_hash event) e (record {
      known = known;
      committed = status;
      height = n;
      at_height = number;
      event_height = ground arith;
      same_block = rw block in_block;
      buried = deep_enough v v.chain.get_tip n depth deep;
    })

-- A transaction passes the confirmation check only if the chain has it committed, at the height
-- and in the block that the event names, under at least the configured number of confirmations
-- (which must not be zero for the height to lie below the tip).
pub require_confirmed_sound :
    (v : ChainVerification) (tx_hash : String) (event : BotEvent) (tx : ChainTransaction)
    → 0 < v.confirmation_depth
    → require_confirmed v tx_hash event ≡ ok tx
    → IsConfirmed v tx_hash event tx
unfolding require_confirmed
require_confirmed_sound v tx_hash event tx depth h =
    let ((t, n, hash), found, rest) =
      >>=-eq-ok (committed_tx v (v.chain.get_transaction tx_hash)) _ h in
    let (in_block, rest1) = ensure-eq-ok _ _ _ rest in
    let (at_number, rest2) = ensure-eq-ok _ _ _ rest1 in
    let (deep, same) = ensure-eq-ok _ _ _ rest2 in
    let (known, status, number, block) = committed_lem v _ t n hash found in
    IsConfirmed-of v tx_hash event t tx n hash depth known status number block in_block at_number
      deep same
