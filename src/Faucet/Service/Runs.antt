-- ===== src/Faucet/Service/Runs.antt =====
-- That `TokenFaucet.claim` of faucet/src/services/faucet.ts releases a reservation only where it
-- holds it unsent: a claim is a run of the steps of the ledger of reservations.
use ckb_dex.Prelude.{
  ℕ, String, Bool-cases, suc, ltb, inl, ◌≡◌, inr, zero, refl, Option-cases, List, [], ◌∷◌,
}
use ckb_dex.Faucet.Claims.{ClaimLimits, Store, reserve, Reservation}
use ckb_dex.Faucet.Claims.Budget.{
  Ledger, Reach, here, next, reserving, sending, committing, releasing, hold,
}
use ckb_dex.Faucet.Service.{
  Outside, Request, claim, after_reserve, send_claim, commit_attempts, max_address_length,
}
use ckb_dex.Prelude.Result.{Result, ok, err}

-- Some ledger with this store is reached.
pub record Runs (limits : ClaimLimits) (l : Ledger) (s : Store) : Type 0 where
  pub held : List Reservation
  pub sent : List Reservation
  pub run : Reach limits l (record { store = s; held = held; sent = sent })

module _ (limits : ClaimLimits) (out : Outside) where
  commit_attempts-Reach :
      (left : ℕ) (r : Reservation) (tx_hash : String) (now : ℕ) (l : Ledger) (s : Store)
      (held sent : List Reservation)
      → Reach limits l (record { store = s; held = held; sent = sent })
      → Reach limits l (record {
        store = commit_attempts limits out left r tx_hash now s;
        held = held;
        sent = sent;
      })
  unfolding commit_attempts
  commit_attempts-Reach zero r tx_hash now l s held sent seen = seen
  commit_attempts-Reach (suc left) r tx_hash now l s held sent seen =
      elim (Bool-cases (out.commit_throws left)) [
        | inl thrown ↦ rw thrown (commit_attempts-Reach left r tx_hash now l s held sent seen)
        | inr fine ↦ rw fine (next seen (committing r tx_hash now _))
      ]

  send_claim-Runs :
      (q : Request) (lock_hash : String) (r : Reservation) (l : Ledger) (s : Store)
      (held sent : List Reservation) (answer : Result String)
      → out.send lock_hash ≡ answer
      → Reach limits l (record { store = s; held = r ∷ held; sent = sent })
      → Runs limits l (send_claim limits out q lock_hash r s).1
  unfolding send_claim
  send_claim-Runs q lock_hash r l s held sent (ok tx_hash) e seen =
      rw (e, send_claim)
        (record {
          held = held;
          sent = r ∷ sent;
          run =
              commit_attempts-Reach 3 r tx_hash q.sent_at l s held (r ∷ sent)
                (next seen (sending r [] held sent s));
        })
  send_claim-Runs q lock_hash r l s held sent (err f) e seen =
      elim (Bool-cases out.release_throws) [
        | inl thrown ↦
            rw (e, send_claim, thrown) (record { held = r ∷ held; sent = sent; run = seen })
        | inr fine ↦
            rw (e, send_claim, fine)
              (record { held = held; sent = sent; run = next seen (releasing r [] held sent s) })
      ]

  after_reserve-Runs :
      (q : Request) (lock_hash : String) (l : Ledger) (taken : Result Reservation × Store)
      → Reach limits l (hold l taken)
      → Runs limits l (after_reserve limits out q lock_hash taken).1
  unfolding after_reserve
  after_reserve-Runs q lock_hash l (ok r, s) seen =
      send_claim-Runs q lock_hash r l s l.held l.sent (out.send lock_hash) refl seen
  after_reserve-Runs q lock_hash l (err e, s) seen = record {
    held = l.held;
    sent = l.sent;
    run = seen;
  }

  -- Every claim is a run of reserve, send, commit and release that releases nothing sent.
  claim-Runs : (q : Request) (l : Ledger) → Runs limits l (claim limits out q l.store).1
  unfolding claim
  claim-Runs q l =
      let nothing : Runs limits l l.store = record { held = l.held; sent = l.sent; run = here } in
      elim (Bool-cases (ltb max_address_length (out.length_of q.address))) [
        | inl long ↦ rw long nothing
        | inr short ↦ elim (Option-cases (out.lock_hash_of q.address)) [
          | inl unknown ↦ rw (short, unknown) nothing
          | inr (lock_hash, known) ↦
              rw (short, known)
                (after_reserve-Runs q lock_hash l
                  (reserve limits lock_hash q.address q.reservation_id q.day q.now l.store)
                  (next here (reserving lock_hash q.address q.reservation_id q.day q.now l)))
        ]
      ]
