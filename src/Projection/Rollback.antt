-- ===== src/Projection/Rollback.antt =====
-- What `applyChainReorg` of backend/src/services/event-ingestion.ts leaves behind.
use mathlib.Core.Path.{subst}
use ckb_dex.Prelude.{
  ℕ, ◌<◌, String, ◌≡◌, refl, sym, sym, ◌⊎◌, inl, inr, true, false, List, [], ◌∷◌, map, arith,
  eq_iff, member, update_where, filter, if◌then◌else◌, Bool-cases, All,
}
use ckb_dex.Prelude.Result.{ok}
use ckb_dex.Order.{Order, Trade, orphaned, reverted}
use ckb_dex.Events.{BotEvent, ChainReorg}
use ckb_dex.Projection.Lifecycle.{Projection, Applied, applied}
use ckb_dex.Projection.Ids.{UniqueIds, ids_of}
use ckb_dex.Projection.Reorg.{
  rollback_from, was_created_reverted, was_spent_reverted, was_trade_reverted, orphan_order,
  reopen_order, revert_trade, apply_chain_reorg, is_spent, at_or_after,
}

-- An order that agrees with the chain below block `from`: it was created below, or is orphaned,
-- and no spend at `from` or later is on record as a fill or a cancellation.
pub record IsRolledBack (from : ℕ) (o : Order) : Type 0 where
  pub created_below : (o.block_number < from) ⊎ (o.status ≡ orphaned)
  pub spent_below : (at_or_after from o.spent_at_block ≡ false) ⊎ (is_spent o.status ≡ false)

abbrev pub created_ids : ℕ → List Order → List String
created_ids from os = map (λ o. o.id) (filter (was_created_reverted from) os)

-- The two passes over the orders.
unfoldable pub passes : BotEvent → ℕ → List String → List Order → List Order
passes event from created os =
    update_where (was_spent_reverted from created) (reopen_order event)
      (update_where (was_created_reverted from) (orphan_order event) os)

-- An id that no document has is not collected.
created_ids-fresh :
    (from : ℕ) (id : String) (os : List Order)
    → member id (ids_of os) ≡ false
    → member id (created_ids from os) ≡ false
created_ids-fresh from id [] h = refl
created_ids-fresh from id (o ∷ os) h = ground (arith, created_ids-fresh from id os)

-- Under unique ids an order is collected exactly when it is itself selected.
NotCollected : ℕ → List String → Order → Type 0
NotCollected from created o = was_created_reverted from o ≡ false → member o.id created ≡ false

orphan-IsRolledBack :
    (event : BotEvent) (from : ℕ) (o : Order) → IsRolledBack from (orphan_order event o)
unfolding orphan_order
orphan-IsRolledBack event from o = record { created_below = inr refl; spent_below = inr refl }

orphan_not_spent :
    (event : BotEvent) (from : ℕ) (created : List String) (o : Order)
    → was_spent_reverted from created (orphan_order event o) ≡ false
unfolding orphan_order was_spent_reverted
orphan_not_spent event from created o = ground arith

reopen-IsRolledBack :
    (event : BotEvent) (from : ℕ) (o : Order)
    → was_created_reverted from o ≡ false
    → is_spent o.status ≡ true
    → IsRolledBack from (reopen_order event o)
unfolding reopen_order was_created_reverted
reopen-IsRolledBack event from o old spent = record {
  created_below = inl (ground arith);
  spent_below = inl refl;
}

spent_reverted-is_spent :
    (from : ℕ) (created : List String) (o : Order)
    → was_spent_reverted from created o ≡ true
    → is_spent o.status ≡ true
unfolding was_spent_reverted
spent_reverted-is_spent from created o h = ground arith

kept-IsRolledBack :
    (from : ℕ) (created : List String) (o : Order)
    → was_created_reverted from o ≡ false
    → was_spent_reverted from created o ≡ false
    → member o.id created ≡ false
    → IsRolledBack from o
unfolding was_created_reverted was_spent_reverted
kept-IsRolledBack from created o c s m = record {
  created_below = ground arith;
  spent_below = ground arith;
}

pass-IsRolledBack :
    (event : BotEvent) (from : ℕ) (created : List String) (o : Order)
    → NotCollected from created o
    → IsRolledBack from (
        let o' = (if was_created_reverted from o then orphan_order event o else o) in
        if was_spent_reverted from created o' then reopen_order event o' else o')
unfolding NotCollected
pass-IsRolledBack event from created o h = elim (Bool-cases (was_created_reverted from o)) [
  | inl gone ↦ rw (gone, orphan_not_spent event from created o) (orphan-IsRolledBack event from o)
  | inr stays ↦ rw stays (elim (Bool-cases (was_spent_reverted from created o)) [
    | inl undone ↦
        rw undone
          (reopen-IsRolledBack event from o stays (spent_reverted-is_spent from created o undone))
    | inr final ↦ rw final (kept-IsRolledBack from created o stays final (h stays))
  ])
]

passes-IsRolledBack :
    (event : BotEvent) (from : ℕ) (created : List String) (os : List Order)
    → All (NotCollected from created) os
    → All (IsRolledBack from) (passes event from created os)
unfolding passes
passes-IsRolledBack event from created [] h = tt
passes-IsRolledBack event from created (o ∷ os) h =
    (pass-IsRolledBack event from created o h.0, passes-IsRolledBack event from created os h.1)

-- Collecting the ids of one more document at the front.
NotCollected-cons :
    (from : ℕ) (x : Order) (created : List String) (os : List Order)
    → member x.id (ids_of os) ≡ false
    → All (NotCollected from created) os
    → All (NotCollected from (x.id ∷ created)) os
unfolding NotCollected
NotCollected-cons from x created [] fresh h = tt
NotCollected-cons from x created (o ∷ os) fresh h = (
  λ c.
      let stays : member o.id created ≡ false = h.0 c in
      ground (arith, eq_iff o.id x.id, eq_iff x.id o.id),
  NotCollected-cons from x created os (ground arith) h.1,
)

created_ids-in :
    (from : ℕ) (o : Order) (os : List Order)
    → was_created_reverted from o ≡ true
    → created_ids from (o ∷ os) ≡ o.id ∷ created_ids from os
created_ids-in from o os h = rw h

created_ids-out :
    (from : ℕ) (o : Order) (os : List Order)
    → was_created_reverted from o ≡ false
    → created_ids from (o ∷ os) ≡ created_ids from os
created_ids-out from o os h = rw h

created_ids-NotCollected :
    (from : ℕ) (os : List Order)
    → UniqueIds (ids_of os)
    → All (NotCollected from (created_ids from os)) os
unfolding NotCollected
created_ids-NotCollected from [] u = tt
created_ids-NotCollected from (o ∷ os) u =
    let fresh = created_ids-fresh from o.id os u.0 in
    let rest = created_ids-NotCollected from os u.1 in
    elim (Bool-cases (was_created_reverted from o)) [
      | inl gone ↦
          subst (λ c. All (NotCollected from c) (o ∷ os)) (sym (created_ids-in from o os gone))
            ((λ stays. cc), NotCollected-cons from o (created_ids from os) os u.0 rest)
      | inr stays ↦
          subst (λ c. All (NotCollected from c) (o ∷ os)) (sym (created_ids-out from o os stays))
            ((λ _. fresh), rest)
    ]

trades_rolled_back :
    (event : BotEvent) (from : ℕ) (ts : List Trade)
    → All
        (λ t. (t.block_number < from) ⊎ (t.status ≡ reverted))
        (update_where (was_trade_reverted from) (revert_trade event) ts)
unfolding was_trade_reverted revert_trade
trades_rolled_back event from [] = tt
trades_rolled_back event from (t ∷ ts) = (ground arith, trades_rolled_back event from ts)

pub reorg_lem :
    (event : BotEvent) (e : ChainReorg) (p : Projection) (a : Applied)
    → apply_chain_reorg event e p ≡ ok a
    → let from = rollback_from e in
      (a.result.status ≡ applied)
      × (a.projection.orders ≡ passes event from (created_ids from p.orders) p.orders)
      × (a.projection.trades ≡ update_where (was_trade_reverted from) (revert_trade event) p.trades)
unfolding apply_chain_reorg passes
reorg_lem event e p a h = (ground arith, ground arith, ground arith)

-- A reported reorganisation is applied: from a collection of orders whose ids are unique, every
-- order was created below the first block that is rolled back or is orphaned, no order is filled
-- or cancelled with a spend at that block or later, and every trade of that block or later is
-- marked as reverted.
pub reorg_rolls_back :
    (event : BotEvent) (e : ChainReorg) (p : Projection) (a : Applied)
    → UniqueIds (ids_of p.orders)
    → apply_chain_reorg event e p ≡ ok a
    → (a.result.status ≡ applied)
      × All (IsRolledBack (rollback_from e)) a.projection.orders
      × All (λ t. (t.block_number < rollback_from e) ⊎ (t.status ≡ reverted)) a.projection.trades
reorg_rolls_back event e p a u h =
    let (done, orders, trades) = reorg_lem event e p a h in
    let from = rollback_from e in
    (
      done,
      rw orders (
          passes-IsRolledBack event from (created_ids from p.orders) p.orders
            (created_ids-NotCollected from p.orders u)),
      rw trades (trades_rolled_back event from p.trades),
    )
