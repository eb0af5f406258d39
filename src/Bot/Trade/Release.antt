-- ===== src/Bot/Trade/Release.antt =====
-- What `executeTrade` of backend/src/bot/index.ts leaves behind when it fails.
use ckb_dex.Prelude.{
  ap, ◌∙◌, not, ℕ, String, List, All, [], ◌∷◌, ◌≡◌, update_where, Bool-cases, filter, ◌==◌, inl,
  inr, refl, find, Option, some, arith, ◌⊎◌, eq_iff, none, if◌then◌else◌, false, Option-cases,
}
use ckb_dex.Bot.Session.{orders_of, with_orders}
use ckb_dex.Bot.Node.{Node, Settlement}
use ckb_dex.Bot.Trade.{
  reopen, revert_to_live, has_id, release_failed, is_live_id, reserve_sell, settle_or_release,
  settle, reserve_buy, reserve, reserve_order, execute_trade, reserve_and_settle, check_pair, build,
}
use ckb_dex.Projection.Spend.{selected}
use ckb_dex.Order.{Order, live}
use ckb_dex.Ingestion.{Database}
use ckb_dex.Verify.{ChainVerification}
use ckb_dex.Prelude.Result.{Result, Failure, err, ok, ◌>>=◌, Result-cases}
use mathlib.Core.Path.{subst, ap₂}

-- Every order with one of the ids is live.
abbrev pub Released : List String → List Order → Type 0
Released ids os = All (λ o. o.status ≡ live) (filter (selected ids) os)

Released-none : (os : List Order) → Released [] os
Released-none [] = tt
Released-none (o ∷ os) = Released-none os

Released-tail :
    (ids : List String) (o : Order) (os : List Order) → Released ids (o ∷ os) → Released ids os
Released-tail ids o os h = elim (Bool-cases (selected ids o)) [
  | inl yes_o ↦ (rw yes_o at h).1
  | inr no_o ↦ rw no_o at h
]

Released-cons_live :
    (ids : List String) (o : Order) (os : List Order)
    → o.status ≡ live
    → Released ids os
    → Released ids (o ∷ os)
Released-cons_live ids o os is_live rest = elim (Bool-cases (selected ids o)) [
  | inl yes_o ↦ rw yes_o (is_live, rest)
  | inr no_o ↦ rw no_o rest
]

Released-cons_other :
    (ids : List String) (o : Order) (os : List Order)
    → selected ids o ≡ false
    → Released ids os
    → Released ids (o ∷ os)
Released-cons_other ids o os no_o rest = rw no_o rest

-- An order that was live if it is selected, and is not the one that is added.
status_kept :
    (id : String) (ids : List String) (o : Order) (os rest : List Order)
    → (id == o.id) ≡ false
    → Released ids (o ∷ os)
    → Released (id ∷ ids) rest
    → Released (id ∷ ids) (o ∷ rest)
status_kept id ids o os rest other h tail = elim (Bool-cases (selected ids o)) [
  | inl yes_o ↦ Released-cons_live (id ∷ ids) o rest (rw yes_o at h).0 tail
  | inr no_o ↦ Released-cons_other (id ∷ ids) o rest (rw (other, no_o)) tail
]

Released-reopen :
    (id : String) (ids : List String) (os : List Order)
    → Released ids os
    → Released (id ∷ ids) (update_where (has_id id) reopen os)
unfolding reopen
Released-reopen id ids [] h = tt
Released-reopen id ids (o ∷ os) h =
    let after = update_where (has_id id) reopen os in
    let rest = Released-reopen id ids os (Released-tail ids o os h) in
    elim (Bool-cases (id == o.id)) [
      | inl same ↦
          let hit : reopen o ≡ (if has_id id o then reopen o else o) = rw same in
          subst (λ x. Released (id ∷ ids) (x ∷ after)) hit
            (Released-cons_live (id ∷ ids) (reopen o) after refl rest)
      | inr other ↦
          let miss : o ≡ (if has_id id o then reopen o else o) = rw other in
          subst (λ x. Released (id ∷ ids) (x ∷ after)) miss
            (status_kept id ids o os after other h rest)
    ]

-- Putting two orders back leaves both live.
reverted-Released :
    (buy_id sell_id : String) (db : Database)
    → Released
        (sell_id ∷ buy_id ∷ [])
        (orders_of (revert_to_live sell_id (revert_to_live buy_id db).1).1)
unfolding revert_to_live
reverted-Released buy_id sell_id db =
    Released-reopen sell_id (buy_id ∷ []) _
      (Released-reopen buy_id [] (orders_of db) (Released-none (orders_of db)))

find_live-id :
    (id : String) (os : List Order) (o : Order) → find (is_live_id id) os ≡ some o → o.id ≡ id
find_live-id id [] o h = cc
find_live-id id (x ∷ xs) o h = ground (arith, find_live-id id xs o, eq_iff x.id id)

-- The orders with another id.
abbrev pub others : String → List Order → List Order
others id = filter (λ o. not (has_id id o))

others-reserve :
    (now : ℕ) (id : String) (os : List Order)
    → others id (update_where (is_live_id id) (reserve_order now) os) ≡ others id os
unfolding reserve_order
others-reserve now id [] = refl
others-reserve now id (o ∷ os) =
    ground (arith, others-reserve now id os, eq_iff o.id id, eq_iff id o.id)

others-reopen :
    (id : String) (os : List Order) → others id (update_where (has_id id) reopen os) ≡ others id os
unfolding reopen
others-reopen id [] = refl
others-reopen id (o ∷ os) = ground (arith, others-reopen id os)

-- A reservation finds the order of its id, or writes nothing, and keeps the other orders.
reserve_cases :
    (now : ℕ) (id : String) (db : Database)
    → (found : Option Order) × (after : Database) × (reserve now id db ≡ (ok found, after))
      × ((o : Order) → found ≡ some o → o.id ≡ id)
      × (found ≡ none → after ≡ db)
      × (others id (orders_of after) ≡ others id (orders_of db))
unfolding reserve reserve_order
reserve_cases now id db = elim (Option-cases (find (is_live_id id) (orders_of db))) [
  | inl missing ↦ (none, db, rw (missing, reserve), λ o h. cc, λ h. refl, refl)
  | inr (o, found) ↦ (
    some (reserve_order now o),
    with_orders db (update_where (is_live_id id) (reserve_order now) (orders_of db)),
    rw (found, reserve),
    λ x h. ground (arith, find_live-id id (orders_of db) o found),
    λ h. cc,
    others-reserve now id (orders_of db),
  )
]

ids_moved :
    {s s' b b' : String} (os : List Order)
    → s ≡ s'
    → b ≡ b'
    → Released (s ∷ b ∷ []) os
    → Released (s' ∷ b' ∷ []) os
ids_moved os e f h =
    subst (λ (x : String × String). Released (x.0 ∷ x.1 ∷ []) os) (ap₂ (λ a b. (a, b)) e f) h

-- What a failed attempt leaves: nothing written; or, where it reserved the buy order alone, that
-- one put back and every other order as it was; or both orders put back.
abbrev pub LeftBy : String → String → Database → Database → Type 0
LeftBy buy_id sell_id before after =
    (after ≡ before)
    ⊎ (Released (buy_id ∷ []) (orders_of after)
        × (others buy_id (orders_of after) ≡ others buy_id (orders_of before)))
    ⊎ Released (sell_id ∷ buy_id ∷ []) (orders_of after)

module _ (node : Node) (registered : Option ChainVerification) (now : ℕ) (stamp : String) where
  release_failed-Released :
      (buy sell : Order) (done : Result String × Database) (e : Failure)
      → (release_failed node registered now stamp buy sell done).0 ≡ err e
      → Released
          (sell.id ∷ buy.id ∷ [])
          (orders_of (release_failed node registered now stamp buy sell done).1)
  unfolding release_failed
  release_failed-Released buy sell (ok tx_hash, db) e h = cc
  release_failed-Released buy sell (err f, db) e h = reverted-Released buy.id sell.id db

  pub settle_or_release-Released :
      (tx : Settlement) (buy sell : Order) (db : Database) (e : Failure)
      → (settle_or_release node registered now stamp tx buy sell db).0 ≡ err e
      → Released
          (sell.id ∷ buy.id ∷ [])
          (orders_of (settle_or_release node registered now stamp tx buy sell db).1)
  unfolding settle_or_release
  settle_or_release-Released tx buy sell db e h =
      release_failed-Released buy sell (settle node registered now stamp tx buy sell db) e h

  module _ (tx : Settlement) (buy_id sell_id : String) (db : Database) (e : Failure) where
    reserve_sell-LeftBy :
        (buy : Order) (found : Option Order) (db' : Database)
        → buy.id ≡ buy_id
        → ((o : Order) → found ≡ some o → o.id ≡ sell_id)
        → (found ≡ none → others buy_id (orders_of db') ≡ others buy_id (orders_of db))
        → (reserve_sell node registered now stamp tx buy found db').0 ≡ err e
        → LeftBy buy_id sell_id db (reserve_sell node registered now stamp tx buy found db').1
    unfolding reserve_sell revert_to_live
    reserve_sell-LeftBy buy none db' b s same h = inr (
        inl (
          rw b (
            Released-reopen buy_id [] (orders_of db') (Released-none (orders_of db')),
            others-reopen buy_id (orders_of db') ∙ same refl,
          )))
    reserve_sell-LeftBy buy (some sell) db' b s same h =
        let left = settle_or_release-Released tx buy sell db' e h in
        inr (inr (ids_moved _ (s sell refl) b left))

    reserve_buy-LeftBy :
        (found : Option Order) (db' : Database)
        → ((o : Order) → found ≡ some o → o.id ≡ buy_id)
        → (found ≡ none → db' ≡ db)
        → others buy_id (orders_of db') ≡ others buy_id (orders_of db)
        → (reserve_buy node registered now stamp tx sell_id found db').0 ≡ err e
        → LeftBy buy_id sell_id db (reserve_buy node registered now stamp tx sell_id found db').1
    unfolding reserve_buy
    reserve_buy-LeftBy none db' b same rest h = inl (same refl)
    reserve_buy-LeftBy (some buy) db' b same rest h =
        let (sell, db'', done, named, kept, moved) = reserve_cases now sell_id db' in
        let unmoved = λ (missing : sell ≡ none).
          ap (λ (x : Database). others buy_id (orders_of x)) (kept missing) ∙ rest in
        let left = reserve_sell-LeftBy buy sell db'' (b buy refl) named unmoved in
        rw (done, ◌>>=◌) (left (rw (done, ◌>>=◌) at h))

    reserve_and_settle-LeftBy :
        (reserve_and_settle node registered now stamp buy_id sell_id tx db).0 ≡ err e
        → LeftBy buy_id sell_id db
            (reserve_and_settle node registered now stamp buy_id sell_id tx db).1
    unfolding reserve_and_settle
    reserve_and_settle-LeftBy h =
        let (buy, db', done, named, kept, moved) = reserve_cases now buy_id db in
        let left = reserve_buy-LeftBy buy db' named kept moved in
        rw (done, ◌>>=◌) (left (rw (done, ◌>>=◌) at h))

-- An attempt to trade that fails leaves no order reserved by it: it has written nothing; or it had
-- reserved the buy order alone, every order with the id of the buy is live and all the others are as
-- they were; or it had reserved both, and every order with the id of either is live.
pub failed_trade_releases :
    (node : Node) (registered : Option ChainVerification) (now : ℕ) (stamp : String)
    (supported : List String) (buy sell : Order) (db : Database) (e : Failure)
    → (execute_trade node registered now stamp supported buy sell db).0 ≡ err e
    → LeftBy buy.id sell.id db (execute_trade node registered now stamp supported buy sell db).1
unfolding execute_trade
failed_trade_releases node registered now stamp supported buy sell db e h =
    elim (Result-cases (check_pair supported buy sell)) [
      | inr (f, refused) ↦ rw (refused, execute_trade) (inl refl)
      | inl (u, fits) ↦ elim (Result-cases (build node buy sell)) [
        | inr (f, refused) ↦ rw (fits, execute_trade, refused) (inl refl)
        | inl (tx, built) ↦
            rw (fits, execute_trade, built)
              (reserve_and_settle-LeftBy node registered now stamp tx buy.id sell.id db e
                (rw (fits, execute_trade, built) at h))
      ]
    ]
