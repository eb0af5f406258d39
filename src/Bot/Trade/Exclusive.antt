-- ===== src/Bot/Trade/Exclusive.antt =====
-- That an order which `executeTrade` of backend/src/bot/index.ts has reserved is reserved by no
-- other attempt.
use ckb_dex.Prelude.{
  Bool-cases, ℕ, String, List, ◌≡◌, update_where, find, Option, some, none, arith, ◌⊎◌, inl, inr,
  refl, [], ◌∷◌, Option-cases, ap, false,
}
use ckb_dex.Bot.Session.{orders_of, with_orders}
use ckb_dex.Bot.Node.{Node, Settlement}
use ckb_dex.Bot.Trade.{
  revert_to_live, is_live_id, reserve, reserve_order, reserve_buy, reserve_sell, reserve_and_settle,
  execute_trade, check_pair, build,
}
use ckb_dex.Order.{Order}
use ckb_dex.Ingestion.{Database}
use ckb_dex.Verify.{ChainVerification}
use ckb_dex.Prelude.Result.{Result, Failure, err, ok, Result-cases, app_error}
use mathlib.Core.Path.{subst}

-- No document with the id is live.
abbrev NotLive : String → Database → Type 0
NotLive id db = find (is_live_id id) (orders_of db) ≡ none

find_live-reserved :
    (now : ℕ) (id : String) (os : List Order)
    → find (is_live_id id) (update_where (is_live_id id) (reserve_order now) os) ≡ none
unfolding reserve_order
find_live-reserved now id [] = refl
find_live-reserved now id (o ∷ os) = ground (arith, find_live-reserved now id os)

-- A reservation of another order makes none live.
find_live-kept :
    (now : ℕ) (id other : String) (os : List Order)
    → find (is_live_id id) os ≡ none
    → find (is_live_id id) (update_where (is_live_id other) (reserve_order now) os) ≡ none
unfolding reserve_order
find_live-kept now id other [] h = refl
find_live-kept now id other (o ∷ os) h = elim (Bool-cases (is_live_id id o)) [
  | inl alive ↦ cc (rw alive at h)
  | inr dead ↦
      let rest = find_live-kept now id other os (rw dead at h) in
      elim (Bool-cases (is_live_id other o)) [
        | inl hit ↦
            let gone : is_live_id id (reserve_order now o) ≡ false = ground arith in
            rw (hit, gone) rest
        | inr miss ↦ rw (miss, dead) rest
      ]
]

-- Where no document with the id is live, a reservation of it is refused and writes nothing.
refused_lem :
    (now : ℕ) (id : String) (db : Database) → NotLive id db → reserve now id db ≡ (ok none, db)
unfolding reserve
refused_lem now id db h = rw (h, reserve) refl

reserve-NotLive :
    (now : ℕ) (id : String) (db after : Database) (o : Order)
    → reserve now id db ≡ (ok (some o), after)
    → NotLive id after
unfolding reserve
reserve-NotLive now id db after o h = elim (Option-cases (find (is_live_id id) (orders_of db))) [
  | inl missing ↦ cc (rw (missing, reserve) at h)
  | inr (x, found) ↦
      let written =
        with_orders db (update_where (is_live_id id) (reserve_order now) (orders_of db)) in
      let same : written ≡ after =
        ap (λ (r : Result (Option Order) × Database). r.1) (rw (found, reserve) at h) in
      subst (NotLive id) same (find_live-reserved now id (orders_of db))
]

module _ (node : Node) (registered : Option ChainVerification) (now : ℕ) (stamp : String) where
  reserve_buy_fails :
      (tx : Settlement) (sell_id : String) (found : Option Order) (db : Database)
      → NotLive sell_id db
      → (e : Failure) × ((reserve_buy node registered now stamp tx sell_id found db).0 ≡ err e)
  unfolding reserve_buy reserve_sell revert_to_live
  reserve_buy_fails tx sell_id none db h = (app_error 409 "buy order is no longer LIVE" none, refl)
  reserve_buy_fails tx sell_id (some buy) db h = (
    app_error 409 "sell order is no longer LIVE" none,
    rw (reserve_buy, refused_lem now sell_id db h) refl,
  )

  reserve_and_settle_fails :
      (tx : Settlement) (buy_id sell_id : String) (db : Database)
      → NotLive buy_id db ⊎ NotLive sell_id db
      → (e : Failure) × ((reserve_and_settle node registered now stamp buy_id sell_id tx db).0
          ≡ err e)
  unfolding reserve_and_settle reserve_buy reserve
  reserve_and_settle_fails tx buy_id sell_id db (inl h) = (
    app_error 409 "buy order is no longer LIVE" none,
    rw (reserve_and_settle, refused_lem now buy_id db h) refl,
  )
  reserve_and_settle_fails tx buy_id sell_id db (inr h) =
      elim (Option-cases (find (is_live_id buy_id) (orders_of db))) [
        | inl missing ↦ (
          app_error 409 "buy order is no longer LIVE" none,
          rw (reserve_and_settle, refused_lem now buy_id db missing) refl,
        )
        | inr (o, found) ↦
            let written =
              with_orders db
                (update_where (is_live_id buy_id) (reserve_order now) (orders_of db)) in
            let (e, failed) =
              reserve_buy_fails tx sell_id (some (reserve_order now o)) written
                (find_live-kept now sell_id buy_id (orders_of db) h) in
            (e, rw (reserve_and_settle, reserve, found) failed)
      ]

-- While an order is reserved, no other attempt has it: after a reservation that went through, a
-- further one of the same id, at any time, is refused and writes nothing, and an attempt to trade
-- any pair of which it is the buy or the sell order fails, whatever the node would answer.
pub reserved_order_not_traded :
    (node : Node) (registered : Option ChainVerification) (now later : ℕ) (stamp id : String)
    (supported : List String) (buy sell o : Order) (db after : Database)
    → reserve now id db ≡ (ok (some o), after)
    → (buy.id ≡ id) ⊎ (sell.id ≡ id)
    → (reserve later id after ≡ (ok none, after))
      × ((e : Failure) × ((execute_trade node registered later stamp supported buy sell after).0
            ≡ err e))
unfolding execute_trade
reserved_order_not_traded node registered now later stamp id supported buy sell o db after h which =
    let gone = reserve-NotLive now id db after o h in
    let one_gone : NotLive buy.id after ⊎ NotLive sell.id after = elim which [
      | inl same ↦ inl (rw same gone)
      | inr same ↦ inr (rw same gone)
    ] in
    let failed : (e : Failure) × ((execute_trade node registered later stamp supported buy sell
            after).0
          ≡ err e) =
      elim (Result-cases (check_pair supported buy sell)) [
        | inr (f, refused) ↦ (f, rw (refused, execute_trade) refl)
        | inl (u, fits) ↦ elim (Result-cases (build node buy sell)) [
          | inr (f, refused) ↦ (f, rw (fits, execute_trade, refused) refl)
          | inl (tx, built) ↦
              let (f, failed) =
                reserve_and_settle_fails node registered later stamp tx buy.id sell.id after
                  one_gone in
              (f, rw (fits, execute_trade, built) failed)
        ]
      ] in
    (refused_lem later id after gone, failed)
