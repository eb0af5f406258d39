-- ===== src/Bot/Trade.antt =====
-- `executeTrade`, `submit`, `reserve`, `revertToLive` and `markAsResolved` of
-- backend/src/bot/index.ts. The two checks of liveness, which the source starts together, run one
-- after the other, both to their ends, and the `catch` after both; the clock is read once for each
-- call.
pub mod Release
pub mod Stuck
pub mod Exclusive
use Prim.Native.Char.{code}
use ckb_dex.Prelude.{
  ℕ, String, Bool, some, Option, none, update_where, if◌then◌else◌, List, ◌∷◌, ◌==◌, ◌+◌, find, leb,
  true, ◌||◌, any, [], not, ◌&&◌, false, member, eqb,
}
use ckb_dex.Bot.Session.{Action, ◌>>=◌, ◌>>◌, throw, require, write, orders_of, with_orders}
use ckb_dex.Bot.Node.{Node, Settlement}
use ckb_dex.Bot.Reconcile.{check_order_liveness, ◌<>◌}
use ckb_dex.Order.{Order, reserved, live, pending, bid, ask, OrderStatus, status_eq, direction_eq}
use ckb_dex.Ingestion.{Database, ingest}
use ckb_dex.Prelude.Result.{Failure, Result, app_error, ok, other_error, err}
use ckb_dex.Settlement.{allocate_settlement_capacity}
use ckb_dex.Verify.{ChainVerification}
use ckb_dex.Events.{BotEvent, settlement_submitted}
use ckb_dex.Projection.Spend.{selected}

-- RESERVATION_TTL_MS
abbrev pub reservation_ttl_ms : ℕ
reservation_ttl_ms = 300000

-- `findOneAndUpdate({ _id, status: "LIVE" }, …, { new: true })`
abbrev pub is_live_id : String → Order → Bool
is_live_id id o = (o.id == id) && status_eq o.status live

unfoldable pub reserve_order : ℕ → Order → Order
reserve_order now o = record o {
  status = reserved;
  reserved_until = some (now + reservation_ttl_ms);
}

unfoldable pub reserve : ℕ → String → Action (Option Order)
reserve now id db = elim (find (is_live_id id) (orders_of db)) [
  | none ↦ (ok none, db)
  | some o ↦ (
    ok (some (reserve_order now o)),
    with_orders db (update_where (is_live_id id) (reserve_order now) (orders_of db)),
  )
]

abbrev pub has_id : String → Order → Bool
has_id id o = id == o.id

unfoldable pub reopen : Order → Order
reopen o = record o { status = live; reserved_until = none; pending_tx_hash = none }

unfoldable pub revert_to_live : String → Action (Unit {0})
revert_to_live id = write (update_where (has_id id) reopen)

unfoldable pub mark_as_resolved : String → OrderStatus → Option String → Action (Unit {0})
mark_as_resolved id status tx_hash = write (
    update_where (has_id id)
      (λ o. record o { status = status; reserved_until = none; pending_tx_hash = tx_hash }))

-- Whether a message holds one of some texts, which the regular expressions of `submit` list; they
-- ignore the case of letters.
abbrev fold_case : ℕ → ℕ
fold_case c = if leb b'A' c && leb c b'Z' then c + 32 else c

starts_with : String → String → Bool
starts_with String.[] s = true
starts_with (String.◌∷◌ p ps) String.[] = false
starts_with (String.◌∷◌ p ps) (String.◌∷◌ c s) =
    eqb (fold_case (code p)) (fold_case (code c)) && starts_with ps s

holds_text : String → String → Bool
holds_text text String.[] = starts_with text String.[]
holds_text text (String.◌∷◌ c s) = starts_with text (String.◌∷◌ c s) || holds_text text s

unfoldable pub holds_any : List String → String → Bool
unfolding holds_text starts_with
holds_any texts message = any (λ text. holds_text text message) texts

abbrev message_of : Failure → String
message_of (app_error status message code) = message
message_of (other_error message) = message

abbrev pub spent_failure : Failure
spent_failure = app_error 409 "a matched order cell was already spent on-chain" (some "ORDER_SPENT")

abbrev pub competing_failure : Failure
competing_failure =
    app_error 409 "a competing settlement for these orders is already pending"
      (some "COMPETING_SETTLEMENT")

unfoldable pub submit : Node → Settlement → Result String
submit node tx = elim (node.send tx) [
  | ok tx_hash ↦ ok tx_hash
  | err e ↦
      if holds_any ("duplicat" ∷ []) (message_of e)
      then ok (node.hash_of tx)
      else if holds_any ("dead" ∷ "unknown(outpoint" ∷ "failedtoresolve" ∷ "resolve" ∷ [])
          (message_of e)
      then err spent_failure
      else if holds_any ("rbf" ∷ "conflict" ∷ "poolrejected" ∷ []) (message_of e)
      then err competing_failure
      else err e
]

-- The transaction before its token cell has its final capacity.
unfoldable pub settlement_of : Order → Order → Settlement
settlement_of buy sell = record {
  inputs = buy.out_point ∷ sell.out_point ∷ [];
  payment_capacity = sell.capacity + sell.price_per_token;
  payment_lock = sell.owner_lock;
  token_capacity = 0;
  token_lock = buy.owner_lock;
  token_type = sell.type_script;
  token_data = sell.cell_data;
}

-- The checks of `executeTrade` on its two orders, which the messages tell apart.
unfoldable pub check_pair : List String → Order → Order → Result (Unit {0})
check_pair supported buy sell =
    if not (member buy.xudt_type_hash supported)
    then err (app_error 400 "Token type is not listed in the deployment manifest" none)
    else if not (direction_eq buy.direction bid) || not (direction_eq sell.direction ask)
    then err (app_error 400 "executeTrade requires a BID order and an ASK order" none)
    else if not (buy.xudt_type_hash == sell.xudt_type_hash)
        || (not (eqb buy.remaining_amount sell.remaining_amount)
            || not (eqb buy.price_per_token sell.price_per_token))
    then err
        (app_error 400 "buy and sell orders do not share the same token, amount and price" none)
    else ok tt

abbrev pub insufficient_failure : Failure
insufficient_failure =
    app_error 409 "buy order does not carry enough capacity" (some "INSUFFICIENT_BUY_CAPACITY")

-- The transaction that is sent.
unfoldable pub build : Node → Order → Order → Result Settlement
build node buy sell =
    let tx = settlement_of buy sell in
    elim (allocate_settlement_capacity (record {
      buy_capacity = buy.capacity;
      price = sell.price_per_token;
      minimum_token_capacity = node.minimum_capacity tx;
      fee = node.fee_of tx;
    })) [
      | err e ↦ err e
      | ok none ↦ err insufficient_failure
      | ok (some allocation) ↦ ok (record tx { token_capacity = allocation.token_capacity })
    ]

unfoldable pub track_pending : String → Order → Order
track_pending tx_hash o = record o {
  status = pending;
  pending_tx_hash = some tx_hash;
  settlement_tx_hash = some tx_hash;
}

-- Whether both orders are live, or the error of the first check that threw.
abbrev pub both_live : Result Bool → Result Bool → Result Bool
both_live (err e) sell_live = err e
both_live (ok buy_live) (err e) = err e
both_live (ok buy_live) (ok sell_live) = ok (buy_live && sell_live)

module _ (node : Node) (registered : Option ChainVerification) (now : ℕ) (stamp : String) where
  abbrev pub submitted_event : Order → Order → String → BotEvent
  submitted_event buy sell tx_hash = record {
    event_id = "settlement-submitted:" <> tx_hash;
    occurred_at = stamp;
    transaction_hash = none;
    block_number = none;
    block_hash = none;
    confirmations = none;
    body = settlement_submitted (record {
      order_out_points = buy.out_point ∷ sell.out_point ∷ [];
      settlement_tx_hash = tx_hash;
    });
  }

  -- Where the ingestion throws, the two orders are tracked directly.
  unfoldable pub track_settlement : Order → Order → String → Action String
  track_settlement buy sell tx_hash db =
      let done = ingest registered (submitted_event buy sell tx_hash) db in
      elim done.outcome [
        | ok result ↦ (ok tx_hash, done.database)
        | err e ↦ (
          ok tx_hash,
          with_orders done.database (
              update_where (selected (buy.id ∷ sell.id ∷ [])) (track_pending tx_hash)
                (orders_of done.database)),
        )
      ]

  -- The part of the `try` block that sends.
  unfoldable pub send_settlement : Settlement → Order → Order → Action String
  send_settlement tx buy sell db = elim (submit node tx) [
    | err e ↦ (err e, db)
    | ok tx_hash ↦ track_settlement buy sell tx_hash db
  ]

  -- The `Promise.all` of the two checks: an error of one does not stop the other.
  unfoldable pub check_both : Order → Order → Action Bool
  check_both buy sell db =
      let buy_live = check_order_liveness node registered stamp buy db in
      let sell_live = check_order_liveness node registered stamp sell buy_live.1 in
      (both_live buy_live.0 sell_live.0, sell_live.1)

  -- The body of the `try` block.
  unfoldable pub settle : Settlement → Order → Order → Action String
  settle tx buy sell = do
    alive ← check_both buy sell
    require alive (app_error 409 "one of the matched orders was already settled on-chain" none)
    send_settlement tx buy sell

  -- The `catch`: both orders go back, and the error goes on.
  unfoldable pub release_failed :
      Order → Order → Result String × Database → Result String × Database
  release_failed buy sell (ok tx_hash, db) = (ok tx_hash, db)
  release_failed buy sell (err e, db) =
      (err e, (revert_to_live sell.id (revert_to_live buy.id db).1).1)

  unfoldable pub settle_or_release : Settlement → Order → Order → Action String
  settle_or_release tx buy sell db = release_failed buy sell (settle tx buy sell db)

  -- The reservations of the two orders.
  unfoldable pub reserve_sell : Settlement → Order → Option Order → Action String
  reserve_sell tx buy none = do
    revert_to_live buy.id
    throw (app_error 409 "sell order is no longer LIVE" none)
  reserve_sell tx buy (some sell) = settle_or_release tx buy sell

  unfoldable pub reserve_buy : Settlement → String → Option Order → Action String
  reserve_buy tx sell_id none = throw (app_error 409 "buy order is no longer LIVE" none)
  reserve_buy tx sell_id (some buy) = do sell ← reserve now sell_id; reserve_sell tx buy sell

  unfoldable pub reserve_and_settle : String → String → Settlement → Action String
  reserve_and_settle buy_id sell_id tx = do buy ← reserve now buy_id; reserve_buy tx sell_id buy

  unfoldable pub execute_trade : List String → Order → Order → Action String
  execute_trade supported buy sell db = elim (check_pair supported buy sell) [
    | err e ↦ (err e, db)
    | ok _ ↦ elim (build node buy sell) [
      | err e ↦ (err e, db)
      | ok tx ↦ reserve_and_settle buy.id sell.id tx db
    ]
  ]
