-- ===== src/Verify.antt =====
-- backend/src/services/event-verification.ts: an event is checked against the chain before it may
-- change the projection. The chain that backend/src/services/chain-verifier.ts reads over RPC is a
-- record of answers, as they stand while one event is verified; a call that fails has no answer.
pub mod Event
pub mod Soundness
pub mod Orders
pub mod Trades
use ckb_dex.Prelude.{
  ℕ, ◌+◌, ◌-◌, String, Bool, true, false, not, ◌&&◌, ◌||◌, Option, none, some, List, [], ◌∷◌, any,
  find, filter, map, member, length, get_elem?, eqb, leb, ltb, ◌==◌, if◌then◌else◌,
}
use ckb_dex.Prelude.Result.{Result, ok, err, Failure, app_error, other_error, ensure, ◌>>=◌, ◌>>◌}
use ckb_dex.Order.{
  Script, HashType, data0, type1, data1, data2, OutPoint, Order, OrderDirection, ask, bid,
  direction_eq,
}
use ckb_dex.Events.{
  BotEvent, EventBody, OrderConfirmed, OrderCancelled, SettlementSubmitted, TradeConfirmed,
  ChainReorg, order_confirmed, order_cancelled, settlement_submitted, trade_confirmed, chain_reorg,
}
use ckb_dex.Bytes.{same_hex, subarray}
use ckb_dex.Args.{Codec, DecodedDexOrderArgs, decode_dex_order_args}
use ckb_dex.Projection.Lifecycle.{to_order_id}

pub record ChainOutput : Type 0 where
  pub lock : Script
  pub type_script : Option Script
  pub capacity : ℕ
  pub cell_data : String

pub record ChainTransaction : Type 0 where
  pub status : String
  pub block_number : Option ℕ
  pub block_hash : Option String
  pub tx_index : Option ℕ
  pub inputs : List OutPoint
  pub outputs : List ChainOutput
  pub input_lock_hashes : List String

-- What the RPC client and the client library answer: the tip, a transaction by hash, the hash of
-- the canonical block at a height, the hash of a script, and `BigInt` and `Number` of an index.
pub record ChainReader : Type 0 where
  pub get_tip : ℕ
  pub get_transaction : String → Option ChainTransaction
  pub get_canonical_block_hash : ℕ → Option String
  pub script_hash : Script → String
  pub number_of : String → ℕ

pub record ChainVerification : Type 0 where
  pub chain : ChainReader
  pub codec : Codec
  pub dex_lock : Script
  pub confirmation_depth : ℕ
  pub supported_asset_hashes : List String

-- `throw new AppError(422, …)`
abbrev pub rejection : String → Failure
rejection reason = app_error 422 reason none

abbrev pub hash_type_eq : HashType → HashType → Bool
hash_type_eq data0 data0 = true
hash_type_eq type1 type1 = true
hash_type_eq data1 data1 = true
hash_type_eq data2 data2 = true
hash_type_eq _ _ = false

module _ (v : ChainVerification) where
  unfoldable pub spends : ChainTransaction → OutPoint → Bool
  spends tx out_point =
      any
        (λ input.
          same_hex (some input.tx_hash) (some out_point.tx_hash)
          && eqb (v.chain.number_of input.index) (v.chain.number_of out_point.index))
        tx.inputs

  -- `!tx || tx.status !== "committed" || tx.blockNumber === undefined || !tx.blockHash`
  committed_tx : Option ChainTransaction → Result (ChainTransaction × ℕ × String)
  committed_tx none = err (rejection "transaction is not committed")
  committed_tx (some tx) = elim tx.block_number [
    | none ↦ err (rejection "transaction is not committed")
    | some n ↦ elim tx.block_hash [
      | none ↦ err (rejection "transaction is not committed")
      | some hash ↦
          if (tx.status == "committed") && not (hash == "")
          then ok (tx, n, hash)
          else err (rejection "transaction is not committed")
    ]
  ]

  pub same_number : Option ℕ → ℕ → Bool
  same_number none n = false
  same_number (some m) n = eqb m n

  -- `tip >= blockNumber ? tip - blockNumber + 1n : 0n`
  unfoldable pub confirmations : ℕ → ℕ → ℕ
  confirmations tip block_number = if leb block_number tip then tip - block_number + 1 else 0

  unfoldable pub require_confirmed : String → BotEvent → Result ChainTransaction
  unfolding committed_tx same_number
  require_confirmed tx_hash event = do
    (tx, n, hash) ← committed_tx (v.chain.get_transaction tx_hash)
    ensure (same_hex event.block_hash (some hash)) (rejection "block hash does not match the chain")
    ensure (same_number event.block_number n) (rejection "block number does not match the chain")
    ensure (leb v.confirmation_depth (confirmations v.chain.get_tip n))
        (app_error 409 "insufficient-confirmations" none)
    ok tx

  pub same_index : Option ℕ → ℕ → Bool
  same_index none n = true
  same_index (some m) n = eqb n m

  output_at : ChainTransaction → String → Result ChainOutput
  output_at tx index = elim (get_elem? tx.outputs (v.chain.number_of index)) [
    | none ↦ err (rejection "output does not exist")
    | some output ↦ ok output
  ]

  -- `reject(error.message)` for arguments that do not decode
  decode_or_reject : String → Result DecodedDexOrderArgs
  decode_or_reject args = elim (decode_dex_order_args v.codec args) [
    | err e ↦ err (rejection "undecodable order args")
    | ok decoded ↦ ok decoded
  ]

  pub has_type_hash : Option Script → String → Bool
  has_type_hash none hash = false
  has_type_hash (some script) hash = same_hex (some (v.chain.script_hash script)) (some hash)

  is_absent : Option Script → Bool
  is_absent none = true
  is_absent (some script) = false

  -- The check of the cell against the side that its arguments declare.
  check_side :
      OrderConfirmed → ChainOutput → DecodedDexOrderArgs → OrderDirection → Result (Unit {0})
  check_side e output decoded ask = do
    ensure (has_type_hash output.type_script decoded.udt_type_hash)
        (rejection "sell order lacks the declared token type")
    ensure (has_type_hash e.order.type_script decoded.udt_type_hash)
        (rejection "event type script differs from the chain")
    let bytes = v.codec.bytes_from output.cell_data
    ensure
        (leb 16 (length bytes)
          && eqb (v.codec.num_le_from_bytes (subarray bytes 0 16)) decoded.token_amount)
        (rejection "held token amount differs from lock args")
    ok tt
  check_side e output decoded bid =
      ensure (is_absent output.type_script) (rejection "buy order must not carry a type script")

  -- The block and the index that the order claims.
  check_position : BotEvent → OrderConfirmed → ChainTransaction → Result (Unit {0})
  check_position event e tx = do
    ensure (same_number event.block_number e.order.block_number)
        (rejection "order block number disagrees with event")
    ensure (same_index tx.tx_index e.order.tx_index) (rejection "tx index does not match the chain")

  -- The cell against the cell that the event describes.
  check_cell : OrderConfirmed → ChainOutput → Result (Unit {0})
  check_cell e output = do
    ensure
        (same_hex (some output.lock.code_hash) (some v.dex_lock.code_hash)
          && hash_type_eq output.lock.hash_type v.dex_lock.hash_type)
        (rejection "output is not locked by the configured DEX script")
    ensure (same_hex (some output.lock.args) (some e.order.lock_script.args))
        (rejection "lock args differ from the chain")
    ensure (same_hex (some output.cell_data) (some e.order.cell_data))
        (rejection "cell data differs from the chain")
    ensure (eqb output.capacity e.order.capacity) (rejection "capacity differs from the chain")

  -- The terms of the event against the decoded arguments.
  check_terms : OrderConfirmed → DecodedDexOrderArgs → Result (Unit {0})
  check_terms e decoded = do
    ensure (direction_eq decoded.direction e.order.direction)
        (rejection "direction differs from lock args")
    ensure (eqb decoded.price_per_token e.order.price_per_token)
        (rejection "price differs from lock args")
    ensure (eqb decoded.token_amount e.order.token_amount)
        (rejection "token amount differs from lock args")
    ensure (same_hex (some decoded.udt_type_hash) (some e.order.xudt_type_hash))
        (rejection "token type differs from lock args")
    ensure (same_hex (some decoded.maker_lock_hash) (some e.order.owner_lock_hash))
        (rejection "maker differs from lock args")
    ensure (member decoded.udt_type_hash v.supported_asset_hashes)
        (rejection "token is not a supported manifest asset")

  -- The maker lock never runs at creation, so it is tied to the inputs of the transaction.
  check_maker : OrderConfirmed → ChainTransaction → DecodedDexOrderArgs → Result (Unit {0})
  check_maker e tx decoded = do
    ensure (same_hex (some (v.chain.script_hash e.order.owner_lock)) (some decoded.maker_lock_hash))
        (rejection "owner lock does not hash to the maker lock hash")
    ensure (any (λ hash. same_hex (some hash) (some decoded.maker_lock_hash)) tx.input_lock_hashes)
        (rejection "maker did not fund the order transaction")

  unfoldable pub verify_order_confirmed : BotEvent → OrderConfirmed → Result (Unit {0})
  unfolding same_number same_index output_at decode_or_reject has_type_hash is_absent check_position
      check_cell check_terms check_side check_maker
  verify_order_confirmed event e = do
    tx ← require_confirmed e.out_point.tx_hash event
    check_position event e tx
    output ← output_at tx e.out_point.index
    check_cell e output
    decoded ← decode_or_reject output.lock.args
    check_terms e decoded
    check_side e output decoded decoded.direction
    check_maker e tx decoded

  -- `load(ids)`: the orders with these ids
  abbrev pub load : List Order → List String → List Order
  load orders ids = filter (λ o. member o.id ids) orders

  unfoldable pub verify_order_cancelled : BotEvent → OrderCancelled → List Order → Result (Unit {0})
  verify_order_cancelled event e orders = elim (load orders (to_order_id e.out_point ∷ [])) [
    | [] ↦ ok tt
    | order ∷ _ ↦ do
      tx ← require_confirmed e.cancelled_by_tx_hash event
      ensure (spends tx e.out_point) (rejection "transaction does not spend the order cell")
      ensure (any (λ hash. same_hex (some hash) (some order.owner_lock_hash)) tx.input_lock_hashes)
          (rejection "spend is not authorized by the maker lock")
  ]

  -- IN_POOL_OR_CHAIN
  in_pool_or_chain : List String
  in_pool_or_chain = "pending" ∷ "proposed" ∷ "committed" ∷ []

  each_spent : ChainTransaction → List OutPoint → Result (Unit {0})
  each_spent tx [] = ok tt
  each_spent tx (p ∷ ps) = do
    ensure (spends tx p) (rejection "settlement does not spend a claimed order")
    each_spent tx ps

  unfoldable pub verify_settlement_submitted : SettlementSubmitted → Result (Unit {0})
  unfolding in_pool_or_chain each_spent
  verify_settlement_submitted e = elim (v.chain.get_transaction e.settlement_tx_hash) [
    | none ↦ err (rejection "settlement transaction is unknown to the node")
    | some tx ↦ do
      ensure (member tx.status in_pool_or_chain)
          (rejection "settlement transaction is unknown to the node")
      each_spent tx e.order_out_points
  ]

  unfoldable pub verify_chain_reorg : ChainReorg → Result (Unit {0})
  verify_chain_reorg e = do
    ensure
        (elim e.ancestor_block_number [
          | none ↦ true
          | some ancestor ↦ ltb ancestor e.reverted_block_number
        ])
        (rejection "ancestor block must precede the reverted block")
    ensure
        (not (
          same_hex (v.chain.get_canonical_block_hash e.reverted_block_number)
            (some e.reverted_block_hash)))
        (rejection "claimed reverted block is still canonical")
