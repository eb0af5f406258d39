-- ===== src/Verify/Orders.antt =====
-- What an order event that passes `verifyOrderConfirmed` of
-- backend/src/services/event-verification.ts says truly of the chain.
use ckb_dex.Prelude.{◌≤◌, length, none, ◌<◌, ◌≡◌, true, String, some, get_elem?, any, member, arith}
use ckb_dex.Prelude.Result.{ok, >>=-eq-ok}
use ckb_dex.Order.{OrderDirection, ask, bid, direction_eq}
use ckb_dex.Events.{BotEvent, OrderConfirmed}
use ckb_dex.Bytes.{same_hex, subarray}
use ckb_dex.Args.{DecodedDexOrderArgs, decode_dex_order_args}
use ckb_dex.Verify.{
  same_number, same_index, has_type_hash, hash_type_eq, ChainVerification, ChainTransaction,
  ChainOutput, require_confirmed, verify_order_confirmed, output_at, decode_or_reject, check_side,
  check_position, check_cell, check_terms, check_maker, is_absent,
}
use ckb_dex.Verify.Soundness.{IsConfirmed, require_confirmed_sound}

-- What the cell of each side holds: a sell cell the amount of the declared token, whose type script
-- the event names too, a buy cell no type script.
unfoldable pub SideHolds :
    ChainVerification → OrderConfirmed → DecodedDexOrderArgs → ChainOutput → OrderDirection → Type 0
SideHolds v e decoded output ask =
    (v.codec.num_le_from_bytes (subarray (v.codec.bytes_from output.cell_data) 0 16)
      ≡ decoded.token_amount)
    × (16 ≤ length (v.codec.bytes_from output.cell_data))
    × (has_type_hash v output.type_script decoded.udt_type_hash ≡ true)
    × (has_type_hash v e.order.type_script decoded.udt_type_hash ≡ true)
SideHolds v e decoded output bid = output.type_script ≡ none

-- The cell of an order event: an output of a confirmed transaction at the place that the event
-- names, locked by the order lock with arguments that decode to the terms of the event, funded by
-- the maker, and holding what its side must hold.
pub record IsGenuine (v : ChainVerification) (event : BotEvent) (e : OrderConfirmed) : Type 0 where
  pub tx : ChainTransaction
  pub confirmed : IsConfirmed v e.out_point.tx_hash event tx
  pub output : ChainOutput
  pub at_index : get_elem? tx.outputs (v.chain.number_of e.out_point.index) ≡ some output
  pub at_block : same_number v event.block_number e.order.block_number ≡ true
  pub at_place : same_index v tx.tx_index e.order.tx_index ≡ true
  pub dex_code : same_hex (some output.lock.code_hash) (some v.dex_lock.code_hash) ≡ true
  pub dex_type : hash_type_eq output.lock.hash_type v.dex_lock.hash_type ≡ true
  pub same_args : same_hex (some output.lock.args) (some e.order.lock_script.args) ≡ true
  pub same_data : same_hex (some output.cell_data) (some e.order.cell_data) ≡ true
  pub decoded : DecodedDexOrderArgs
  pub decodes : decode_dex_order_args v.codec output.lock.args ≡ ok decoded
  pub same_direction : decoded.direction ≡ e.order.direction
  pub same_price : decoded.price_per_token ≡ e.order.price_per_token
  pub same_amount : decoded.token_amount ≡ e.order.token_amount
  pub same_token : same_hex (some decoded.udt_type_hash) (some e.order.xudt_type_hash) ≡ true
  pub same_maker : same_hex (some decoded.maker_lock_hash) (some e.order.owner_lock_hash) ≡ true
  pub owner_lock_hashes :
      same_hex (some (v.chain.script_hash e.order.owner_lock)) (some decoded.maker_lock_hash) ≡ true
  pub same_capacity : output.capacity ≡ e.order.capacity
  pub supported : member decoded.udt_type_hash v.supported_asset_hashes ≡ true
  pub funded :
      any (λ hash. same_hex (some hash) (some decoded.maker_lock_hash)) tx.input_lock_hashes ≡ true
  pub side_holds : SideHolds v e decoded output decoded.direction

direction_eq→eq : (a b : OrderDirection) → direction_eq a b ≡ true → a ≡ b
direction_eq→eq a b h = ground arith

output_at_lem :
    (v : ChainVerification) (tx : ChainTransaction) (index : String) (output : ChainOutput)
    → output_at v tx index ≡ ok output
    → get_elem? tx.outputs (v.chain.number_of index) ≡ some output
unfolding output_at
output_at_lem v tx index output h = ground arith

decode_or_reject_lem :
    (v : ChainVerification) (args : String) (decoded : DecodedDexOrderArgs)
    → decode_or_reject v args ≡ ok decoded
    → decode_dex_order_args v.codec args ≡ ok decoded
unfolding decode_or_reject
decode_or_reject_lem v args decoded h = ground arith

-- Past the check of its side, the cell holds what the side must hold.
check_side_lem :
    (v : ChainVerification) (e : OrderConfirmed) (output : ChainOutput)
    (decoded : DecodedDexOrderArgs) (d : OrderDirection) (u : Unit {0})
    → check_side v e output decoded d ≡ ok u
    → SideHolds v e decoded output d
unfolding check_side is_absent SideHolds
check_side_lem v e output decoded ask u h = (ground arith, ground arith, ground arith, ground arith)
check_side_lem v e output decoded bid u h = ground arith

check_position_lem :
    (v : ChainVerification) (event : BotEvent) (e : OrderConfirmed) (tx : ChainTransaction)
    (u : Unit {0})
    → check_position v event e tx ≡ ok u
    → (same_number v event.block_number e.order.block_number ≡ true)
      × (same_index v tx.tx_index e.order.tx_index ≡ true)
unfolding check_position
check_position_lem v event e tx u h = (ground arith, ground arith)

check_cell_lem :
    (v : ChainVerification) (e : OrderConfirmed) (output : ChainOutput) (u : Unit {0})
    → check_cell v e output ≡ ok u
    → (same_hex (some output.lock.code_hash) (some v.dex_lock.code_hash) ≡ true)
      × (hash_type_eq output.lock.hash_type v.dex_lock.hash_type ≡ true)
      × (same_hex (some output.lock.args) (some e.order.lock_script.args) ≡ true)
      × (same_hex (some output.cell_data) (some e.order.cell_data) ≡ true)
      × (output.capacity ≡ e.order.capacity)
unfolding check_cell
check_cell_lem v e output u h =
    (ground arith, ground arith, ground arith, ground arith, ground arith)

check_terms_lem :
    (v : ChainVerification) (e : OrderConfirmed) (d : DecodedDexOrderArgs) (u : Unit {0})
    → check_terms v e d ≡ ok u
    → (d.direction ≡ e.order.direction)
      × (d.price_per_token ≡ e.order.price_per_token)
      × (d.token_amount ≡ e.order.token_amount)
      × (same_hex (some d.udt_type_hash) (some e.order.xudt_type_hash) ≡ true)
      × (same_hex (some d.maker_lock_hash) (some e.order.owner_lock_hash) ≡ true)
      × (member d.udt_type_hash v.supported_asset_hashes ≡ true)
unfolding check_terms
check_terms_lem v e d u h = (
  direction_eq→eq d.direction e.order.direction (ground arith),
  ground arith,
  ground arith,
  ground arith,
  ground arith,
  ground arith,
)

check_maker_lem :
    (v : ChainVerification) (e : OrderConfirmed) (tx : ChainTransaction) (d : DecodedDexOrderArgs)
    (u : Unit {0})
    → check_maker v e tx d ≡ ok u
    → (same_hex (some (v.chain.script_hash e.order.owner_lock)) (some d.maker_lock_hash) ≡ true)
      × (any (λ hash. same_hex (some hash) (some d.maker_lock_hash)) tx.input_lock_hashes ≡ true)
unfolding check_maker
check_maker_lem v e tx d u h = (ground arith, ground arith)

-- An order event passes verification only if the chain holds the order that it describes: the
-- transaction is confirmed, in the block and at the index that the event names; the cell is its
-- output at the index of the out point, under the configured order lock, with the lock arguments,
-- the data and the capacity of the event; the arguments decode to the direction, price, amount,
-- token and maker of the event; the owner's lock hashes to the maker, an input of the transaction
-- is locked by the maker, and the token is supported; a sell cell holds the amount of the token and
-- has its type script, and a buy cell has none. The confirmation depth is not zero.
pub verify_order_confirmed_sound :
    (v : ChainVerification) (event : BotEvent) (e : OrderConfirmed) (u : Unit {0})
    → 0 < v.confirmation_depth
    → verify_order_confirmed v event e ≡ ok u
    → IsGenuine v event e
unfolding verify_order_confirmed
verify_order_confirmed_sound v event e u depth h =
    let (tx, confirmed, h1) = >>=-eq-ok (require_confirmed v e.out_point.tx_hash event) _ h in
    let (z, position, h2) = >>=-eq-ok (check_position v event e tx) _ h1 in
    let (output, found, h3) = >>=-eq-ok (output_at v tx e.out_point.index) _ h2 in
    let (w, cell, h4) = >>=-eq-ok (check_cell v e output) _ h3 in
    let (decoded, decodes, h5) = >>=-eq-ok (decode_or_reject v output.lock.args) _ h4 in
    let (x, terms, h6) = >>=-eq-ok (check_terms v e decoded) _ h5 in
    let (y, side, maker) = >>=-eq-ok (check_side v e output decoded decoded.direction) _ h6 in
    let (direction, price, amount, token, maker_hash, supported) =
      check_terms_lem v e decoded x terms in
    let (at_block, at_place) = check_position_lem v event e tx z position in
    let (code, kind, args, bytes, capacity) = check_cell_lem v e output w cell in
    let (owner, funded) = check_maker_lem v e tx decoded u maker in
    record {
      tx = tx;
      confirmed = require_confirmed_sound v e.out_point.tx_hash event tx depth confirmed;
      output = output;
      at_index = output_at_lem v tx e.out_point.index output found;
      at_block = at_block;
      at_place = at_place;
      dex_code = code;
      dex_type = kind;
      same_args = args;
      same_data = bytes;
      decoded = decoded;
      decodes = decode_or_reject_lem v output.lock.args decoded decodes;
      same_direction = direction;
      same_price = price;
      same_amount = amount;
      same_token = token;
      same_maker = maker_hash;
      owner_lock_hashes = owner;
      same_capacity = capacity;
      supported = supported;
      funded = funded;
      side_holds = check_side_lem v e output decoded decoded.direction y side;
    }
