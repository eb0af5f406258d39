-- ===== src/Bot/Scan.antt =====
-- `deserializeLockScriptAndArgs`, `indexOrderCell`, `decodeUdtAmount` and `scanForPendingOrders`
-- of backend/src/bot/index.ts. Messages to the log are left out.
use ckb_dex.Prelude.{
  zero, suc, true, false, ℕ, String, List, Option, if◌then◌else◌, Bool, ◌∷◌, ◌==◌, false, some,
  ◌&&◌, ltb, none, [], length, eqb, member, not, ◌-◌, ◌/◌, ◌||◌, ◌+◌, ◌%◌,
}
use ckb_dex.Bot.Session.{Action, ◌>>=◌, pure, emit, orders_of, continue}
use ckb_dex.Bot.Node.{Node, NodeTransaction, Cell, present}
use ckb_dex.Bot.Reconcile.{find_input_with_lock_hash, block_event, ◌<>◌}
use ckb_dex.Bot.Flight.{printed}
use ckb_dex.Bot.Checkpoints.{Checkpoint, save_checkpoint, resolve_scan_cursor}
use ckb_dex.Order.{
  Order, Script, ask, bid, orphaned, OrderDirection, find_by_id, status_eq, same_text,
}
use ckb_dex.Args.{Codec, DecodedDexOrderArgs, decode_dex_order_args}
use ckb_dex.Prelude.Result.{Result, err, ok, app_error}
use ckb_dex.Bytes.{to_buffer, subarray}
use ckb_dex.Verify.{ChainVerification, hash_type_eq}
use ckb_dex.Events.{BotEvent, order_confirmed}
use ckb_dex.Projection.Lifecycle.{to_order_id}
use ckb_dex.Projection.Spend.{or_default}

-- The deployment: the order lock, its tokens, and the depth at which a block is indexed.
pub record Deployment : Type 0 where
  pub dex_lock : Script
  pub supported_asset_hashes : List String
  pub confirmation_depth : ℕ

-- Whether an order is known, and not orphaned.
abbrev pub is_known : Option Order → Bool
is_known none = false
is_known (some o) = not (status_eq o.status orphaned)

module _ (codec : Codec) where
  -- `decodeUdtAmount`: the source throws on cell data that is no hex text, which a node never gives.
  unfoldable pub decode_udt_amount : String → Result (Option ℕ)
  decode_udt_amount data_text = elim (to_buffer data_text) [
    | err e ↦ err e
    | ok buf ↦
        if ltb (length buf) 16
        then ok none
        else ok (some (codec.num_le_from_bytes (subarray buf 0 16)))
  ]

module _ (codec : Codec) (deployment : Deployment) where
  unfoldable pub deserialize_lock_script : Script → Result DecodedDexOrderArgs
  deserialize_lock_script script =
      if (script.code_hash == deployment.dex_lock.code_hash)
        && hash_type_eq script.hash_type deployment.dex_lock.hash_type
      then decode_dex_order_args codec script.args
      else err (app_error 400 "script is not the configured DEX order lock script" none)

module _ (codec : Codec) (deployment : Deployment) (node : Node) where
  -- Whether the cell holds what the side that it declares must hold.
  unfoldable pub holds_side : Cell → DecodedDexOrderArgs → OrderDirection → Result Bool
  holds_side cell decoded ask = elim cell.type_script [
    | none ↦ ok false
    | some script ↦
        if node.script_hash script == decoded.udt_type_hash
        then elim (decode_udt_amount codec cell.output_data) [
          | err e ↦ err e
          | ok none ↦ ok false
          | ok (some held) ↦ ok (eqb held decoded.token_amount)
        ]
        else ok false
  ]
  holds_side cell decoded bid = elim cell.type_script [
    | none ↦ ok (ltb decoded.price_per_token cell.capacity)
    | some script ↦ ok false
  ]

  -- The terms of a cell that is a proper order, and nothing for a cell that is skipped.
  unfoldable pub read_order_cell : Cell → Result (Option DecodedDexOrderArgs)
  read_order_cell cell = elim (deserialize_lock_script codec deployment cell.lock) [
    | err e ↦ ok none
    | ok decoded ↦
        if member decoded.udt_type_hash deployment.supported_asset_hashes
        then elim (holds_side cell decoded decoded.direction) [
          | err e ↦ err e
          | ok false ↦ ok none
          | ok true ↦ ok (some decoded)
        ]
        else ok none
  ]

-- The block number of the transaction that created a cell, if it is committed.
abbrev pub committed_at : NodeTransaction → Option ℕ
committed_at tx = if tx.status == "committed" then tx.block_number else none

module _ (codec : Codec) (deployment : Deployment) (node : Node)
    (registered : Option ChainVerification) (stamp : String) where
  -- The order-confirmed event of a cell.
  unfoldable pub cell_event :
      String → Cell → DecodedDexOrderArgs → NodeTransaction → ℕ → Script → BotEvent
  cell_event id cell decoded tx number owner_lock =
      block_event ("order-confirmed:" <> id <> ":" <> printed tx.block_hash) stamp
        cell.out_point.tx_hash number tx.block_hash
        (order_confirmed (record {
          out_point = cell.out_point;
          order = record {
            lock_script = cell.lock;
            type_script = cell.type_script;
            cell_data = cell.output_data;
            capacity = cell.capacity;
            owner_lock = owner_lock;
            owner_lock_hash = decoded.maker_lock_hash;
            owner_address = some (node.address_of owner_lock);
            direction = decoded.direction;
            price_per_token = decoded.price_per_token;
            token_amount = decoded.token_amount;
            xudt_type_hash = decoded.udt_type_hash;
            block_number = number;
            tx_index = or_default tx.tx_index 0;
          };
        }))

  -- The transaction that created the cell, and the owner's lock among its inputs.
  unfoldable pub index_decoded : String → Cell → DecodedDexOrderArgs → Action (Option Order)
  index_decoded id cell decoded db = elim (node.transaction cell.out_point.tx_hash) [
    | none ↦ (ok none, db)
    | some tx ↦ elim (committed_at tx) [
      | none ↦ (ok none, db)
      | some number ↦ elim (find_input_with_lock_hash node decoded.maker_lock_hash tx.inputs) [
        | none ↦ (ok none, db)
        | some owner_lock ↦
            continue (emit registered (cell_event id cell decoded tx number owner_lock) db)
              (λ emitted db'. (ok (find_by_id id (orders_of db')), db'))
      ]
    ]
  ]

  unfoldable pub index_order_cell : Cell → Action (Option Order)
  index_order_cell cell db =
      let id = to_order_id cell.out_point in
      if is_known (find_by_id id (orders_of db))
      then (ok none, db)
      else elim (read_order_cell codec deployment node cell) [
        | err e ↦ (err e, db)
        | ok none ↦ (ok none, db)
        | ok (some decoded) ↦ index_decoded id cell decoded db
      ]

  -- The loop over the cells of the range.
  unfoldable pub index_cells : List Cell → Action (List Order)
  index_cells [] = pure []
  index_cells (cell ∷ cells) = do
    order ← index_order_cell cell
    discovered ← index_cells cells
    pure (elim order [ none ↦ discovered | some o ↦ o ∷ discovered ])

-- What a scan leaves beside the database: the orders that it found, and the checkpoints.
pub record Scanned : Type 0 where
  pub discovered : List Order
  pub checkpoints : List Checkpoint

-- The decimal digits of a number, the leading one first; the number itself is fuel enough.
decimal : ℕ → ℕ → List ℕ → List ℕ
decimal zero n digits = digits
decimal (suc fuel) n digits = elim (ltb n 10) [
  | true ↦ n ∷ digits
  | false ↦ decimal fuel (n / 10) ((n % 10) ∷ digits)
]

-- The order of texts, on their characters.
lower_text : List ℕ → List ℕ → Bool
lower_text [] [] = false
lower_text [] (b ∷ bs) = true
lower_text (a ∷ as') [] = false
lower_text (a ∷ as') (b ∷ bs) = ltb a b || (eqb a b && lower_text as' bs)

abbrev text_below : ℕ → ℕ → Bool
text_below m n = lower_text (decimal (m + 1) m []) (decimal (n + 1) n [])

-- The block number of `Order.find().sort({ blockNumber: -1 })`: the field holds decimal texts, so
-- the order is that of texts.
unfoldable pub newest_block : List Order → Option ℕ
unfolding decimal lower_text
newest_block [] = none
newest_block (o ∷ os) = elim (newest_block os) [
  | none ↦ some o.block_number
  | some number ↦ some (if text_below o.block_number number then number else o.block_number)
]

module _ (codec : Codec) (deployment : Deployment) (node : Node)
    (registered : Option ChainVerification) (stamp : String) where
  -- The scan of the blocks from `first` to `last`, whose end has the hash `hash`; `after` is the
  -- hash of that block when the scan is over.
  unfoldable pub scan_range : ℕ → ℕ → String → Option String → List Checkpoint → Action Scanned
  scan_range first last hash after checkpoints = do
    discovered ← index_cells codec deployment node registered stamp (node.cells_between first last)
    pure (record {
      discovered = discovered;
      checkpoints =
          if same_text after (some hash)
          then save_checkpoint last hash checkpoints
          else checkpoints;
    })

  abbrev nothing_new : List Checkpoint → Action Scanned
  nothing_new checkpoints = pure (record { discovered = []; checkpoints = checkpoints })

  unfoldable pub scan_to : ℕ → Option String → List Checkpoint → Action Scanned
  scan_to safe_tip after checkpoints db =
      let first = resolve_scan_cursor (newest_block (orders_of db)) checkpoints in
      if ltb safe_tip first
      then nothing_new checkpoints db
      else elim (present (node.header_hash safe_tip)) [
        | none ↦ nothing_new checkpoints db
        | some hash ↦ scan_range first safe_tip hash after checkpoints db
      ]

  -- `after` is what the node answers for the end block after the scan.
  unfoldable pub scan_for_pending_orders : Option String → List Checkpoint → Action Scanned
  scan_for_pending_orders after checkpoints =
      if ltb node.tip deployment.confirmation_depth
      then nothing_new checkpoints
      else scan_to (node.tip - deployment.confirmation_depth) after checkpoints
