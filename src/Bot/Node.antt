-- ===== src/Bot/Node.antt =====
-- What `DexOrderBot` of backend/src/bot/index.ts asks of its node through the client library: the
-- answers of one tick. Calls that fail to reach the node are left out. Hashes are texts, and indices
-- of out points the texts that they print.
use ckb_dex.Prelude.{ℕ, String, Option, Bool, List, some, if◌then◌else◌, ◌==◌, none}
use ckb_dex.Order.{OutPoint, Script}
use ckb_dex.Prelude.Result.{Result}

-- client.getTransaction(hash)
pub record NodeTransaction : Type 0 where
  pub status : String
  pub block_number : Option ℕ
  pub block_hash : Option String
  pub tx_index : Option ℕ
  pub hash : String
  pub inputs : List OutPoint

-- A cell of client.findCells and client.getCell.
pub record Cell : Type 0 where
  pub out_point : OutPoint
  pub lock : Script
  pub type_script : Option Script
  pub capacity : ℕ
  pub output_data : String

-- A record of client.findTransactionsByLock.
pub record LockRecord : Type 0 where
  pub is_input : Bool
  pub tx_hash : String

-- The transaction that `executeTrade` builds; its second output is the token cell.
pub record Settlement : Type 0 where
  pub inputs : List OutPoint
  pub payment_capacity : ℕ
  pub payment_lock : Script
  pub token_capacity : ℕ
  pub token_lock : Script
  pub token_type : Option Script
  pub token_data : String

-- `minimum_capacity` and `fee_of` are the capacity that the library gives the second output and
-- its estimate of the fee; `send` throws where the node rejects.
pub record Node : Type 0 where
  pub tip : ℕ
  pub header_hash : ℕ → Option String
  pub transaction : String → Option NodeTransaction
  pub cell_live : OutPoint → Bool
  pub cell_of : OutPoint → Option Cell
  pub transactions_by_lock : Script → List LockRecord
  pub cells_between : ℕ → ℕ → List Cell
  pub script_hash : Script → String
  pub address_of : Script → String
  pub minimum_capacity : Settlement → ℕ
  pub fee_of : Settlement → ℕ
  pub hash_of : Settlement → String
  pub send : Settlement → Result String

-- A text that is present and not empty, as JavaScript tests it.
abbrev pub present : Option String → Option String
present none = none
present (some s) = if s == "" then none else some s
