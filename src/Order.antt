-- ===== src/Order.antt =====
-- backend/src/models: the documents of the projection. Decimal texts of amounts, prices, block
-- numbers and transaction indices are kept as the numbers that they print; dates are milliseconds.
-- Fields that no code of the services reads or writes are left out.
use ckb_dex.Prelude.{
  ℕ, String, Bool, true, false, Option, none, some, List, [], ◌∷◌, eqb, ◌==◌, if◌then◌else◌, find,
}

pub data OrderDirection : Type 0 where
  ask bid : OrderDirection

pub data OrderStatus : Type 0 where
  discovered live reserved pending filled canceled invalid orphaned settlement_submitted cancelled :
      OrderStatus

pub data HashType : Type 0 where
  data0 type1 data1 data2 : HashType

pub record Script : Type 0 where
  pub code_hash : String
  pub hash_type : HashType
  pub args : String

pub record OutPoint : Type 0 where
  pub tx_hash : String
  pub index : String

pub record Order : Type 0 where
  pub id : String
  pub out_point : OutPoint
  pub lock_script : Script
  pub type_script : Option Script
  pub cell_data : String
  pub capacity : ℕ
  pub owner_lock : Script
  pub owner_lock_hash : String
  pub owner_address : Option String
  pub direction : OrderDirection
  pub price_per_token : ℕ
  pub remaining_amount : ℕ
  pub token_pair : String
  pub xudt_type_hash : String
  pub block_number : ℕ
  pub tx_index : ℕ
  pub status : OrderStatus
  pub reserved_until : Option ℕ
  pub pending_tx_hash : Option String
  pub settlement_tx_hash : Option String
  pub last_event_id : Option String
  pub confirmed_at_block : Option ℕ
  pub created_at_block : Option ℕ
  pub price_value : Option ℕ
  pub block_num : Option ℕ
  pub tx_idx : Option ℕ
  pub created_block_hash : Option String
  pub spent_at_block : Option ℕ
  pub spent_block_hash : Option String

pub data TradeStatus : Type 0 where
  confirmed reverted : TradeStatus

pub record Trade : Type 0 where
  pub id : String
  pub settlement_tx_hash : String
  pub buy_order_out_point : OutPoint
  pub sell_order_out_point : OutPoint
  pub buyer_lock_hash : String
  pub seller_lock_hash : String
  pub xudt_type_hash : String
  pub token_amount : ℕ
  pub price : ℕ
  pub paid_capacity : ℕ
  pub block_number : ℕ
  pub block_hash : String
  pub confirmed_at_block : ℕ
  pub block_num : Option ℕ
  pub status : TradeStatus
  pub last_event_id : String

-- The place of a status in ORDER_STATUS_VALUES, and `===` on statuses through it.
abbrev pub status_index : OrderStatus → ℕ
status_index discovered = 0
status_index live = 1
status_index reserved = 2
status_index pending = 3
status_index filled = 4
status_index canceled = 5
status_index invalid = 6
status_index orphaned = 7
status_index settlement_submitted = 8
status_index cancelled = 9

abbrev pub status_eq : OrderStatus → OrderStatus → Bool
status_eq s t = eqb (status_index s) (status_index t)

abbrev pub direction_eq : OrderDirection → OrderDirection → Bool
direction_eq ask ask = true
direction_eq bid bid = true
direction_eq _ _ = false

-- OrderModel.findById
abbrev pub find_by_id : String → List Order → Option Order
find_by_id id = find (λ o. o.id == id)

-- order.save() of a document that was read from the collection
unfoldable pub save : Order → List Order → List Order
save order [] = []
save order (o ∷ os) = if o.id == order.id then order ∷ os else o ∷ save order os

-- findByIdAndUpdate with `upsert`: `change` of the document, or `fresh` at the end.
unfoldable pub upsert : String → (Order → Order) → Order → List Order → List Order
upsert id change fresh [] = fresh ∷ []
upsert id change fresh (o ∷ os) =
    if o.id == id then change o ∷ os else o ∷ upsert id change fresh os

-- `===` on optional texts
abbrev pub same_text : Option String → Option String → Bool
same_text none none = true
same_text (some s) (some t) = s == t
same_text _ _ = false

-- A `$set` of an undefined value leaves the field as it was.
abbrev pub or_keep {ℓ} : {A : Type ℓ} → Option A → Option A → Option A
or_keep none old = old
or_keep (some new) old = some new
