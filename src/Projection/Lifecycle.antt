-- ===== src/Projection/Lifecycle.antt =====
-- backend/src/services/event-ingestion.ts: the states of an order, the allowed transitions, and
-- what applying an event returns.
use Prim.Native.String
use ckb_dex.Prelude.{String, Bool, false, ◌||◌, Option, none, some, List, [], ◌∷◌}
use ckb_dex.Order.{
  Order, OutPoint, Trade, OrderStatus, discovered, live, reserved, pending, filled, canceled,
  invalid, orphaned, settlement_submitted, cancelled, status_eq,
}

pub data IngestionResultStatus : Type 0 where
  applied ignored : IngestionResultStatus

pub record IngestionResult : Type 0 where
  pub status : IngestionResultStatus
  pub event_id : String
  pub reason : Option String

-- The projection: the collections that events write to.
pub record Projection : Type 0 where
  pub orders : List Order
  pub trades : List Trade

-- The calls of the realtime broadcaster that run after the commit.
pub data Push : Type 0 where
  emit_orderbook emit_maker_orders emit_trades : String → Push

pub record Applied : Type 0 where
  pub result : IngestionResult
  pub projection : Projection
  pub after_commit : List Push

abbrev pub allowed_transitions : OrderStatus → List OrderStatus
allowed_transitions discovered =
    live ∷ reserved ∷ pending ∷ settlement_submitted ∷ canceled ∷ cancelled ∷ filled ∷ invalid
    ∷ orphaned ∷ []
allowed_transitions live =
    reserved ∷ pending ∷ settlement_submitted ∷ canceled ∷ cancelled ∷ filled ∷ invalid ∷ orphaned
    ∷ []
allowed_transitions reserved =
    live ∷ pending ∷ canceled ∷ cancelled ∷ filled ∷ invalid ∷ orphaned ∷ []
allowed_transitions pending = live ∷ canceled ∷ cancelled ∷ filled ∷ invalid ∷ orphaned ∷ []
allowed_transitions settlement_submitted =
    pending ∷ filled ∷ canceled ∷ cancelled ∷ orphaned ∷ invalid ∷ []
allowed_transitions filled = orphaned ∷ []
allowed_transitions canceled = orphaned ∷ []
allowed_transitions cancelled = orphaned ∷ []
allowed_transitions invalid = []
allowed_transitions orphaned = live ∷ canceled ∷ cancelled ∷ filled ∷ invalid ∷ []

abbrev includes_status : List OrderStatus → OrderStatus → Bool
includes_status [] s = false
includes_status (t ∷ ts) s = status_eq t s || includes_status ts s

unfoldable pub can_transition : OrderStatus → OrderStatus → Bool
can_transition current next = includes_status (allowed_transitions current) next

unfoldable pub to_order_id : OutPoint → String
to_order_id p = String.◌++◌ p.tx_hash (String.◌++◌ ":" p.index)

-- `{ status: "IGNORED", eventId, reason }`: nothing is written and nothing is pushed.
abbrev pub ignore : String → String → Projection → Applied
ignore event_id reason p = record {
  result = record { status = ignored; event_id = event_id; reason = some reason };
  projection = p;
  after_commit = [];
}

-- `{ status: "APPLIED", eventId }`
abbrev pub apply : String → Projection → List Push → Applied
apply event_id p pushes = record {
  result = record { status = applied; event_id = event_id; reason = none };
  projection = p;
  after_commit = pushes;
}
