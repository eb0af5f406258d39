-- ===== src/Ui/Stores.antt =====
-- ui/src/services/closedOrders.js and ui/src/services/pendingOrders.js: the stores of the orders
-- that are known to be closed and of those that the backend has not indexed yet. Listeners and the
-- storage of the browser are left out; an out point is its normalised key, if it has one.
use ckb_dex.Prelude.{
  ℕ, String, Bool, true, false, List, [], ◌∷◌, Option, some, none, if◌then◌else◌, filter, not, ◌==◌,
  ◌+◌, member, ◌++◌, leb,
}

pub data Closing : Type 0 where
  was_filled was_canceled : Closing

-- `closed` and `version`
pub record ClosedOrders : Type 0 where
  pub closed : List (String × Closing)
  pub version : ℕ

unfoldable pub closed_at : String → List (String × Closing) → Option Closing
closed_at key [] = none
closed_at key ((k, status) ∷ rest) = if k == key then some status else closed_at key rest

-- The loop of `markClosed`: the entries, and whether one was added.
unfoldable pub add_closed :
    List (Option String × Closing) → List (String × Closing) → Bool × List (String × Closing)
add_closed [] closed = (false, closed)
add_closed ((none, status) ∷ rest) closed = add_closed rest closed
add_closed ((some key, status) ∷ rest) closed = elim (closed_at key closed) [
  | some known ↦ add_closed rest closed
  | none ↦ (true, (add_closed rest (closed ++ (key, status) ∷ [])).1)
]

unfoldable pub mark_closed : List (Option String × Closing) → ClosedOrders → ClosedOrders
mark_closed entries s =
    let (changed, closed) = add_closed entries s.closed in
    if changed then record { closed = closed; version = s.version + 1 } else s

-- `closedStatus`
unfoldable pub closed_status : Option String → ClosedOrders → Option Closing
closed_status none s = none
closed_status (some key) s = closed_at key s.closed

-- A row of an order that was submitted.
pub record PendingRow : Type 0 where
  pub tx_hash : String
  pub time : ℕ

abbrev pub max_age_ms : ℕ
max_age_ms = 1800000

-- `read` keeps the rows that are not too old; `now - max_age_ms` may be below 0 in the source, and
-- then every row is kept here too.
unfoldable pub read_rows : ℕ → List PendingRow → List PendingRow
read_rows now rows = filter (λ r. leb now (r.time + max_age_ms)) rows

unfoldable pub add_pending : PendingRow → List PendingRow → List PendingRow
add_pending row rows = row ∷ filter (λ r. not (r.tx_hash == row.tx_hash)) rows

unfoldable pub remove_pending : List String → List PendingRow → List PendingRow
remove_pending tx_hashes rows = filter (λ r. not (member r.tx_hash tx_hashes)) rows
