-- ===== src/Bot/Session.antt =====
-- What the methods of `DexOrderBot` in backend/src/bot/index.ts share: they read and write the
-- database, and they may throw. An action keeps what it wrote before it threw. The pushes of an
-- ingestion go to the broadcaster and are dropped here.
use ckb_dex.Prelude.{Bool, List, Option, if◌then◌else◌, true, eqb, false, ◌≡◌, ◌⊎◌, inl, inr, refl}
use ckb_dex.Prelude.Result.{Result, ok, err, Failure, app_error, other_error}
use ckb_dex.Order.{Order}
use ckb_dex.Ingestion.{Database, ingest}
use ckb_dex.Projection.Lifecycle.{IngestionResult}
use ckb_dex.Verify.{ChainVerification}
use ckb_dex.Events.{BotEvent}

abbrev pub Action : Type 0 → Type 0
Action A = Database → Result A × Database

-- What follows an action.
abbrev pub continue : {A B : Type 0} → Result A × Database → (A → Action B) → Result B × Database
continue (ok a, db) f = f a db
continue (err e, db) f = (err e, db)

infixl 5 ◌>>=◌
infixl 5 ◌>>◌
abbrev pub ◌>>=◌ : {A B : Type 0} → Action A → (A → Action B) → Action B
◌>>=◌ m f db = continue (m db) f

abbrev pub ◌>>◌ : {B : Type 0} → Action (Unit {0}) → Action B → Action B
◌>>◌ m next db = continue (m db) (λ done. next)

abbrev pub pure : {A : Type 0} → A → Action A
pure a db = (ok a, db)

abbrev pub throw : {A : Type 0} → Failure → Action A
throw e db = (err e, db)

-- `if (!test) throw e`
abbrev pub require : Bool → Failure → Action (Unit {0})
require test e db = (if test then ok tt else err e, db)

-- The documents of the collection of orders.
abbrev pub orders_of : Database → List Order
orders_of db = db.projection.orders

-- A write to the collection of orders.
abbrev pub with_orders : Database → List Order → Database
with_orders db os = record db { projection = record db.projection { orders = os } }

abbrev pub write : (List Order → List Order) → Action (Unit {0})
write f db = (ok tt, with_orders db (f (orders_of db)))

-- `emit`: an event that is not buried deep enough is retried on the next tick.
unfoldable pub emitted : Result IngestionResult → Result Bool
emitted (ok result) = ok true
emitted (err (app_error status message code)) =
    if eqb status 409 then ok false else err (app_error status message code)
emitted (err (other_error message)) = err (other_error message)

unfoldable pub emit : Option ChainVerification → BotEvent → Action Bool
emit registered event db =
    let done = ingest registered event db in (emitted done.outcome, done.database)

-- To split on what an action left and keep the equation.
pub Action-cases :
    {A : Type 0} (left : Result A × Database)
    → ((a : A) × (db : Database) × (left ≡ (ok a, db)))
      ⊎ ((e : Failure) × (db : Database) × (left ≡ (err e, db)))
Action-cases (ok a, db) = inl (a, db, refl)
Action-cases (err e, db) = inr (e, db, refl)
