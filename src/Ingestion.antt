-- ===== src/Ingestion.antt =====
-- backend/src/services/event-ingestion.ts: `EventIngestionService.ingest`. The database is the
-- projection with the ingestion records of backend/src/models/ingestion-event.ts; the callback of
-- `withTransaction` either commits all its writes or none. Pushes after the commit are returned.
-- A duplicate key at the commit needs a delivery of the same event at the same time, and a write of
-- the audit record that fails is only logged: both lie outside this sequential model.
pub mod Dedupe
pub mod Ledger
use ckb_dex.Prelude.{
  ℕ, String, Bool, true, false, not, ◌&&◌, Option, none, some, List, [], ◌∷◌, ◌++◌, any, filter,
  eqb, ◌==◌, if◌then◌else◌,
}
use ckb_dex.Prelude.Result.{Result, ok, err, Failure, app_error, other_error}
use ckb_dex.Order.{Order}
use ckb_dex.Events.{BotEvent}
use ckb_dex.Projection.{apply_event}
use ckb_dex.Projection.Lifecycle.{
  Projection, Applied, IngestionResult, IngestionResultStatus, applied, ignored, Push,
}
use ckb_dex.Verify.{ChainVerification}
use ckb_dex.Verify.Event.{verify_event}

pub data ProcessingStatus : Type 0 where
  was_applied was_ignored failed : ProcessingStatus

-- An ingestion record; `payload` holds the event whole.
pub record IngestionEvent : Type 0 where
  pub event_id : String
  pub payload : BotEvent
  pub processing_status : ProcessingStatus
  pub processing_error : Option String

pub record Database : Type 0 where
  pub projection : Projection
  pub events : List IngestionEvent

abbrev pub is_failed : ProcessingStatus → Bool
is_failed failed = true
is_failed _ = false

-- `findOne({ eventId, processingStatus: { $ne: "FAILED" } })` finds a record
unfoldable pub is_processed : String → List IngestionEvent → Bool
is_processed event_id events =
    any (λ r. (r.event_id == event_id) && not (is_failed r.processing_status)) events

-- The failed record of an event.
abbrev pub is_failure_of : String → IngestionEvent → Bool
is_failure_of event_id r = (r.event_id == event_id) && is_failed r.processing_status

abbrev message_of : Failure → String
message_of (app_error status message code) = message
message_of (other_error message) = message

-- `recordFailedEvent`: one record for each event, rewritten on each failure.
record_failed_event : BotEvent → String → List IngestionEvent → List IngestionEvent
record_failed_event event message [] =
    record {
      event_id = event.event_id;
      payload = event;
      processing_status = failed;
      processing_error = some message;
    }
    ∷ []
record_failed_event event message (r ∷ rs) =
    if is_failure_of event.event_id r
    then record r { payload = event; processing_error = some message } ∷ rs
    else r ∷ record_failed_event event message rs

unfoldable pub audit_failure : BotEvent → Failure → Database → Database
unfolding record_failed_event
audit_failure event failure db = record db {
  events = record_failed_event event (message_of failure) db.events;
}

abbrev processing_status_of : IngestionResultStatus → ProcessingStatus
processing_status_of applied = was_applied
processing_status_of ignored = was_ignored

-- `deleteOne` of a failed record and `persistIngestionEvent`
unfoldable pub persist_ingestion_event :
    BotEvent → IngestionResult → List IngestionEvent → List IngestionEvent
persist_ingestion_event event result events =
    filter (λ r. not (is_failure_of event.event_id r)) events
    ++ record {
      event_id = event.event_id;
      payload = event;
      processing_status = processing_status_of result.status;
      processing_error = result.reason;
    }
      ∷ []

-- What a call of `ingest` leaves: its result or the error that it throws, the database and the
-- pushes that ran.
pub record Ingested : Type 0 where
  pub outcome : Result IngestionResult
  pub database : Database
  pub pushes : List Push

abbrev pub duplicate : String → IngestionResult
duplicate event_id = record {
  status = ignored;
  event_id = event_id;
  reason = some "duplicate-event-id";
}

-- `verify`: a rejection (422) is audited, and an error that is no `AppError` becomes a 503.
unfoldable pub verification_failed : BotEvent → Failure → Database → Ingested
verification_failed event (app_error status message code) db = record {
  outcome = err (app_error status message code);
  database = if eqb status 422 then audit_failure event (app_error status message code) db else db;
  pushes = [];
}
verification_failed event (other_error message) db = record {
  outcome = err (app_error 503 "Unable to verify event against CKB" none);
  database = db;
  pushes = [];
}

-- The transaction: it commits the projection with the record of the event, or is aborted, and then
-- the failure is audited and thrown on.
unfoldable pub commit_event : BotEvent → Database → Result Applied → Ingested
commit_event event db (ok a) = record {
  outcome = ok a.result;
  database = record {
    projection = a.projection;
    events = persist_ingestion_event event a.result db.events;
  };
  pushes = a.after_commit;
}
commit_event event db (err e) = record {
  outcome = err e;
  database = audit_failure event e db;
  pushes = [];
}

after_verification : BotEvent → Database → Result (Unit {0}) → Ingested
after_verification event db (ok _) = commit_event event db (apply_event event db.projection)
after_verification event db (err e) = verification_failed event e db

-- `getChainVerification` throws a 503, outside the `try`, until a verification is registered.
verified : Option ChainVerification → BotEvent → Database → Ingested
verified none event db = record {
  outcome =
      err (app_error 503 "Chain verification is not configured; refusing to ingest events" none);
  database = db;
  pushes = [];
}
verified (some v) event db = after_verification event db (verify_event v event db.projection.orders)

unfoldable pub ingest : Option ChainVerification → BotEvent → Database → Ingested
unfolding verified after_verification
ingest registered event db =
    if is_processed event.event_id db.events
    then record { outcome = ok (duplicate event.event_id); database = db; pushes = [] }
    else verified registered event db
