-- ===== src/Ingestion/Dedupe.antt =====
-- Idempotence and failure atomicity of `ingest` (backend/src/services/event-ingestion.ts).
use ckb_dex.Prelude.{
  none, ◌≡◌, Bool, List, Option, any, true, String, [], ◌++◌, ◌||◌, arith, not, eq_refl, Bool-cases,
  refl, ◌∷◌, some, inl, inr, eqb,
}
use ckb_dex.Prelude.Result.{ok, Failure, err, Result, app_error, other_error}
use ckb_dex.Events.{BotEvent}
use ckb_dex.Projection.{apply_event}
use ckb_dex.Projection.Lifecycle.{Applied, IngestionResult}
use ckb_dex.Verify.{ChainVerification}
use ckb_dex.Verify.Event.{verify_event}
use ckb_dex.Ingestion.{
  IngestionEvent, Database, is_processed, is_failed, audit_failure, persist_ingestion_event,
  Ingested, duplicate, verification_failed, commit_event, ingest, verified, after_verification,
  record_failed_event, processing_status_of, message_of,
}

or_true_right : (a : Bool) → (a || true) ≡ true
or_true_right a = ground arith

pub any-append {ℓ} :
    {A : Type ℓ} (p : A → Bool) (xs ys : List A) → any p (xs ++ ys) ≡ (any p xs || any p ys)
any-append p [] ys = refl
any-append p (x ∷ xs) ys = ground (arith, any-append p xs ys)

new_record_counts :
    (event : BotEvent) (result : IngestionResult)
    → not (is_failed (processing_status_of result.status)) ≡ true
new_record_counts event result = ground arith

persist-is_processed :
    (event : BotEvent) (result : IngestionResult) (events : List IngestionEvent)
    → is_processed event.event_id (persist_ingestion_event event result events) ≡ true
unfolding is_processed persist_ingestion_event
persist-is_processed event result events =
    simp (any-append, eq_refl, new_record_counts event result, or_true_right)

-- The record of a failure counts as no processed event.
record-is_processed :
    (event : BotEvent) (message id : String) (events : List IngestionEvent)
    → is_processed id (record_failed_event event message events) ≡ is_processed id events
unfolding is_processed record_failed_event
record-is_processed event message id [] = ground arith
record-is_processed event message id (r ∷ rs) =
    ground (arith, record-is_processed event message id rs)

pub audit-is_processed :
    (event : BotEvent) (failure : Failure) (id : String) (db : Database)
    → is_processed id (audit_failure event failure db).events ≡ is_processed id db.events
unfolding audit_failure
audit-is_processed event failure id db = record-is_processed event (message_of failure) id db.events

-- What the parts of `ingest` guarantee: a result comes with a record of the event, and an error
-- leaves the projection, pushes nothing and makes no event a processed one.
record Outcome (event : BotEvent) (db : Database) (i : Ingested) : Type 0 where
  on_result :
      (r : IngestionResult)
      → i.outcome ≡ ok r
      → is_processed event.event_id i.database.events ≡ true
  on_error :
      (e : Failure) (id : String)
      → i.outcome ≡ err e
      → (i.database.projection ≡ db.projection)
        × (i.pushes ≡ [])
        × (is_processed id i.database.events ≡ is_processed id db.events)

commit-Outcome :
    (event : BotEvent) (db : Database) (m : Result Applied)
    → Outcome event db (commit_event event db m)
unfolding commit_event
commit-Outcome event db (ok a) = record {
  on_result = λ r h. persist-is_processed event a.result db.events;
  on_error = λ e id h. cc;
}
commit-Outcome event db (err f) = record {
  on_result = λ r h. cc;
  on_error = λ e id h. (unfold audit_failure in refl, refl, audit-is_processed event f id db);
}

rejected-Outcome :
    (event : BotEvent) (db : Database) (f : Failure)
    → Outcome event db (verification_failed event f db)
unfolding verification_failed
rejected-Outcome event db (app_error status message code) = record {
  on_result = λ r h. cc;
  on_error = λ e id h.
      let audited = audit_failure event (app_error status message code) db in
      elim (Bool-cases (eqb status 422)) [
        | inl audits ↦ rw audits (
          unfold audit_failure in refl,
          refl,
          audit-is_processed event (app_error status message code) id db,
        )
        | inr silent ↦ rw silent (refl, refl, refl)
      ];
}
rejected-Outcome event db (other_error message) = record {
  on_result = λ r h. cc;
  on_error = λ e id h. (refl, refl, refl);
}

after-Outcome :
    (event : BotEvent) (db : Database) (m : Result (Unit {0}))
    → Outcome event db (after_verification event db m)
unfolding after_verification
after-Outcome event db (ok u) = commit-Outcome event db (apply_event event db.projection)
after-Outcome event db (err f) = rejected-Outcome event db f

verified-Outcome :
    (registered : Option ChainVerification) (event : BotEvent) (db : Database)
    → Outcome event db (verified registered event db)
unfolding verified
verified-Outcome none event db = record {
  on_result = λ r h. cc;
  on_error = λ e id h. (refl, refl, refl);
}
verified-Outcome (some v) event db =
    after-Outcome event db (verify_event v event db.projection.orders)

ingest-Outcome :
    (registered : Option ChainVerification) (event : BotEvent) (db : Database)
    → Outcome event db (ingest registered event db)
unfolding ingest
ingest-Outcome registered event db = elim (Bool-cases (is_processed event.event_id db.events)) [
  | inl known ↦ rw known (record { on_result = λ r h. known; on_error = λ e id h. cc })
  | inr new ↦ rw new (verified-Outcome registered event db)
]

pub ingest-processed :
    (registered : Option ChainVerification) (event : BotEvent) (db : Database)
    → is_processed event.event_id db.events ≡ true
    → ingest registered event db
      ≡ record { outcome = ok (duplicate event.event_id); database = db; pushes = [] }
unfolding ingest
ingest-processed registered event db h = rw h

-- Delivering an event again, after a delivery that returned a result, changes nothing: the second
-- call returns IGNORED as a duplicate, leaves the database as the first one left it and pushes
-- nothing, whatever the chain answers by then.
pub ingest_twice :
    (before after : Option ChainVerification) (event : BotEvent) (db : Database)
    (r : IngestionResult)
    → (ingest before event db).outcome ≡ ok r
    → ingest after event (ingest before event db).database ≡ record {
      outcome = ok (duplicate event.event_id);
      database = (ingest before event db).database;
      pushes = [];
    }
ingest_twice before after event db r h =
    ingest-processed after event (ingest before event db).database
      ((ingest-Outcome before event db).on_result r h)

-- A call that throws leaves the projection as it was, pushes nothing, and leaves each event as
-- processed or not as it was, so that the failed event can be delivered again.
pub failed_ingest_keeps_projection :
    (registered : Option ChainVerification) (event : BotEvent) (db : Database) (e : Failure)
    (id : String)
    → (ingest registered event db).outcome ≡ err e
    → ((ingest registered event db).database.projection ≡ db.projection)
      × ((ingest registered event db).pushes ≡ [])
      × (is_processed id (ingest registered event db).database.events ≡ is_processed id db.events)
failed_ingest_keeps_projection registered event db e id h =
    (ingest-Outcome registered event db).on_error e id h
