-- ===== src/Ingestion/Ledger.antt =====
-- What ingestion promises: the abstract ledger that `ingest` of
-- backend/src/services/event-ingestion.ts implements. The ledger has no records of events, only
-- whether an event is processed; an event is taken into account once, in one piece, or not at all.
use mathlib.Core.Path.{ap₂, subst}
use ckb_dex.Prelude.{
  ap, sym, ◌∙◌, String, Bool, List, [], ◌∷◌, ◌++◌, Option, some, none, if◌then◌else◌, any, filter,
  not, ◌==◌, ◌||◌, ◌&&◌, ◌≡◌, arith, refl, Bool-cases, inl, inr, eqb,
}
use ckb_dex.Prelude.Result.{Result, ok, err, Failure, other_error, app_error}
use ckb_dex.Ingestion.{
  verified, Database, Ingested, IngestionEvent, ingest, is_processed, is_failure_of,
  persist_ingestion_event, is_failed, audit_failure, verification_failed, commit_event,
  after_verification,
}
use ckb_dex.Ingestion.Dedupe.{any-append, audit-is_processed}
use ckb_dex.Events.{BotEvent}
use ckb_dex.Verify.{ChainVerification}
use ckb_dex.Projection.Lifecycle.{Projection, Applied, Push, IngestionResult}
use ckb_dex.Verify.Event.{verify_event}
use ckb_dex.Projection.{apply_event}

pub record Ledger : Type 0 where
  pub projection : Projection
  pub seen : String → Bool

-- What an event does that passes its verification and whose handler does not throw.
abbrev pub accept : Result (Unit {0}) → Result Applied → Option Applied
accept (ok u) (ok a) = some a
accept (ok u) (err e) = none
accept (err e) m = none

abbrev pub accepted : Option ChainVerification → BotEvent → Projection → Option Applied
accepted none event p = none
accepted (some v) event p = accept (verify_event v event p.orders) (apply_event event p)

abbrev pub remember : String → Option Applied → Ledger → List Push × Ledger
remember id none s = ([], s)
remember id (some a) s = (
  a.after_commit,
  record { projection = a.projection; seen = λ other. (id == other) || s.seen other },
)

-- The ledger's only step.
abbrev pub deliver : Option ChainVerification → BotEvent → Ledger → List Push × Ledger
deliver registered event s =
    if s.seen event.event_id
    then ([], s)
    else remember event.event_id (accepted registered event s.projection) s

-- Deliveries in a row, each with the verification that is registered by then.
abbrev pub Deliveries : Type 0
Deliveries = List (Option ChainVerification × BotEvent)

abbrev pub deliver_all : Deliveries → Ledger → List Push × Ledger
deliver_all [] s = ([], s)
deliver_all ((registered, event) ∷ ds) s =
    let first = deliver registered event s in
    let rest = deliver_all ds first.1 in (first.0 ++ rest.0, rest.1)

abbrev pub ingest_all : Deliveries → Database → List Push × Database
ingest_all [] db = ([], db)
ingest_all ((registered, event) ∷ ds) db =
    let first = ingest registered event db in
    let rest = ingest_all ds first.database in (first.pushes ++ rest.0, rest.1)

-- The database stands for the ledger.
pub record Represents (db : Database) (s : Ledger) : Type 0 where
  pub same_projection : db.projection ≡ s.projection
  pub same_seen : (id : String) → is_processed id db.events ≡ s.seen id

-- A step of the two that push the same and end in states that correspond.
abbrev Simulates : Ingested → List Push × Ledger → Type 0
Simulates i step = (i.pushes ≡ step.0) × Represents i.database step.1

filter-is_processed :
    (id event_id : String) (rs : List IngestionEvent)
    → is_processed id (filter (λ r. not (is_failure_of event_id r)) rs) ≡ is_processed id rs
unfolding is_processed
filter-is_processed id event_id [] = refl
filter-is_processed id event_id (r ∷ rs) = ground (arith, filter-is_processed id event_id rs)

persist_seen :
    (id : String) (event : BotEvent) (result : IngestionResult) (rs : List IngestionEvent)
    → is_processed id (persist_ingestion_event event result rs)
      ≡ ((event.event_id == id) || is_processed id rs)
unfolding is_processed persist_ingestion_event
persist_seen id event result rs =
    let kept = filter (λ r. not (is_failure_of event.event_id r)) rs in
    let counts : IngestionEvent → Bool =
      λ r. (r.event_id == id) && not (is_failed r.processing_status) in
    let same : any counts kept ≡ any counts rs =
      unfold is_processed in filter-is_processed id event.event_id rs in
    rw (any-append counts kept _) (ground (arith, same))

audit-Represents :
    (event : BotEvent) (f : Failure) (db : Database) (s : Ledger)
    → Represents db s
    → Represents (audit_failure event f db) s
unfolding audit_failure
audit-Represents event f db s same = record {
  same_projection = same.same_projection;
  same_seen = λ id. audit-is_processed event f id db ∙ same.same_seen id;
}

failed-Simulates :
    (event : BotEvent) (f : Failure) (db : Database) (s : Ledger)
    → Represents db s
    → Simulates (verification_failed event f db) ([], s)
unfolding verification_failed
failed-Simulates event (other_error message) db s same = (refl, same)
failed-Simulates event (app_error status message code) db s same =
    elim (Bool-cases (eqb status 422)) [
      | inl audits ↦
          rw audits (refl, audit-Represents event (app_error status message code) db s same)
      | inr silent ↦ rw silent (refl, same)
    ]

commit-Simulates :
    (event : BotEvent) (m : Result Applied) (u : Unit {0}) (db : Database) (s : Ledger)
    → Represents db s
    → Simulates (commit_event event db m) (remember event.event_id (accept (ok u) m) s)
unfolding commit_event
commit-Simulates event (ok a) u db s same = (
  refl,
  record {
    same_projection = refl;
    same_seen = λ id.
        persist_seen id event a.result db.events
        ∙ ap (λ b. (event.event_id == id) || b) (same.same_seen id);
  },
)
commit-Simulates event (err f) u db s same = (refl, audit-Represents event f db s same)

after-Simulates :
    (event : BotEvent) (m : Result (Unit {0})) (db : Database) (s : Ledger)
    → Represents db s
    → Simulates
        (after_verification event db m)
        (remember event.event_id (accept m (apply_event event db.projection)) s)
unfolding after_verification
after-Simulates event (ok u) db s same =
    commit-Simulates event (apply_event event db.projection) u db s same
after-Simulates event (err f) db s same = failed-Simulates event f db s same

verified-Simulates :
    (registered : Option ChainVerification) (event : BotEvent) (db : Database) (s : Ledger)
    → Represents db s
    → Simulates
        (verified registered event db)
        (remember event.event_id (accepted registered event db.projection) s)
unfolding verified
verified-Simulates none event db s same = (refl, same)
verified-Simulates (some v) event db s same =
    after-Simulates event (verify_event v event db.projection.orders) db s same

ingest-Simulates :
    (registered : Option ChainVerification) (event : BotEvent) (db : Database) (s : Ledger)
    → Represents db s
    → Simulates (ingest registered event db) (deliver registered event s)
unfolding ingest
ingest-Simulates registered event db s same =
    let seen = same.same_seen event.event_id in
    elim (Bool-cases (is_processed event.event_id db.events)) [
      | inl known ↦ rw (known, ingest, sym seen ∙ known) (refl, same)
      | inr new ↦
          rw (new, ingest, sym seen ∙ new)
            (subst
              (λ (p : Projection).
                Simulates (verified registered event db)
                  (remember event.event_id (accepted registered event p) s))
              same.same_projection (verified-Simulates registered event db s same))
    ]

-- Ingestion implements the ledger: however events are delivered, repeated and reordered, and
-- whatever verification is registered at each delivery, the pushes of all deliveries together are
-- those of the ledger, and the database ends with the projection and the processed events of the
-- ledger, if it started so. The ledger takes an event into account at its first delivery that
-- verifies and applies, and never again; the records of failed events are invisible.
pub ingest_implements_ledger :
    (ds : Deliveries) (db : Database) (s : Ledger)
    → Represents db s
    → ((ingest_all ds db).0 ≡ (deliver_all ds s).0)
      × Represents (ingest_all ds db).1 (deliver_all ds s).1
ingest_implements_ledger [] db s same = (refl, same)
ingest_implements_ledger ((registered, event) ∷ ds) db s same =
    let (pushed, next) = ingest-Simulates registered event db s same in
    let (rest, last) =
      ingest_implements_ledger ds (ingest registered event db).database
        (deliver registered event s).1 next in
    (ap₂ (λ x y. x ++ y) pushed rest, last)
