-- ===== src/Tests/Ingest.antt =====
-- The laws of ingestion and of the order lock's arguments, at the chain of the test data.
use ckb_dex.Projection.Spend.{apply_trade_confirmed}
use ckb_dex.Projection.{apply_event}
use ckb_dex.Verify.{spends, confirmations, require_confirmed}
use ckb_dex.Verify.Event.{
  trade_matches, order_pair, verify_known_trade, verify_trade_confirmed, verify_event,
}
use ckb_dex.Prelude.{
  false, ℕ, List, ◌<◌, [], some, ◌≡◌, none, All, suc, ◌∷◌, zero, refl, arith, inr, ◌⊎◌,
}
use ckb_dex.Tests.Data.{book, traded, event_of}
use ckb_dex.Tests.Chain.{chain, codec, trade_event, buy_args, bytes_of}
use ckb_dex.Ingestion.{
  verification_failed, commit_event, Database, Ingested, ingest, is_processed, duplicate,
}
use ckb_dex.Projection.Lifecycle.{can_transition, to_order_id, IngestionResult, applied}
use ckb_dex.Events.{BotEvent, trade_confirmed}
use ckb_dex.Prelude.Result.{Failure, app_error, ok, err}
use ckb_dex.Bytes.{same_lower, same_hex, hex_value, hex_pairs, to_buffer, to_hex}
use ckb_dex.Args.{
  decode_dex_order_args, DecodedDexOrderArgs, dex_args_bytes, OrderTerms, read_order_terms,
}
use ckb_dex.Bytes.Hex.{IsByte}
use ckb_dex.Ingestion.Ledger.{
  Deliveries, Ledger, Represents, ingest_all, deliver_all, ingest_implements_ledger,
}
use ckb_dex.Ingestion.Dedupe.{failed_ingest_keeps_projection, ingest_twice}
use ckb_dex.Order.{ask}
use ckb_dex.Args.Laws.{decode-dex_args_bytes, SameTerms, readers_agree}

abbrev database : Database
database = record { projection = book; events = [] }

abbrev done : Ingested
done = ingest (some chain) trade_event database

abbrev done_result : IngestionResult
done_result = record { status = applied; event_id = "e2"; reason = none }

done_lem : done.outcome ≡ ok done_result
unfolding ingest is_processed verify_event verify_trade_confirmed to_order_id verify_known_trade
    order_pair require_confirmed same_hex same_lower confirmations spends trade_matches commit_event
    apply_event apply_trade_confirmed can_transition
done_lem = refl

ingest_twice_example : ingest none trade_event done.database ≡ record {
  outcome = ok (duplicate trade_event.event_id);
  database = done.database;
  pushes = [];
}
ingest_twice_example = ingest_twice (some chain) none trade_event database done_result done_lem

abbrev stray_event : BotEvent
stray_event = event_of "e3" (some "0xb99") (trade_confirmed traded)

abbrev wrong_block : Failure
wrong_block = app_error 422 "block hash does not match the chain" none

refused_lem : (ingest (some chain) stray_event database).outcome ≡ err wrong_block
unfolding ingest is_processed verify_event verify_trade_confirmed to_order_id verify_known_trade
    order_pair require_confirmed same_hex same_lower verification_failed
refused_lem = refl

failed_ingest_keeps_projection_example :
    ((ingest (some chain) stray_event database).database.projection ≡ book)
    × ((ingest (some chain) stray_event database).pushes ≡ [])
    × (is_processed "e3" (ingest (some chain) stray_event database).database.events
        ≡ is_processed "e3" database.events)
failed_ingest_keeps_projection_example =
    failed_ingest_keeps_projection (some chain) stray_event database wrong_block "e3" refused_lem

abbrev deliveries : Deliveries
deliveries =
    (none, trade_event)
    ∷ (some chain, stray_event)
    ∷ (some chain, trade_event)
    ∷ (some chain, trade_event)
    ∷ []

abbrev ledger : Ledger
ledger = record { projection = book; seen = λ id. false }

database-Represents : Represents database ledger
unfolding is_processed
database-Represents = record { same_projection = refl; same_seen = λ id. refl }

ingest_implements_ledger_example :
    ((ingest_all deliveries database).0 ≡ (deliver_all deliveries ledger).0)
    × Represents (ingest_all deliveries database).1 (deliver_all deliveries ledger).1
ingest_implements_ledger_example =
    ingest_implements_ledger deliveries database ledger database-Represents

abbrev repeated : ℕ → ℕ → List ℕ
repeated zero b = []
repeated (suc n) b = b ∷ repeated n b

repeated-All_bytes : (n b : ℕ) → b < 256 → All IsByte (repeated n b)
repeated-All_bytes zero b h = tt
repeated-All_bytes (suc n) b h = (h, repeated-All_bytes n b h)

decode-dex_args_bytes_example :
    decode_dex_order_args codec
      (codec.hex_from (dex_args_bytes codec 1 (repeated 32 170) (repeated 32 187) 100 5))
    ≡ ok (record {
      maker_lock_hash = to_hex (repeated 32 170);
      direction = ask;
      udt_type_hash = to_hex (repeated 32 187);
      token_amount = 100;
      price_per_token = 5;
    })
decode-dex_args_bytes_example =
    decode-dex_args_bytes codec 1 (repeated 32 170) (repeated 32 187) 100 5 (inr refl)
      (refl, repeated-All_bytes 32 170 (omega arith))
      (refl, repeated-All_bytes 32 187 (omega arith)) (omega arith) (omega arith)

readable : to_buffer buy_args ≡ ok (bytes_of buy_args)
unfolding to_buffer hex_pairs hex_value
readable = refl

readers_agree_example :
    ((d : DecodedDexOrderArgs) × (t : OrderTerms codec) × (decode_dex_order_args codec buy_args
        ≡ ok d)
      × (read_order_terms codec buy_args ≡ ok t)
      × SameTerms codec d t)
    ⊎ ((f g : Failure) × (decode_dex_order_args codec buy_args ≡ err f)
        × (read_order_terms codec buy_args ≡ err g))
readers_agree_example = readers_agree codec buy_args (bytes_of buy_args) readable
