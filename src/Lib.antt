-- ===== src/Lib.antt =====
-- A model of the services of a CKB order-book exchange: the bot that matches orders,
-- the backend that ingests chain events into a projection and serves it, the faucet of the demo
-- token, and the logic of the web client that prepares orders.
--
-- Parts, and the files that model them:
--   * Order, Events: the documents of backend/src/models and the events of
--     backend/src/schemas/bot-events.ts. Decimal texts of amounts, prices, block numbers and
--     indices are the numbers that they print, on the native naturals; identifiers are texts.
--   * Projection: `applyEvent` of backend/src/services/event-ingestion.ts, one child for each
--     handler. The collections of orders and trades are lists of documents; a handler returns the
--     new projection, the result and the pushes that run after the commit.
--   * Verify: backend/src/services/event-verification.ts, against a reader of the chain.
--   * Ingestion: `ingest`, which deduplicates, verifies, applies and records an event;
--     Ledger is the abstract specification that it implements.
--   * Bytes, Args: hex texts (backend/src/utils/shared.ts) and the 90-byte arguments of the order
--     lock (backend/src/utils/dex-order-args.ts, offchain/src/fill-order.ts, offchain/src/shared.ts).
--   * ScriptCodec: the binary form of scripts and of the arguments of the first order lock
--     (backend/src/utils/shared.ts).
--   * Matching, Health: priority and matching of backend/src/bot/index.ts, and the quarantine and
--     backoff of backend/src/bot/match-health.ts, which matching consults.
--   * Settlement: shared/settlement-capacity.mjs.
--   * Bot: backend/src/bot/index.ts. Checkpoints and Forks detect a reorganisation, Scan indexes
--     cells, Reconcile handles spent orders, Flight settlements in flight, Trade is executeTrade
--     and Tick the loop over all of them. Session has their shared form: an action on the
--     database that may throw and keeps what it wrote before.
--   * Market: the listings of backend/src/routes/market.ts and the cursors of
--     backend/src/utils/pagination.ts. Keyset has the pages over any sorted rows, Listings the
--     handlers.
--   * Faucet: the claims of faucet/src/services/claims.ts, the service of
--     faucet/src/services/faucet.ts, and the throttle of
--     faucet/src/routes/index.ts.
--   * Access: the rate limiter, the token check and the error answers of
--     backend/src/middleware/index.ts.
--   * Realtime: the connections and subscriptions of backend/src/services/realtime.ts; Steps has the
--     interleavings of its handlers.
--   * Ui: of the web client, the drafts of ui/src/utils/orders.js, ui/src/services/ckb/dex.js, and
--     the stores ui/src/services/closedOrders.js and ui/src/services/pendingOrders.js.
--   * Prelude: the shared names, lists and results; Tests: the laws at concrete inputs.
--
-- Errors are values (Prelude.Result). Calls of the database are atomic, and an interleaving of
-- callers is a sequence of them: the model of each operation is sequential, but for Realtime, whose
-- handlers interleave where they wait. A JS Map is a function from its keys or a list in insertion
-- order. The loops of the modelled code run over a list, or three times (the commit of a claim), and
-- need no fuel; the printing of a number (Bot.Scan) takes the number as fuel, and a walk through
-- pages (Market.Keyset) any fuel above the number of rows.
--
-- The client library @ckb-ccc/core is a parameter: the record Args.Codec holds the conversions of
-- numbers and bytes with their documented behaviour, and Verify.ChainReader what the node answers.
-- Bot.Node.Node is what the bot asks of its node; its answers are those of one tick. JSON, base64url
-- and the shape of cursors are the record Market.Keyset.CursorText with their round trip.
-- Not modelled: the schemas of queries and events, HTTP routes, the snapshots and pushes of the
-- broadcaster, configuration, the RPC client, the deployment manifest, the components of the user
-- interface and the contracts, which are I/O or lie outside the services.
pub mod Access
pub mod Prelude
pub mod ScriptCodec
pub mod Settlement
pub mod Health
pub mod Order
pub mod Events
pub mod Bytes
pub mod Args
pub mod Verify
pub mod Ingestion
pub mod Matching
pub mod Bot
pub mod Market
pub mod Realtime
pub mod Ui
pub mod Faucet
pub mod Tests
pub mod Projection
