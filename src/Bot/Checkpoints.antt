-- ===== src/Bot/Checkpoints.antt =====
-- The checkpoints of backend/src/bot/index.ts (`saveCheckpoint`, `detectReorg`,
-- `resolveScanCursor`), the hashes of scanned blocks of backend/src/models/checkpoint.ts. The
-- collection is a list; a query sorted by `{ blockNumber: -1 }` is `newest_first`.
use Prim.Native.String
use ckb_dex.Prelude.{
  zero, suc, ℕ, String, List, Option, ◌∷◌, some, filter, none, take, [], if◌then◌else◌, not, ◌+◌,
  leb, eqb, ltb, ◌-◌,
}
use ckb_dex.Ingestion.{Database, Ingested, ingest}
use ckb_dex.Events.{BotEvent, chain_reorg}
use ckb_dex.Prelude.Result.{Result, ok, err}
use ckb_dex.Verify.{ChainVerification}
use ckb_dex.Order.{same_text}

pub record Checkpoint : Type 0 where
  pub number : ℕ
  pub hash : String

-- CHECKPOINT_RETENTION
abbrev pub checkpoint_retention : ℕ
checkpoint_retention = 500

-- CHECKPOINT_WINDOW
abbrev pub checkpoint_window : ℕ
checkpoint_window = 50

unfoldable pub put_checkpoint : Checkpoint → List Checkpoint → List Checkpoint
put_checkpoint c [] = c ∷ []
put_checkpoint c (d ∷ ds) = if eqb d.number c.number then c ∷ ds else d ∷ put_checkpoint c ds

-- `deleteMany` keeps what is not below the number less the retention.
unfoldable pub save_checkpoint : ℕ → String → List Checkpoint → List Checkpoint
unfolding put_checkpoint
save_checkpoint number hash cs =
    filter (λ c. not (ltb c.number (number - checkpoint_retention)))
      (put_checkpoint (record { number = number; hash = hash }) cs)

unfoldable pub insert_newest : Checkpoint → List Checkpoint → List Checkpoint
insert_newest c [] = c ∷ []
insert_newest c (d ∷ ds) = if leb d.number c.number then c ∷ d ∷ ds else d ∷ insert_newest c ds

unfoldable pub newest_first : List Checkpoint → List Checkpoint
unfolding insert_newest
newest_first [] = []
newest_first (c ∷ cs) = insert_newest c (newest_first cs)

-- `latest` is the block number of the newest indexed order, if there is one.
unfoldable pub resolve_scan_cursor : Option ℕ → List Checkpoint → ℕ
resolve_scan_cursor latest cs = elim (newest_first cs) [
  | c ∷ _ ↦ c.number + 1
  | [] ↦ elim latest [ none ↦ 0 | some number ↦ number + 1 ]
]

-- The variables of the loop of `detectReorg` when it ends.
pub record Fork : Type 0 where
  pub ancestor : Option ℕ
  pub evidence : Option Checkpoint

-- `canonical` is the hash of the block that the node has at a height.
unfoldable pub find_fork : (ℕ → Option String) → Option Checkpoint → List Checkpoint → Fork
find_fork canonical evidence [] = record { ancestor = none; evidence = evidence }
find_fork canonical evidence (c ∷ cs) =
    let older = find_fork canonical (some c) cs in
    if same_text (canonical c.number) (some c.hash)
    then record { ancestor = some c.number; evidence = evidence }
    else older

unfoldable pub oldest_number : List Checkpoint → ℕ
oldest_number [] = 0
oldest_number (c ∷ []) = c.number
oldest_number (c ∷ d ∷ ds) = oldest_number (d ∷ ds)

-- `ancestor ?? oldest - 1`. Below the genesis block there is no block: the -1 of the source is
-- `none`, which rolls back from the reverted block, and that block is then the genesis block.
unfoldable pub ancestor_block : Fork → List Checkpoint → Option ℕ
ancestor_block fork cs = elim fork.ancestor [
  | some number ↦ some number
  | none ↦ elim (oldest_number cs) [ zero ↦ none | suc below ↦ some below ]
]

-- The event of a reorganisation; its id names the reverted block.
unfoldable pub reorg_event :
    (ℕ → Option String) → (ℕ → String) → String → List Checkpoint → Option BotEvent
reorg_event canonical print now cs =
    let window = take checkpoint_window (newest_first cs) in
    let fork = find_fork canonical none window in
    elim fork.evidence [
      | none ↦ none
      | some c ↦ some (record {
        event_id =
            String.◌++◌ "chain-reorg:" (String.◌++◌ (print c.number) (String.◌++◌ ":" c.hash));
        occurred_at = now;
        transaction_hash = none;
        block_number = none;
        block_hash = none;
        confirmations = none;
        body = chain_reorg (record {
          reverted_block_hash = c.hash;
          reverted_block_number = c.number;
          ancestor_block_number = ancestor_block fork window;
        });
      })
    ]

-- `deleteMany({ blockNumber: { $gt: ancestorBlock } })`
unfoldable pub rewind : Option ℕ → List Checkpoint → List Checkpoint
rewind none cs = []
rewind (some ancestor) cs = filter (λ c. leb c.number ancestor) cs

-- What a call of `detectReorg` leaves.
pub record Detected : Type 0 where
  pub outcome : Result (Unit {0})
  pub database : Database
  pub checkpoints : List Checkpoint

unfoldable pub after_ingest : Ingested → Option ℕ → List Checkpoint → Detected
after_ingest done ancestor cs = elim done.outcome [
  | ok result ↦ record {
    outcome = ok tt;
    database = done.database;
    checkpoints = rewind ancestor cs;
  }
  | err e ↦ record { outcome = err e; database = done.database; checkpoints = cs }
]

module _ (registered : Option ChainVerification) (canonical : ℕ → Option String)
    (print : ℕ → String) where
  unfoldable pub detect_reorg : String → Database → List Checkpoint → Detected
  detect_reorg now db cs = elim (reorg_event canonical print now cs) [
    | none ↦ record { outcome = ok tt; database = db; checkpoints = cs }
    | some event ↦
        let window = take checkpoint_window (newest_first cs) in
        after_ingest (ingest registered event db)
          (ancestor_block (find_fork canonical none window) window) cs
  ]
