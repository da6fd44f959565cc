-- ===== src/Store.antt =====
-- `IndexerStore` of src/db/pg.rs with its pipeline. The three worker threads hand each batch on
-- through channels without room, in order: the pipeline is the queue of the batches that are not yet
-- written, and stopping the workers writes them all.
pub mod Insert
pub mod Coherent
pub mod Batch
pub mod Indexed
pub mod Reorg
pub mod Differs
pub mod Finish
pub mod Queue
pub mod Holding
pub mod Tip
pub mod Collecting
pub mod Relabel
pub mod Positions
pub mod Represents
pub mod Collects
pub mod Genuine
pub mod Linked
pub mod Indexing
pub mod Start
pub mod Recovery
pub mod Crash
pub mod Writes
pub mod InFlight
pub mod Operating
pub mod Succeeds
pub mod Overtaking
pub mod Progress
pub mod InsertTests
pub mod IndexingTests
pub mod CrashTests
pub mod WritesTests
pub mod ProgressTests
pub mod Tests
use rust_bitcoin_indexer.Base.{
  ℕ, suc, ◌+◌, ◌-◌, ◌%◌, ◌≡◌, Bool, true, false, not, ◌&&◌, ◌||◌, Option, none, some, List, [], ◌∷◌,
  ◌++◌, map, ltb, leb, ◌==◌, if◌then◌else◌, length,
}
use rust_bitcoin_indexer.Base.Outcome.{Outcome, ok, err, panic, ◌>>=◌, ◌>>◌, assert}
use rust_bitcoin_indexer.BTreeMap
use rust_bitcoin_indexer.BTreeMap.{BTreeMap, split_below, split_from}
use rust_bitcoin_indexer.Types.{BlockHeight, BlockHash, u32_size}
use rust_bitcoin_indexer.Bitcoin.{Block, BlockData, Network}
use rust_bitcoin_indexer.Hash.{hash_to_hash_id, hash_id_and_rest_to_hash}
use rust_bitcoin_indexer.Db.{
  Db, BlockRow, live_at, find_block, height_bound, live_desc, set_extinct, revive, insert_events,
  clear_current_height,
}
use rust_bitcoin_indexer.Db.Constraints.{bulk_keys_hold, normal_keys_hold}
use rust_bitcoin_indexer.Db.Current.{row_hash}
use rust_bitcoin_indexer.Utxo.{UtxoDetailsMap, tx_id_map_from_blocks, process_blocks}
use rust_bitcoin_indexer.Format.{
  Mode, fresh_bulk, bulk, normal, is_bulk, u64_size, fmt_insert_blockdata_sql, execute,
}

-- `AsyncBlockInsertWorker`, with what its threads were started with and the cache of the first.
pub record Pipeline : Type 0 where
  pub mode : Mode
  pub network : Network
  pub queue : List (ℕ × List BlockData)
  pub cache : UtxoDetailsMap

pub record IndexerStore : Type 0 where
  pub db : Db
  pub pipeline : Option Pipeline
  pub batch : List BlockData
  pub batch_txs_total : ℕ
  pub batch_id : ℕ
  pub mode : Mode
  pub network : Network
  pub node_chain_head_height : BlockHeight
  pub in_flight : List BlockHash
  pub chain_block_count : BlockHeight
  pub pending_reorg : BTreeMap BlockData

abbrev pub block_ids : List BlockData → List BlockHash
block_ids = map (λ b. b.id)

-- The sets of hashes: `insert` and `remove` of `BlocksInFlight`.
unfoldable pub contains_hash : BlockHash → List BlockHash → Bool
contains_hash h [] = false
contains_hash h (x ∷ xs) = x == h || contains_hash h xs

unfoldable pub insert_hashes : List BlockHash → List BlockHash → List BlockHash
unfolding contains_hash
insert_hashes [] set = set
insert_hashes (h ∷ hs) set = insert_hashes hs (if contains_hash h set then set else set ++ h ∷ [])

unfoldable pub remove_hash : BlockHash → List BlockHash → List BlockHash
remove_hash h [] = []
remove_hash h (x ∷ xs) = let rest = remove_hash h xs in if x == h then rest else x ∷ rest

-- The writer's loop over a batch's ids; a hash that is not there is a panic.
unfoldable pub remove_hashes : List BlockHash → List BlockHash → Outcome (List BlockHash)
unfolding contains_hash remove_hash
remove_hashes [] set = ok set
remove_hashes (h ∷ hs) set = do assert (contains_hash h set); remove_hashes hs (remove_hash h set)

-- `read_db_block_hash_by_height`
unfoldable pub read_db_block_hash_by_height : Db → BlockHeight → Option BlockHash
unfolding live_at
read_db_block_hash_by_height db height = elim (live_at height db.block) [
  | [] ↦ none
  | row ∷ rest ↦ some (row_hash row)
]

module _ (address : Network → ℕ → Option ℕ) where
  -- What the three threads do with one batch.
  unfoldable pub process_batch :
      Mode → Network → List BlockData → UtxoDetailsMap → Db → Outcome (UtxoDetailsMap × Db)
  unfolding tx_id_map_from_blocks process_blocks fmt_insert_blockdata_sql execute
  process_batch mode network blocks cache db = do
    let ids = tx_id_map_from_blocks blocks network
    (cache', utxo) ← process_blocks db.output blocks ids cache
    q ← fmt_insert_blockdata_sql address network blocks utxo ids
    db' ← execute mode q db
    ok (cache', db')

  -- The workers write all that is queued. Where one fails, joining the threads is a panic.
  unfoldable pub drain :
      Mode
      → Network
      → List (ℕ × List BlockData)
      → UtxoDetailsMap
      → Db
      → List BlockHash
      → Outcome (Db × List BlockHash)
  unfolding process_batch remove_hashes insert_hashes
  drain mode network [] cache db in_flight = ok (db, in_flight)
  drain mode network ((batch_id, blocks) ∷ queue) cache db in_flight =
      elim (process_batch mode network blocks cache db) [
        | ok (cache', db') ↦ do
          in_flight' ← remove_hashes (insert_hashes (block_ids blocks) []) in_flight
          drain mode network queue cache' db' in_flight'
        | _ ↦ panic
      ]

  unfoldable pub stop_workers : IndexerStore → Outcome IndexerStore
  unfolding drain
  stop_workers s = elim s.pipeline [
    | none ↦ assert (length s.in_flight == 0) >> ok s
    | some w ↦ do
      (db, in_flight) ← drain w.mode w.network w.queue w.cache s.db s.in_flight
      assert (length in_flight == 0)
      ok (record s { pipeline = none; db = db; in_flight = in_flight })
  ]

unfoldable pub start_workers : IndexerStore → IndexerStore
start_workers s = record s {
  pipeline = some (record { mode = s.mode; network = s.network; queue = []; cache = [] });
}

unfoldable pub flush_batch : IndexerStore → Outcome IndexerStore
unfolding insert_hashes
flush_batch s = elim s.batch [
  | [] ↦ ok s
  | b ∷ bs ↦ elim s.pipeline [
    | none ↦ panic
    | some w ↦ ok (record s {
      batch = [];
      in_flight = insert_hashes (block_ids s.batch) s.in_flight;
      pipeline = some (record w { queue = w.queue ++ (s.batch_id, s.batch) ∷ [] });
      batch_txs_total = 0;
      batch_id = (s.batch_id + 1) % u64_size;
    })
  ]
]

abbrev pub same_mode : Mode → Mode → Bool
same_mode fresh_bulk fresh_bulk = true
same_mode bulk bulk = true
same_mode normal normal = true
same_mode _ _ = false

module _ (address : Network → ℕ → Option ℕ) where
  unfoldable pub flush_workers : IndexerStore → Outcome IndexerStore
  unfolding flush_batch stop_workers start_workers
  flush_workers s = elim s.pipeline [
    | none ↦ ok s
    | some w ↦ do
      flushed ← flush_batch s
      let restart = (do stopped ← stop_workers address flushed; ok (start_workers stopped))
      if length flushed.in_flight == 0 then ok flushed else restart
  ]

  -- `set_schema_to_mode` adds and drops keys, and in the fresh mode drops the tables. A key that the
  -- rows do not have is an error.
  unfoldable pub set_schema_to_mode : Mode → Db → Outcome Db
  set_schema_to_mode fresh_bulk db = ok (record db {
    event = [];
    next_event = 1;
    block = [];
    block_tx = [];
    tx = [];
    output = [];
    input = [];
  })
  set_schema_to_mode bulk db = if bulk_keys_hold db then ok db else err
  set_schema_to_mode normal db = if normal_keys_hold db then ok db else err

  unfoldable pub set_mode_unconditionally : Mode → IndexerStore → Outcome IndexerStore
  unfolding flush_workers set_schema_to_mode is_bulk
  set_mode_unconditionally mode s = do
    flushed ← flush_workers (record s { mode = mode })
    db ← set_schema_to_mode mode flushed.db
    ok (record flushed { db = record db { bulk_mode = some (is_bulk mode) } })

  unfoldable pub set_mode : Mode → IndexerStore → Outcome IndexerStore
  unfolding set_mode_unconditionally
  set_mode mode s =
      let changed = set_mode_unconditionally mode s in
      if same_mode s.mode mode then ok s else changed
