-- ===== src/Store/Start.antt =====
-- How `IndexerStore` of src/db/pg.rs starts on a database: `new` and what it reads.
use rust_bitcoin_indexer.Base.{
  ℕ, true, Option, none, some, List, [], ◌∷◌, ◌==◌, if◌then◌else◌, length,
}
use rust_bitcoin_indexer.Base.Outcome.{Outcome, ok, ◌>>=◌, ◌>>◌, assert}
use rust_bitcoin_indexer.Types.{BlockHeight}
use rust_bitcoin_indexer.Bitcoin.{Network}
use rust_bitcoin_indexer.Db.{Db, BlockRow, height_bound}
use rust_bitcoin_indexer.Format.{Mode, fresh_bulk, bulk, normal}
use rust_bitcoin_indexer.Store.{
  IndexerStore, start_workers, set_schema_to_mode, set_mode_unconditionally, same_mode,
}

-- `… FROM block WHERE extinct = FALSE`
unfoldable pub live_rows : List BlockRow → List BlockRow
live_rows [] = []
live_rows (row ∷ rows) = if row.extinct then live_rows rows else row ∷ live_rows rows

unfoldable pub read_db_chain_block_count : Db → BlockHeight
unfolding height_bound
read_db_chain_block_count db = height_bound db.block

unfoldable pub read_db_chain_current_block_count : Db → BlockHeight
unfolding height_bound live_rows
read_db_chain_current_block_count db = height_bound (live_rows db.block)

-- On the first run there is no row of `indexer_state`, and one for the bulk mode is put in.
unfoldable pub read_indexer_state : Db → Mode × Db
read_indexer_state db = elim db.bulk_mode [
  | none ↦ (fresh_bulk, record db { bulk_mode = some true })
  | some is_bulk_mode ↦
      (if is_bulk_mode then (if length db.block == 0 then fresh_bulk else bulk) else normal, db)
]

-- The record before the workers are started.
abbrev pub opened : Mode → Db → BlockHeight → Network → IndexerStore
opened mode db node_chain_head_height network = record {
  db = db;
  pipeline = none;
  batch = [];
  batch_txs_total = 0;
  batch_id = 0;
  mode = mode;
  network = network;
  node_chain_head_height = node_chain_head_height;
  in_flight = [];
  chain_block_count = read_db_chain_block_count db;
  pending_reorg = [];
}

module _ (address : Network → ℕ → Option ℕ) where
  -- The modes are entered one after the other, so that each of their statements is run once.
  unfoldable pub self_test : IndexerStore → Outcome IndexerStore
  unfolding set_mode_unconditionally
  self_test s = do
    assert (same_mode s.mode fresh_bulk)
    s1 ← set_mode_unconditionally address fresh_bulk s
    s2 ← set_mode_unconditionally address bulk s1
    s3 ← set_mode_unconditionally address normal s2
    s4 ← set_mode_unconditionally address bulk s3
    set_mode_unconditionally address fresh_bulk s4

  -- The connection, `init.sql` and the prepared statements are the database's part.
  unfoldable pub new : Db → BlockHeight → Network → Outcome IndexerStore
  unfolding read_indexer_state read_db_chain_block_count read_db_chain_current_block_count self_test
      set_schema_to_mode start_workers
  new db node_chain_head_height network = do
    let (mode, ready) = read_indexer_state db
    assert (read_db_chain_block_count ready == read_db_chain_current_block_count ready)
    let s = opened mode ready node_chain_head_height network
    tested ← if same_mode mode fresh_bulk then self_test s else ok s
    schema ← set_schema_to_mode address tested.mode tested.db
    ok (start_workers (record tested { db = schema }))
