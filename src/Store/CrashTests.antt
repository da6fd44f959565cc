-- ===== src/Store/CrashTests.antt =====
-- Two queued batches of src/db/pg.rs, of which the first is written before the program stops.
use rust_bitcoin_indexer.Base.{◌≡◌, refl, false, some, [], ◌∷◌}
use rust_bitcoin_indexer.Db.Constraints.{foreign_keys_hold}
use rust_bitcoin_indexer.Format.{all_fit}
use rust_bitcoin_indexer.Base.Outcome.{ok}
use rust_bitcoin_indexer.Bitcoin.{bitcoin}
use rust_bitcoin_indexer.Db.{Db, insert_blocks, insert_events}
use rust_bitcoin_indexer.Format.{normal, block_row}
use rust_bitcoin_indexer.Db.Constraints.{normal_keys_hold}
use rust_bitcoin_indexer.Store.Recovery.{HasKeys}
use rust_bitcoin_indexer.Store.{
  Pipeline, IndexerStore, process_batch, drain, insert_hashes, remove_hashes,
}
use rust_bitcoin_indexer.Store.Holding.{IsHolding}
use rust_bitcoin_indexer.Store.Crash.{Restarted, crash-Restarted}
use rust_bitcoin_indexer.Store.Tests.{
  no_address, no_db, empty_block, two_blocks-AreNew, no_db-IsCoherent,
}

abbrev two_batches : Pipeline
two_batches = record {
  mode = normal;
  network = bitcoin;
  queue = (0, empty_block 0 10 0 ∷ []) ∷ (1, empty_block 1 20 10 ∷ []) ∷ [];
  cache = [];
}

abbrev waiting_store : IndexerStore
waiting_store = record {
  db = no_db;
  pipeline = some two_batches;
  batch = [];
  batch_txs_total = 0;
  batch_id = 2;
  mode = normal;
  network = bitcoin;
  node_chain_head_height = 1;
  in_flight = 10 ∷ 20 ∷ [];
  chain_block_count = 2;
  pending_reorg = [];
}

waiting_store-IsHolding :
    IsHolding waiting_store
      (block_row (empty_block 0 10 0) ∷ block_row (empty_block 1 20 10) ∷ [])
      (20 ∷ 10 ∷ [])
waiting_store-IsHolding = record {
  base = [];
  coherent = no_db-IsCoherent;
  new = two_blocks-AreNew;
  view = refl;
  counted = refl;
  settled = refl;
  known = refl;
}

first_written :
    (db : Db) × (drain no_address normal bitcoin
        ((0, empty_block 0 10 0 ∷ []) ∷ [])
        []
        no_db
        (10 ∷ 20 ∷ [])
      ≡ ok (db, 20 ∷ []))
unfolding drain process_batch insert_blocks insert_hashes remove_hashes insert_events all_fit
    foreign_keys_hold
first_written = (_, refl)

first_written-HasKeys : HasKeys first_written.0
unfolding first_written normal_keys_hold foreign_keys_hold
first_written-HasKeys = (λ e. cc, λ e. refl)

crash-Restarted_example :
    Restarted no_address 1 bitcoin no_db first_written.0 (20 ∷ 10 ∷ []) (empty_block 0 10 0 ∷ [])
crash-Restarted_example =
    crash-Restarted no_address 1 waiting_store
      (block_row (empty_block 0 10 0) ∷ block_row (empty_block 1 20 10) ∷ []) (20 ∷ 10 ∷ [])
      two_batches 1 false first_written.0 (20 ∷ []) waiting_store-IsHolding refl refl
      first_written.1 first_written-HasKeys
