-- ===== src/Store/Tests.antt =====
-- Runs of the store of src/db/pg.rs: a batch on an empty database, a revert, and a finished reorg.
use rust_bitcoin_indexer.Base.{
  ℕ, ◌≡◌, refl, inl, inr, true, false, Option, none, some, List, [], ◌∷◌, arith,
}
use rust_bitcoin_indexer.Db.{live_desc}
use rust_bitcoin_indexer.Db.{height_bound}
use rust_bitcoin_indexer.Db.Constraints.{foreign_keys_hold}
use rust_bitcoin_indexer.Format.{all_fit}
use rust_bitcoin_indexer.Base.Outcome.{ok}
use rust_bitcoin_indexer.Types.{BlockHeight, BlockHash}
use rust_bitcoin_indexer.Bitcoin.{BlockData, Network, bitcoin}
use rust_bitcoin_indexer.Db.{Db, live_at, find_block, insert_blocks, insert_events, set_extinct}
use rust_bitcoin_indexer.Hash.{hash_to_hash_id, hash_id_and_rest_to_hash}
use rust_bitcoin_indexer.BTreeMap.{BTreeMap, split_from}
use rust_bitcoin_indexer.Store.Indexed.{blocks_of, AreFresh, RowOf}
use rust_bitcoin_indexer.Store.Reorg.{Replayed, replay_pending-Replayed}
use rust_bitcoin_indexer.Db.Replay.{replay}
use rust_bitcoin_indexer.Format.{normal, block_row}
use rust_bitcoin_indexer.Store.{IndexerStore, process_batch}
use rust_bitcoin_indexer.Store.Insert.{
  revert_from, revive_block, replay_pending, first_different, finish_reorg,
}
use rust_bitcoin_indexer.Store.Coherent.{
  IsCoherent, ExtinctFrom, revert_from-IsCoherent, revive_block-IsCoherent,
}
use rust_bitcoin_indexer.Store.Batch.{AreNew, process_batch-IsCoherent}
use rust_bitcoin_indexer.Store.Finish.{finish_reorg-IsCoherent}

abbrev pub no_address : Network → ℕ → Option ℕ
no_address network script = none

abbrev pub empty_block : BlockHeight → BlockHash → BlockHash → BlockData
empty_block height id prev = record {
  height = height;
  id = id;
  payload = record { prev_blockhash = prev; merkle_root = 0; time = 0; txdata = [] };
}

abbrev pub no_db : Db
no_db = record {
  event = [];
  next_event = 1;
  block = [];
  block_tx = [];
  tx = [];
  output = [];
  input = [];
  bulk_mode = some false;
}

abbrev pub two_blocks : List BlockData
two_blocks = empty_block 0 10 0 ∷ empty_block 1 20 10 ∷ []

-- The database with the two blocks.
abbrev pub two_db : Db
two_db = record no_db {
  event =
      record { id = 1; revert = false; block_hash_id = 10 }
      ∷ record { id = 2; revert = false; block_hash_id = 20 }
      ∷ [];
  next_event = 3;
  block =
      record {
        time = 0;
        height = 0;
        extinct = false;
        hash_id = 10;
        hash_rest = 0;
        prev_hash_id = 0;
        merkle_root = 0;
      }
      ∷ record {
        time = 0;
        height = 1;
        extinct = false;
        hash_id = 20;
        hash_rest = 0;
        prev_hash_id = 10;
        merkle_root = 0;
      }
      ∷ [];
}

pub written : process_batch no_address normal bitcoin two_blocks [] no_db ≡ ok ([], two_db)
unfolding process_batch insert_blocks insert_events all_fit foreign_keys_hold
written = refl

pub no_db-IsCoherent : IsCoherent 0 no_db []
unfolding live_at replay
no_db-IsCoherent = record {
  current = record { at = λ h. refl };
  unique = tt;
  in_range = tt;
  below = tt;
  log = refl;
}

pub two_blocks-AreNew : AreNew 0 two_blocks []
unfolding find_block block_row
two_blocks-AreNew = ground arith

pub two_db-IsCoherent : IsCoherent 2 two_db (20 ∷ 10 ∷ [])
two_db-IsCoherent =
    process_batch-IsCoherent normal 0 no_db two_db [] two_blocks no_db-IsCoherent two_blocks-AreNew
      (omega arith) no_address bitcoin [] [] written

process_batch-IsCoherent_example : IsCoherent 2 two_db (20 ∷ 10 ∷ [])
process_batch-IsCoherent_example =
    process_batch-IsCoherent normal 0 no_db two_db [] two_blocks no_db-IsCoherent two_blocks-AreNew
      (omega arith) no_address bitcoin [] [] written

reverted-IsCoherent : IsCoherent 2 (revert_from 1 two_db) (10 ∷ [])
reverted-IsCoherent = revert_from-IsCoherent 1 2 two_db (20 ∷ 10 ∷ []) two_db-IsCoherent

revert_from-IsCoherent_example : IsCoherent 2 (revert_from 1 two_db) (10 ∷ [])
revert_from-IsCoherent_example = revert_from-IsCoherent 1 2 two_db (20 ∷ 10 ∷ []) two_db-IsCoherent

-- A store that collects another block at height 1, and one on top of it.
abbrev pub reorg_store : IndexerStore
reorg_store = record {
  db = two_db;
  pipeline = none;
  batch = [];
  batch_txs_total = 0;
  batch_id = 0;
  mode = normal;
  network = bitcoin;
  node_chain_head_height = 2;
  in_flight = [];
  chain_block_count = 2;
  pending_reorg = (1, empty_block 1 21 10) ∷ (2, empty_block 2 31 21) ∷ [];
}

pub finished : (s : IndexerStore) × (finish_reorg no_address reorg_store ≡ ok s)
unfolding finish_reorg replay_pending split_from first_different hash_id_and_rest_to_hash find_block
    revert_from set_extinct hash_to_hash_id process_batch insert_blocks all_fit foreign_keys_hold
    insert_events live_desc height_bound
finished = (_, refl)

pub reorg_store-AreFresh : AreFresh two_db.block (blocks_of reorg_store.pending_reorg)
unfolding find_block hash_to_hash_id
reorg_store-AreFresh = ground arith

finish_reorg-IsCoherent_example :
    IsCoherent 3 finished.0.db (31 ∷ 21 ∷ 10 ∷ [])
    × (finished.0.chain_block_count ≡ 3)
    × (finished.0.pending_reorg ≡ [])
    × (finished.0.batch ≡ [])
finish_reorg-IsCoherent_example =
    finish_reorg-IsCoherent no_address reorg_store finished.0 (20 ∷ 10 ∷ []) 1 two_db-IsCoherent
      refl refl (refl, (refl, tt)) (refl, (refl, tt)) (omega arith) (omega arith) (omega arith)
      (inr reorg_store-AreFresh) finished.1

-- The indexed block at height 1 comes back, and a fresh one follows.
reverted-AreFresh : AreFresh (revert_from 1 two_db).block (empty_block 2 31 20 ∷ [])
unfolding revert_from set_extinct find_block hash_to_hash_id
reverted-AreFresh = ground arith

reverted-ExtinctFrom : ExtinctFrom 1 (revert_from 1 two_db).block
unfolding revert_from set_extinct
reverted-ExtinctFrom = ground arith

reverted-RowOf : RowOf (revert_from 1 two_db).block (empty_block 1 20 10)
unfolding revert_from set_extinct find_block hash_to_hash_id hash_id_and_rest_to_hash
reverted-RowOf = (_, refl, refl, refl)

reverted_row_extinct : reverted-RowOf.0.extinct ≡ true
unfolding reverted-RowOf
reverted_row_extinct = refl

revive_block-IsCoherent_example :
    IsCoherent 2 (revive_block (empty_block 1 20 10) (revert_from 1 two_db)) (20 ∷ 10 ∷ [])
revive_block-IsCoherent_example =
    revive_block-IsCoherent 2 (revert_from 1 two_db) (10 ∷ []) (empty_block 1 20 10)
      reverted-RowOf.0 reverted-IsCoherent reverted-RowOf.1 reverted_row_extinct reverted-RowOf.2
      reverted-RowOf.3

abbrev back : BTreeMap BlockData
back = (1, empty_block 1 20 10) ∷ (2, empty_block 2 31 20) ∷ []

replay_pending-Replayed_example :
    Replayed 2 (10 ∷ []) back (replay_pending none back (revert_from 1 two_db) [])
replay_pending-Replayed_example =
    replay_pending-Replayed 2 none back (revert_from 1 two_db) (10 ∷ []) (refl, (refl, tt))
      (refl, (refl, tt)) (omega arith) refl reverted-IsCoherent reverted-ExtinctFrom
      (inl (reverted-RowOf, inr reverted-AreFresh))
