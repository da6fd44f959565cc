-- ===== src/Store/ProgressTests.antt =====
-- The block that finishes the reorg of src/db/pg.rs in Store/IndexingTests can be written, and is.
use rust_bitcoin_indexer.Base.{ℕ, ◌≡◌, ◌⊎◌, refl, inr, List, [], ◌∷◌, arith}
use rust_bitcoin_indexer.Db.{insert_events}
use rust_bitcoin_indexer.Db.Constraints.{foreign_keys_hold}
use rust_bitcoin_indexer.Db.{height_bound}
use rust_bitcoin_indexer.Db.{live_desc}
use rust_bitcoin_indexer.Format.{all_fit}
use rust_bitcoin_indexer.Base.Outcome.{ok, subst_ok}
use rust_bitcoin_indexer.BTreeMap
use rust_bitcoin_indexer.BTreeMap.{split_below, split_from}
use rust_bitcoin_indexer.Bitcoin.{BlockData}
use rust_bitcoin_indexer.Hash.{hash_to_hash_id, hash_id_and_rest_to_hash}
use rust_bitcoin_indexer.Db.{Db, find_block, set_extinct, insert_blocks}
use rust_bitcoin_indexer.Db.Current.{at_height}
use rust_bitcoin_indexer.Utxo.{UtxoDetailsMap}
use rust_bitcoin_indexer.Store.{IndexerStore, process_batch}
use rust_bitcoin_indexer.Store.Insert.{insert, replay_pending, first_different, revert_from}
use rust_bitcoin_indexer.Store.Succeeds.{IsOperating}
use rust_bitcoin_indexer.Store.Overtaking.{CanFinish, with_pending}
use rust_bitcoin_indexer.Store.Indexing.{IsIndexing}
use rust_bitcoin_indexer.Store.Progress.{CanTake, insert-Succeeds}
use rust_bitcoin_indexer.Store.Tests.{no_address, empty_block}
use rust_bitcoin_indexer.Store.InsertTests.{one_pending}
use rust_bitcoin_indexer.Store.IndexingTests.{block_of, one_pending-IsIndexing, second-genuine}

one_pending-IsOperating : IsOperating one_pending
one_pending-IsOperating = inr (refl, refl, omega arith)

one_pending-CanFinish : CanFinish no_address (with_pending one_pending (empty_block 2 31 21))
unfolding BTreeMap.is_empty replay_pending split_from BTreeMap.insert split_below first_different
    hash_id_and_rest_to_hash find_block revert_from set_extinct hash_to_hash_id process_batch
    insert_blocks all_fit foreign_keys_hold insert_events live_desc height_bound
one_pending-CanFinish after batch e =
    subst_ok
      (λ (r : Db × List BlockData).
        (cache : UtxoDetailsMap) × (db : Db) × (process_batch no_address one_pending.mode
            one_pending.network r.1 [] r.0
          ≡ ok (cache, db)))
      e (_, _, refl)

one_pending-CanTake : CanTake no_address one_pending (empty_block 2 31 21)
one_pending-CanTake = record {
  writes = λ w e. cc;
  switches = λ w e. cc;
  finishes = λ _ _. one_pending-CanFinish;
}

insert-Succeeds_example :
    (x : IndexerStore) × (insert no_address one_pending (empty_block 2 31 21) ≡ ok x)
    × IsOperating x
    × (IsIndexing block_of x (31 ∷ 21 ∷ 10 ∷ [])
        ⊎ ((at_height {A = ℕ} 2 (21 ∷ 10 ∷ []) ≡ 31 ∷ []) × IsIndexing block_of x (21 ∷ 10 ∷ [])))
insert-Succeeds_example =
    insert-Succeeds block_of one_pending (empty_block 2 31 21) (21 ∷ 10 ∷ []) one_pending-IsIndexing
      second-genuine (inr refl) (omega arith) no_address (omega arith) one_pending-IsOperating
      one_pending-CanTake
