-- ===== src/Store/InsertTests.antt =====
-- Runs of `insert` and of the queue of src/db/pg.rs.
use rust_bitcoin_indexer.Base.{◌≡◌, ℕ, refl, inr, some, [], ◌∷◌, ◌++◌, arith}
use rust_bitcoin_indexer.Db.{live_desc}
use rust_bitcoin_indexer.Format.{all_fit}
use rust_bitcoin_indexer.Db.{height_bound}
use rust_bitcoin_indexer.Db.Constraints.{foreign_keys_hold}
use rust_bitcoin_indexer.Base.Outcome.{ok}
use rust_bitcoin_indexer.BTreeMap
use rust_bitcoin_indexer.BTreeMap.{split_below, split_from}
use rust_bitcoin_indexer.Bitcoin.{bitcoin}
use rust_bitcoin_indexer.Hash.{hash_to_hash_id, hash_id_and_rest_to_hash}
use rust_bitcoin_indexer.Db.{find_block, set_extinct, insert_blocks, insert_events}
use rust_bitcoin_indexer.Format.{normal, block_row}
use rust_bitcoin_indexer.Store.{
  IndexerStore, process_batch, drain, insert_hashes, flush_batch, set_mode,
}
use rust_bitcoin_indexer.Store.Insert.{
  insert, insert_on_tip, first_different, revert_from, replay_pending,
}
use rust_bitcoin_indexer.Store.Queue.{Drained, drain-Drained}
use rust_bitcoin_indexer.Store.Holding.{IsHolding}
use rust_bitcoin_indexer.Store.Tip.{IsUnknown, insert_on_tip-IsHolding}
use rust_bitcoin_indexer.Store.Collecting.{IsCollecting, with_block}
use rust_bitcoin_indexer.Bitcoin.{BlockData}
use rust_bitcoin_indexer.Store.Represents.{IsAdmitted, Inserts, insert-Represents}
use rust_bitcoin_indexer.Store.Tests.{
  no_address, empty_block, no_db, no_db-IsCoherent, two_blocks, two_blocks-AreNew, two_db,
  two_db-IsCoherent, reorg_store, reorg_store-AreFresh,
}

pub drained :
    drain no_address normal bitcoin ((0, two_blocks) ∷ []) [] no_db (10 ∷ 20 ∷ []) ≡ ok (two_db, [])
unfolding drain process_batch insert_blocks insert_hashes insert_events all_fit foreign_keys_hold
drained = refl

drain-Drained_example : Drained no_db [] two_blocks two_db
drain-Drained_example =
    drain-Drained no_address normal bitcoin ((0, two_blocks) ∷ []) [] no_db two_db (10 ∷ 20 ∷ []) []
      [] no_db-IsCoherent two_blocks-AreNew drained

-- A store at the tip.
abbrev tip_store : IndexerStore
tip_store = record reorg_store {
  pending_reorg = [];
  pipeline = some (record { mode = normal; network = bitcoin; queue = []; cache = [] });
}

tip_store-IsHolding : IsHolding tip_store two_db.block (20 ∷ 10 ∷ [])
tip_store-IsHolding = record {
  base = 20 ∷ 10 ∷ [];
  coherent = two_db-IsCoherent;
  new = tt;
  view = refl;
  counted = refl;
  settled = refl;
  known = refl;
}

unknown : IsUnknown two_db.block (empty_block 2 30 20)
unfolding find_block hash_to_hash_id
unknown = refl

on_tip : (s : IndexerStore) × (insert_on_tip no_address tip_store (empty_block 2 30 20) ≡ ok s)
unfolding insert_on_tip flush_batch set_mode
on_tip = (_, refl)

insert_on_tip-IsHolding_example :
    IsHolding on_tip.0 (two_db.block ++ block_row (empty_block 2 30 20) ∷ []) (30 ∷ 20 ∷ 10 ∷ [])
insert_on_tip-IsHolding_example =
    insert_on_tip-IsHolding no_address tip_store on_tip.0 two_db.block (20 ∷ 10 ∷ [])
      (empty_block 2 30 20) tip_store-IsHolding refl unknown (omega arith) on_tip.1

-- A store with one pending block, before the block that finishes the reorg.
abbrev pub one_pending : IndexerStore
one_pending = record reorg_store { pending_reorg = (1, empty_block 1 21 10) ∷ [] }

pub one_pending-IsCollecting : IsCollecting one_pending (20 ∷ 10 ∷ []) 1
one_pending-IsCollecting = record {
  coherent = two_db-IsCoherent;
  counted = refl;
  no_batch = refl;
  from_lo = (refl, tt);
  keys = (refl, tt);
  some_pending = omega arith;
  behind = omega arith;
}

with_second : with_block (empty_block 2 31 21) one_pending.pending_reorg ≡ reorg_store.pending_reorg
unfolding BTreeMap.insert split_below
with_second = refl

second-IsAdmitted : IsAdmitted one_pending two_db.block (empty_block 2 31 21)
second-IsAdmitted = record {
  unknown = λ e _. cc;
  indexed = λ _ _. rw with_second (inr reorg_store-AreFresh);
}

pub second : (s : IndexerStore) × (insert no_address one_pending (empty_block 2 31 21) ≡ ok s)
unfolding insert BTreeMap.is_empty replay_pending split_from BTreeMap.insert split_below
    first_different hash_id_and_rest_to_hash find_block revert_from set_extinct hash_to_hash_id
    process_batch insert_blocks all_fit foreign_keys_hold insert_events live_desc height_bound
second = (_, refl)

-- Nothing is asked of the pending blocks.
abbrev Anything : BlockData → Type 0
Anything b = ℕ

insert-Represents_example :
    Inserts Anything no_address one_pending second.0
      (empty_block 2 31 21)
      two_db.block
      (21 ∷ 10 ∷ [])
      0
      second.0
insert-Represents_example =
    insert-Represents Anything no_address one_pending second.0 (empty_block 2 31 21) two_db.block
      (21 ∷ 10 ∷ []) 0 (inr (20 ∷ 10 ∷ [], 1, one_pending-IsCollecting, refl, refl, (0, tt)))
      (omega arith) (omega arith) second-IsAdmitted second.1
