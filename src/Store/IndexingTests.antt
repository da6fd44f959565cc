-- ===== src/Store/IndexingTests.antt =====
-- A run of `insert` of src/db/pg.rs on a store with all that a run keeps true.
use rust_bitcoin_indexer.Base.{
  ℕ, ◌≡◌, ◌⊎◌, refl, inl, inr, [], ◌∷◌, map, arith, ◌==◌, if◌then◌else◌,
}
use rust_bitcoin_indexer.Bitcoin.{BlockData}
use rust_bitcoin_indexer.Hash.{hash_to_hash_id}
use rust_bitcoin_indexer.Format.{block_row}
use rust_bitcoin_indexer.Db.{find_block}
use rust_bitcoin_indexer.Db.Current.{at_height}
use rust_bitcoin_indexer.Store.Genuine.{AreGenuine}
use rust_bitcoin_indexer.Store.Relabel.{forget}
use rust_bitcoin_indexer.Store.Linked.{LinkedView}
use rust_bitcoin_indexer.Store.Indexing.{IsIndexing, insert-IsIndexing}
use rust_bitcoin_indexer.Store.Tests.{no_address, empty_block, two_db}
use rust_bitcoin_indexer.Store.InsertTests.{one_pending, one_pending-IsCollecting, second}

-- The blocks of the runs, by their ids.
abbrev pub block_of : ℕ → BlockData
block_of id =
    if id == 10
    then empty_block 0 10 0
    else if id == 20
    then empty_block 1 20 10
    else if id == 21
    then empty_block 1 21 10
    else empty_block 2 31 21

pub two_db-AreGenuine : AreGenuine block_of (map forget two_db.block)
unfolding block_row find_block
two_db-AreGenuine = record {
  genuine = (refl, (refl, tt));
  parents = (inl refl, (inr (_, refl), tt));
}

linked : LinkedView block_of (21 ∷ 10 ∷ [])
unfolding hash_to_hash_id
linked = record { linked = λ h x y up down. ground arith; named = λ h x at. ground arith }

pub one_pending-IsIndexing : IsIndexing block_of one_pending (21 ∷ 10 ∷ [])
unfolding hash_to_hash_id
one_pending-IsIndexing = record {
  rows = two_db.block;
  represents = inr (20 ∷ 10 ∷ [], 1, one_pending-IsCollecting, refl, refl, (refl, tt));
  genuine = two_db-AreGenuine;
  linked = linked;
}

pub second-genuine : block_of (hash_to_hash_id 31) ≡ empty_block 2 31 21
unfolding hash_to_hash_id
second-genuine = refl

insert-IsIndexing_example :
    IsIndexing block_of second.0 (31 ∷ 21 ∷ 10 ∷ [])
    ⊎ ((at_height {A = ℕ} 2 (21 ∷ 10 ∷ []) ≡ 31 ∷ []) × IsIndexing block_of second.0 (21 ∷ 10 ∷ []))
insert-IsIndexing_example =
    insert-IsIndexing block_of one_pending (empty_block 2 31 21) (21 ∷ 10 ∷ [])
      one_pending-IsIndexing second-genuine (inr refl) (omega arith) no_address second.0
      (omega arith) second.1
