-- ===== src/Indexer.antt =====
-- `Indexer` of src/main.rs: it reads blocks from the prefetcher and inserts them into the store. The
-- node is behind what the workers send; the measuring of time and the log are left out.
pub mod Chain
pub mod Follow
pub mod Run
pub mod Tests
use rust_bitcoin_indexer.Base.{ℕ, zero, suc, ◌-◌, Option, none, some, leb}
use rust_bitcoin_indexer.Base.Outcome.{Outcome, ok, panic, ◌>>=◌, ◌>>◌, assert}
use rust_bitcoin_indexer.Types.{BlockHeight, BlockHash}
use rust_bitcoin_indexer.Bitcoin.{Block, BlockData, Network}
use rust_bitcoin_indexer.Db.{Db}
use rust_bitcoin_indexer.Prefetcher.{Prefetcher, Deliveries, next}
use rust_bitcoin_indexer.Prefetcher
use rust_bitcoin_indexer.Store.{IndexerStore}
use rust_bitcoin_indexer.Store.Insert.{insert, get_hash_by_height, get_head_height}
use rust_bitcoin_indexer.Store.Start

pub record Indexer : Type 0 where
  pub node_starting_chainhead_height : BlockHeight
  pub db : IndexerStore

module _ (address : Network → ℕ → Option ℕ) where
  -- `Indexer::new`, given the node's block count and its network.
  unfoldable pub new : Db → BlockHeight → Network → Outcome Indexer
  new db block_count network = do
    store ← Start.new address db block_count network
    ok (record { node_starting_chainhead_height = block_count; db = store })

  unfoldable pub process_block : Indexer → BlockData → Outcome Indexer
  process_block x block = do db ← insert address x.db block; ok (record x { db = db })

  -- The block that `run` starts at, a hundred below the last indexed one, in case there was a reorg.
  unfoldable pub start : Indexer → Outcome (Option (BlockHeight × BlockHash) × Indexer)
  start x = elim (get_head_height x.db) [
    | none ↦ ok (none, x)
    | some last_indexed_height ↦ do
      assert (leb last_indexed_height x.node_starting_chainhead_height)
      let start_from_block = last_indexed_height - 100
      (found, db) ← get_hash_by_height address x.db start_from_block
      elim found [ none ↦ panic | some id ↦ ok (some (start_from_block, id), record x { db = db }) ]
  ]

  module _ (workers : Deliveries Block) where
    -- The loop of `run` over the prefetcher, which never ends: its first `n` rounds.
    unfoldable pub process_items :
        ℕ → Prefetcher Block → Indexer → Outcome (Prefetcher Block × Indexer)
    unfolding process_block
    process_items zero p x = ok (p, x)
    process_items (suc n) p x = do
      (block, q) ← next workers p
      y ← process_block x block
      process_items n q y

    -- `run`, given the number of processors and the node's block count.
    unfoldable pub run : ℕ → ℕ → BlockHeight → Indexer → Outcome (Prefetcher Block × Indexer)
    unfolding start process_items
    run n cpus block_count x = do
      (from, y) ← start x
      p ← Prefetcher.new workers cpus block_count from
      process_items n p y
