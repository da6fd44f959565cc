-- ===== src/Store/Progress.antt =====
-- That `insert` of src/db/pg.rs succeeds in a whole run, as long as the workers can write.
use rust_bitcoin_indexer.Base.{
  ℕ, suc, ◌<◌, ◌≤◌, ◌≡◌, ◌∙◌, ◌⊎◌, sym, ap, inl, inr, Option, some, List, [], ◌∷◌, length, arith,
}
use rust_bitcoin_indexer.Base.Outcome.{ok}
use rust_bitcoin_indexer.Types.{BlockHash, u32_size}
use rust_bitcoin_indexer.Bitcoin.{BlockData, Network}
use rust_bitcoin_indexer.Db.Current.{cut, at_height}
use rust_bitcoin_indexer.Store.{Pipeline, IndexerStore}
use rust_bitcoin_indexer.Store.Insert.{insert}
use rust_bitcoin_indexer.Store.Genuine.{IsGenuine}
use rust_bitcoin_indexer.Store.Linked.{HasParent}
use rust_bitcoin_indexer.Store.Operating.{WritesAll, LeavesKeys}
use rust_bitcoin_indexer.Store.Succeeds.{IsOperating, collecting, insert-at_tip_runs}
use rust_bitcoin_indexer.Store.Overtaking.{CanFinish, with_pending, insert-in_reorg_runs}
use rust_bitcoin_indexer.Store.Indexing.{
  IsIndexing, IsIndexing-IsAdmitted, insert-IsIndexing, length-collected,
}

-- The workers can write what is queued and collected with the block, the rows then have the keys of
-- the normal mode, where the block is at the node's head, and the workers can write the batch that is
-- left, where it finishes a reorg.
pub record CanTake (address : Network → ℕ → Option ℕ) (s : IndexerStore) (b : BlockData)
    : Type 0 where
  pub writes : (w : Pipeline) → s.pipeline ≡ some w → WritesAll address (collecting s b) w
  pub switches :
      (w : Pipeline)
      → s.pipeline ≡ some w
      → s.node_chain_head_height ≡ b.height
      → LeavesKeys address (collecting s b) w
  pub finishes :
      0 < length s.pending_reorg
      → b.height ≡ s.chain_block_count
      → CanFinish address (with_pending s b)

module _ (block_of : ℕ → BlockData) (s : IndexerStore) (b : BlockData) (view : List BlockHash)
    (k : IsIndexing block_of s view) (g : IsGenuine block_of b) (parent : HasParent block_of b view)
    (high : b.height ≤ length view) (address : Network → ℕ → Option ℕ)
    (small : suc b.height < u32_size) (o : IsOperating s) (can : CanTake address s b) where
  insert_runs : (x : IndexerStore) × (insert address s b ≡ ok x) × IsOperating x
  insert_runs =
      let admitted = IsIndexing-IsAdmitted block_of s b view k g parent high in
      elim k.represents [
        | inl held ↦ elim o [
          | inl (w, running, settled) ↦
              insert-at_tip_runs address s k.rows view b held w running high
                (λ top. admitted.unknown settled (top ∙ sym held.counted)) small
                (can.writes w running.0) (can.switches w running.0)
          | inr (stopped, idle, pending) ↦ absurd (omega (arith, pending, ap length held.settled))
        ]
        | inr (c, lo, collecting, same, table, all) ↦
            let tall = ap length same ∙ length-collected c lo s.pending_reorg collecting.behind in
            elim o [
              | inl (w, running, settled) ↦
                  absurd (omega (arith, collecting.some_pending, ap length settled))
              | inr (stopped, idle, pending) ↦
                  insert-in_reorg_runs address s c lo b collecting (omega (arith, high, tall)) small
                    (λ top. admitted.indexed pending (top ∙ sym collecting.counted)) stopped idle
                    (can.finishes pending)
            ]
      ]

  -- On the store of a run, whose workers run outside of a reorg and are stopped inside of one,
  -- `insert` succeeds for the block that its id says, with its parent in the chain below its
  -- height and that height below 2^32 - 1, when the workers can write what is queued and
  -- collected with it, which, where the block is at the node's head, leaves tables with the keys
  -- of the normal mode, and, where it ends a reorg, what is left to write; the workers are again
  -- as said, and the store is one of a run with the block in its place.
  pub insert-Succeeds :
      (x : IndexerStore) × (insert address s b ≡ ok x)
      × IsOperating x
      × (IsIndexing block_of x (b.id ∷ cut b.height view)
          ⊎ ((at_height b.height view ≡ b.id ∷ []) × IsIndexing block_of x view))
  insert-Succeeds =
      let (x, e, operating) = insert_runs in
      (x, e, operating, insert-IsIndexing block_of s b view k g parent high address x small e)
