-- ===== src/Store/Finish.antt =====
-- `finish_reorg` of src/db/pg.rs as a whole.
use rust_bitcoin_indexer.Base.{
  ℕ, suc, ◌+◌, ◌≤◌, ◌<◌, ◌≡◌, ◌∙◌, sym, subst, refl, not, Option, none, List, [], ◌++◌, map, arith,
  ◌==◌, length,
}
use rust_bitcoin_indexer.Base.Outcome.{ok, assert, >>=-eq-ok, subst_ok}
use rust_bitcoin_indexer.BTreeMap.{split_from}
use rust_bitcoin_indexer.BTreeMap.Consecutive.{IsFrom, split_from-IsFrom}
use rust_bitcoin_indexer.Types.{BlockHeight, BlockHash, u32_size}
use rust_bitcoin_indexer.Bitcoin.{BlockData, Network}
use rust_bitcoin_indexer.Db.{Db}
use rust_bitcoin_indexer.Db.Current.{cut, push_all, length-cut}
use rust_bitcoin_indexer.Format.{block_row}
use rust_bitcoin_indexer.Store.Differs.{Agrees, first_different-Agrees}
use rust_bitcoin_indexer.Store.Holding.{waiting}
use rust_bitcoin_indexer.Store.{IndexerStore, block_ids, process_batch, start_workers}
use rust_bitcoin_indexer.Store.Insert.{
  first_different, or_height, revert_from, replay_pending, finish_reorg,
}
use rust_bitcoin_indexer.Store.Coherent.{
  IsCoherent, block-revert_from, revert_from-IsCoherent, set_extinct-ExtinctFrom,
}
use rust_bitcoin_indexer.Store.Batch.{AreNew, process_batch-IsCoherent, process_batch-block}
use rust_bitcoin_indexer.Store.Indexed.{
  blocks_of, KeysMatch, IndexedFirst, IndexedFirst-set_extinct, IndexedFirst-split_from,
  KeysMatch-split_from,
}
use rust_bitcoin_indexer.Store.Reorg.{Replayed, replay_pending-Replayed}

-- Finishing a reorg: the chain below the first pending block, with all the pending blocks on top.
module _ (address : Network → ℕ → Option ℕ) (s s' : IndexerStore) (c : List BlockHash)
    (lo : BlockHeight) (k : IsCoherent (length c) s.db c) (counted : s.chain_block_count ≡ length c)
    (no_batch : s.batch ≡ []) (from_lo : IsFrom lo s.pending_reorg)
    (keys : KeysMatch s.pending_reorg) (le : lo ≤ length c)
    (overtakes : lo + length s.pending_reorg ≡ suc (length c)) (small : suc (length c) < u32_size)
    (indexed : IndexedFirst s.db.block s.pending_reorg) where
  abbrev pub from : BlockHeight
  from = or_height (first_different s.db s.pending_reorg) s.chain_block_count

  pub agrees : Agrees s.db c lo s.pending_reorg from
  agrees =
      rw counted
        (first_different-Agrees s.db c lo s.pending_reorg k.current from_lo keys le overtakes)

  pub replayed :
      Replayed
        (length c)
        (cut from c)
        (split_from from s.pending_reorg)
        (replay_pending none (split_from from s.pending_reorg) (revert_from from s.db) [])
  replayed =
      let cuts = length-cut from c agrees.within in
      let split =
        split_from-IsFrom lo from s.pending_reorg from_lo agrees.above
          (omega (arith, agrees.within)) in
      replay_pending-Replayed (length c) none (split_from from s.pending_reorg)
        (revert_from from s.db) (cut from c) (rw cuts split.0)
        (KeysMatch-split_from from s.pending_reorg keys) (omega (arith, cuts, split.1)) refl
        (revert_from-IsCoherent from (length c) s.db c k)
        (rw (block-revert_from, cuts) (set_extinct-ExtinctFrom from s.db.block))
        (rw block-revert_from (
          IndexedFirst-set_extinct from s.db.block _
            (IndexedFirst-split_from from s.db.block lo s.pending_reorg from_lo indexed)))

  -- What finishing the reorg did: the database of the loop, and the batch that was written on it.
  pub record Finished : Type 0 where
    pub after : Db
    pub batch : List BlockData
    pub chain : List BlockHash
    pub replays :
        replay_pending none (split_from from s.pending_reorg) (revert_from from s.db) []
        ≡ ok (after, batch)
    pub fresh : AreNew (length chain) batch after.block
    pub pushed :
        push_all (block_ids batch) chain
        ≡ push_all (block_ids (blocks_of s.pending_reorg)) (cut lo c)
    pub rows : s'.db.block ≡ after.block ++ map block_row batch
    pub coherent :
        IsCoherent
          (suc (length c))
          s'.db
          (push_all (block_ids (blocks_of s.pending_reorg)) (cut lo c))
    pub count : s'.chain_block_count ≡ suc (length c)
    pub settled : s'.pending_reorg ≡ []
    pub emptied : s'.batch ≡ []
    pub idle : waiting s' ≡ []

  pub finish_reorg-Finished : finish_reorg address s ≡ ok s' → Finished
  unfolding finish_reorg start_workers
  finish_reorg-Finished e =
      let r = replayed in
      let e' = rw (r.returns, no_batch) at e in
      let (_, _, k1) = >>=-eq-ok (assert (not (length r.batch == 0))) _ e' in
      let (written, e2, k2) =
        >>=-eq-ok (process_batch address s.mode s.network r.batch [] r.after) _ k1 in
      let split =
        split_from-IsFrom lo from s.pending_reorg from_lo agrees.above
          (omega (arith, agrees.within)) in
      let total : length r.batch + length r.chain ≡ suc (length c) =
        omega (arith, r.heights, split.1, length-cut from c agrees.within) in
      let done =
        process_batch-IsCoherent s.mode (length c) r.after written.1 r.chain r.batch r.coherent
          r.fresh (omega (arith, total)) address s.network [] written.0 e2 in
      let rows =
        process_batch-block s.mode (length c) r.after written.1 r.chain r.batch r.coherent r.fresh
          (omega (arith, total)) address s.network [] written.0 e2 in
      let view = push_all (block_ids (blocks_of s.pending_reorg)) (cut lo c) in
      let db_same : written.1 ≡ s'.db = ground (arith, k2) in
      record {
        after = r.after;
        batch = r.batch;
        chain = r.chain;
        replays = r.returns;
        fresh = r.fresh;
        pushed = r.pushed ∙ sym agrees.same;
        rows = subst (λ d. d.block ≡ r.after.block ++ map block_row r.batch) db_same rows;
        coherent =
            subst (λ d. IsCoherent (suc (length c)) d view) db_same
              (subst (λ n. IsCoherent n written.1 view) total
                (subst (IsCoherent (length r.batch + length r.chain) written.1)
                  (r.pushed ∙ sym agrees.same) done));
        count = ground (arith, k2, counted, small);
        settled = ground (arith, k2);
        emptied = ground (arith, k2);
        idle = subst_ok (λ x. waiting x ≡ []) k2 refl;
      }

  -- When `finish_reorg` succeeds on a coherent database with consecutive pending blocks that
  -- reach one above the tip, the indexed of them first, the chain becomes the old one cut at the
  -- first pending height with all pending blocks on top, the event log replays to it, the block
  -- count grows by one, and the pending blocks and the batch are empty.
  pub finish_reorg-IsCoherent :
      finish_reorg address s ≡ ok s'
      → IsCoherent
          (suc (length c))
          s'.db
          (push_all (block_ids (blocks_of s.pending_reorg)) (cut lo c))
        × (s'.chain_block_count ≡ suc (length c))
        × (s'.pending_reorg ≡ [])
        × (s'.batch ≡ [])
  finish_reorg-IsCoherent e =
      let f = finish_reorg-Finished e in (f.coherent, f.count, f.settled, f.emptied)
