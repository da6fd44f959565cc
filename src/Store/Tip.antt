-- ===== src/Store/Tip.antt =====
-- A block on top of the tip: `insert_when_at_tip` of src/db/pg.rs.
use rust_bitcoin_indexer.Base.{
  ℕ, suc, ◌^◌, ◌+◌, ◌%◌, ◌<◌, ◌≡◌, ◌∙◌, sym, ap, subst, refl, inl, inr, Bool, true, false, ◌&&◌,
  Option, none, List, [], ◌∷◌, ◌++◌, map, append_assoc, arith, leb, ◌==◌, if◌then◌else◌, Bool-cases,
  length,
}
use mathlib.Core.List.{map-append}
use rust_bitcoin_indexer.Base.Outcome.{ok, >>=-eq-ok, subst_ok}
use rust_bitcoin_indexer.Types.{BlockHash, u32_size}
use rust_bitcoin_indexer.Bitcoin.{BlockData, Network}
use rust_bitcoin_indexer.Hash.{hash_to_hash_id}
use rust_bitcoin_indexer.Db.{BlockRow, find_block}
use rust_bitcoin_indexer.Db.Current.{push_all}
use rust_bitcoin_indexer.Format.{is_bulk, block_row}
use rust_bitcoin_indexer.Store.{IndexerStore, block_ids, flush_batch}
use rust_bitcoin_indexer.Store.Insert.{insert_on_tip}
use rust_bitcoin_indexer.Store.Batch.{AreNew}
use rust_bitcoin_indexer.Store.Queue.{push_block_ids-append, length-push_block_ids, AreNew-append}
use rust_bitcoin_indexer.Store.Holding.{
  queued, waiting, IsHolding, flush_batch-IsHolding, set_mode-IsHolding,
}

-- A block that the rows do not have.
abbrev pub IsUnknown : List BlockRow → BlockData → Type 0
IsUnknown rows block = find_block (hash_to_hash_id block.id) rows ≡ none

module _ (address : Network → ℕ → Option ℕ) (s s' : IndexerStore) (rows : List BlockRow)
    (c : List BlockHash) (block : BlockData) (k : IsHolding s rows c) (at : block.height ≡ length c)
    (unknown : IsUnknown rows block) (small : suc (length c) < u32_size) where
  abbrev pub grown : IndexerStore
  grown = record s {
    batch_txs_total = (s.batch_txs_total + length block.payload.txdata) % 2 ^ 64;
    batch = s.batch ++ block ∷ [];
    chain_block_count = (s.chain_block_count + 1) % u32_size;
  }

  block-AreNew :
      (n : ℕ) → block.height ≡ n → AreNew n (block ∷ []) (s.db.block ++ map block_row (waiting s))
  unfolding block_row
  block-AreNew n e = (refl, e, rw (k.known) unknown, tt)

  pub grown-IsHolding : IsHolding grown (rows ++ block_row block ∷ []) (block.id ∷ c)
  grown-IsHolding =
      let more : waiting s ++ block ∷ [] ≡ waiting grown =
        append_assoc (queued s.pipeline) s.batch (block ∷ []) in
      let tall : length (waiting s) + length k.base ≡ length c =
        sym (length-push_block_ids (waiting s) k.base) ∙ ap length k.view in
      record {
        base = k.base;
        coherent = k.coherent;
        new =
            subst (λ l. AreNew (length k.base) l s.db.block) more
              (AreNew-append (length k.base) (waiting s) (block ∷ []) s.db.block k.new
                (block-AreNew _ (omega (arith, at, tall))));
        view =
            subst (λ l. push_all (block_ids l) k.base ≡ block.id ∷ c) more
              (push_block_ids-append (waiting s) (block ∷ []) k.base
                ∙ ap (λ l. block.id ∷ l) k.view);
        counted = omega (arith, k.counted, small);
        settled = k.settled;
        known = rw (
          ← more,
          map-append,
          ← append_assoc s.db.block (map block_row (waiting s)) (block_row block ∷ []),
          k.known,
        );
      }

  -- When inserting an unknown block on top of the tip succeeds, in any mode and with or without a
  -- flush or a change to the normal mode, the database with the queued and collected blocks on
  -- top holds the chain with the block on top.
  pub insert_on_tip-IsHolding :
      insert_on_tip address s block ≡ ok s'
      → IsHolding s' (rows ++ block_row block ∷ []) (block.id ∷ c)
  unfolding insert_on_tip
  insert_on_tip-IsHolding e =
      let keep = is_bulk s.mode && leb grown.batch_txs_total 100_000 in
      let (flushed, e1, k1) = >>=-eq-ok (if keep then ok grown else flush_batch grown) _ e in
      let held = flushed_held keep flushed e1 in
      elim (Bool-cases (s.node_chain_head_height == block.height)) [
        | inl head ↦
            set_mode-IsHolding address flushed s' (rows ++ block_row block ∷ []) (block.id ∷ c) held
              (rw head at k1)
        | inr below ↦
            subst_ok (λ x. IsHolding x (rows ++ block_row block ∷ []) (block.id ∷ c))
              (rw below at k1) held
      ]
    where
      flushed_held :
          (keep : Bool) (x : IndexerStore)
          → (if keep then ok grown else flush_batch grown) ≡ ok x
          → IsHolding x (rows ++ block_row block ∷ []) (block.id ∷ c)
      flushed_held true x e =
          subst_ok (λ y. IsHolding y (rows ++ block_row block ∷ []) (block.id ∷ c)) e
            grown-IsHolding
      flushed_held false x e =
          (flush_batch-IsHolding grown x (rows ++ block_row block ∷ []) (block.id ∷ c)
            grown-IsHolding e).0
