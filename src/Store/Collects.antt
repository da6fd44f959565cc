-- ===== src/Store/Collects.antt =====
-- What a store of src/db/pg.rs stands for, and one more block of a reorg in `insert_when_in_reorg`.
use rust_bitcoin_indexer.Base.{
  ℕ, suc, ◌+◌, ◌≤◌, ◌<◌, ◌≡◌, ◌∙◌, ◌⊎◌, sym, ap, subst, refl, inl, inr, Option, none, List, [], ◌∷◌,
  ◌++◌, map, append-nil, All, arith, leb, ◌==◌, Bool-cases, length, length-map, eqb→eq, eqb→ne,
}
use rust_bitcoin_indexer.Base.Outcome.{ok, assert, >>=-eq-ok, subst_ok}
use rust_bitcoin_indexer.BTreeMap.{BTreeMap, split_from}
use rust_bitcoin_indexer.Types.{BlockHeight, BlockHash, u32_size}
use rust_bitcoin_indexer.Bitcoin.{BlockData, Network}
use rust_bitcoin_indexer.Db.Current.{cut, length-cut, at_height, IsChain}
use rust_bitcoin_indexer.Store.{IndexerStore}
use rust_bitcoin_indexer.Store.Insert.{
  or_height, first_different, revert_from, replay_pending, insert_when_in_reorg,
}
use rust_bitcoin_indexer.Store.Coherent.{IsCoherent}
use rust_bitcoin_indexer.Store.Indexed.{blocks_of, IndexedFirst}
use rust_bitcoin_indexer.Store.Finish.{finish_reorg-Finished}
use rust_bitcoin_indexer.Store.Relabel.{forget, map-forget-set_extinct, replay_pending-keeps}
use rust_bitcoin_indexer.Store.Collecting.{IsCollecting, collected, with_block, grow}
use rust_bitcoin_indexer.Store.Queue.{length-push_block_ids}
use rust_bitcoin_indexer.Store.Holding.{waiting, IsHolding}
use mathlib.Core.List.{map-append}
use rust_bitcoin_indexer.Db.{Db, BlockRow}
use rust_bitcoin_indexer.Db.Current.{push_all}
use rust_bitcoin_indexer.Format.{block_row}
use rust_bitcoin_indexer.Store.{block_ids}
use rust_bitcoin_indexer.Store.Batch.{AreNew}
use rust_bitcoin_indexer.Store.Coherent.{block-revert_from}
use rust_bitcoin_indexer.Store.Positions.{
  AreNew-at_height, All-both, All-with_block, All-split_from,
}

module _ (P : BlockData → Type 0) where
  -- What a store outside or inside of a reorg stands for: the chain with all blocks that it took, and
  -- the rows of the table and of the blocks that are not yet written. The pending blocks have `P`.
  abbrev pub Represents : IndexerStore → List BlockRow → List BlockHash → Type 0
  Represents s rows view =
      IsHolding s rows view
      ⊎ ((c : List BlockHash) × (lo : BlockHeight) × IsCollecting s c lo
          × (view ≡ collected c lo s.pending_reorg)
          × (s.db.block ≡ rows)
          × All P (blocks_of s.pending_reorg))

  -- The rows grow by those of new blocks that stand in the chain, and otherwise change only in which
  -- of them are extinct. Where there are new blocks, the chain is that of the rows.
  abbrev pub Adds : List BlockRow → List BlockRow → List BlockHash → Type 0
  Adds rows rows' view =
      (new : List BlockData) × (map forget rows' ≡ map forget rows ++ map block_row new)
      × All (λ b. P b × (at_height b.height view ≡ b.id ∷ [])) new
      × ((new ≡ []) ⊎ IsChain rows' view)

pub map-forget-block_row :
    (blocks : List BlockData) → map forget (map block_row blocks) ≡ map block_row blocks
unfolding block_row
map-forget-block_row [] = refl
map-forget-block_row (b ∷ blocks) = rw (map-forget-block_row blocks)

IsHolding-finished :
    (s : IndexerStore) (c : List BlockHash)
    → IsCoherent (length c) s.db c
    → s.chain_block_count ≡ length c
    → s.pending_reorg ≡ []
    → waiting s ≡ []
    → IsHolding s s.db.block c
IsHolding-finished s c k counted settled idle = record {
  base = c;
  coherent = k;
  new = rw idle tt;
  view = rw idle;
  counted = counted;
  settled = settled;
  known = rw idle (append-nil s.db.block);
}

module _ (P : BlockData → Type 0) (address : Network → ℕ → Option ℕ) (s s' : IndexerStore)
    (block : BlockData) (c : List BlockHash) (lo : BlockHeight) (k : IsCollecting s c lo)
    (p : P block) (ps : All P (blocks_of s.pending_reorg)) where
  abbrev grown : BTreeMap BlockData
  grown = with_block block s.pending_reorg

  abbrev target : List BlockHash
  target = block.id ∷ cut block.height (collected c lo s.pending_reorg)

  -- What one more block of a reorg comes to.
  abbrev pub Collects : IndexerStore → Type 0
  Collects x =
      (rows' : List BlockRow) × Adds P s.db.block rows' target × Represents P x rows' target

  -- The rows that a finished reorg adds are those of its new blocks.
  finished-Adds :
      (low : BlockHeight)
      → collected c low grown ≡ target
      → All P (blocks_of grown)
      → (after : Db) (batch : List BlockData) (chain : List BlockHash)
      → replay_pending none
          (split_from (or_height (first_different s.db grown) s.chain_block_count) grown)
          (revert_from (or_height (first_different s.db grown) s.chain_block_count) s.db)
          []
        ≡ ok (after, batch)
      → AreNew (length chain) batch after.block
      → push_all (block_ids batch) chain ≡ collected c low grown
      → IsChain (after.block ++ map block_row batch) target
      → Adds P s.db.block (after.block ++ map block_row batch) target
  finished-Adds low pushed all after batch chain replays fresh same current =
      let from = or_height (first_different s.db grown) s.chain_block_count in
      let kept =
        replay_pending-keeps P none (split_from from grown) (revert_from from s.db) after [] batch
          tt (All-split_from P from grown all) replays in
      let places =
        subst (λ v. All (λ b. at_height b.height v ≡ b.id ∷ []) batch) (same ∙ pushed)
          (AreNew-at_height (length chain) batch after.block chain refl fresh) in
      (
        batch,
        map-append forget after.block (map block_row batch)
            ∙ ap (λ l. l ++ map forget (map block_row batch))
                (kept.0
                  ∙ ap (map forget) (block-revert_from from s.db)
                  ∙ map-forget-set_extinct from s.db.block)
            ∙ ap (λ l. map forget s.db.block ++ l) (map-forget-block_row batch),
        All-both P (λ b. at_height b.height target ≡ b.id ∷ []) batch kept.1 places,
        inr current,
      )

  pub insert_when_in_reorg-Collects :
      block.height ≤ lo + length s.pending_reorg
      → suc block.height < u32_size
      → (block.height ≡ length c → IndexedFirst s.db.block grown)
      → insert_when_in_reorg address s block ≡ ok s'
      → Collects s'
  unfolding insert_when_in_reorg
  insert_when_in_reorg-Collects high small indexed e =
      let g = grow c lo block s.pending_reorg k.from_lo k.keys (omega (arith, k.behind)) high in
      let all = All-with_block P block s.pending_reorg p ps in
      let (_, _, e1) = >>=-eq-ok (assert (leb block.height s.chain_block_count)) _ e in
      elim (Bool-cases (block.height == s.chain_block_count)) [
        | inl overtakes ↦
            let top : block.height ≡ length c =
              eqb→eq block.height s.chain_block_count overtakes ∙ k.counted in
            let f =
              finish_reorg-Finished address (record s { pending_reorg = grown }) s' c g.low
                k.coherent k.counted k.no_batch g.from_low g.keys (omega (arith, g.low_le, top))
                (omega (arith, g.reaches, top)) (omega (arith, small, top)) (indexed top)
                (rw overtakes at e1) in
            let view = collected c g.low grown in
            let tall : suc (length c) ≡ length view = omega (
              arith,
              g.reaches,
              top,
              length-map grown (λ (x : ℕ × BlockData). x.1),
              length-push_block_ids (blocks_of grown) (cut g.low c),
              length-cut g.low c (omega (arith, g.low_le, top)),
            ) in
            (
              s'.db.block,
              subst (λ r. Adds P s.db.block r target) (sym f.rows)
                  (finished-Adds g.low g.pushed all f.after f.batch f.chain f.replays f.fresh
                    f.pushed
                    (subst (λ r. IsChain r target) f.rows
                      (subst (IsChain s'.db.block) g.pushed f.coherent.current))),
              inl (
                  subst (IsHolding s' s'.db.block) g.pushed (
                    IsHolding-finished s' view
                      (subst (λ n. IsCoherent n s'.db view) tall f.coherent) (f.count ∙ tall)
                      f.settled f.idle)),
            )
        | inr behind ↦
            let e2 : ok (record s { pending_reorg = grown }) ≡ ok s' = rw behind at e1 in
            subst_ok Collects e2 (
              s.db.block,
              ([], sym (append-nil (map forget s.db.block)), tt, inl refl),
              inr (
                c,
                g.low,
                record {
                  coherent = k.coherent;
                  counted = k.counted;
                  no_batch = k.no_batch;
                  from_lo = g.from_low;
                  keys = g.keys;
                  some_pending = omega (arith, g.reaches, g.low_le);
                  behind = omega (
                    arith,
                    g.reaches,
                    high,
                    k.behind,
                    k.counted,
                    eqb→ne block.height s.chain_block_count behind,
                  );
                },
                sym g.pushed,
                refl,
                all,
              ),
            )
      ]
