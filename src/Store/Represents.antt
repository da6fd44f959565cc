-- ===== src/Store/Represents.antt =====
-- `insert` of src/db/pg.rs: each block that the store takes replaces the blocks at its height and above.
use rust_bitcoin_indexer.Base.{
  ℕ, suc, ◌+◌, ◌≤◌, ◌<◌, ◌≡◌, ◌∙◌, ◌⊎◌, sym, ap, subst, refl, inl, inr, false, Option, List, [],
  ◌∷◌, ◌++◌, map, append-nil, arith, leb, ◌==◌, Bool-cases, length, length-map, eqb→eq, eqb→ne,
}
use rust_bitcoin_indexer.Base.Outcome.{ok, assert, >>=-eq-ok, subst_ok}
use rust_bitcoin_indexer.BTreeMap
use rust_bitcoin_indexer.BTreeMap.{BTreeMap, split_below, split_from}
use rust_bitcoin_indexer.Types.{BlockHash, u32_size}
use rust_bitcoin_indexer.Bitcoin.{BlockData, Network}
use rust_bitcoin_indexer.Db.Current.{cut, cut_all, length-cut, at_height, IsChain}
use rust_bitcoin_indexer.Store.{IndexerStore, stop_workers, flush_batch}
use rust_bitcoin_indexer.Store.Insert.{
  insert_when_in_reorg, insert_below_tip, insert_when_at_tip, insert, is_in_reorg,
}
use rust_bitcoin_indexer.Store.Coherent.{IsCoherent}
use rust_bitcoin_indexer.Store.Indexed.{blocks_of, IndexedFirst}
use rust_bitcoin_indexer.Store.Differs.{cut-suc, read_some}
use rust_bitcoin_indexer.Store.Relabel.{forget}
use rust_bitcoin_indexer.Store.Collecting.{collected, with_block}
use rust_bitcoin_indexer.Store.Queue.{length-push_block_ids}
use rust_bitcoin_indexer.Store.Holding.{
  waiting, IsHolding, IsHolding-written, IsHolding-IsChain, flush_batch-IsHolding,
  stop_workers-IsHolding, start_workers-IsHolding,
}
use rust_bitcoin_indexer.Store.Tip.{IsUnknown, insert_on_tip-IsHolding}
use mathlib.Core.List.{map-append}
use rust_bitcoin_indexer.Db.{BlockRow}
use rust_bitcoin_indexer.Format.{block_row}
use rust_bitcoin_indexer.Store.Collects.{
  Represents, Adds, insert_when_in_reorg-Collects, map-forget-block_row,
}

first_pending :
    (P : BlockData → Type 0) (block : BlockData) (rows : List BlockRow) (c : List BlockHash)
    (s : IndexerStore)
    → P block
    → IsCoherent (length c) s.db c
    → block.height < length c
    → IsHolding s rows c
    → s.batch ≡ []
    → waiting s ≡ []
    → Represents P
        (record s { pending_reorg = BTreeMap.insert block.height block s.pending_reorg })
        rows
        (block.id ∷ cut block.height c)
first_pending P block rows c s p k below h empty idle =
    let only : BTreeMap.insert block.height block s.pending_reorg ≡ (block.height, block) ∷ [] =
      ap (BTreeMap.insert block.height block) h.settled ∙ insert_empty in
    inr (
      c,
      block.height,
      record {
        coherent = k;
        counted = h.counted;
        no_batch = empty;
        from_lo = rw only (refl, tt);
        keys = rw only (refl, tt);
        some_pending = rw only (omega arith);
        behind = rw only (omega (arith, below));
      },
      rw only,
      sym (append-nil s.db.block) ∙ ap (λ l. s.db.block ++ map block_row l) (sym idle) ∙ h.known,
      rw only (p, tt),
    )
  where
    insert_empty : BTreeMap.insert block.height block [] ≡ (block.height, block) ∷ []
    insert_empty = unfold BTreeMap.insert in refl

-- What is relied on of a block above the tip: outside of a reorg it is not indexed yet, and when it
-- finishes a reorg, the indexed pending blocks come first.
pub record IsAdmitted (s : IndexerStore) (rows : List BlockRow) (block : BlockData) : Type 0 where
  pub unknown : s.pending_reorg ≡ [] → block.height ≡ s.chain_block_count → IsUnknown rows block
  pub indexed :
      0 < length s.pending_reorg
      → block.height ≡ s.chain_block_count
      → IndexedFirst s.db.block (with_block block s.pending_reorg)

is_empty-some : (m : BTreeMap BlockData) → 0 < length m → BTreeMap.is_empty m ≡ false
unfolding BTreeMap.is_empty
is_empty-some [] h = absurd (omega arith)
is_empty-some (x ∷ m) h = refl

module _ (address : Network → ℕ → Option ℕ) (s : IndexerStore) (block : BlockData) where
  pub insert-at_tip :
      s.pending_reorg ≡ [] → insert address s block ≡ insert_when_at_tip address s block
  unfolding insert is_in_reorg BTreeMap.is_empty
  insert-at_tip e = rw e

  pub insert-in_reorg :
      0 < length s.pending_reorg → insert address s block ≡ insert_when_in_reorg address s block
  unfolding insert is_in_reorg BTreeMap.is_empty
  insert-in_reorg e = rw (is_empty-some s.pending_reorg e)

module _ (P : BlockData → Type 0) (address : Network → ℕ → Option ℕ) (s s' : IndexerStore)
    (block : BlockData) (rows : List BlockRow) (view : List BlockHash) (p : P block) where
  -- The block is put at its height, or it stands there and the store is as before.
  abbrev pub Inserts : IndexerStore → Type 0
  Inserts x =
      ((rows' : List BlockRow) × Adds P rows rows' (block.id ∷ cut block.height view)
        × Represents P x rows' (block.id ∷ cut block.height view))
      ⊎ ((at_height block.height view ≡ block.id ∷ []) × Represents P x rows view)

  no-Adds : Adds P rows rows (block.id ∷ cut block.height view)
  no-Adds = ([], sym (append-nil (map forget rows)), tt, inl refl)

  -- A block below the tip is the chain's block at its height, or starts a reorg there.
  insert_below_tip-Inserts :
      IsHolding s rows view
      → block.height < length view
      → insert_below_tip address s block ≡ ok s'
      → Inserts s'
  unfolding insert_below_tip
  insert_below_tip-Inserts k below e =
      let (flushed, e1, k1) = >>=-eq-ok (flush_batch s) _ e in
      let (stopped, e2, k2) = >>=-eq-ok (stop_workers address flushed) _ k1 in
      let held = flush_batch-IsHolding s flushed rows view k e1 in
      let still = stop_workers-IsHolding address flushed stopped rows view held.0 e2 in
      let empty : stopped.batch ≡ [] = still.2 ∙ held.1 in
      let idle : waiting stopped ≡ [] = rw (still.1, empty) in
      let coherent = IsHolding-written stopped rows view still.0 idle in
      let (x, at, up) = cut-suc block.height view below in
      let read = read_some stopped.db block.height x (coherent.current.at block.height ∙ at) in
      let k3 = rw read at k2 in
      elim (Bool-cases (x == block.id)) [
        | inl same ↦ inr (
          at ∙ ap (λ y. y ∷ []) (eqb→eq x block.id same),
          subst_ok (λ y. Represents P y rows view) (rw same at k3)
              (inl (start_workers-IsHolding stopped rows view still.1 still.0)),
        )
        | inr other ↦
            let (_, _, k4) = >>=-eq-ok (assert (length stopped.batch == 0)) _ (rw other at k3) in
            inl (
              rows,
              no-Adds,
              subst_ok (λ y. Represents P y rows (block.id ∷ cut block.height view)) k4
                  (first_pending P block rows view stopped p coherent below still.0 empty idle),
            )
      ]

  on_tip-Adds :
      block.height ≡ length view
      → IsChain (rows ++ block_row block ∷ []) (block.id ∷ cut block.height view)
      → Adds P rows (rows ++ block_row block ∷ []) (block.id ∷ cut block.height view)
  on_tip-Adds at current =
      let whole = cut_all block.height view (omega (arith, at)) in
      (
        block ∷ [],
        map-append forget rows (block_row block ∷ [])
            ∙ ap (λ l. map forget rows ++ l) (map-forget-block_row (block ∷ [])),
        ((p, ground (arith, whole, at)), tt),
        inr current,
      )

  -- When `insert` succeeds on a store that represents a chain, for a block at most one above the
  -- tip, the store then represents the chain cut at the block's height with the block on top and
  -- the table has the rows of the new blocks more, or, where the chain has that very block at the
  -- height, the same chain; the block's height is below 2^32 - 1, a block above the tip is not
  -- indexed yet outside of a reorg, and at the end of a reorg the indexed pending blocks come
  -- first.
  pub insert-Represents :
      Represents P s rows view
      → block.height ≤ length view
      → suc block.height < u32_size
      → IsAdmitted s rows block
      → insert address s block ≡ ok s'
      → Inserts s'
  unfolding insert_when_at_tip
  insert-Represents (inl k) high small admitted e =
      let e0 : insert_when_at_tip address s block ≡ ok s' =
        sym (insert-at_tip address s block k.settled) ∙ e in
      let (_, _, e1) = >>=-eq-ok (assert (leb block.height s.chain_block_count)) _ e0 in
      elim (Bool-cases (block.height == s.chain_block_count)) [
        | inl top ↦
            let at = eqb→eq block.height s.chain_block_count top in
            let whole : view ≡ cut block.height view =
              sym (cut_all block.height view (omega (arith, at, k.counted))) in
            let held =
              subst (λ l. IsHolding s' (rows ++ block_row block ∷ []) (block.id ∷ l)) whole
                (insert_on_tip-IsHolding address s s' rows view block k (at ∙ k.counted)
                  (admitted.unknown k.settled at)
                  (omega (arith, small, eqb→eq block.height s.chain_block_count top, k.counted))
                  (rw top at e1)) in
            inl (
              rows ++ block_row block ∷ [],
              on_tip-Adds (at ∙ k.counted) (IsHolding-IsChain s' _ _ held),
              inl held,
            )
        | inr below ↦
            insert_below_tip-Inserts k
              (omega (arith, high, k.counted, eqb→ne block.height s.chain_block_count below))
              (rw below at e1)
      ]
  insert-Represents (inr (c, lo, k, same, table, all)) high small admitted e =
      let tall : length (collected c lo s.pending_reorg) ≡ lo + length s.pending_reorg =
        length-push_block_ids (blocks_of s.pending_reorg) (cut lo c)
        ∙ omega (
          arith,
          length-map s.pending_reorg (λ (x : ℕ × BlockData). x.1),
          length-cut lo c (omega (arith, k.behind)),
        ) in
      let (rows', adds, rep) =
        insert_when_in_reorg-Collects P address s s' block c lo k p all
          (omega (arith, high, ap length same, tall)) small
          (λ top. admitted.indexed k.some_pending (top ∙ sym k.counted))
          (sym (insert-in_reorg address s block k.some_pending) ∙ e) in
      inl (
        rows',
        subst (λ r. Adds P r rows' (block.id ∷ cut block.height view)) table
            (subst (λ l. Adds P s.db.block rows' (block.id ∷ cut block.height l)) (sym same) adds),
        subst (λ l. Represents P s' rows' (block.id ∷ cut block.height l)) (sym same) rep,
      )
