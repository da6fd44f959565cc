-- ===== src/Store/Overtaking.antt =====
-- That `insert` of src/db/pg.rs succeeds in a reorg while the batch that finishes it can be written.
use rust_bitcoin_indexer.Base.{
  ℕ, suc, ◌+◌, ◌%◌, ◌<◌, ◌≤◌, ◌≡◌, ◌∙◌, refl, inl, inr, true, false, Option, none, List, [], ◌∷◌,
  leb, leb→le, leb→lt, le→leb, eqb→eq, ne→eqb, ◌==◌, Bool-cases, length, All, arith,
}
use rust_bitcoin_indexer.Base.Outcome.{ok}
use rust_bitcoin_indexer.BTreeMap.{split_from}
use rust_bitcoin_indexer.BTreeMap.Consecutive.{IsFrom, split_from-IsFrom}
use rust_bitcoin_indexer.Types.{BlockHeight, BlockHash, u32_size}
use rust_bitcoin_indexer.Bitcoin.{BlockData, Network}
use rust_bitcoin_indexer.Db.{Db, BlockRow, live_at}
use rust_bitcoin_indexer.Db.Current.{hashes_at, length-cut}
use rust_bitcoin_indexer.Utxo.{UtxoDetailsMap}
use rust_bitcoin_indexer.Store.{IndexerStore, process_batch, start_workers}
use rust_bitcoin_indexer.Store.Insert.{
  or_height, tx_count, first_different, revert_from, replay_pending, finish_reorg,
  insert_when_in_reorg, insert,
}
use rust_bitcoin_indexer.Format.{u64_size}
use rust_bitcoin_indexer.Store.Coherent.{IsCoherent}
use rust_bitcoin_indexer.Store.Indexed.{KeysMatch, IndexedFirst}
use rust_bitcoin_indexer.Store.Linked.{at_height-some}
use rust_bitcoin_indexer.Store.Finish.{from, agrees, replayed}
use rust_bitcoin_indexer.Store.Collecting.{IsCollecting, with_block, grow}
use rust_bitcoin_indexer.Store.Represents.{insert-in_reorg}
use rust_bitcoin_indexer.Store.Succeeds.{IsOperating}

hashes_at-above :
    (n h : ℕ) (rows : List BlockRow)
    → All (λ row. row.height < n) rows
    → n ≤ h
    → hashes_at h rows ≡ []
unfolding live_at
hashes_at-above n h [] a le = refl
hashes_at-above n h (row ∷ rows) a le = ground (arith, hashes_at-above n h rows a.1 le, a.0)

-- A chain has no more blocks than there are heights below the bound.
length-chain : (n : ℕ) (db : Db) (c : List BlockHash) → IsCoherent n db c → length c ≤ n
length-chain n db c k = elim (Bool-cases (leb (length c) n)) [
  | inl le ↦ leb→le (length c) n le
  | inr gt ↦
      let (x, at) = at_height-some n c (leb→lt (length c) n gt) in
      absurd (cc (hashes_at-above n n db.block k.below (omega arith), k.current.at n, at))
]

-- The batch that is left of the pending blocks of a store can be written.
abbrev pub CanFinish : (Network → ℕ → Option ℕ) → IndexerStore → Type 0
CanFinish address s =
    let from = or_height (first_different s.db s.pending_reorg) s.chain_block_count in
    (after : Db) (batch : List BlockData)
    → replay_pending none (split_from from s.pending_reorg) (revert_from from s.db) []
      ≡ ok (after, batch)
    → (cache : UtxoDetailsMap) × (db : Db) × (process_batch address s.mode s.network batch [] after
        ≡ ok (cache, db))

-- The store when the reorg is finished.
abbrev finished : IndexerStore → List BlockData → Db → IndexerStore
finished s batch db = start_workers (record s {
  pending_reorg = [];
  db = db;
  batch = [];
  batch_txs_total = (s.batch_txs_total + tx_count batch) % u64_size;
  chain_block_count = (s.chain_block_count + 1) % u32_size;
})

finish_reorg_step :
    (address : Network → ℕ → Option ℕ) (s : IndexerStore) (after db : Db) (batch : List BlockData)
    (cache : UtxoDetailsMap)
    → s.batch ≡ []
    → replay_pending none
        (split_from
          (or_height (first_different s.db s.pending_reorg) s.chain_block_count)
          s.pending_reorg)
        (revert_from (or_height (first_different s.db s.pending_reorg) s.chain_block_count) s.db)
        []
      ≡ ok (after, batch)
    → (length batch == 0) ≡ false
    → process_batch address s.mode s.network batch [] after ≡ ok (cache, db)
    → finish_reorg address s ≡ ok (finished s batch db)
unfolding finish_reorg
finish_reorg_step address s after db batch cache no_batch returns some_left e =
    rw (no_batch, returns, some_left, e) refl

module _ (address : Network → ℕ → Option ℕ) (s : IndexerStore) (c : List BlockHash)
    (lo : BlockHeight) (k : IsCoherent (length c) s.db c) (counted : s.chain_block_count ≡ length c)
    (no_batch : s.batch ≡ []) (from_lo : IsFrom lo s.pending_reorg)
    (keys : KeysMatch s.pending_reorg) (le : lo ≤ length c)
    (overtakes : lo + length s.pending_reorg ≡ suc (length c)) (small : suc (length c) < u32_size)
    (indexed : IndexedFirst s.db.block s.pending_reorg) (none_in_flight : s.in_flight ≡ []) where
  -- The block on top of the old chain's length is new, so something is left to write.
  finish_reorg_runs :
      CanFinish address s → (x : IndexerStore) × (finish_reorg address s ≡ ok x) × IsOperating x
  unfolding start_workers
  finish_reorg_runs can =
      let r =
        replayed address s s c lo k counted no_batch from_lo keys le overtakes small indexed in
      let agree =
        agrees address s s c lo k counted no_batch from_lo keys le overtakes small indexed in
      let split =
        split_from-IsFrom lo
          (from address s s c lo k counted no_batch from_lo keys le overtakes small indexed)
          s.pending_reorg from_lo agree.above (omega (arith, agree.within)) in
      let some_left : (length r.batch == 0) ≡ false = ne→eqb _ _ (λ nothing. omega (
        arith,
        nothing,
        r.heights,
        split.1,
        length-cut _ c agree.within,
        length-chain (length c) r.after r.chain r.coherent,
      )) in
      let (cache, db, e) = can r.after r.batch r.returns in
      (
        finished s r.batch db,
        finish_reorg_step address s r.after db r.batch cache no_batch r.returns some_left e,
        inl (
          record { mode = s.mode; network = s.network; queue = []; cache = [] },
          (refl, none_in_flight),
          refl,
        ),
      )

-- What is relied on of the workers for a block of a reorg.
abbrev pub with_pending : IndexerStore → BlockData → IndexerStore
with_pending s block = record s { pending_reorg = with_block block s.pending_reorg }

module _ (address : Network → ℕ → Option ℕ) (s : IndexerStore) (c : List BlockHash)
    (lo : BlockHeight) (block : BlockData) (k : IsCollecting s c lo) where
  pub insert-in_reorg_runs :
      block.height ≤ lo + length s.pending_reorg
      → suc block.height < u32_size
      → (block.height ≡ length c → IndexedFirst s.db.block (with_block block s.pending_reorg))
      → s.pipeline ≡ none
      → s.in_flight ≡ []
      → (block.height ≡ s.chain_block_count → CanFinish address (with_pending s block))
      → (x : IndexerStore) × (insert address s block ≡ ok x) × IsOperating x
  unfolding insert_when_in_reorg
  insert-in_reorg_runs high small indexed stopped none_in_flight can =
      let g = grow c lo block s.pending_reorg k.from_lo k.keys (omega (arith, k.behind)) high in
      let low : leb block.height s.chain_block_count ≡ true =
        le→leb _ _ (omega (arith, high, k.behind, k.counted)) in
      let inside = insert-in_reorg address s block k.some_pending in
      elim (Bool-cases (block.height == s.chain_block_count)) [
        | inl overtakes ↦
            let at = eqb→eq block.height s.chain_block_count overtakes in
            let top : block.height ≡ length c = at ∙ k.counted in
            let (x, e, o) =
              finish_reorg_runs address (with_pending s block) c g.low k.coherent k.counted
                k.no_batch g.from_low g.keys (omega (arith, g.low_le, top))
                (omega (arith, g.reaches, top)) (omega (arith, small, top)) (indexed top)
                none_in_flight (can at) in
            (x, inside ∙ (rw (low, overtakes) e), o)
        | inr behind ↦ (
          with_pending s block,
          inside ∙ (rw (low, behind) refl),
          inr (stopped, none_in_flight, omega (arith, g.reaches, g.low_le)),
        )
      ]
