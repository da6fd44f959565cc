-- ===== src/Store/Succeeds.antt =====
-- That `insert` of src/db/pg.rs succeeds outside of a reorg while the workers can write.
use rust_bitcoin_indexer.Base.{
  ℕ, suc, ◌<◌, ◌≤◌, ◌≡◌, ◌∙◌, ◌⊎◌, sym, ap, subst, refl, inl, inr, Bool, true, false, ◌&&◌, Option,
  none, some, List, [], ◌∷◌, ◌++◌, append-nil, leb, le→leb, eqb→eq, eqb→ne, ◌==◌, if◌then◌else◌,
  Bool-cases, length, length-append, arith,
}
use rust_bitcoin_indexer.Base.Outcome.{Outcome, ok, panic, ◌>>=◌, ◌>>◌, assert}
use rust_bitcoin_indexer.BTreeMap
use rust_bitcoin_indexer.BTreeMap.{BTreeMap}
use rust_bitcoin_indexer.Types.{BlockHash, u32_size}
use rust_bitcoin_indexer.Bitcoin.{BlockData, Network}
use rust_bitcoin_indexer.Db.{BlockRow}
use rust_bitcoin_indexer.Format.{is_bulk}
use rust_bitcoin_indexer.Store.{
  Pipeline, IndexerStore, block_ids, flush_batch, stop_workers, start_workers,
  read_db_block_hash_by_height,
}
use rust_bitcoin_indexer.Store.Insert.{insert_below_tip, insert_on_tip, insert_when_at_tip, insert}
use rust_bitcoin_indexer.Store.Queue.{batches}
use rust_bitcoin_indexer.Store.Holding.{
  waiting, IsHolding, IsHolding-written, flush_batch-IsHolding, stop_workers-IsHolding,
}
use rust_bitcoin_indexer.Store.Tip.{IsUnknown, grown, grown-IsHolding}
use rust_bitcoin_indexer.Store.Linked.{at_height-some}
use rust_bitcoin_indexer.Store.Differs.{read_some}
use rust_bitcoin_indexer.Store.Represents.{insert-at_tip}
use rust_bitcoin_indexer.Store.InFlight.{AreDistinct, AreNew-AreDistinct, CanWrite}
use rust_bitcoin_indexer.Store.Operating.{
  IsRunning, to_write, to_write_empty, batches-to_write, WritesAll, AllDistinct, flush_batch_runs,
  HasWork, Leaves, LeavesKeys, stop_workers_runs, set_mode_runs, Waited,
}

-- The workers run outside of a reorg and are stopped inside of one.
abbrev pub IsOperating : IndexerStore → Type 0
IsOperating s =
    ((w : Pipeline) × IsRunning s w × (s.pending_reorg ≡ []))
    ⊎ ((s.pipeline ≡ none) × (s.in_flight ≡ []) × (0 < length s.pending_reorg))

pub length-insert_pos :
    {V : Type 0} (k : ℕ) (v : V) (m : BTreeMap V) → 0 < length (BTreeMap.insert k v m)
unfolding BTreeMap.insert
length-insert_pos k v [] = omega arith
length-insert_pos k v ((j, w) ∷ m) = ground (arith, length-insert_pos k v m)

-- The blocks that wait have different hashes.
held-AllDistinct :
    (s : IndexerStore) (w : Pipeline) (rows : List BlockRow) (c : List BlockHash)
    → IsHolding s rows c
    → s.pipeline ≡ some w
    → AllDistinct s w
held-AllDistinct s w rows c k e =
    AreNew-AreDistinct (length k.base) (batches w.queue ++ s.batch) s.db.block (rw e at k.new)

-- The store with the block collected, where it stands on top of the tip.
abbrev pub collecting : IndexerStore → BlockData → IndexerStore
collecting s block =
    if block.height == s.chain_block_count then record s { batch = s.batch ++ block ∷ [] } else s

module _ (address : Network → ℕ → Option ℕ) where
  -- What a step comes to that may have handed the batch on: all is still to be written.
  abbrev Kept : IndexerStore → IndexerStore → Type 0
  Kept s y =
      (w : Pipeline) × IsRunning y w
      × AllDistinct y w
      × WritesAll address y w
      × HasWork address y w
      × LeavesKeys address y w
      × (y.pending_reorg ≡ s.pending_reorg)

  flush_unless_runs :
      (keep : Bool) (s : IndexerStore) (w : Pipeline)
      → IsRunning s w
      → AllDistinct s w
      → WritesAll address s w
      → HasWork address s w
      → LeavesKeys address s w
      → (y : IndexerStore) × ((if keep then ok s else flush_batch s) ≡ ok y) × Kept s y
  flush_unless_runs true s w r d writes work keys = (s, refl, (w, r, d, writes, work, keys, refl))
  flush_unless_runs false s w r d writes work keys =
      let (y, e, flushed) = flush_batch_runs s w r d in
      let queue = record w { queue = to_write s w } in
      let same : to_write y queue ≡ to_write s w = to_write_empty y queue flushed.1 in
      let all : batches (to_write s w) ++ y.batch ≡ batches w.queue ++ s.batch =
        ap (λ b. batches (to_write s w) ++ b) flushed.1 ∙ append-nil _ ∙ batches-to_write s w in
      (
        y,
        e,
        (
          queue,
          flushed.0,
          subst (λ l. AreDistinct (block_ids l)) (sym all) d,
          subst (λ q. CanWrite address w.mode w.network q w.cache y.db) (sym same)
              (subst (CanWrite address w.mode w.network (to_write s w) w.cache) (sym flushed.2)
                writes),
          subst (λ l. 0 < length l) (sym all) work,
          λ db' left. keys db' (
              subst (λ db. Leaves address w (to_write s w) db db') flushed.2
                (subst (λ q. Leaves address w q y.db db') same left)),
          flushed.4,
        ),
      )

  flush_unless_only_runs :
      (keep : Bool) (s : IndexerStore) (w : Pipeline)
      → IsRunning s w
      → AllDistinct s w
      → (y : IndexerStore) × ((if keep then ok s else flush_batch s) ≡ ok y) × Waited address s y
  flush_unless_only_runs true s w r d = (s, refl, (w, r, refl))
  flush_unless_only_runs false s w r d =
      let (y, e, flushed) = flush_batch_runs s w r d in
      (y, e, (record w { queue = to_write s w }, flushed.0, flushed.4))

  -- What is done with a block below the tip once the workers are stopped.
  abbrev compare_hash : BlockData → IndexerStore → BlockHash → Outcome IndexerStore
  compare_hash block x db_hash = if db_hash == block.id then ok (start_workers x) else (do
    assert (length x.batch == 0)
    ok (record x { pending_reorg = BTreeMap.insert block.height block x.pending_reorg }))

  insert_below_tip_step :
      (s y x : IndexerStore) (block : BlockData) (id : BlockHash)
      → flush_batch s ≡ ok y
      → stop_workers address y ≡ ok x
      → read_db_block_hash_by_height x.db block.height ≡ some id
      → insert_below_tip address s block ≡ compare_hash block x id
  unfolding insert_below_tip read_db_block_hash_by_height
  insert_below_tip_step s y x block id e e2 read =
      let read_it : IndexerStore → Outcome IndexerStore = λ x.
        elim (read_db_block_hash_by_height x.db block.height) [
          | none ↦ panic
          | some db_hash ↦ compare_hash block x db_hash
        ] in
      (λ i. e i >>= λ flushed. stop_workers address flushed >>= read_it)
      ∙ (λ i. e2 i >>= read_it)
      ∙ (λ i. elim (read i) [ none ↦ panic | some db_hash ↦ compare_hash block x db_hash ])

  module _ (s : IndexerStore) (rows : List BlockRow) (c : List BlockHash) (block : BlockData)
      (k : IsHolding s rows c) (w : Pipeline) (r : IsRunning s w) where
    insert_on_tip_runs :
        block.height ≡ length c
        → IsUnknown rows block
        → suc (length c) < u32_size
        → WritesAll address (record s { batch = s.batch ++ block ∷ [] }) w
        → (s.node_chain_head_height ≡ block.height
            → LeavesKeys address (record s { batch = s.batch ++ block ∷ [] }) w)
        → (x : IndexerStore) × (insert_on_tip address s block ≡ ok x) × Waited address s x
    unfolding insert_on_tip
    insert_on_tip_runs at unknown small writes keys =
        let g = grown address s s rows c block k at unknown small in
        let held = grown-IsHolding address s s rows c block k at unknown small in
        let distinct = held-AllDistinct g w _ _ held r.0 in
        let work : HasWork address g w = omega (
          arith,
          length-append (batches w.queue) (s.batch ++ block ∷ []),
          length-append s.batch (block ∷ []),
        ) in
        elim (Bool-cases (s.node_chain_head_height == block.height)) [
          | inl head ↦
              let (y, e, (v, running, d, w', more, left, same)) =
                flush_unless_runs (is_bulk s.mode && leb g.batch_txs_total 100_000) g w r distinct
                  writes work (keys (eqb→eq s.node_chain_head_height block.height head)) in
              let (x, e2, waited) = set_mode_runs address y v running d w' more left in
              (x, rw (e, head) e2, (waited.0, waited.1, waited.2 ∙ same))
          | inr other ↦
              let (y, e, (v, running, same)) =
                flush_unless_only_runs (is_bulk s.mode && leb g.batch_txs_total 100_000) g w r
                  distinct in
              (y, rw (e, other) refl, (v, running, same))
        ]

    insert_below_tip_runs :
        block.height < length c
        → WritesAll address s w
        → (x : IndexerStore) × (insert_below_tip address s block ≡ ok x) × IsOperating x
    unfolding start_workers
    insert_below_tip_runs below writes =
        let d = held-AllDistinct s w rows c k r.0 in
        let queue = record w { queue = to_write s w } in
        let (y, e, flushed) = flush_batch_runs s w r d in
        let (x, e2, stopped, _) =
          stop_workers_runs address y queue flushed.0
            (subst (λ l. AreDistinct (block_ids l)) (sym (batches-to_write s w)) d)
            (subst (CanWrite address w.mode w.network (to_write s w) w.cache) (sym flushed.2)
              writes) in
        let held = flush_batch-IsHolding s y rows c k e in
        let still = stop_workers-IsHolding address y x rows c held.0 e2 in
        let empty : x.batch ≡ [] = still.2 ∙ held.1 in
        let idle : waiting x ≡ [] = rw (still.1, empty) in
        let coherent = IsHolding-written x rows c still.0 idle in
        let (id, at) = at_height-some block.height c below in
        let step =
          insert_below_tip_step s y x block id e e2
            (read_some x.db block.height id (coherent.current.at block.height ∙ at)) in
        elim (Bool-cases (id == block.id)) [
          | inl same ↦ (
            start_workers x,
            step ∙ (rw same refl),
            inl (
              record { mode = x.mode; network = x.network; queue = []; cache = [] },
              (refl, stopped.1),
              still.0.settled,
            ),
          )
          | inr other ↦ (
            record x { pending_reorg = BTreeMap.insert block.height block x.pending_reorg },
            step ∙ (rw (other, empty) refl),
            inr (stopped.0, stopped.1, length-insert_pos block.height block x.pending_reorg),
          )
        ]

    pub insert-at_tip_runs :
        block.height ≤ length c
        → (block.height ≡ length c → IsUnknown rows block)
        → suc block.height < u32_size
        → WritesAll address (collecting s block) w
        → (s.node_chain_head_height ≡ block.height → LeavesKeys address (collecting s block) w)
        → (x : IndexerStore) × (insert address s block ≡ ok x) × IsOperating x
    unfolding insert_when_at_tip
    insert-at_tip_runs high unknown small writes keys =
        let low : leb block.height s.chain_block_count ≡ true =
          le→leb _ _ (omega (arith, high, k.counted)) in
        elim (Bool-cases (block.height == s.chain_block_count)) [
          | inl top ↦
              let at = eqb→eq block.height s.chain_block_count top ∙ k.counted in
              let (x, e, (v, running, same)) =
                insert_on_tip_runs at (unknown at) (omega (arith, small, at)) (rw top at writes)
                  (λ head. rw top at (keys head)) in
              (
                x,
                insert-at_tip address s block k.settled ∙ (rw (low, top) e),
                inl (v, running, same ∙ k.settled),
              )
          | inr below ↦
              let lt : block.height < length c =
                omega (arith, high, k.counted, eqb→ne block.height s.chain_block_count below) in
              let (x, e, o) = insert_below_tip_runs lt (rw below at writes) in
              (x, insert-at_tip address s block k.settled ∙ (rw (low, below) e), o)
        ]
