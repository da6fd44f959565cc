-- ===== src/Store/Operating.antt =====
-- That the operations of the store of src/db/pg.rs outside of a reorg succeed while its workers can write.
use rust_bitcoin_indexer.Base.{
  ℕ, ◌<◌, true, false, ◌≡◌, ◌∙◌, sym, ap, subst, refl, inl, inr, Option, none, some, List, [], ◌∷◌,
  ◌++◌, append-nil, ◌==◌, Bool-cases, length, arith,
}
use mathlib.Core.List.{map-append}
use rust_bitcoin_indexer.Base.Outcome.{ok}
use rust_bitcoin_indexer.Bitcoin.{BlockData, Network}
use rust_bitcoin_indexer.Db.{Db}
use rust_bitcoin_indexer.Db.Constraints.{normal_keys_hold}
use rust_bitcoin_indexer.Format.{normal, is_bulk}
use rust_bitcoin_indexer.Store.{
  Pipeline, IndexerStore, block_ids, insert_hashes, flush_batch, stop_workers, start_workers, drain,
  flush_workers, same_mode, set_mode, set_schema_to_mode, set_mode_unconditionally,
}
use rust_bitcoin_indexer.Store.Queue.{batches, batches-append}
use rust_bitcoin_indexer.Store.InFlight.{
  AreDistinct, insert_hashes-AreDistinct, CanWrite, drain-CanWrite,
}

-- The workers run, and the hashes in flight are those of the queue.
abbrev pub IsRunning : IndexerStore → Pipeline → Type 0
IsRunning s w = (s.pipeline ≡ some w) × (s.in_flight ≡ block_ids (batches w.queue))

-- The queue, with the batch that is being collected at its end.
abbrev pub to_write : IndexerStore → Pipeline → List (ℕ × List BlockData)
to_write s w = elim s.batch [ [] ↦ w.queue | b ∷ bs ↦ w.queue ++ (s.batch_id, s.batch) ∷ [] ]

-- The workers can write all that is queued and collected.
abbrev pub WritesAll : (Network → ℕ → Option ℕ) → IndexerStore → Pipeline → Type 0
WritesAll address s w = CanWrite address w.mode w.network (to_write s w) w.cache s.db

abbrev pub AllDistinct : IndexerStore → Pipeline → Type 0
AllDistinct s w = AreDistinct (block_ids (batches w.queue ++ s.batch))

-- The batch is handed on, and the rest is as it was.
abbrev pub Flushed : IndexerStore → Pipeline → IndexerStore → Type 0
Flushed s w x =
    IsRunning x (record w { queue = to_write s w })
    × (x.batch ≡ [])
    × (x.db ≡ s.db)
    × (x.chain_block_count ≡ s.chain_block_count)
    × (x.pending_reorg ≡ s.pending_reorg)
    × (x.mode ≡ s.mode)
    × (x.node_chain_head_height ≡ s.node_chain_head_height)

-- What is shown of a store with known workers is so of the store that has them.
with_pipeline :
    (P : IndexerStore → Type 0) (s : IndexerStore) (w : Pipeline)
    → s.pipeline ≡ some w
    → P (record s { pipeline = some w })
    → P s
with_pipeline P s w e t = subst (λ p. P (record s { pipeline = p })) (sym e) t

flush_batch_fields :
    (s : IndexerStore) (w : Pipeline) (batch : List BlockData)
    → s.in_flight ≡ block_ids (batches w.queue)
    → AreDistinct (block_ids (batches w.queue ++ batch))
    → (x : IndexerStore) × (flush_batch (record s { pipeline = some w; batch = batch }) ≡ ok x)
      × Flushed (record s { pipeline = some w; batch = batch }) w x
unfolding flush_batch
flush_batch_fields s w [] f d = (_, refl, ((refl, f), refl, refl, refl, refl, refl, refl))
flush_batch_fields s w (b ∷ bs) f d =
    let parts : block_ids (batches w.queue ++ b ∷ bs)
        ≡ block_ids (batches w.queue) ++ block_ids (b ∷ bs) =
      map-append (λ (b : BlockData). b.id) (batches w.queue) (b ∷ bs) in
    (
      _,
      refl,
      (
        (
          refl,
          ap (insert_hashes (block_ids (b ∷ bs))) f
              ∙ insert_hashes-AreDistinct (block_ids (b ∷ bs)) (block_ids (batches w.queue))
                  (subst AreDistinct parts d)
              ∙ sym parts
              ∙ ap block_ids (sym (batches-append w.queue s.batch_id (b ∷ bs))),
        ),
        refl,
        refl,
        refl,
        refl,
        refl,
        refl,
      ),
    )

pub flush_batch_runs :
    (s : IndexerStore) (w : Pipeline)
    → IsRunning s w
    → AllDistinct s w
    → (x : IndexerStore) × (flush_batch s ≡ ok x) × Flushed s w x
flush_batch_runs s w r d =
    with_pipeline (λ s. (x : IndexerStore) × (flush_batch s ≡ ok x) × Flushed s w x) s w r.0
      (flush_batch_fields s w s.batch r.1 d)

batches-to_write_fields :
    (s : IndexerStore) (w : Pipeline) (batch : List BlockData)
    → batches (to_write (record s { batch = batch }) w) ≡ batches w.queue ++ batch
batches-to_write_fields s w [] = sym (append-nil (batches w.queue))
batches-to_write_fields s w (b ∷ bs) = batches-append w.queue s.batch_id (b ∷ bs)

pub batches-to_write :
    (s : IndexerStore) (w : Pipeline) → batches (to_write s w) ≡ batches w.queue ++ s.batch
batches-to_write s w = batches-to_write_fields s w s.batch

pub to_write_empty : (s : IndexerStore) (w : Pipeline) → s.batch ≡ [] → to_write s w ≡ w.queue
to_write_empty s w e = ground (arith, e)

-- The store without workers.
abbrev pub Stopped : IndexerStore → IndexerStore → Type 0
Stopped s x =
    (x.pipeline ≡ none)
    × (x.in_flight ≡ [])
    × (x.batch ≡ s.batch)
    × (x.chain_block_count ≡ s.chain_block_count)
    × (x.pending_reorg ≡ s.pending_reorg)
    × (x.node_chain_head_height ≡ s.node_chain_head_height)

module _ (address : Network → ℕ → Option ℕ) where
  -- What the workers leave when they have written all of a queue.
  abbrev pub Leaves : Pipeline → List (ℕ × List BlockData) → Db → Db → Type 0
  Leaves w queue db db' =
      drain address w.mode w.network queue w.cache db (block_ids (batches queue)) ≡ ok (db', [])

  -- The rows have the keys of the normal mode once all that is queued and collected is written.
  abbrev pub LeavesKeys : IndexerStore → Pipeline → Type 0
  LeavesKeys s w = (db' : Db) → Leaves w (to_write s w) s.db db' → normal_keys_hold db' ≡ true

  stop_workers_fields :
      (s : IndexerStore) (w : Pipeline)
      → s.in_flight ≡ block_ids (batches w.queue)
      → AreDistinct (block_ids (batches w.queue))
      → CanWrite address w.mode w.network w.queue w.cache s.db
      → (x : IndexerStore) × (stop_workers address (record s { pipeline = some w }) ≡ ok x)
        × Stopped s x
        × Leaves w w.queue s.db x.db
  unfolding stop_workers
  stop_workers_fields s w f d writes =
      let (db', done) = drain-CanWrite address w.mode w.network w.queue w.cache s.db writes d in
      (
        record s { pipeline = none; db = db'; in_flight = [] },
        rw (f, done) refl,
        (refl, refl, refl, refl, refl, refl),
        done,
      )

  pub stop_workers_runs :
      (s : IndexerStore) (w : Pipeline)
      → IsRunning s w
      → AreDistinct (block_ids (batches w.queue))
      → CanWrite address w.mode w.network w.queue w.cache s.db
      → (x : IndexerStore) × (stop_workers address s ≡ ok x)
        × Stopped s x
        × Leaves w w.queue s.db x.db
  stop_workers_runs s w r d writes =
      with_pipeline
        (λ z.
          (x : IndexerStore) × (stop_workers address z ≡ ok x)
          × Stopped s x
          × Leaves w w.queue s.db x.db)
        s w r.0 (stop_workers_fields s w r.1 d writes)

  -- The workers run again, or still.
  abbrev pub Waited : IndexerStore → IndexerStore → Type 0
  Waited s x = (w : Pipeline) × IsRunning x w × (x.pending_reorg ≡ s.pending_reorg)

  -- There is something to write.
  abbrev pub HasWork : IndexerStore → Pipeline → Type 0
  HasWork s w = 0 < length (batches w.queue ++ s.batch)

  flush_workers_fields :
      (s : IndexerStore) (w : Pipeline)
      → IsRunning s w
      → AllDistinct s w
      → WritesAll address s w
      → HasWork s w
      → (x : IndexerStore) × (flush_workers address (record s { pipeline = some w }) ≡ ok x)
        × Waited s x
        × Leaves w (to_write s w) s.db x.db
  unfolding flush_workers start_workers
  flush_workers_fields s w r d writes work =
      let queue = record w { queue = to_write s w } in
      let (y, e, flushed) = flush_batch_fields s w s.batch r.1 d in
      let busy : (length y.in_flight == 0) ≡ false =
        ap (λ l. length l == 0) (flushed.0.1 ∙ ap block_ids (batches-to_write s w))
        ∙ none_empty (batches w.queue ++ s.batch) work in
      let (x, e2, stopped, left) =
        stop_workers_runs y queue flushed.0
          (subst (λ l. AreDistinct (block_ids l)) (sym (batches-to_write s w)) d)
          (subst (CanWrite address w.mode w.network (to_write s w) w.cache) (sym flushed.2)
            writes) in
      (
        start_workers x,
        rw (e, busy, e2) refl,
        (
          record { mode = x.mode; network = x.network; queue = []; cache = [] },
          (refl, stopped.1),
          stopped.4 ∙ flushed.4,
        ),
        subst (λ db. Leaves w (to_write s w) db x.db) flushed.2 left,
      )
    where
      none_empty : (l : List BlockData) → 0 < length l → (length (block_ids l) == 0) ≡ false
      none_empty [] some_there = absurd (omega arith)
      none_empty (b ∷ l) some_there = ground arith

  pub flush_workers_runs :
      (s : IndexerStore) (w : Pipeline)
      → IsRunning s w
      → AllDistinct s w
      → WritesAll address s w
      → HasWork s w
      → (x : IndexerStore) × (flush_workers address s ≡ ok x)
        × Waited s x
        × Leaves w (to_write s w) s.db x.db
  flush_workers_runs s w r d writes work =
      with_pipeline
        (λ z.
          (x : IndexerStore) × (flush_workers address z ≡ ok x)
          × Waited s x
          × Leaves w (to_write s w) s.db x.db)
        s w r.0 (flush_workers_fields s w r d writes work)

  -- Entering the normal mode, where the rows have its keys once all is written.
  pub set_mode_runs :
      (s : IndexerStore) (w : Pipeline)
      → IsRunning s w
      → AllDistinct s w
      → WritesAll address s w
      → HasWork s w
      → LeavesKeys s w
      → (x : IndexerStore) × (set_mode address normal s ≡ ok x) × Waited s x
  unfolding set_mode set_mode_unconditionally set_schema_to_mode normal_keys_hold
  set_mode_runs s w r d writes work keys = elim (Bool-cases (same_mode s.mode normal)) [
    | inl same ↦ (s, rw same refl, (w, r, refl))
    | inr other ↦
        let (x, e, waited, left) =
          flush_workers_runs (record s { mode = normal }) w r d writes work in
        (
          record x { db = record x.db { bulk_mode = some (is_bulk normal) } },
          rw (other, e, keys x.db left) refl,
          waited,
        )
  ]
