-- ===== src/Store/Holding.antt =====
-- A store outside of a reorg, in src/db/pg.rs: the chain that it holds is that of the database with
-- the queued batches and the collected blocks on top.
use rust_bitcoin_indexer.Base.{
  ℕ, ◌+◌, ◌<◌, false, arith, All, All-map, ◌≡◌, ◌∙◌, sym, ap, subst, refl, inl, inr, Option, none,
  some, List, [], ◌∷◌, ◌++◌, append-nil, append_assoc, map, ◌==◌, Bool-cases, length,
}
use mathlib.Core.List.{map-append}
use rust_bitcoin_indexer.Base.Outcome.{ok, assert, >>=-eq-ok, subst_ok}
use rust_bitcoin_indexer.Types.{BlockHash}
use rust_bitcoin_indexer.Bitcoin.{BlockData, Network}
use rust_bitcoin_indexer.Db.{Db, BlockRow}
use rust_bitcoin_indexer.Db.Current.{push_all, IsChain, insert_blocks-IsChain}
use rust_bitcoin_indexer.Format.{normal, block_row}
use rust_bitcoin_indexer.Store.{
  Pipeline, IndexerStore, block_ids, drain, stop_workers, start_workers, flush_batch, flush_workers,
  same_mode, set_schema_to_mode, set_mode_unconditionally, set_mode,
}
use rust_bitcoin_indexer.Store.Coherent.{IsCoherent}
use rust_bitcoin_indexer.Store.Batch.{AreNew, hashes-block_rows, length-block_rows, below-append}
use rust_bitcoin_indexer.Store.Queue.{
  batches, batches-append, push_block_ids-append, length-push_block_ids, AreNew-split,
  drain-Drained,
}

abbrev pub queued : Option Pipeline → List BlockData
queued none = []
queued (some w) = batches w.queue

-- The blocks that are not yet written, in order.
abbrev pub waiting : IndexerStore → List BlockData
waiting s = queued s.pipeline ++ s.batch

pub record IsHolding (s : IndexerStore) (rows : List BlockRow) (c : List BlockHash) : Type 0 where
  pub base : List BlockHash
  pub coherent : IsCoherent (length base) s.db base
  pub new : AreNew (length base) (waiting s) s.db.block
  pub view : push_all (block_ids (waiting s)) base ≡ c
  pub counted : s.chain_block_count ≡ length c
  pub settled : s.pending_reorg ≡ []
  -- The rows of the table and of the blocks that are not yet written.
  pub known : s.db.block ++ map block_row (waiting s) ≡ rows

-- A store with nothing waiting has its whole chain in the database.
pub IsHolding-written :
    (s : IndexerStore) (rows : List BlockRow) (c : List BlockHash)
    → IsHolding s rows c
    → waiting s ≡ []
    → IsCoherent (length c) s.db c
IsHolding-written s rows c k e =
    let same : k.base ≡ c =
      ap (λ (l : List BlockData). push_all (block_ids l) k.base) (sym e) ∙ k.view in
    subst (λ (l : List BlockHash). IsCoherent (length l) s.db l) same k.coherent

-- The rows, those of the waiting blocks among them, have the chain.
pub IsHolding-IsChain :
    (s : IndexerStore) (rows : List BlockRow) (c : List BlockHash)
    → IsHolding s rows c
    → IsChain rows c
IsHolding-IsChain s rows c k =
    subst (λ l. IsChain l c) k.known
      (subst (IsChain (s.db.block ++ map block_row (waiting s)))
        (ap (λ l. push_all l k.base) (hashes-block_rows (waiting s)) ∙ k.view)
        (insert_blocks-IsChain false (map block_row (waiting s)) s.db.block k.base k.new
          k.coherent.current).1)

-- Every row stands below the tip of the chain.
pub IsHolding-below :
    (s : IndexerStore) (rows : List BlockRow) (c : List BlockHash)
    → IsHolding s rows c
    → All (λ row. row.height < length c) rows
IsHolding-below s rows c k =
    let tall : length (waiting s) + length k.base ≡ length c =
      sym (length-push_block_ids (waiting s) k.base) ∙ ap length k.view in
    subst (All (λ row. row.height < length c)) k.known (
      below-append (length c) (length k.base) (map block_row (waiting s)) s.db.block k.new
        (omega (arith, tall, length-block_rows (waiting s)))
        (All-map _ (λ row h. omega (arith, tall)) s.db.block k.coherent.below))

-- Handing the batch to the queue changes neither the waiting blocks nor the chain.
flush_batch_fields :
    (s s' : IndexerStore) (rows : List BlockRow) (c : List BlockHash) (batch : List BlockData)
    (pipeline : Option Pipeline)
    → IsHolding (record s { batch = batch; pipeline = pipeline }) rows c
    → flush_batch (record s { batch = batch; pipeline = pipeline }) ≡ ok s'
    → IsHolding s' rows c × (s'.batch ≡ [])
unfolding flush_batch
flush_batch_fields s s' rows c [] pipeline k e =
    subst_ok (λ (x : IndexerStore). IsHolding x rows c × (x.batch ≡ [])) e (k, refl)
flush_batch_fields s s' rows c (b ∷ bs) none k e = cc
flush_batch_fields s s' rows c (b ∷ bs) (some w) k e =
    subst_ok (λ (x : IndexerStore). IsHolding x rows c × (x.batch ≡ [])) e
      (
        record {
          base = k.base;
          coherent = k.coherent;
          new = rw moved k.new;
          view = rw moved k.view;
          counted = k.counted;
          settled = k.settled;
          known = rw moved k.known;
        },
        refl,
      )
  where
    moved : batches (w.queue ++ (s.batch_id, b ∷ bs) ∷ []) ++ [] ≡ batches w.queue ++ b ∷ bs
    moved = append-nil _ ∙ batches-append w.queue s.batch_id (b ∷ bs)

pub flush_batch-IsHolding :
    (s s' : IndexerStore) (rows : List BlockRow) (c : List BlockHash)
    → IsHolding s rows c
    → flush_batch s ≡ ok s'
    → IsHolding s' rows c × (s'.batch ≡ [])
flush_batch-IsHolding s s' rows c k e = flush_batch_fields s s' rows c s.batch s.pipeline k e

-- The store after the workers were stopped.
abbrev pub IsStopped : IndexerStore → IndexerStore → List BlockRow → List BlockHash → Type 0
IsStopped s x rows c = IsHolding x rows c × (x.pipeline ≡ none) × (x.batch ≡ s.batch)

module _ (address : Network → ℕ → Option ℕ) where
  stop_workers_fields :
      (s s' : IndexerStore) (rows : List BlockRow) (c : List BlockHash) (pipeline : Option Pipeline)
      → IsHolding (record s { pipeline = pipeline }) rows c
      → stop_workers address (record s { pipeline = pipeline }) ≡ ok s'
      → IsStopped s s' rows c
  unfolding stop_workers
  stop_workers_fields s s' rows c none k e =
      let (_, _, e1) = >>=-eq-ok (assert (length s.in_flight == 0)) _ e in
      subst_ok (λ x. IsStopped s x rows c) e1 (k, refl, refl)
  stop_workers_fields s s' rows c (some w) k e =
      let (left, e1, k1) =
        >>=-eq-ok (drain address w.mode w.network w.queue w.cache s.db s.in_flight) _ e in
      let (_, _, k2) = >>=-eq-ok (assert (length left.1 == 0)) _ k1 in
      let parts = AreNew-split (length k.base) (batches w.queue) s.batch s.db.block k.new in
      let d =
        drain-Drained address w.mode w.network w.queue w.cache s.db left.0 s.in_flight left.1 k.base
          k.coherent parts.0 e1 in
      let tall = length-push_block_ids (batches w.queue) k.base in
      subst_ok (λ x. IsStopped s x rows c) k2
        (
          record {
            base = push_all (block_ids (batches w.queue)) k.base;
            coherent = rw tall d.coherent;
            new = rw (tall, d.rows) parts.1;
            view = sym (push_block_ids-append (batches w.queue) s.batch k.base) ∙ k.view;
            counted = k.counted;
            settled = k.settled;
            known =
                rw
                  (
                    d.rows,
                    append_assoc s.db.block (map block_row (batches w.queue))
                        (map block_row s.batch),
                    ← map-append,
                  )
                  k.known;
          },
          refl,
          refl,
        )

  -- Stopping the workers writes the queue, and the chain stays the same.
  pub stop_workers-IsHolding :
      (s s' : IndexerStore) (rows : List BlockRow) (c : List BlockHash)
      → IsHolding s rows c
      → stop_workers address s ≡ ok s'
      → IsStopped s s' rows c
  stop_workers-IsHolding s s' rows c k e = stop_workers_fields s s' rows c s.pipeline k e

pub start_workers-IsHolding :
    (s : IndexerStore) (rows : List BlockRow) (c : List BlockHash)
    → s.pipeline ≡ none
    → IsHolding s rows c
    → IsHolding (start_workers s) rows c
unfolding start_workers
start_workers-IsHolding s rows c stopped k = record {
  base = k.base;
  coherent = k.coherent;
  new = rw stopped at k.new;
  view = rw stopped at k.view;
  counted = k.counted;
  settled = k.settled;
  known = rw stopped at k.known;
}

module _ (address : Network → ℕ → Option ℕ) where
  flush_workers_fields :
      (s s' : IndexerStore) (rows : List BlockRow) (c : List BlockHash) (pipeline : Option Pipeline)
      → IsHolding (record s { pipeline = pipeline }) rows c
      → flush_workers address (record s { pipeline = pipeline }) ≡ ok s'
      → IsHolding s' rows c
  unfolding flush_workers
  flush_workers_fields s s' rows c none k e = subst_ok (λ x. IsHolding x rows c) e k
  flush_workers_fields s s' rows c (some w) k e =
      let (flushed, e1, k1) = >>=-eq-ok (flush_batch (record s { pipeline = some w })) _ e in
      let (held, _) = flush_batch-IsHolding (record s { pipeline = some w }) flushed rows c k e1 in
      elim (Bool-cases (length flushed.in_flight == 0)) [
        | inl idle ↦ subst_ok (λ x. IsHolding x rows c) (rw idle at k1) held
        | inr busy ↦
            let (stopped, e2, k2) = >>=-eq-ok (stop_workers address flushed) _ (rw busy at k1) in
            let done = stop_workers-IsHolding address flushed stopped rows c held e2 in
            subst_ok (λ x. IsHolding x rows c) k2
              (start_workers-IsHolding stopped rows c done.1 done.0)
      ]

  -- Waiting for the workers keeps the chain.
  pub flush_workers-IsHolding :
      (s s' : IndexerStore) (rows : List BlockRow) (c : List BlockHash)
      → IsHolding s rows c
      → flush_workers address s ≡ ok s'
      → IsHolding s' rows c
  flush_workers-IsHolding s s' rows c k e = flush_workers_fields s s' rows c s.pipeline k e

  set_schema_to_mode-normal :
      (db db' : Db) → set_schema_to_mode address normal db ≡ ok db' → db ≡ db'
  unfolding set_schema_to_mode
  set_schema_to_mode-normal db db' e = ground arith

  -- Entering the normal mode keeps the chain.
  pub set_mode-IsHolding :
      (s s' : IndexerStore) (rows : List BlockRow) (c : List BlockHash)
      → IsHolding s rows c
      → set_mode address normal s ≡ ok s'
      → IsHolding s' rows c
  unfolding set_mode set_mode_unconditionally
  set_mode-IsHolding s s' rows c k e = elim (Bool-cases (same_mode s.mode normal)) [
    | inl same ↦ subst_ok (λ x. IsHolding x rows c) (rw same at e) k
    | inr other ↦
        let (flushed, e1, k1) =
          >>=-eq-ok (flush_workers address (record s { mode = normal })) _ (rw other at e) in
        let held =
          flush_workers-IsHolding (record s { mode = normal }) flushed rows c
            (record {
              base = k.base;
              coherent = k.coherent;
              new = k.new;
              view = k.view;
              counted = k.counted;
              settled = k.settled;
              known = k.known;
            })
            e1 in
        let (db, e2, k2) = >>=-eq-ok (set_schema_to_mode address normal flushed.db) _ k1 in
        let k3 = rw (sym (set_schema_to_mode-normal flushed.db db e2)) at k2 in
        subst_ok (λ x. IsHolding x rows c) k3
          (record {
            base = held.base;
            coherent = record {
              current = held.coherent.current;
              unique = held.coherent.unique;
              in_range = held.coherent.in_range;
              below = held.coherent.below;
              log = held.coherent.log;
            };
            new = held.new;
            view = held.view;
            counted = held.counted;
            settled = held.settled;
            known = held.known;
          })
  ]
