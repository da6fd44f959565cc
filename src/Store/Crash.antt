-- ===== src/Store/Crash.antt =====
-- A program that stops between two batches of the queue of src/db/pg.rs, and is started again.
use rust_bitcoin_indexer.Base.{
  ℕ, zero, suc, ◌≡◌, ◌∙◌, sym, ap, subst, refl, false, not, Option, some, List, [], ◌∷◌, ◌++◌,
  append_assoc, map, take, drop, Bool, length, arith,
}
use rust_bitcoin_indexer.Base.Outcome.{ok, >>=-eq-ok, subst_ok}
use rust_bitcoin_indexer.Types.{BlockHeight, BlockHash}
use rust_bitcoin_indexer.Bitcoin.{BlockData, Network}
use rust_bitcoin_indexer.Db.{Db, BlockRow, insert_blocks, insert_events}
use rust_bitcoin_indexer.Db.Current.{push_all}
use rust_bitcoin_indexer.Utxo.{UtxoDetailsMap, tx_id_map_from_blocks, process_blocks}
use rust_bitcoin_indexer.Format.{
  Mode, fresh_bulk, bulk, normal, is_bulk, Queries, fmt_insert_blockdata_sql, execute_txs, execute,
  block_row,
}
use rust_bitcoin_indexer.Store.{
  Pipeline, IndexerStore, block_ids, process_batch, insert_hashes, remove_hashes, drain,
}
use rust_bitcoin_indexer.Store.Start
use rust_bitcoin_indexer.Store.Queue.{
  batches, AreNew-split, drain-Drained, or_panic-ok, push_block_ids-append, length-push_block_ids,
}
use rust_bitcoin_indexer.Store.Batch.{AreNew}
use rust_bitcoin_indexer.Store.Holding.{IsHolding, waiting, queued}
use rust_bitcoin_indexer.Store.Coherent.{IsCoherent}
use rust_bitcoin_indexer.Store.Recovery.{HasKeys, Started, new-Started}

insert_events-bulk_mode :
    (revert : Bool) (ids : List ℕ) (db : Db)
    → (insert_events revert ids db).bulk_mode ≡ db.bulk_mode
unfolding insert_events
insert_events-bulk_mode revert [] db = refl
insert_events-bulk_mode revert (id ∷ ids) db = insert_events-bulk_mode revert ids _

execute_txs-bulk_mode :
    (mode : Mode) (q : Queries) (db db' : Db)
    → execute_txs mode q db ≡ ok db'
    → db'.bulk_mode ≡ db.bulk_mode
unfolding execute_txs
execute_txs-bulk_mode fresh_bulk q db db' e = ground arith
execute_txs-bulk_mode bulk q db db' e = ground arith
execute_txs-bulk_mode normal q db db' e = ground arith

batches-take :
    (n : ℕ) (queue : List (ℕ × List BlockData))
    → batches queue ≡ batches (take n queue) ++ batches (drop n queue)
batches-take zero queue = refl
batches-take (suc n) [] = refl
batches-take (suc n) (entry ∷ queue) =
    rw (batches-take n queue)
      (sym (append_assoc entry.1 (batches (take n queue)) (batches (drop n queue))))

module _ (address : Network → ℕ → Option ℕ) where
  process_batch-bulk_mode :
      (mode : Mode) (network : Network) (blocks : List BlockData) (cache cache' : UtxoDetailsMap)
      (db db' : Db)
      → process_batch address mode network blocks cache db ≡ ok (cache', db')
      → db'.bulk_mode ≡ db.bulk_mode
  unfolding process_batch execute
  process_batch-bulk_mode mode network blocks cache cache' db db' e =
      let ids = tx_id_map_from_blocks blocks network in
      let (spent, e1, k1) = >>=-eq-ok (process_blocks db.output blocks ids cache) _ e in
      let (q, e2, k2) =
        >>=-eq-ok (fmt_insert_blockdata_sql address network blocks spent.1 ids) _ k1 in
      let (done, e3, k3) = >>=-eq-ok (execute mode q db) _ k2 in
      let (table, e4, k4) = >>=-eq-ok (insert_blocks (not (is_bulk mode)) q.block db.block) _ e3 in
      subst_ok (λ r. r.1.bulk_mode ≡ db.bulk_mode) k3
        (execute_txs-bulk_mode mode q _ done k4 ∙ insert_events-bulk_mode false q.event db)

  drain-bulk_mode :
      (mode : Mode) (network : Network) (queue : List (ℕ × List BlockData)) (cache : UtxoDetailsMap)
      (db db' : Db) (in_flight in_flight' : List BlockHash)
      → drain address mode network queue cache db in_flight ≡ ok (db', in_flight')
      → db'.bulk_mode ≡ db.bulk_mode
  unfolding drain
  drain-bulk_mode mode network [] cache db db' in_flight in_flight' e =
      subst_ok (λ r. r.0.bulk_mode ≡ db.bulk_mode) e refl
  drain-bulk_mode mode network ((id, blocks) ∷ queue) cache db db' in_flight in_flight' e =
      let ((cache', db1), e1, k1) =
        or_panic-ok (process_batch address mode network blocks cache db) _ e in
      let (rest, e2, k2) =
        >>=-eq-ok (remove_hashes (insert_hashes (block_ids blocks) []) in_flight) _ k1 in
      drain-bulk_mode mode network queue cache' db1 db' rest in_flight' k2
      ∙ process_batch-bulk_mode mode network blocks cache cache' db db1 e1

-- What is there after a restart: a part of the chain that was held, from its bottom.
pub record Restarted (address : Network → ℕ → Option ℕ) (node_height : BlockHeight)
    (network : Network) (db db' : Db) (c : List BlockHash) (written : List BlockData) : Type 0 where
  pub chain : List BlockHash
  pub store : IndexerStore
  pub starts : Start.new address db' node_height network ≡ ok store
  pub started : Started db' chain store
  pub rows : db'.block ≡ db.block ++ map block_row written
  pub lost : List BlockData
  pub below : push_all (block_ids lost) chain ≡ c

-- Where the program stops after the workers have written some of the queued batches of a store
-- that holds a chain, whose database knows its mode, and the written rows have the keys that this
-- mode adds on a restart, the restart on that database succeeds, holds a chain on which the lost
-- blocks would give the old one, and finds the rows of the written blocks in the table.
pub crash-Restarted :
    (address : Network → ℕ → Option ℕ) (node_height : BlockHeight) (s : IndexerStore)
    (rows : List BlockRow) (c : List BlockHash) (w : Pipeline) (n : ℕ) (m : Bool) (db' : Db)
    (in_flight : List BlockHash)
    → IsHolding s rows c
    → s.pipeline ≡ some w
    → s.db.bulk_mode ≡ some m
    → drain address w.mode w.network (take n w.queue) w.cache s.db s.in_flight ≡ ok (db', in_flight)
    → HasKeys db'
    → Restarted address node_height w.network s.db db' c (batches (take n w.queue))
crash-Restarted address node_height s rows c w n m db' in_flight k running known e keys =
    let written = batches (take n w.queue) in
    let lost = batches (drop n w.queue) ++ s.batch in
    let all : waiting s ≡ written ++ lost =
      ap (λ p. queued p ++ s.batch) running
      ∙ ap (λ l. l ++ s.batch) (batches-take n w.queue)
      ∙ append_assoc written (batches (drop n w.queue)) s.batch in
    let new =
      (AreNew-split (length k.base) written lost s.db.block
        (subst (λ l. AreNew (length k.base) l s.db.block) all k.new)).0 in
    let done =
      drain-Drained address w.mode w.network (take n w.queue) w.cache s.db db' s.in_flight in_flight
        k.base k.coherent new e in
    let started =
      new-Started address node_height w.network db' (push_all (block_ids written) k.base)
        (subst (λ h. IsCoherent h db' (push_all (block_ids written) k.base))
          (sym (length-push_block_ids written k.base)) done.coherent)
        (λ none_there. cc (
          none_there,
          known,
          drain-bulk_mode address w.mode w.network (take n w.queue) w.cache s.db db' s.in_flight
              in_flight e,
        ))
        keys in
    record {
      chain = push_all (block_ids written) k.base;
      store = started.0;
      starts = started.1;
      started = started.2;
      rows = done.rows;
      lost = lost;
      below =
          sym (push_block_ids-append written lost k.base)
          ∙ ap (λ l. push_all (block_ids l) k.base) (sym all)
          ∙ k.view;
    }
