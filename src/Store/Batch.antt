-- ===== src/Store/Batch.antt =====
-- A batch written to a coherent database: its blocks become the top of the chain.
use rust_bitcoin_indexer.Base.{
  ℕ, suc, ◌+◌, ◌≤◌, ◌<◌, ◌≡◌, ◌≢◌, ◌∙◌, sym, ap, subst, refl, false, not, Option, none, some, List,
  [], ◌∷◌, ◌++◌, map, append-nil, append_assoc, arith, length, All, All-append, All-map,
}
use rust_bitcoin_indexer.Base.Outcome.{ok, >>=-eq-ok}
use rust_bitcoin_indexer.Types.{BlockHeight, BlockHash}
use rust_bitcoin_indexer.Bitcoin.{Transaction, Network, BlockData}
use rust_bitcoin_indexer.Hash.{hash_to_hash_id, join-split}
use rust_bitcoin_indexer.Db.{Db, BlockRow, find_block, insert_blocks}
use rust_bitcoin_indexer.Db.Current.{
  row_hash, push_all, IsChain, NotId, UniqueIds, InRange, IsNext, insert_blocks-IsChain,
}
use rust_bitcoin_indexer.Db.Replay.{replay-push}
use rust_bitcoin_indexer.Utxo.{
  UtxoDetailsMap, TxIdMap, process_blocks, tx_id_at, tx_id_map_from_blocks,
}
use rust_bitcoin_indexer.Format.{
  Mode, fresh_bulk, bulk, normal, is_bulk, Queries, no_queries, block_row, fmt_tx, fmt_txs,
  fmt_blocks, fmt_insert_blockdata_sql, execute_txs, execute,
}
use rust_bitcoin_indexer.Store.{process_batch, block_ids}
use rust_bitcoin_indexer.Store.Coherent.{IsCoherent}

find_block-NotId : (id : ℕ) (rows : List BlockRow) → find_block id rows ≡ none → NotId id rows
unfolding find_block
find_block-NotId id [] e = tt
find_block-NotId id (row ∷ rows) e = ground (arith, find_block-NotId id rows)

UniqueIds-push :
    (row : BlockRow) (rows : List BlockRow)
    → NotId row.hash_id rows
    → UniqueIds rows
    → UniqueIds (rows ++ row ∷ [])
UniqueIds-push row [] n u = (tt, tt)
UniqueIds-push row (r ∷ rows) n u = (
  All-append (λ x. x.hash_id ≢ r.hash_id) rows (row ∷ []) u.0 ((λ e. n.0 (sym e)), tt),
  UniqueIds-push row rows n.1 u.1,
)

UniqueIds-append :
    (n : ℕ) (new rows : List BlockRow)
    → IsNext n new rows
    → UniqueIds rows
    → UniqueIds (rows ++ new)
UniqueIds-append n [] rows k u = rw append-nil u
UniqueIds-append n (row ∷ new) rows k u = rw (← append_assoc rows (row ∷ []) new) (
    UniqueIds-append (suc n) new (rows ++ row ∷ []) k.3
      (UniqueIds-push row rows (find_block-NotId row.hash_id rows k.2) u))

pub below-append :
    (bound n : ℕ) (new rows : List BlockRow)
    → IsNext n new rows
    → length new + n ≤ bound
    → All (λ row. row.height < bound) rows
    → All (λ row. row.height < bound) (rows ++ new)
below-append bound n [] rows k h u = rw append-nil u
below-append bound n (row ∷ new) rows k h u = rw (← append_assoc rows (row ∷ []) new) (
    below-append bound (suc n) new (rows ++ row ∷ []) k.3 (omega arith)
      (All-append (λ r. r.height < bound) rows (row ∷ []) u (omega (arith, k.1), tt)))

map-push_all : (f : ℕ → ℕ) (xs c : List ℕ) → map f (push_all xs c) ≡ push_all (map f xs) (map f c)
map-push_all f [] c = refl
map-push_all f (x ∷ xs) c = map-push_all f xs (x ∷ c)

InRange-block_rows : (blocks : List BlockData) → InRange (map block_row blocks)
unfolding block_row
InRange-block_rows [] = tt
InRange-block_rows (b ∷ blocks) = (omega arith, InRange-block_rows blocks)

pub hashes-block_rows :
    (blocks : List BlockData) → map row_hash (map block_row blocks) ≡ block_ids blocks
unfolding block_row
hashes-block_rows [] = refl
hashes-block_rows (b ∷ blocks) = ground (arith, join-split b.id, hashes-block_rows blocks)

pub length-block_rows : (blocks : List BlockData) → length (map block_row blocks) ≡ length blocks
length-block_rows [] = refl
length-block_rows (b ∷ blocks) = ap suc (length-block_rows blocks)

-- The tables of transactions leave the blocks and the events alone.
execute_txs-keeps :
    (mode : Mode) (q : Queries) (db db' : Db)
    → execute_txs mode q db ≡ ok db'
    → (db'.block ≡ db.block) × (db'.event ≡ db.event)
unfolding execute_txs
execute_txs-keeps fresh_bulk q db db' e = ground arith
execute_txs-keeps bulk q db db' e = ground arith
execute_txs-keeps normal q db db' e = ground arith

module _ (address : Network → ℕ → Option ℕ) (network : Network) (utxo : UtxoDetailsMap)
    (ids : TxIdMap) where
  fmt_tx-keeps :
      (height : Option BlockHeight) (tx : Transaction) (tx_id : ℕ) (q q' : Queries)
      → fmt_tx address network false utxo height tx tx_id q ≡ ok q'
      → (q'.event ≡ q.event) × (q'.block ≡ q.block)
  unfolding fmt_tx
  fmt_tx-keeps height tx tx_id q q' e = ground arith

  fmt_txs-keeps :
      (block : BlockData) (i : ℕ) (txs : List Transaction) (q q' : Queries)
      → fmt_txs address network utxo ids block i txs q ≡ ok q'
      → (q'.event ≡ q.event) × (q'.block ≡ q.block)
  unfolding fmt_txs
  fmt_txs-keeps block i [] q q' e = ground arith
  fmt_txs-keeps block i (tx ∷ txs) q q' e =
      let (tx_id, e1, k1) = >>=-eq-ok (tx_id_at block.height i ids) _ e in
      let (q1, e2, k2) =
        >>=-eq-ok (fmt_tx address network false utxo (some block.height) tx tx_id q) _ k1 in
      let one = fmt_tx-keeps (some block.height) tx tx_id q q1 e2 in
      let rest = fmt_txs-keeps block (suc i) txs _ q' k2 in (rest.0 ∙ one.0, rest.1 ∙ one.1)

  fmt_blocks-rows :
      (blocks : List BlockData) (q q' : Queries)
      → fmt_blocks address network utxo ids blocks q ≡ ok q'
      → (q'.event ≡ q.event ++ map hash_to_hash_id (block_ids blocks))
        × (q'.block ≡ q.block ++ map block_row blocks)
  unfolding fmt_blocks
  fmt_blocks-rows [] q q' e = ground (arith, append-nil q.event, append-nil q.block)
  fmt_blocks-rows (block ∷ blocks) q q' e =
      let (q1, e1, k1) =
        >>=-eq-ok
          (fmt_txs address network utxo ids block 0 block.payload.txdata (record q {
            event = q.event ++ hash_to_hash_id block.id ∷ [];
            block = q.block ++ block_row block ∷ [];
          }))
          _ e in
      let one = fmt_txs-keeps block 0 block.payload.txdata _ q1 e1 in
      let rest = fmt_blocks-rows blocks q1 q' k1 in
      (
        rest.0 ∙ (rw one.0 (append_assoc q.event _ _)),
        rest.1 ∙ (rw one.1 (append_assoc q.block _ _)),
      )

-- The blocks of a batch stand on top of a chain of length `n`, and none is indexed yet.
abbrev pub AreNew : ℕ → List BlockData → List BlockRow → Type 0
AreNew n blocks rows = IsNext n (map block_row blocks) rows

module _ (mode : Mode) (bound : BlockHeight) (db db' : Db) (c : List BlockHash)
    (blocks : List BlockData) (k : IsCoherent bound db c) (new : AreNew (length c) blocks db.block)
    (fits : bound ≤ length blocks + length c) where
  -- The blocks of a batch are appended to the table.
  execute-block :
      (q : Queries)
      → q.block ≡ map block_row blocks
      → execute mode q db ≡ ok db'
      → db'.block ≡ db.block ++ map block_row blocks
  unfolding execute
  execute-block q bl e =
      let ins =
        insert_blocks-IsChain (not (is_bulk mode)) (map block_row blocks) db.block c new
          k.current in
      let (table, e1, k1) = >>=-eq-ok (insert_blocks (not (is_bulk mode)) q.block db.block) _ e in
      let same : table ≡ db.block ++ map block_row blocks = ground (arith, ins.0, e1, bl) in
      (execute_txs-keeps mode q _ db' k1).0 ∙ same

  -- Executing the statements of a batch of new blocks pushes them, and the log says so.
  execute-IsCoherent :
      (q : Queries)
      → q.event ≡ map hash_to_hash_id (block_ids blocks)
      → q.block ≡ map block_row blocks
      → execute mode q db ≡ ok db'
      → IsCoherent (length blocks + length c) db' (push_all (block_ids blocks) c)
  unfolding execute
  execute-IsCoherent q ev bl e =
      let ins =
        insert_blocks-IsChain (not (is_bulk mode)) (map block_row blocks) db.block c new
          k.current in
      let (table, e1, k1) = >>=-eq-ok (insert_blocks (not (is_bulk mode)) q.block db.block) _ e in
      let kept = execute_txs-keeps mode q _ db' k1 in
      let rows = execute-block q bl e in
      record {
        current = rw rows (
            subst (λ l. IsChain (db.block ++ map block_row blocks) (push_all l c))
              (hashes-block_rows blocks) ins.1);
        unique = rw rows (UniqueIds-append (length c) (map block_row blocks) db.block new k.unique);
        in_range =
            rw rows
              (All-append _ db.block (map block_row blocks) k.in_range (InRange-block_rows blocks));
        below = rw rows (
            below-append (length blocks + length c) (length c) (map block_row blocks) db.block new
              (omega (arith, length-block_rows blocks))
              (All-map _ (λ row h. omega (arith, fits)) db.block k.below));
        log =
            rw (kept.1, ev, map-push_all)
              (replay-push (map hash_to_hash_id (block_ids blocks)) db (map hash_to_hash_id c)
                k.log);
      }

  module _ (address : Network → ℕ → Option ℕ) (network : Network)
      (cache cache' : UtxoDetailsMap) where
    -- A batch of new blocks that the workers write on a coherent database becomes the top of the
    -- chain, and the event log replays to that chain.
    pub process_batch-IsCoherent :
        process_batch address mode network blocks cache db ≡ ok (cache', db')
        → IsCoherent (length blocks + length c) db' (push_all (block_ids blocks) c)
    unfolding process_batch fmt_insert_blockdata_sql
    process_batch-IsCoherent e =
        let ids = tx_id_map_from_blocks blocks network in
        let (spent, e1, k1) = >>=-eq-ok (process_blocks db.output blocks ids cache) _ e in
        let (q, e2, k2) =
          >>=-eq-ok (fmt_insert_blockdata_sql address network blocks spent.1 ids) _ k1 in
        let (done, e3, k3) = >>=-eq-ok (execute mode q db) _ k2 in
        let rows = fmt_blocks-rows address network spent.1 ids blocks no_queries q e2 in
        let same : done ≡ db' = ground (arith, k3) in
        execute-IsCoherent q rows.0 rows.1 (e3 ∙ ap ok same)

    pub process_batch-block :
        process_batch address mode network blocks cache db ≡ ok (cache', db')
        → db'.block ≡ db.block ++ map block_row blocks
    unfolding process_batch fmt_insert_blockdata_sql
    process_batch-block e =
        let ids = tx_id_map_from_blocks blocks network in
        let (spent, e1, k1) = >>=-eq-ok (process_blocks db.output blocks ids cache) _ e in
        let (q, e2, k2) =
          >>=-eq-ok (fmt_insert_blockdata_sql address network blocks spent.1 ids) _ k1 in
        let (done, e3, k3) = >>=-eq-ok (execute mode q db) _ k2 in
        let rows = fmt_blocks-rows address network spent.1 ids blocks no_queries q e2 in
        let same : done ≡ db' = ground (arith, k3) in execute-block q rows.1 (e3 ∙ ap ok same)
