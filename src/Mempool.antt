-- ===== src/Mempool.antt =====
-- `MempoolStore` of src/db/pg.rs and the loop of src/bin/mempool-indexer.rs over it. The node's
-- answers and whether a read of the database succeeds are parameters.
pub mod Rounds
pub mod Tests
use rust_bitcoin_indexer.Base.{
  ℕ, suc, ◌<◌, Bool, true, false, Option, none, some, List, [], ◌∷◌, ◌++◌, map, ltb, ◌==◌,
  if◌then◌else◌, length,
}
use rust_bitcoin_indexer.Base.Outcome.{Outcome, ok, err, panic, blocked, out_of_fuel, ◌>>=◌}
use rust_bitcoin_indexer.Bitcoin.{Transaction, TxIn, Network}
use rust_bitcoin_indexer.Db.{Db}
use rust_bitcoin_indexer.Utxo.{HashIdOutPoint, from_out_point, UtxoDetailsMap, fetch_outputs}
use rust_bitcoin_indexer.Db.Constraints.{same_tx, same_output, same_input}
use rust_bitcoin_indexer.Format.{Mode, is_bulk, Queries, no_queries, fmt_tx, insert_keyed}
use rust_bitcoin_indexer.Store.{contains_hash, insert_hashes}
use rust_bitcoin_indexer.Store.Start.{read_indexer_state}

pub record MempoolStore : Type 0 where
  pub db : Db
  pub network : Network

-- `WithTxId<Option<Transaction>>`
pub record WithTxId : Type 0 where
  pub id : ℕ
  pub payload : Option Transaction

unfoldable pub new : Db → Network → Outcome MempoolStore
unfolding read_indexer_state is_bulk
new db network =
    let (mode, ready) = read_indexer_state db in
    if is_bulk mode then err else ok (record { db = ready; network = network })

-- `HashIdOutPoint::from` of each input.
unfoldable pub input_points : List TxIn → List HashIdOutPoint
unfolding from_out_point
input_points inputs = map (λ i. from_out_point i.previous_output) inputs

module _ (address : Network → ℕ → Option ℕ) where
  -- The statements of the normal mode skip rows whose key is there.
  unfoldable pub insert_tx_data :
      ℕ → Transaction → UtxoDetailsMap → MempoolStore → Outcome MempoolStore
  unfolding fmt_tx insert_keyed
  insert_tx_data tx_id tx utxo s = do
    q ← fmt_tx address s.network true utxo none tx tx_id no_queries
    txs ← insert_keyed same_tx true q.tx s.db.tx
    outputs ← insert_keyed same_output true q.output s.db.output
    inputs ← insert_keyed same_input true q.input s.db.input
    ok (record s { db = record s.db { tx = txs; output = outputs; input = inputs } })

  -- `reads` says whether the query for the outputs succeeds. A failure is dropped.
  unfoldable pub insert : Bool → WithTxId → MempoolStore → Outcome MempoolStore
  unfolding input_points fetch_outputs insert_tx_data
  insert reads item s = elim item.payload [
    | none ↦ ok s
    | some tx ↦
        let utxo = fetch_outputs s.db.output (input_points tx.input) [] in
        let found = insert_tx_data item.id tx utxo s in
        if reads then (if length utxo == length tx.input then found else err) else ok s
  ]

  -- `insert_iter`
  unfoldable pub insert_iter : Bool → List WithTxId → MempoolStore → Outcome MempoolStore
  unfolding insert
  insert_iter reads [] s = ok s
  insert_iter reads (item ∷ items) s = insert reads item s >>= insert_iter reads items

-- The variables of the loop.
pub record Scan : Type 0 where
  pub store : MempoolStore
  pub done : List ℕ
  pub inserted : ℕ
  pub failed : ℕ

abbrev pub max_done : ℕ
max_done = 500_000

-- The start of a round.
unfoldable pub begin_round : Scan → Scan
begin_round s = record s {
  inserted = 0;
  failed = 0;
  done = if ltb max_done (length s.done) then [] else s.done;
}

module _ (address : Network → ℕ → Option ℕ) (get_by_id : ℕ → Option Transaction)
    (reads : ℕ → Bool) where
  -- What the loop does with the result of an insertion. An error leaves the store as it was.
  unfoldable pub count_result : ℕ → Scan → Outcome MempoolStore → Outcome Scan
  unfolding insert_hashes
  count_result tx_id s (ok store) = ok (record s {
    store = store;
    done = insert_hashes (tx_id ∷ []) s.done;
    inserted = suc s.inserted;
  })
  count_result tx_id s err = ok (record s { failed = suc s.failed })
  count_result tx_id s panic = panic
  count_result tx_id s blocked = blocked
  count_result tx_id s out_of_fuel = out_of_fuel

  -- One round over the ids of the node's mempool.
  unfoldable pub scan : List ℕ → Scan → Outcome Scan
  unfolding contains_hash insert count_result
  scan [] s = ok s
  scan (tx_id ∷ ids) s =
      let skipped = scan ids s in
      let tried =
        count_result tx_id s
          (insert address (reads tx_id) (record { id = tx_id; payload = get_by_id tx_id }) s.store)
        >>= scan ids in
      if contains_hash tx_id s.done then skipped else tried
