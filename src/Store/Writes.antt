-- ===== src/Store/Writes.antt =====
-- What the workers of src/db/pg.rs give the database for a batch: the fees of its transactions.
use rust_bitcoin_indexer.Base.{ℕ, ◌≡◌, refl, true, Option, none, some, List, All, arith}
use rust_bitcoin_indexer.Base.Outcome.{ok, ◌>>=◌}
use rust_bitcoin_indexer.Bitcoin.{BlockData, Network}
use rust_bitcoin_indexer.Db.{Db}
use rust_bitcoin_indexer.Utxo.{
  UtxoDetailsMap, HashIdOutPoint, is_among, spent_by_blocks, tx_id_map_from_blocks,
}
use rust_bitcoin_indexer.Utxo.Maps.{Distinct}
use rust_bitcoin_indexer.Utxo.Creating.{DistinctHeights, tx_id_map_from_blocks-Knows}
use rust_bitcoin_indexer.Utxo.Spending.{value_of, process_blocks-Spends}
use rust_bitcoin_indexer.Format.{Mode, Queries, no_queries, fmt_insert_blockdata_sql, execute}
use rust_bitcoin_indexer.Format.Fees.{IsPaid, tx_rows_of, fmt_blocks-tx_rows}
use rust_bitcoin_indexer.Store.{process_batch}

module _ (address : Network → ℕ → Option ℕ) (network : Network) (blocks : List BlockData)
    (cache : UtxoDetailsMap) (db : Db) where
  abbrev pub price : HashIdOutPoint → ℕ
  price p = elim (value_of db.output network blocks cache p) [ none ↦ 0 | some v ↦ v ]

  -- In any mode, for blocks at different heights, in which no output is spent twice, each spent
  -- output is cached, created by the blocks or in the table, and each transaction's inputs fit in
  -- 64 bits and cover its outputs, the workers come, without an error or a panic, to statements
  -- whose rows of transactions have as fee the difference of the two sums, and the batch ends as
  -- the database takes these statements.
  pub process_batch_writes :
      (mode : Mode)
      → DistinctHeights blocks
      → Distinct (spent_by_blocks blocks)
      → ((p : HashIdOutPoint)
          → is_among p (spent_by_blocks blocks) ≡ true
          → (v : ℕ) × (value_of db.output network blocks cache p ≡ some v))
      → All (λ (b : BlockData). All (IsPaid price) b.payload.txdata) blocks
      → (cache' : UtxoDetailsMap) × (q : Queries) × (q.tx ≡ tx_rows_of price network blocks)
        × (process_batch address mode network blocks cache db
            ≡ (execute mode q db >>= λ db'. ok (cache', db')))
  unfolding process_batch fmt_insert_blockdata_sql
  process_batch_writes mode heights once known paid =
      let ids = tx_id_map_from_blocks blocks network in
      let (cache', utxo, spent, k) =
        process_blocks-Spends db.output network blocks cache heights once known in
      let (q, formatted, rows) =
        fmt_blocks-tx_rows price network address utxo ids blocks no_queries
          (tx_id_map_from_blocks-Knows network blocks heights)
          (λ p among. let (v, e) = known p among in ground (arith, k.values p, among, e)) paid in
      (cache', q, rows, rw (spent, formatted) refl)
