-- ===== src/Store/WritesTests.antt =====
-- A batch of src/db/pg.rs with a transaction that pays a fee of 20.
use rust_bitcoin_indexer.Base.{◌≡◌, [], All, arith}
use rust_bitcoin_indexer.Base.Outcome.{ok, ◌>>=◌}
use rust_bitcoin_indexer.Bitcoin.{BlockData, regtest}
use rust_bitcoin_indexer.Db.{Db}
use rust_bitcoin_indexer.Hash.{hash_to_hash_id}
use rust_bitcoin_indexer.Utxo.{
  UtxoDetailsMap, find_utxo, insert_all_utxos, from_tx_hash_and_idx, from_out_point,
  calculate_tx_id_with_workarounds,
}
use rust_bitcoin_indexer.Utxo.Tests.{
  paying_blocks, old_outputs, paying-DistinctHeights, paying-Distinct, paying_known,
}
use rust_bitcoin_indexer.Format.{normal, Queries, execute}
use rust_bitcoin_indexer.Format.Fees.{IsPaid, tx_rows_of}
use rust_bitcoin_indexer.Store.{process_batch}
use rust_bitcoin_indexer.Store.Writes.{price, process_batch_writes}
use rust_bitcoin_indexer.Store.Tests.{no_address, no_db}

abbrev old_db : Db
old_db = record no_db { output = old_outputs }

paying-IsPaid :
    All
      (λ (b : BlockData).
        All (IsPaid (price no_address regtest paying_blocks [] old_db)) b.payload.txdata)
      paying_blocks
unfolding find_utxo insert_all_utxos from_tx_hash_and_idx from_out_point
    calculate_tx_id_with_workarounds hash_to_hash_id
paying-IsPaid = (((λ e. cc), tt), (((λ e. (omega arith, omega arith)), tt), tt))

process_batch_writes_example :
    (cache : UtxoDetailsMap) × (q : Queries) × (q.tx
      ≡ tx_rows_of (price no_address regtest paying_blocks [] old_db) regtest paying_blocks)
    × (process_batch no_address normal regtest paying_blocks [] old_db
        ≡ (execute normal q old_db >>= λ db. ok (cache, db)))
process_batch_writes_example =
    process_batch_writes no_address regtest paying_blocks [] old_db normal paying-DistinctHeights
      paying-Distinct paying_known paying-IsPaid
