-- ===== src/Format/Values/Formatters.antt =====
-- The constructors of the formatters of src/db/pg.rs, with the openings of their statements.
use rust_bitcoin_indexer.Base.{Text, codes, if◌then◌else◌}
use rust_bitcoin_indexer.Format.{Mode, is_bulk}
use rust_bitcoin_indexer.Format.Values.{
  MultiValueSqlFormatter, new_on_conflict, new_no_conflict_check, new_on_conflict_do_nothing_auto,
}

abbrev pub do_nothing : Text
do_nothing = codes "ON CONFLICT DO NOTHING"

unfoldable pub new_on_conflict_do_nothing : Text → Text → MultiValueSqlFormatter
unfolding new_on_conflict
new_on_conflict_do_nothing out opening = new_on_conflict out opening do_nothing

unfoldable pub new_tx_on_conflict_update_current_height : Text → Text → MultiValueSqlFormatter
unfolding new_on_conflict
new_tx_on_conflict_update_current_height out opening =
    new_on_conflict out opening
      (codes "ON CONFLICT (hash_id) DO UPDATE SET current_height = EXCLUDED.current_height")

-- `OutputFormatter::new`
unfoldable pub output_formatter : Text → Mode → MultiValueSqlFormatter
unfolding new_on_conflict_do_nothing_auto
output_formatter output_s mode =
    new_on_conflict_do_nothing_auto do_nothing output_s
      (codes "INSERT INTO output(tx_hash_id, tx_idx, value, address)VALUES") mode

-- `InputFormatter::new`
unfoldable pub input_formatter : Text → Mode → MultiValueSqlFormatter
unfolding new_on_conflict_do_nothing_auto
input_formatter input_s mode =
    new_on_conflict_do_nothing_auto do_nothing input_s
      (codes "INSERT INTO input(output_tx_hash_id,output_tx_idx,tx_hash_id,has_witness)VALUES") mode

-- `BlockTxFormatter::new`
unfoldable pub block_tx_formatter : Text → Mode → MultiValueSqlFormatter
unfolding new_on_conflict_do_nothing_auto
block_tx_formatter block_tx_s mode =
    new_on_conflict_do_nothing_auto do_nothing block_tx_s
      (codes "INSERT INTO block_tx(block_hash_id, tx_hash_id)VALUES") mode

-- The formatter of transactions of `TxFormatter::new_for_in_block`.
unfoldable pub tx_formatter_for_in_block : Text → Mode → MultiValueSqlFormatter
unfolding is_bulk new_no_conflict_check new_tx_on_conflict_update_current_height
tx_formatter_for_in_block tx_s mode =
    if is_bulk mode
    then new_no_conflict_check tx_s (
        codes
          "INSERT INTO tx (hash_id, hash_rest, weight, fee, locktime, coinbase, current_height) VALUES")
    else new_tx_on_conflict_update_current_height tx_s (
        codes
          "INSERT INTO tx (hash_id, hash_rest, weight, fee, locktime, coinbase, current_height) VALUES")

-- The formatter of transactions of `TxFormatter::new_for_in_mempool`.
unfoldable pub tx_formatter_for_in_mempool : Text → MultiValueSqlFormatter
unfolding new_on_conflict_do_nothing
tx_formatter_for_in_mempool tx_s = new_on_conflict_do_nothing tx_s (
    codes
      "INSERT INTO tx (hash_id, hash_rest, weight, fee, locktime, coinbase, current_height, mempool_ts) VALUES")

-- The formatters of events and of blocks of `BlockFormatter::new`.
unfoldable pub event_formatter : Text → Mode → MultiValueSqlFormatter
unfolding new_on_conflict_do_nothing_auto
event_formatter event_s mode =
    new_on_conflict_do_nothing_auto do_nothing event_s
      (codes "INSERT INTO event (block_hash_id) VALUES") mode

unfoldable pub block_formatter : Text → Mode → MultiValueSqlFormatter
unfolding new_on_conflict_do_nothing_auto
block_formatter block_s mode =
    new_on_conflict_do_nothing_auto do_nothing block_s
      (codes
        "INSERT INTO block (hash_id, hash_rest, prev_hash_id, merkle_root, height, time) VALUES")
      mode
