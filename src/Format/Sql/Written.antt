-- ===== src/Format/Sql/Written.antt =====
-- That the statements of the formatters of src/db/pg.rs are read as the rows of their tables.
use rust_bitcoin_indexer.Base.{
  ℕ, codes, ◌++◌, ◌≡◌, refl, Bool, true, false, Option, some, List, [], ◌∷◌, Text, if◌then◌else◌,
}
use rust_bitcoin_indexer.Types.{BlockHeight}
use rust_bitcoin_indexer.Bitcoin.{TxIn, TxOut, Transaction, BlockData, Network}
use rust_bitcoin_indexer.Hash.{hash_to_hash_id}
use rust_bitcoin_indexer.Format.{
  Mode, fresh_bulk, bulk, normal, is_bulk, block_row, tx_row, input_row,
}
use rust_bitcoin_indexer.Format.Values.{new_no_conflict_check, new_on_conflict_do_nothing_auto}
use rust_bitcoin_indexer.Format.Values.Formatters.{
  do_nothing, new_on_conflict_do_nothing, new_tx_on_conflict_update_current_height,
  output_formatter, input_formatter, block_tx_formatter, tx_formatter_for_in_block,
  tx_formatter_for_in_mempool, event_formatter, block_formatter,
}
use rust_bitcoin_indexer.Format.Sql.{
  output_value, input_value, block_tx_value, tx_value, event_value, block_value,
}
use rust_bitcoin_indexer.Format.Sql.Reading.{Column, strip_prefix, read_row, IsHex, IsPlain}
use rust_bitcoin_indexer.Format.Sql.Rows.{
  hash_id_column, block_columns, tx_columns, input_columns, block_tx_columns, output_columns,
  output_row, AreRead, values-read,
}
use rust_bitcoin_indexer.Format.Sql.Statements.{ReadsBack, new_on_conflict-ReadsBack}
use rust_bitcoin_indexer.Format.Sql.{write_all}
use rust_bitcoin_indexer.Format.Sql.Openings.{
  Inserts, block_names, tx_names, input_names, output_names, block_tx_names, block-Inserts,
  event-Inserts, block_tx-Inserts, input-Inserts, output-Inserts, tx_in_block-Inserts,
  tx_in_mempool-Inserts,
}

module _ (decode_hex : Text → Option (List ℕ)) (width : ℕ) {A : Type 0} (texts : A → List Text)
    (columns : A → List Column)
    (read : (a : A) (rest : Text)
      → read_row decode_hex width (write_all (texts a) rest) ≡ some (columns a, rest)) where
  auto-ReadsBack :
      (c : ℕ) (opening : Text) (mode : Mode)
      → ReadsBack decode_hex width texts columns
          (new_on_conflict_do_nothing_auto do_nothing [] (c ∷ opening) mode)
  unfolding new_on_conflict_do_nothing_auto is_bulk strip_prefix
  auto-ReadsBack c opening fresh_bulk =
      new_on_conflict-ReadsBack decode_hex width texts columns read c opening [] (λ rest. refl)
  auto-ReadsBack c opening bulk =
      new_on_conflict-ReadsBack decode_hex width texts columns read c opening [] (λ rest. refl)
  auto-ReadsBack c opening normal =
      new_on_conflict-ReadsBack decode_hex width texts columns read c opening do_nothing
        (λ rest. refl)

  tx_in_block-ReadsBack :
      (mode : Mode) → ReadsBack decode_hex width texts columns (tx_formatter_for_in_block [] mode)
  unfolding tx_formatter_for_in_block is_bulk new_no_conflict_check
      new_tx_on_conflict_update_current_height strip_prefix
  tx_in_block-ReadsBack fresh_bulk =
      new_on_conflict-ReadsBack decode_hex width texts columns read _ _ [] (λ rest. refl)
  tx_in_block-ReadsBack bulk =
      new_on_conflict-ReadsBack decode_hex width texts columns read _ _ [] (λ rest. refl)
  tx_in_block-ReadsBack normal =
      new_on_conflict-ReadsBack decode_hex width texts columns read _ _ _ (λ rest. refl)

  tx_in_mempool-ReadsBack :
      ReadsBack decode_hex width texts columns (tx_formatter_for_in_mempool [])
  unfolding tx_formatter_for_in_mempool new_on_conflict_do_nothing strip_prefix
  tx_in_mempool-ReadsBack =
      new_on_conflict-ReadsBack decode_hex width texts columns read _ _ do_nothing (λ rest. refl)

module _ (encode_hex : List ℕ → Text) (decode_hex : Text → Option (List ℕ))
    (hex : IsHex encode_hex decode_hex) (address : Network → ℕ → Option ℕ) (show_address : ℕ → Text)
    (plain : (a : ℕ) → IsPlain (show_address a)) (network : Network) where
  abbrev values : AreRead encode_hex decode_hex hex address show_address plain network
  values = values-read encode_hex decode_hex hex address show_address plain network

  -- What a transaction's formatter is given: its height, the transaction, its id and its fee.
  abbrev pub TxItem : Type 0
  TxItem = Option BlockHeight × Transaction × ℕ × ℕ

  abbrev pub tx_texts : Bool → TxItem → List Text
  tx_texts from_mempool item = tx_value encode_hex from_mempool item.0 item.1 item.2 item.3

  abbrev pub block_tx_texts : BlockData × ℕ → List Text
  block_tx_texts item = block_tx_value encode_hex item.0 item.1

  abbrev pub input_texts : ℕ × TxIn → List Text
  input_texts item = input_value encode_hex item.0 item.1

  abbrev pub output_texts : ℕ × TxOut × ℕ → List Text
  output_texts item = output_value encode_hex address show_address network item.0 item.1 item.2

  tx_read :
      (from_mempool : Bool) (item : TxItem) (rest : Text)
      → read_row decode_hex
          (if from_mempool then 8 else 7)
          (write_all (tx_texts from_mempool item) rest)
        ≡ some (tx_columns (tx_row from_mempool item.0 item.1 item.2 item.3), rest)
  tx_read from_mempool item rest = values.2 from_mempool item.0 item.1 item.2 item.3 rest

  -- The statements that each formatter writes are read as the rows of its items.
  abbrev pub AreWritten : Type 0
  AreWritten =
      ((mode : Mode)
        → Inserts (codes "event") (codes "block_hash_id" ∷ []) (event_formatter [] mode)
          × ReadsBack decode_hex 1 (event_value encode_hex)
              (λ block. hash_id_column (hash_to_hash_id block.id) ∷ []) (event_formatter [] mode)
          × Inserts (codes "block") block_names (block_formatter [] mode)
          × ReadsBack decode_hex 6 (block_value encode_hex)
              (λ block. block_columns (block_row block)) (block_formatter [] mode)
          × Inserts (codes "block_tx") block_tx_names (block_tx_formatter [] mode)
          × ReadsBack decode_hex 2 block_tx_texts
              (λ item. block_tx_columns (record {
                block_hash_id = hash_to_hash_id item.0.id;
                tx_hash_id = hash_to_hash_id item.1;
              }))
              (block_tx_formatter [] mode)
          × Inserts (codes "tx") tx_names (tx_formatter_for_in_block [] mode)
          × ReadsBack decode_hex 7 (tx_texts false)
              (λ item. tx_columns (tx_row false item.0 item.1 item.2 item.3))
              (tx_formatter_for_in_block [] mode)
          × Inserts (codes "input") input_names (input_formatter [] mode)
          × ReadsBack decode_hex 4 input_texts (λ item. input_columns (input_row item.0 item.1))
              (input_formatter [] mode)
          × Inserts (codes "output") output_names (output_formatter [] mode)
          × ReadsBack decode_hex 4 output_texts
              (λ item. output_columns encode_hex decode_hex hex address show_address plain network (
                output_row encode_hex decode_hex hex address show_address plain network item.0
                  item.1 item.2))
              (output_formatter [] mode))
      × Inserts (codes "tx") (tx_names ++ codes "mempool_ts" ∷ []) (tx_formatter_for_in_mempool [])
      × ReadsBack decode_hex 8 (tx_texts true)
          (λ item. tx_columns (tx_row true item.0 item.1 item.2 item.3))
          (tx_formatter_for_in_mempool [])

  -- The openings of the formatters, in each mode, are words that insert into a table, with the
  -- names of its columns; and the statements that a formatter writes for however many items on an
  -- empty text, given its opening and conflict clause, are read as rows of as many values, with
  -- at most 30001 rows in a statement, which are the columns of the items in order, where
  -- hexadecimal text is decoded to the bytes that it was encoded from and has no quote, and the
  -- text of an address has no quote and no backslash.
  pub statements-read_back : AreWritten
  unfolding event_formatter block_formatter block_tx_formatter input_formatter output_formatter
  statements-read_back = (
    λ mode. (
      event-Inserts mode,
      auto-ReadsBack decode_hex 1 (event_value encode_hex) _ (λ block rest. (values.0 block rest).0)
          _ _ mode,
      block-Inserts mode,
      auto-ReadsBack decode_hex 6 (block_value encode_hex) _ (λ block rest. (values.0 block rest).1)
          _ _ mode,
      block_tx-Inserts mode,
      auto-ReadsBack decode_hex 2 block_tx_texts _ (λ item. values.1 item.0 item.1) _ _ mode,
      tx_in_block-Inserts mode,
      tx_in_block-ReadsBack decode_hex 7 (tx_texts false) _ (tx_read false) mode,
      input-Inserts mode,
      auto-ReadsBack decode_hex 4 input_texts _ (λ item. values.3 item.0 item.1) _ _ mode,
      output-Inserts mode,
      auto-ReadsBack decode_hex 4 output_texts _ (λ item. values.4 item.0 item.1 item.2) _ _ mode,
    ),
    tx_in_mempool-Inserts,
    tx_in_mempool-ReadsBack decode_hex 8 (tx_texts true) _ (tx_read true),
  )
