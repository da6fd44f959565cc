-- ===== src/Format/Sql/Openings.antt =====
-- Into which columns of which table the statements of the formatters of src/db/pg.rs insert.
use rust_bitcoin_indexer.Base.{
  ℕ, ◌==◌, ◌||◌, ◌≡◌, refl, Bool, List, [], ◌∷◌, ◌++◌, Text, codes, if◌then◌else◌,
}
use rust_bitcoin_indexer.Format.{Mode, fresh_bulk, bulk, normal, is_bulk}
use rust_bitcoin_indexer.Format.Values.{
  MultiValueSqlFormatter, new_no_conflict_check, new_on_conflict_do_nothing_auto,
}
use rust_bitcoin_indexer.Format.Values.Formatters.{
  new_on_conflict_do_nothing, new_tx_on_conflict_update_current_height, output_formatter,
  input_formatter, block_tx_formatter, tx_formatter_for_in_block, tx_formatter_for_in_mempool,
  event_formatter, block_formatter,
}

-- The words of an opening, between spaces, commas and parentheses.
abbrev is_delimiter : ℕ → Bool
is_delimiter c = c == b' ' || c == b',' || c == b'(' || c == b')'

abbrev add_word : Text → List Text → List Text
add_word [] words = words
add_word (c ∷ word) words = (c ∷ word) ∷ words

-- The first word, as far as it goes, and the words behind it.
unfoldable scan_words : Text → Text × List Text
scan_words [] = ([], [])
scan_words (c ∷ text) =
    let more = scan_words text in
    if is_delimiter c then ([], add_word more.0 more.1) else (c ∷ more.0, more.1)

unfoldable pub words : Text → List Text
unfolding scan_words
words text = let scanned = scan_words text in add_word scanned.0 scanned.1

-- A formatter whose statements insert into a table, with values for these columns.
abbrev pub Inserts : Text → List Text → MultiValueSqlFormatter → Type 0
Inserts table names f =
    words f.opening ≡ codes "INSERT" ∷ codes "INTO" ∷ table ∷ names ++ codes "VALUES" ∷ []

abbrev pub block_names : List Text
block_names =
    codes "hash_id"
    ∷ codes "hash_rest"
    ∷ codes "prev_hash_id"
    ∷ codes "merkle_root"
    ∷ codes "height"
    ∷ codes "time"
    ∷ []

abbrev pub tx_names : List Text
tx_names =
    codes "hash_id"
    ∷ codes "hash_rest"
    ∷ codes "weight"
    ∷ codes "fee"
    ∷ codes "locktime"
    ∷ codes "coinbase"
    ∷ codes "current_height"
    ∷ []

abbrev pub input_names : List Text
input_names =
    codes "output_tx_hash_id"
    ∷ codes "output_tx_idx"
    ∷ codes "tx_hash_id"
    ∷ codes "has_witness"
    ∷ []

abbrev pub output_names : List Text
output_names = codes "tx_hash_id" ∷ codes "tx_idx" ∷ codes "value" ∷ codes "address" ∷ []

abbrev pub block_tx_names : List Text
block_tx_names = codes "block_hash_id" ∷ codes "tx_hash_id" ∷ []

pub block-Inserts : (mode : Mode) → Inserts (codes "block") block_names (block_formatter [] mode)
unfolding block_formatter new_on_conflict_do_nothing_auto words
block-Inserts mode = refl

pub event-Inserts :
    (mode : Mode) → Inserts (codes "event") (codes "block_hash_id" ∷ []) (event_formatter [] mode)
unfolding event_formatter new_on_conflict_do_nothing_auto words
event-Inserts mode = refl

pub block_tx-Inserts :
    (mode : Mode) → Inserts (codes "block_tx") block_tx_names (block_tx_formatter [] mode)
unfolding block_tx_formatter new_on_conflict_do_nothing_auto words
block_tx-Inserts mode = refl

pub input-Inserts : (mode : Mode) → Inserts (codes "input") input_names (input_formatter [] mode)
unfolding input_formatter new_on_conflict_do_nothing_auto words
input-Inserts mode = refl

pub output-Inserts :
    (mode : Mode) → Inserts (codes "output") output_names (output_formatter [] mode)
unfolding output_formatter new_on_conflict_do_nothing_auto words
output-Inserts mode = refl

pub tx_in_block-Inserts :
    (mode : Mode) → Inserts (codes "tx") tx_names (tx_formatter_for_in_block [] mode)
unfolding tx_formatter_for_in_block is_bulk new_no_conflict_check
    new_tx_on_conflict_update_current_height words
tx_in_block-Inserts fresh_bulk = refl
tx_in_block-Inserts bulk = refl
tx_in_block-Inserts normal = refl

pub tx_in_mempool-Inserts :
    Inserts (codes "tx") (tx_names ++ codes "mempool_ts" ∷ []) (tx_formatter_for_in_mempool [])
unfolding tx_formatter_for_in_mempool new_on_conflict_do_nothing words
tx_in_mempool-Inserts = refl
