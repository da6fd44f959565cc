-- ===== src/Db/Constraints.antt =====
-- The keys that src/db/pg/mode_bulk.sql and src/db/pg/mode_normal.sql add to the tables, and the
-- ranges of the columns of src/db/pg/init.sql. Postgres checks them, and a row against them is an error.
use rust_bitcoin_indexer.Base.{
  ℕ, ◌^◌, Bool, true, false, not, ◌&&◌, ◌||◌, Option, none, some, List, [], ◌∷◌, ltb, ◌==◌,
}
use rust_bitcoin_indexer.Db.{Db, BlockRow, TxRow, BlockTxRow, OutputRow, InputRow}

abbrev pub same_tx : TxRow → TxRow → Bool
same_tx a b = a.hash_id == b.hash_id

abbrev pub same_block_tx : BlockTxRow → BlockTxRow → Bool
same_block_tx a b = a.block_hash_id == b.block_hash_id && a.tx_hash_id == b.tx_hash_id

abbrev pub same_output : OutputRow → OutputRow → Bool
same_output a b = a.tx_hash_id == b.tx_hash_id && a.tx_idx == b.tx_idx

abbrev pub same_input : InputRow → InputRow → Bool
same_input a b =
    a.output_tx_hash_id == b.output_tx_hash_id
    && a.output_tx_idx == b.output_tx_idx
    && a.tx_hash_id == b.tx_hash_id

unfoldable pub has_key : {A : Type 0} → (A → A → Bool) → A → List A → Bool
has_key same row [] = false
has_key same row (r ∷ rest) = same r row || has_key same row rest

-- A key can be added where no two rows have the same.
unfoldable pub has_no_duplicate : {A : Type 0} → (A → A → Bool) → List A → Bool
unfolding has_key
has_no_duplicate same [] = true
has_no_duplicate same (row ∷ rows) = not (has_key same row rows) && has_no_duplicate same rows

unfoldable pub refers : {A B : Type 0} → (A → B → Bool) → A → List B → Bool
refers matches row [] = false
refers matches row (other ∷ others) = matches row other || refers matches row others

-- A foreign key can be added where each row refers to one of the other table.
unfoldable pub all_refer : {A B : Type 0} → (A → B → Bool) → List A → List B → Bool
unfolding refers
all_refer matches [] table = true
all_refer matches (row ∷ rows) table = refers matches row table && all_refer matches rows table

-- The foreign keys of the normal mode, which are checked at the end of a transaction.
unfoldable pub foreign_keys_hold : Db → Bool
unfolding all_refer
foreign_keys_hold db =
    all_refer (λ e b. b.hash_id == e.block_hash_id) db.event db.block
    && all_refer (λ r b. b.hash_id == r.block_hash_id) db.block_tx db.block
    && all_refer (λ r t. t.hash_id == r.tx_hash_id) db.block_tx db.tx
    && all_refer (λ o t. t.hash_id == o.tx_hash_id) db.output db.tx
    && all_refer (λ i t. t.hash_id == i.tx_hash_id) db.input db.tx
    && all_refer (λ i o. o.tx_hash_id == i.output_tx_hash_id && o.tx_idx == i.output_tx_idx)
        db.input db.output

-- What mode_bulk.sql needs of the rows.
unfoldable pub bulk_keys_hold : Db → Bool
unfolding has_no_duplicate
bulk_keys_hold db = has_no_duplicate same_output db.output

-- What mode_normal.sql needs of the rows.
unfoldable pub normal_keys_hold : Db → Bool
unfolding has_no_duplicate foreign_keys_hold
normal_keys_hold db =
    has_no_duplicate same_block_tx db.block_tx
    && has_no_duplicate same_tx db.tx
    && has_no_duplicate same_output db.output
    && has_no_duplicate same_input db.input
    && foreign_keys_hold db

-- `INT`, for numbers that are not negative.
abbrev pub int : ℕ → Bool
int n = ltb n (2 ^ 31)

-- `BIGINT`
abbrev pub bigint : ℕ → Bool
bigint n = ltb n (2 ^ 63)

unfoldable pub all_rows : {A : Type 0} → (A → Bool) → List A → Bool
all_rows fits [] = true
all_rows fits (row ∷ rows) = fits row && all_rows fits rows

unfoldable pub optional_int : Option ℕ → Bool
optional_int none = true
optional_int (some n) = int n

unfoldable pub block_fits : BlockRow → Bool
block_fits row = bigint row.time && int row.height

unfoldable pub tx_fits : TxRow → Bool
unfolding optional_int
tx_fits row =
    bigint row.fee && bigint row.locktime && int row.weight && optional_int row.current_height

unfoldable pub output_fits : OutputRow → Bool
output_fits row = bigint row.value && int row.tx_idx

unfoldable pub input_fits : InputRow → Bool
input_fits row = int row.output_tx_idx
