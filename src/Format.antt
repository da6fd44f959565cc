-- ===== src/Format.antt =====
-- The rows that the formatters of src/db/pg.rs write for blocks, and what running their statements
-- does to the tables. A formatter's text is a list of rows.
pub mod Values
pub mod Sql
pub mod Fees
use rust_bitcoin_indexer.Base.{
  ℕ, suc, ◌+◌, ◌-◌, ◌%◌, ◌^◌, Bool, true, false, not, ◌&&◌, ◌||◌, Option, none, some, List, [], ◌∷◌,
  ◌++◌, map, ltb, leb, ◌==◌, if◌then◌else◌,
}
use rust_bitcoin_indexer.Base.Outcome.{Outcome, ok, err, panic, ◌>>=◌, ◌>>◌, assert}
use rust_bitcoin_indexer.Types.{BlockHeight, u32_size}
use rust_bitcoin_indexer.Bitcoin.{TxIn, TxOut, Transaction, BlockData, Network}
use rust_bitcoin_indexer.Hash.{hash_to_hash_id, hash_rest}
use rust_bitcoin_indexer.Db.{
  Db, BlockRow, TxRow, BlockTxRow, OutputRow, InputRow, insert_blocks, insert_events,
}
use rust_bitcoin_indexer.Db.Constraints.{
  same_tx, same_block_tx, same_output, same_input, has_key, foreign_keys_hold, all_rows, block_fits,
  tx_fits, output_fits, input_fits,
}
use rust_bitcoin_indexer.Utxo.{TxIdMap, UtxoDetailsMap, find_utxo, tx_id_at, from_out_point}

pub data Mode : Type 0 where
  fresh_bulk bulk normal : Mode

unfoldable pub is_bulk : Mode → Bool
is_bulk fresh_bulk = true
is_bulk bulk = true
is_bulk normal = false

abbrev pub u64_size : ℕ
u64_size = 2 ^ 64

-- `BlockFormatter::fmt_one`
unfoldable pub block_row : BlockData → BlockRow
unfolding hash_to_hash_id hash_rest
block_row block = record {
  time = block.payload.time;
  height = block.height;
  extinct = false;
  hash_id = hash_to_hash_id block.id;
  hash_rest = hash_rest block.id;
  prev_hash_id = hash_to_hash_id block.payload.prev_blockhash;
  merkle_root = block.payload.merkle_root;
}

-- The sum of the values of the spent outputs; an output that is not in the map is a panic.
unfoldable pub input_value_sum : UtxoDetailsMap → List TxIn → ℕ → Outcome ℕ
unfolding find_utxo from_out_point
input_value_sum utxo [] acc = ok acc
input_value_sum utxo (input ∷ inputs) acc =
    elim (find_utxo (from_out_point input.previous_output) utxo) [
      | none ↦ panic
      | some value ↦ input_value_sum utxo inputs ((acc + value) % u64_size)
    ]

unfoldable pub output_value_sum : List TxOut → ℕ → ℕ
output_value_sum [] acc = acc
output_value_sum (output ∷ outputs) acc = output_value_sum outputs ((acc + output.value) % u64_size)

unfoldable pub fee : UtxoDetailsMap → Transaction → Outcome ℕ
unfolding input_value_sum output_value_sum
fee utxo tx = if tx.is_coin_base then ok 0 else (do
  inputs ← input_value_sum utxo tx.input 0
  assert (leb (output_value_sum tx.output 0) inputs)
  ok (inputs - output_value_sum tx.output 0))

-- `TxFormatter::fmt_one`
unfoldable pub tx_row : Bool → Option BlockHeight → Transaction → ℕ → ℕ → TxRow
unfolding hash_to_hash_id hash_rest
tx_row from_mempool height tx tx_id tx_fee = record {
  hash_id = hash_to_hash_id tx_id;
  hash_rest = hash_rest tx_id;
  weight = tx.weight;
  fee = tx_fee;
  locktime = tx.lock_time;
  coinbase = tx.is_coin_base;
  current_height = height;
  in_mempool = from_mempool;
}

-- `InputFormatter::fmt`
unfoldable pub input_row : ℕ → TxIn → InputRow
unfolding hash_to_hash_id
input_row tx_id input = record {
  output_tx_hash_id = hash_to_hash_id input.previous_output.txid;
  output_tx_idx = input.previous_output.vout;
  tx_hash_id = hash_to_hash_id tx_id;
  has_witness = input.has_witness;
}

-- The texts of the six statements, a list of rows for each.
pub record Queries : Type 0 where
  pub event : List ℕ
  pub block : List BlockRow
  pub block_tx : List BlockTxRow
  pub tx : List TxRow
  pub output : List OutputRow
  pub input : List InputRow

abbrev pub no_queries : Queries
no_queries = record { event = []; block = []; block_tx = []; tx = []; output = []; input = [] }

-- `address` stands for `address_from_script`, which the `bitcoin` crate decodes.
module _ (address : Network → ℕ → Option ℕ) (network : Network) where
  -- `OutputFormatter::fmt`, for each output of a transaction.
  unfoldable pub output_rows : ℕ → ℕ → List TxOut → List OutputRow
  unfolding hash_to_hash_id
  output_rows tx_id idx [] = []
  output_rows tx_id idx (output ∷ outputs) =
      record {
        tx_hash_id = hash_to_hash_id tx_id;
        tx_idx = idx % u32_size;
        value = output.value;
        address = address network output.script_pubkey;
      }
      ∷ output_rows tx_id (suc idx) outputs

  -- `TxFormatter::fmt`
  unfoldable pub fmt_tx :
      Bool → UtxoDetailsMap → Option BlockHeight → Transaction → ℕ → Queries → Outcome Queries
  unfolding fee tx_row output_rows input_row
  fmt_tx from_mempool utxo height tx tx_id q = do
    tx_fee ← fee utxo tx
    ok (record q {
      tx = q.tx ++ tx_row from_mempool height tx tx_id tx_fee ∷ [];
      output = q.output ++ output_rows tx_id 0 tx.output;
      input = q.input ++ (if tx.is_coin_base then [] else map (input_row tx_id) tx.input);
    })

  -- The loop of `BlockFormatter::fmt` over a block's transactions.
  unfoldable pub fmt_txs :
      UtxoDetailsMap → TxIdMap → BlockData → ℕ → List Transaction → Queries → Outcome Queries
  unfolding tx_id_at fmt_tx
  fmt_txs utxo ids block tx_i [] q = ok q
  fmt_txs utxo ids block tx_i (tx ∷ txs) q = do
    tx_id ← tx_id_at block.height tx_i ids
    q' ← fmt_tx false utxo (some block.height) tx tx_id q
    fmt_txs utxo ids block (suc tx_i) txs (record q' {
      block_tx =
          q'.block_tx
          ++ record { block_hash_id = hash_to_hash_id block.id; tx_hash_id = hash_to_hash_id tx_id }
            ∷ [];
    })

  -- `BlockFormatter::fmt`, for each block.
  unfoldable pub fmt_blocks : UtxoDetailsMap → TxIdMap → List BlockData → Queries → Outcome Queries
  unfolding fmt_txs block_row
  fmt_blocks utxo ids [] q = ok q
  fmt_blocks utxo ids (block ∷ blocks) q = do
    q' ← fmt_txs utxo ids block 0 block.payload.txdata (record q {
      event = q.event ++ hash_to_hash_id block.id ∷ [];
      block = q.block ++ block_row block ∷ [];
    })
    fmt_blocks utxo ids blocks q'

  unfoldable pub fmt_insert_blockdata_sql :
      List BlockData → UtxoDetailsMap → TxIdMap → Outcome Queries
  unfolding fmt_blocks
  fmt_insert_blockdata_sql blocks utxo ids = fmt_blocks utxo ids blocks no_queries

-- `INSERT` into a table with a key: an error on a row with a key that is there, or no insertion.
unfoldable pub insert_keyed :
    {A : Type 0} → (A → A → Bool) → Bool → List A → List A → Outcome (List A)
unfolding has_key
insert_keyed same skip [] table = ok table
insert_keyed same skip (row ∷ rows) table =
    let kept = insert_keyed same skip rows table in
    let added = insert_keyed same skip rows (table ++ row ∷ []) in
    if has_key same row table then (if skip then kept else err) else added

unfoldable pub set_current_height : TxRow → List TxRow → List TxRow
set_current_height row [] = []
set_current_height row (r ∷ rest) =
    (if r.hash_id == row.hash_id then record r { current_height = row.current_height } else r)
    ∷ set_current_height row rest

-- `SQL_INSERT_VALUES_SIZE`
abbrev pub sql_insert_values_size : ℕ
sql_insert_values_size = 30_000

-- `ON CONFLICT (hash_id) DO UPDATE SET current_height = EXCLUDED.current_height`: a statement that
-- proposes two rows with one key is an error. The rows of the statement so far, and their number,
-- come first; a statement with more rows than `sql_insert_values_size` is ended before the next row.
unfoldable pub upsert_txs : List TxRow → ℕ → List TxRow → List TxRow → Outcome (List TxRow)
unfolding has_key set_current_height
upsert_txs statement count [] table = ok table
upsert_txs statement count (row ∷ rows) table =
    let ended = ltb sql_insert_values_size count in
    let before = if ended then [] else statement in
    let rest =
      upsert_txs (before ++ row ∷ []) (suc (if ended then 0 else count)) rows
        (if has_key same_tx row table then set_current_height row table else table ++ row ∷ []) in
    if has_key same_tx row before then err else rest

-- The numbers of the rows fit in their columns.
unfoldable pub all_fit : Queries → Bool
unfolding all_rows block_fits tx_fits output_fits input_fits
all_fit q =
    all_rows block_fits q.block
    && all_rows tx_fits q.tx
    && all_rows output_fits q.output
    && all_rows input_fits q.input

-- A transaction ends well where its rows are as the tables have to be.
unfoldable pub commit : Bool → Db → Outcome Db
commit holds db = if holds then ok db else err

-- The tables but `block` and `event` after a batch: which keys a mode's schema has, and whether its
-- statements skip conflicts.
unfoldable pub execute_txs : Mode → Queries → Db → Outcome Db
unfolding insert_keyed upsert_txs commit
execute_txs fresh_bulk q db = commit (all_fit q) (record db {
  block_tx = db.block_tx ++ q.block_tx;
  tx = db.tx ++ q.tx;
  output = db.output ++ q.output;
  input = db.input ++ q.input;
})
execute_txs bulk q db = do
  output ← insert_keyed same_output false q.output db.output
  commit (all_fit q) (record db {
    block_tx = db.block_tx ++ q.block_tx;
    tx = db.tx ++ q.tx;
    output = output;
    input = db.input ++ q.input;
  })
execute_txs normal q db = do
  block_tx ← insert_keyed same_block_tx true q.block_tx db.block_tx
  tx ← upsert_txs [] 0 q.tx db.tx
  output ← insert_keyed same_output true q.output db.output
  input ← insert_keyed same_input true q.input db.input
  let done = record db { block_tx = block_tx; tx = tx; output = output; input = input }
  commit (all_fit q && foreign_keys_hold done) done

-- `commit_atomic_bulk_insert_sql`: the statements run in one transaction, so an error changes nothing.
unfoldable pub execute : Mode → Queries → Db → Outcome Db
unfolding execute_txs
execute mode q db = do
  block ← insert_blocks (not (is_bulk mode)) q.block db.block
  execute_txs mode q (record (insert_events false q.event db) { block = block })
