-- ===== src/Format/Sql.antt =====
-- The texts that the formatters of src/db/pg.rs write for one row, one after the other. The `hex` crate and the text of an
-- address, which the `bitcoin` crate writes, are parameters.
pub mod Decimal
pub mod Reading
pub mod Rows
pub mod Statements
pub mod Openings
pub mod Written
pub mod Tests
use rust_bitcoin_indexer.Base.{
  ℕ, zero, suc, ◌/◌, ◌%◌, Bool, true, false, Option, none, some, List, [], ◌∷◌, ◌++◌, Text, codes,
  if◌then◌else◌,
}
use rust_bitcoin_indexer.Types.{BlockHeight}
use rust_bitcoin_indexer.Bitcoin.{TxIn, TxOut, Transaction, BlockData, Network}
use rust_bitcoin_indexer.Hash.{hash_to_hash_id, hash_rest}
use rust_bitcoin_indexer.Format.Sql.Decimal.{decimal}

-- The first bytes of a hash, whose number is that of its bytes with the lowest first.
abbrev pub le_bytes : ℕ → ℕ → List ℕ
le_bytes zero hash = []
le_bytes (suc n) hash = hash % 256 ∷ le_bytes n (hash / 256)

-- `SQL_HASH_ID_SIZE`
abbrev pub sql_hash_id_size : ℕ
sql_hash_id_size = 16

abbrev pub show_bool : Bool → Text
show_bool true = codes "true"
show_bool false = codes "false"

-- The texts that are written one after the other, in front of what follows.
abbrev pub write_all : List Text → Text → Text
write_all [] rest = rest
write_all (text ∷ texts) rest = text ++ write_all texts rest

module _ (encode_hex : List ℕ → Text) where
  unfoldable pub write_hash_id_hex : ℕ → Text
  unfolding hash_to_hash_id
  write_hash_id_hex hash = encode_hex (le_bytes sql_hash_id_size (hash_to_hash_id hash))

  unfoldable pub write_hash_rest_hex : ℕ → Text
  unfolding hash_rest
  write_hash_rest_hex hash = encode_hex (le_bytes 16 (hash_rest hash))

  unfoldable pub write_hash_hex : ℕ → Text
  write_hash_hex hash = encode_hex (le_bytes 32 hash)

  -- `OutputFormatter::fmt`
  unfoldable pub output_value :
      (Network → ℕ → Option ℕ) → (ℕ → Text) → Network → ℕ → TxOut → ℕ → List Text
  unfolding write_hash_id_hex
  output_value address show_address network tx_id output vout =
      codes "('\\x"
      ∷ write_hash_id_hex tx_id
      ∷ codes "'::bytea,"
      ∷ decimal vout
      ∷ codes ","
      ∷ decimal output.value
      ∷ codes ","
      ∷ ((elim (address network output.script_pubkey) [
        | some a ↦ codes "'" ∷ show_address a ∷ codes "'" ∷ []
        | none ↦ codes "NULL" ∷ []
      ])
          ++ codes ")" ∷ [])

  -- `InputFormatter::fmt`
  unfoldable pub input_value : ℕ → TxIn → List Text
  unfolding write_hash_id_hex
  input_value tx_id input =
      codes "('\\x"
      ∷ write_hash_id_hex input.previous_output.txid
      ∷ codes "'::bytea,"
      ∷ decimal input.previous_output.vout
      ∷ codes ",'\\x"
      ∷ write_hash_id_hex tx_id
      ∷ codes "'::bytea,"
      ∷ show_bool input.has_witness
      ∷ codes ")"
      ∷ []

  -- `BlockTxFormatter::fmt`
  unfoldable pub block_tx_value : BlockData → ℕ → List Text
  unfolding write_hash_id_hex
  block_tx_value block tx_id =
      codes "('\\x"
      ∷ write_hash_id_hex block.id
      ∷ codes "'::bytea,'\\x"
      ∷ write_hash_id_hex tx_id
      ∷ codes "'::bytea)"
      ∷ []

  -- `TxFormatter::fmt_one`
  unfoldable pub tx_value : Bool → Option BlockHeight → Transaction → ℕ → ℕ → List Text
  unfolding write_hash_id_hex write_hash_rest_hex
  tx_value from_mempool height tx tx_id fee =
      codes "('\\x"
      ∷ write_hash_id_hex tx_id
      ∷ codes "'::bytea,'\\x"
      ∷ write_hash_rest_hex tx_id
      ∷ codes "'::bytea,"
      ∷ decimal tx.weight
      ∷ codes ","
      ∷ decimal fee
      ∷ codes ","
      ∷ decimal tx.lock_time
      ∷ codes ","
      ∷ show_bool tx.is_coin_base
      ∷ codes ","
      ∷ (elim height [ some h ↦ decimal h | none ↦ codes "NULL" ])
      ∷ ((if from_mempool then codes ",timezone('utc', now())" ∷ [] else []) ++ codes ")" ∷ [])

  -- `BlockFormatter::fmt_one`, for the statement of events and for that of blocks.
  unfoldable pub event_value : BlockData → List Text
  unfolding write_hash_id_hex
  event_value block = codes "('\\x" ∷ write_hash_id_hex block.id ∷ codes "'::bytea)" ∷ []

  unfoldable pub block_value : BlockData → List Text
  unfolding write_hash_id_hex write_hash_rest_hex write_hash_hex
  block_value block =
      codes "('\\x"
      ∷ write_hash_id_hex block.id
      ∷ codes "'::bytea,'\\x"
      ∷ write_hash_rest_hex block.id
      ∷ codes "'::bytea,'\\x"
      ∷ write_hash_id_hex block.payload.prev_blockhash
      ∷ codes "'::bytea,'\\x"
      ∷ write_hash_hex block.payload.merkle_root
      ∷ codes "'::bytea,"
      ∷ decimal block.height
      ∷ codes ","
      ∷ decimal block.payload.time
      ∷ codes ")"
      ∷ []
