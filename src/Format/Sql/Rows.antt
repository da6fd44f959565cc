-- ===== src/Format/Sql/Rows.antt =====
-- That the texts of the formatters of src/db/pg.rs are read as the columns of their rows.
use rust_bitcoin_indexer.Base.{
  ℕ, zero, suc, ◌/◌, ◌<◌, ◌≡◌, refl, inl, inr, Bool, true, false, Option, none, some, List, [], ◌∷◌,
  ◌++◌, Text, codes, All, if◌then◌else◌, length, Option-cases, arith,
}
use rust_bitcoin_indexer.Types.{BlockHeight}
use rust_bitcoin_indexer.Bitcoin.{TxIn, TxOut, Transaction, BlockData, Network}
use rust_bitcoin_indexer.Hash.{hash_to_hash_id}
use rust_bitcoin_indexer.Db.{BlockRow, TxRow, BlockTxRow, OutputRow, InputRow}
use rust_bitcoin_indexer.Format.{block_row, tx_row, input_row}
use rust_bitcoin_indexer.Format.Sql.{
  le_bytes, show_bool, write_all, write_hash_id_hex, write_hash_rest_hex, write_hash_hex,
  output_value, input_value, block_tx_value, tx_value, event_value, block_value,
}
use rust_bitcoin_indexer.Format.Sql.Decimal.{decimal}
use rust_bitcoin_indexer.Format.Sql.Reading.{
  Column, bytes, number, boolean, string, null, now, strip_prefix, read_columns, read_row,
  write_column, write_columns, write_row, IsHex, IsPlain, IsWritable, read_column-write,
}

module _ (encode_hex : List ℕ → Text) (decode_hex : Text → Option (List ℕ))
    (hex : IsHex encode_hex decode_hex) where
  read_columns-write :
      (c : Column) (cs : List Column) (rest : Text)
      → All IsWritable (c ∷ cs)
      → read_columns decode_hex (suc (length cs)) (write_columns encode_hex (c ∷ cs) rest)
        ≡ some (c ∷ cs, rest)
  unfolding read_columns strip_prefix
  read_columns-write c [] rest w =
      rw (read_columns, read_column-write encode_hex decode_hex hex c (codes ")" ++ rest) w.0 refl)
        refl
  read_columns-write c (d ∷ cs) rest w =
      rw
        (
          read_columns,
          read_column-write encode_hex decode_hex hex c
              (codes "," ++ write_columns encode_hex (d ∷ cs) rest) w.0 refl,
          read_columns-write d cs rest w.1,
        )
        refl

  -- A row is read back, whatever follows.
  read_row-write :
      (c : Column) (cs : List Column) (rest : Text)
      → All IsWritable (c ∷ cs)
      → read_row decode_hex (suc (length cs)) (write_row encode_hex (c ∷ cs) rest)
        ≡ some (c ∷ cs, rest)
  unfolding read_row strip_prefix
  read_row-write c cs rest w = read_columns-write c cs rest w

-- The columns of the rows, in the order of their statements.
abbrev pub hash_id_column : ℕ → Column
hash_id_column id = bytes (le_bytes 16 id)

abbrev nullable : Option BlockHeight → Column
nullable none = null
nullable (some h) = number h

abbrev pub block_columns : BlockRow → List Column
block_columns row =
    hash_id_column row.hash_id
    ∷ bytes (le_bytes 16 row.hash_rest)
    ∷ hash_id_column row.prev_hash_id
    ∷ bytes (le_bytes 32 row.merkle_root)
    ∷ number row.height
    ∷ number row.time
    ∷ []

abbrev pub tx_columns : TxRow → List Column
tx_columns row =
    hash_id_column row.hash_id
    ∷ bytes (le_bytes 16 row.hash_rest)
    ∷ number row.weight
    ∷ number row.fee
    ∷ number row.locktime
    ∷ boolean row.coinbase
    ∷ nullable row.current_height
    ∷ (if row.in_mempool then now ∷ [] else [])

abbrev pub input_columns : InputRow → List Column
input_columns row =
    hash_id_column row.output_tx_hash_id
    ∷ number row.output_tx_idx
    ∷ hash_id_column row.tx_hash_id
    ∷ boolean row.has_witness
    ∷ []

abbrev pub block_tx_columns : BlockTxRow → List Column
block_tx_columns row = hash_id_column row.block_hash_id ∷ hash_id_column row.tx_hash_id ∷ []

le_bytes-small : (n hash : ℕ) → All (λ b. b < 256) (le_bytes n hash)
le_bytes-small zero hash = tt
le_bytes-small (suc n) hash = (omega arith, le_bytes-small n (hash / 256))

module _ (encode_hex : List ℕ → Text) (decode_hex : Text → Option (List ℕ))
    (hex : IsHex encode_hex decode_hex) where
  -- The texts of the rows of the six tables, each read as the columns of the row that the model of its
  -- formatter has.
  block_value-read :
      (block : BlockData) (rest : Text)
      → read_row decode_hex 6 (write_all (block_value encode_hex block) rest)
        ≡ some (block_columns (block_row block), rest)
  unfolding block_value write_hash_id_hex write_hash_rest_hex write_hash_hex block_row
  block_value-read block rest = read_row-write encode_hex decode_hex hex _ _ rest (
    le_bytes-small 16 _,
    (le_bytes-small 16 _, (le_bytes-small 16 _, (le_bytes-small 32 _, (tt, (tt, tt))))),
  )

  event_value-read :
      (block : BlockData) (rest : Text)
      → read_row decode_hex 1 (write_all (event_value encode_hex block) rest)
        ≡ some (hash_id_column (hash_to_hash_id block.id) ∷ [], rest)
  unfolding event_value write_hash_id_hex
  event_value-read block rest =
      read_row-write encode_hex decode_hex hex _ _ rest (le_bytes-small 16 _, tt)

  block_tx_value-read :
      (block : BlockData) (tx_id : ℕ) (rest : Text)
      → read_row decode_hex 2 (write_all (block_tx_value encode_hex block tx_id) rest)
        ≡ some (
          block_tx_columns (record {
            block_hash_id = hash_to_hash_id block.id;
            tx_hash_id = hash_to_hash_id tx_id;
          }),
          rest,
        )
  unfolding block_tx_value write_hash_id_hex
  block_tx_value-read block tx_id rest =
      read_row-write encode_hex decode_hex hex _ _ rest
        (le_bytes-small 16 _, (le_bytes-small 16 _, tt))

  show_bool-write :
      (b : Bool) (rest : Text) → show_bool b ++ rest ≡ write_column encode_hex (boolean b) rest
  show_bool-write true rest = refl
  show_bool-write false rest = refl

  input_value-read :
      (tx_id : ℕ) (input : TxIn) (rest : Text)
      → read_row decode_hex 4 (write_all (input_value encode_hex tx_id input) rest)
        ≡ some (input_columns (input_row tx_id input), rest)
  unfolding input_value write_hash_id_hex input_row
  input_value-read tx_id input rest = rw (show_bool-write input.has_witness (codes ")" ++ rest)) (
      read_row-write encode_hex decode_hex hex _ _ rest
        (le_bytes-small 16 _, (tt, (le_bytes-small 16 _, (tt, tt)))))

  tx_value-read :
      (from_mempool : Bool) (height : Option BlockHeight) (tx : Transaction) (tx_id fee : ℕ)
      (rest : Text)
      → read_row decode_hex
          (if from_mempool then 8 else 7)
          (write_all (tx_value encode_hex from_mempool height tx tx_id fee) rest)
        ≡ some (tx_columns (tx_row from_mempool height tx tx_id fee), rest)
  unfolding tx_value write_hash_id_hex write_hash_rest_hex tx_row
  tx_value-read true none tx tx_id fee rest =
      rw (show_bool-write tx.is_coin_base (codes ",NULL,timezone('utc', now()))" ++ rest)) (
        read_row-write encode_hex decode_hex hex _ _ rest
          (le_bytes-small 16 _, (le_bytes-small 16 _, (tt, (tt, (tt, (tt, (tt, (tt, tt)))))))))
  tx_value-read true (some h) tx tx_id fee rest =
      rw
        (show_bool-write tx.is_coin_base
          (codes "," ++ (decimal h ++ (codes ",timezone('utc', now()))" ++ rest))))
        (read_row-write encode_hex decode_hex hex _ _ rest
          (le_bytes-small 16 _, (le_bytes-small 16 _, (tt, (tt, (tt, (tt, (tt, (tt, tt)))))))))
  tx_value-read false none tx tx_id fee rest =
      rw (show_bool-write tx.is_coin_base (codes ",NULL)" ++ rest)) (
        read_row-write encode_hex decode_hex hex _ _ rest
          (le_bytes-small 16 _, (le_bytes-small 16 _, (tt, (tt, (tt, (tt, (tt, tt))))))))
  tx_value-read false (some h) tx tx_id fee rest =
      rw (show_bool-write tx.is_coin_base (codes "," ++ (decimal h ++ (codes ")" ++ rest)))) (
        read_row-write encode_hex decode_hex hex _ _ rest
          (le_bytes-small 16 _, (le_bytes-small 16 _, (tt, (tt, (tt, (tt, (tt, tt))))))))

  module _ (address : Network → ℕ → Option ℕ) (show_address : ℕ → Text)
      (plain : (a : ℕ) → IsPlain (show_address a)) (network : Network) where
    abbrev pub output_columns : OutputRow → List Column
    output_columns row =
        hash_id_column row.tx_hash_id
        ∷ number row.tx_idx
        ∷ number row.value
        ∷ (elim row.address [ some a ↦ string (show_address a) | none ↦ null ])
        ∷ []

    abbrev pub output_row : ℕ → TxOut → ℕ → OutputRow
    output_row tx_id output vout = record {
      tx_hash_id = hash_to_hash_id tx_id;
      tx_idx = vout;
      value = output.value;
      address = address network output.script_pubkey;
    }

    output_value-read :
        (tx_id : ℕ) (output : TxOut) (vout : ℕ) (rest : Text)
        → read_row decode_hex 4 (
            write_all (output_value encode_hex address show_address network tx_id output vout) rest)
          ≡ some (output_columns (output_row tx_id output vout), rest)
    unfolding output_value write_hash_id_hex
    output_value-read tx_id output vout rest =
        elim (Option-cases (address network output.script_pubkey)) [
          | inl unknown ↦
              rw (unknown, output_value)
                (read_row-write encode_hex decode_hex hex _ _ rest
                  (le_bytes-small 16 _, (tt, (tt, (tt, tt)))))
          | inr (a, known) ↦
              rw (known, output_value)
                (read_row-write encode_hex decode_hex hex _ _ rest
                  (le_bytes-small 16 _, (tt, (tt, (plain a, tt)))))
        ]

    -- The text of each formatter's value is read as the columns of its row, whatever follows.
    abbrev pub AreRead : Type 0
    AreRead =
        ((block : BlockData) (rest : Text)
          → (read_row decode_hex 1 (write_all (event_value encode_hex block) rest)
              ≡ some (hash_id_column (hash_to_hash_id block.id) ∷ [], rest))
            × (read_row decode_hex 6 (write_all (block_value encode_hex block) rest)
                ≡ some (block_columns (block_row block), rest)))
        × ((block : BlockData) (tx_id : ℕ) (rest : Text)
            → read_row decode_hex 2 (write_all (block_tx_value encode_hex block tx_id) rest)
              ≡ some (
                block_tx_columns (record {
                  block_hash_id = hash_to_hash_id block.id;
                  tx_hash_id = hash_to_hash_id tx_id;
                }),
                rest,
              ))
        × ((from_mempool : Bool) (height : Option BlockHeight) (tx : Transaction) (tx_id fee : ℕ)
              (rest : Text)
            → read_row decode_hex (if from_mempool then 8 else 7)
                (write_all (tx_value encode_hex from_mempool height tx tx_id fee) rest)
              ≡ some (tx_columns (tx_row from_mempool height tx tx_id fee), rest))
        × ((tx_id : ℕ) (input : TxIn) (rest : Text)
            → read_row decode_hex 4 (write_all (input_value encode_hex tx_id input) rest)
              ≡ some (input_columns (input_row tx_id input), rest))
        × ((tx_id : ℕ) (output : TxOut) (vout : ℕ) (rest : Text)
            → read_row decode_hex 4 (
                write_all (output_value encode_hex address show_address network tx_id output vout)
                  rest)
              ≡ some (output_columns (output_row tx_id output vout), rest))

    -- The text that each formatter writes for a value is read as the columns of its row, whatever
    -- text follows, where hexadecimal text is decoded to the bytes that it was encoded from and
    -- has no quote, and the text of an address has no quote and no backslash.
    pub values-read : AreRead
    values-read = (
      λ block rest. (event_value-read block rest, block_value-read block rest),
      block_tx_value-read,
      tx_value-read,
      input_value-read,
      output_value-read,
    )
