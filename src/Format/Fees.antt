-- ===== src/Format/Fees.antt =====
-- The fees that `TxFormatter` of src/db/pg.rs computes, and that it formats blocks whose transactions
-- pay for their outputs.
use rust_bitcoin_indexer.Base.{
  ℕ, suc, ◌+◌, ◌-◌, ◌%◌, ◌≤◌, ◌<◌, ◌≡◌, ◌∙◌, sym, ap, refl, inl, inr, true, false, Option, some,
  List, [], ◌∷◌, ◌++◌, map, append-nil, append_assoc, le→leb, if◌then◌else◌, Bool-cases, All, arith,
}
use rust_bitcoin_indexer.Base.Outcome.{ok}
use rust_bitcoin_indexer.Bitcoin.{TxIn, TxOut, Transaction, BlockData, Network}
use rust_bitcoin_indexer.Db.{TxRow}
use rust_bitcoin_indexer.Hash.{hash_to_hash_id}
use rust_bitcoin_indexer.Utxo.{
  calculate_tx_id_with_workarounds, TxIdMap, from_out_point, HashIdOutPoint, UtxoDetailsMap,
  find_utxo, is_among, spent_by, spent_by_blocks,
}
use rust_bitcoin_indexer.Utxo.Maps.{same_point_refl, is_among-append}
use rust_bitcoin_indexer.Utxo.Creating.{Knows}
use rust_bitcoin_indexer.Format.{
  u64_size, block_row, input_value_sum, output_value_sum, fee, tx_row, input_row, output_rows,
  Queries, fmt_tx, fmt_txs, fmt_blocks,
}

abbrev pub outputs_total : List TxOut → ℕ
outputs_total [] = 0
outputs_total (output ∷ outputs) = output.value + outputs_total outputs

abbrev spent_points : List TxIn → List HashIdOutPoint
spent_points = map (λ (i : TxIn). from_out_point i.previous_output)

output_value_sum_lem :
    (outputs : List TxOut) (acc : ℕ)
    → acc + outputs_total outputs < u64_size
    → output_value_sum outputs acc ≡ acc + outputs_total outputs
unfolding output_value_sum
output_value_sum_lem [] acc fits = omega arith
output_value_sum_lem (output ∷ outputs) acc fits =
    let small : (acc + output.value) % u64_size ≡ acc + output.value = omega (arith, fits) in
    rw small (output_value_sum_lem outputs (acc + output.value) (omega (arith, fits)) ∙ omega arith)

-- Each output has a value of its own.
module _ (price : HashIdOutPoint → ℕ) where
  abbrev pub inputs_total : List TxIn → ℕ
  inputs_total [] = 0
  inputs_total (input ∷ inputs) = price (from_out_point input.previous_output) + inputs_total inputs

  -- The fee, computed without a bound.
  abbrev pub paid_fee : Transaction → ℕ
  paid_fee tx = if tx.is_coin_base then 0 else inputs_total tx.input - outputs_total tx.output

  -- A transaction spends at least what its outputs take, and sums of values fit in 64 bits.
  abbrev pub IsPaid : Transaction → Type 0
  IsPaid tx =
      tx.is_coin_base ≡ false
      → (inputs_total tx.input < u64_size) × (outputs_total tx.output ≤ inputs_total tx.input)

  -- The map has the values of the points.
  abbrev pub Prices : UtxoDetailsMap → List HashIdOutPoint → Type 0
  Prices utxo points =
      (p : HashIdOutPoint) → is_among p points ≡ true → find_utxo p utxo ≡ some (price p)

  Prices-left :
      (utxo : UtxoDetailsMap) (xs ys : List HashIdOutPoint)
      → Prices utxo (xs ++ ys)
      → Prices utxo xs
  Prices-left utxo xs ys k p among = k p (is_among-append p xs ys ∙ (rw among refl))

  Prices-right :
      (utxo : UtxoDetailsMap) (xs ys : List HashIdOutPoint)
      → Prices utxo (xs ++ ys)
      → Prices utxo ys
  Prices-right utxo xs ys k p among = k p (ground (arith, is_among-append p xs ys, among))

  input_value_sum_lem :
      (utxo : UtxoDetailsMap) (inputs : List TxIn) (acc : ℕ)
      → Prices utxo (spent_points inputs)
      → acc + inputs_total inputs < u64_size
      → input_value_sum utxo inputs acc ≡ ok (acc + inputs_total inputs)
  unfolding input_value_sum from_out_point is_among
  input_value_sum_lem utxo [] acc k fits = ap ok (omega arith)
  input_value_sum_lem utxo (input ∷ inputs) acc k fits =
      let p = from_out_point input.previous_output in
      let small : (acc + price p) % u64_size ≡ acc + price p = omega (arith, fits) in
      rw (k p (rw (same_point_refl p) refl), small, input_value_sum)
        (input_value_sum_lem utxo inputs (acc + price p) (λ q among. k q (ground (arith, among)))
            (omega (arith, fits))
          ∙ ap ok (omega arith))

  pub fee_lem :
      (utxo : UtxoDetailsMap) (tx : Transaction)
      → Prices utxo (if tx.is_coin_base then [] else spent_points tx.input)
      → IsPaid tx
      → fee utxo tx ≡ ok (paid_fee tx)
  unfolding fee
  fee_lem utxo tx k paid = elim (Bool-cases tx.is_coin_base) [
    | inl coinbase ↦ rw coinbase refl
    | inr other ↦
        let (fits, enough) = paid other in
        let inputs : input_value_sum utxo tx.input 0 ≡ ok (inputs_total tx.input) =
          input_value_sum_lem utxo tx.input 0 (rw other at k) (omega (arith, fits))
          ∙ ap ok (omega arith) in
        let outputs : output_value_sum tx.output 0 ≡ outputs_total tx.output =
          output_value_sum_lem tx.output 0 (omega (arith, fits, enough)) ∙ omega arith in
        rw (other, inputs, outputs, le→leb _ _ enough) refl
  ]

  -- The rows of the transactions, with the ids and fees that they have.
  module _ (network : Network) where
    abbrev pub tx_rows : BlockData → List Transaction → List TxRow
    tx_rows block [] = []
    tx_rows block (tx ∷ txs) =
        tx_row false (some block.height) tx (calculate_tx_id_with_workarounds block tx network)
          (paid_fee tx)
        ∷ tx_rows block txs

    abbrev pub tx_rows_of : List BlockData → List TxRow
    tx_rows_of [] = []
    tx_rows_of (block ∷ blocks) = tx_rows block block.payload.txdata ++ tx_rows_of blocks

    module _ (address : Network → ℕ → Option ℕ) (utxo : UtxoDetailsMap) (ids : TxIdMap) where
      fmt_txs-tx_rows :
          (block : BlockData) (i : ℕ) (txs : List Transaction) (q : Queries)
          → Knows network ids block i txs
          → Prices utxo (spent_by txs)
          → All IsPaid txs
          → (q' : Queries) × (fmt_txs address network utxo ids block i txs q ≡ ok q')
            × (q'.tx ≡ q.tx ++ tx_rows block txs)
      unfolding fmt_txs fmt_tx spent_by
      fmt_txs-tx_rows block i [] q known k paid = (q, refl, sym (append-nil q.tx))
      fmt_txs-tx_rows block i (tx ∷ txs) q known k paid =
          let tx_id = calculate_tx_id_with_workarounds block tx network in
          let one = fee_lem utxo tx (Prices-left utxo _ (spent_by txs) k) paid.0 in
          let next : Queries = record q {
            tx = q.tx ++ tx_row false (some block.height) tx tx_id (paid_fee tx) ∷ [];
            output = q.output ++ output_rows address network tx_id 0 tx.output;
            input = q.input ++ (if tx.is_coin_base then [] else map (input_row tx_id) tx.input);
            block_tx =
                q.block_tx
                ++ record {
                  block_hash_id = hash_to_hash_id block.id;
                  tx_hash_id = hash_to_hash_id tx_id;
                }
                  ∷ [];
          } in
          let (q', done, rows) =
            fmt_txs-tx_rows block (suc i) txs next known.1 (Prices-right utxo _ (spent_by txs) k)
              paid.1 in
          (
            q',
            rw (known.0, one) done,
            rows
                ∙ append_assoc q.tx (tx_row false (some block.height) tx tx_id (paid_fee tx) ∷ [])
                    (tx_rows block txs),
          )

      -- Blocks whose ids and values are known, and whose transactions are paid, are formatted.
      pub fmt_blocks-tx_rows :
          (blocks : List BlockData) (q : Queries)
          → All (λ b. Knows network ids b 0 b.payload.txdata) blocks
          → Prices utxo (spent_by_blocks blocks)
          → All (λ (b : BlockData). All IsPaid b.payload.txdata) blocks
          → (q' : Queries) × (fmt_blocks address network utxo ids blocks q ≡ ok q')
            × (q'.tx ≡ q.tx ++ tx_rows_of blocks)
      unfolding fmt_blocks spent_by_blocks
      fmt_blocks-tx_rows [] q known k paid = (q, refl, sym (append-nil q.tx))
      fmt_blocks-tx_rows (block ∷ blocks) q known k paid =
          let (q1, one, first) =
            fmt_txs-tx_rows block 0 block.payload.txdata
              (record q {
                event = q.event ++ hash_to_hash_id block.id ∷ [];
                block = q.block ++ block_row block ∷ [];
              })
              known.0 (Prices-left utxo (spent_by block.payload.txdata) (spent_by_blocks blocks) k)
              paid.0 in
          let (q', done, rows) =
            fmt_blocks-tx_rows blocks q1 known.1
              (Prices-right utxo (spent_by block.payload.txdata) (spent_by_blocks blocks) k)
              paid.1 in
          (
            q',
            rw one done,
            rows
                ∙ (rw first
                    (append_assoc q.tx (tx_rows block block.payload.txdata) (tx_rows_of blocks))),
          )
