-- ===== src/Utxo/Creating.antt =====
-- The outputs that blocks create, by the ids that `TxIdMap` of src/db/pg.rs has for their transactions.
use rust_bitcoin_indexer.Base.{
  ℕ, suc, ◌<◌, ◌%◌, ◌≡◌, ◌≢◌, ◌∙◌, refl, List, [], ◌∷◌, ◌++◌, All, arith,
}
use rust_bitcoin_indexer.Base.Outcome.{ok}
use rust_bitcoin_indexer.Types.{BlockHeight, u32_size}
use rust_bitcoin_indexer.Bitcoin.{TxOut, Transaction, BlockData, Network}
use rust_bitcoin_indexer.Utxo.{
  calculate_tx_id_with_workarounds, TxIdMap, tx_id_at, add_tx_ids, tx_ids_onto,
  tx_id_map_from_blocks, from_tx_hash_and_idx, UtxoDetailsMap, insert_utxo, insert_outputs,
  insert_txs, insert_new_utxos_from_blocks, insert_all_utxos,
}

-- The outputs in the order of the blocks.
abbrev pub outputs_of : ℕ → ℕ → List TxOut → UtxoDetailsMap
outputs_of txid idx [] = []
outputs_of txid idx (output ∷ outputs) =
    (from_tx_hash_and_idx txid (idx % u32_size), output.value) ∷ outputs_of txid (suc idx) outputs

module _ (network : Network) where
  abbrev pub created_by_txs : BlockData → List Transaction → UtxoDetailsMap
  created_by_txs block [] = []
  created_by_txs block (tx ∷ txs) =
      outputs_of (calculate_tx_id_with_workarounds block tx network) 0 tx.output
      ++ created_by_txs block txs

  abbrev pub created : List BlockData → UtxoDetailsMap
  created [] = []
  created (block ∷ blocks) = created_by_txs block block.payload.txdata ++ created blocks

-- No two blocks stand at one height.
abbrev pub DistinctHeights : List BlockData → Type 0
DistinctHeights [] = Unit
DistinctHeights (block ∷ blocks) =
    All (λ b. b.height ≢ block.height) blocks × DistinctHeights blocks

-- The map has the ids of a block's transactions, from a position on.
abbrev pub Knows : Network → TxIdMap → BlockData → ℕ → List Transaction → Type 0
Knows network ids block i [] = Unit
Knows network ids block i (tx ∷ txs) =
    (tx_id_at block.height i ids ≡ ok (calculate_tx_id_with_workarounds block tx network))
    × Knows network ids block (suc i) txs

module _ (network : Network) where
  add_tx_ids-other :
      (h : BlockHeight) (j : ℕ) (block : BlockData) (i : ℕ) (txs : List Transaction) (ids : TxIdMap)
      → (block.height ≡ h → j < i)
      → tx_id_at h j (add_tx_ids block network i txs ids) ≡ tx_id_at h j ids
  unfolding add_tx_ids tx_id_at
  add_tx_ids-other h j block i [] ids other = refl
  add_tx_ids-other h j block i (tx ∷ txs) ids other =
      add_tx_ids-other h j block (suc i) txs _ (λ e. omega (arith, other e)) ∙ ground (arith, other)

  add_tx_ids-Knows :
      (block : BlockData) (i : ℕ) (txs : List Transaction) (ids : TxIdMap)
      → Knows network (add_tx_ids block network i txs ids) block i txs
  unfolding add_tx_ids tx_id_at
  add_tx_ids-Knows block i [] ids = tt
  add_tx_ids-Knows block i (tx ∷ txs) ids = (
    add_tx_ids-other block.height i block (suc i) txs _ (λ e. omega arith) ∙ ground arith,
    add_tx_ids-Knows block (suc i) txs _,
  )

  Knows-same :
      (ids ids' : TxIdMap) (block : BlockData) (i : ℕ) (txs : List Transaction)
      → ((j : ℕ) → tx_id_at block.height j ids' ≡ tx_id_at block.height j ids)
      → Knows network ids block i txs
      → Knows network ids' block i txs
  Knows-same ids ids' block i [] same k = tt
  Knows-same ids ids' block i (tx ∷ txs) same k =
      (same i ∙ k.0, Knows-same ids ids' block (suc i) txs same k.1)

  tx_ids_onto-other :
      (h : BlockHeight) (j : ℕ) (blocks : List BlockData) (ids : TxIdMap)
      → All (λ b. b.height ≢ h) blocks
      → tx_id_at h j (tx_ids_onto blocks network ids) ≡ tx_id_at h j ids
  unfolding tx_ids_onto
  tx_ids_onto-other h j [] ids a = refl
  tx_ids_onto-other h j (block ∷ blocks) ids a =
      tx_ids_onto-other h j blocks _ a.1
      ∙ add_tx_ids-other h j block 0 block.payload.txdata ids (λ e. absurd (a.0 e))

  tx_ids_onto-Knows :
      (blocks : List BlockData) (ids : TxIdMap)
      → DistinctHeights blocks
      → All (λ b. Knows network (tx_ids_onto blocks network ids) b 0 b.payload.txdata) blocks
  unfolding tx_ids_onto
  tx_ids_onto-Knows [] ids d = tt
  tx_ids_onto-Knows (block ∷ blocks) ids d = (
    Knows-same (add_tx_ids block network 0 block.payload.txdata ids) _ block 0 block.payload.txdata
        (λ j. tx_ids_onto-other block.height j blocks _ d.0)
        (add_tx_ids-Knows block 0 block.payload.txdata ids),
    tx_ids_onto-Knows blocks _ d.1,
  )

  -- Of blocks at different heights, every transaction's id is in the map.
  pub tx_id_map_from_blocks-Knows :
      (blocks : List BlockData)
      → DistinctHeights blocks
      → All (λ b. Knows network (tx_id_map_from_blocks blocks network) b 0 b.payload.txdata) blocks
  unfolding tx_id_map_from_blocks
  tx_id_map_from_blocks-Knows blocks d = tx_ids_onto-Knows blocks [] d

insert_all-append :
    (xs ys m : UtxoDetailsMap)
    → insert_all_utxos (xs ++ ys) m ≡ insert_all_utxos ys (insert_all_utxos xs m)
unfolding insert_all_utxos
insert_all-append [] ys m = refl
insert_all-append ((p, v) ∷ xs) ys m = insert_all-append xs ys (insert_utxo p v m)

insert_outputs-outputs_of :
    (height : BlockHeight) (tx_i txid : ℕ) (ids : TxIdMap) (idx : ℕ) (outputs : List TxOut)
    (cache : UtxoDetailsMap)
    → tx_id_at height tx_i ids ≡ ok txid
    → insert_outputs height tx_i ids idx outputs cache
      ≡ ok (insert_all_utxos (outputs_of txid idx outputs) cache)
unfolding insert_outputs insert_all_utxos
insert_outputs-outputs_of height tx_i txid ids idx [] cache e = refl
insert_outputs-outputs_of height tx_i txid ids idx (output ∷ outputs) cache e =
    rw e (insert_outputs-outputs_of height tx_i txid ids (suc idx) outputs _ e)

module _ (network : Network) (ids : TxIdMap) where
  insert_txs-created :
      (block : BlockData) (i : ℕ) (txs : List Transaction) (cache : UtxoDetailsMap)
      → Knows network ids block i txs
      → insert_txs block.height ids i txs cache
        ≡ ok (insert_all_utxos (created_by_txs network block txs) cache)
  unfolding insert_txs insert_all_utxos
  insert_txs-created block i [] cache k = refl
  insert_txs-created block i (tx ∷ txs) cache k =
      let txid = calculate_tx_id_with_workarounds block tx network in
      rw
        (
          insert_outputs-outputs_of block.height i txid ids 0 tx.output cache k.0,
          insert_all-append (outputs_of txid 0 tx.output) (created_by_txs network block txs) cache,
        )
        (insert_txs-created block (suc i) txs _ k.1)

  pub insert_new_utxos_from_blocks-created :
      (blocks : List BlockData) (cache : UtxoDetailsMap)
      → All (λ b. Knows network ids b 0 b.payload.txdata) blocks
      → insert_new_utxos_from_blocks blocks ids cache
        ≡ ok (insert_all_utxos (created network blocks) cache)
  unfolding insert_new_utxos_from_blocks insert_all_utxos
  insert_new_utxos_from_blocks-created [] cache k = refl
  insert_new_utxos_from_blocks-created (block ∷ blocks) cache k =
      rw
        (
          insert_txs-created block 0 block.payload.txdata cache k.0,
          insert_all-append (created_by_txs network block block.payload.txdata)
              (created network blocks) cache,
        )
        (insert_new_utxos_from_blocks-created blocks _ k.1)
