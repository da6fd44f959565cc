-- ===== src/Utxo.antt =====
-- The outputs that blocks spend: `TxIdMap`, `UtxoSetCache` and `fetch_outputs` of src/db/pg.rs.
pub mod Maps
pub mod Consuming
pub mod Fetching
pub mod Creating
pub mod Spending
pub mod Tests
use rust_bitcoin_indexer.Base.{
  ℕ, suc, ◌%◌, Bool, false, not, ◌&&◌, ◌||◌, Option, none, some, List, [], ◌∷◌, ◌++◌, map, ◌==◌,
  if◌then◌else◌, length,
}
use rust_bitcoin_indexer.Base.Outcome.{Outcome, ok, panic, ◌>>=◌, ◌>>◌, assert}
use rust_bitcoin_indexer.Types.{BlockHeight, u32_size}
use rust_bitcoin_indexer.Bitcoin.{
  OutPoint, TxIn, TxOut, Transaction, BlockData, Network, is_mainnet,
}
use rust_bitcoin_indexer.Hash.{hash_to_hash_id}
use rust_bitcoin_indexer.Db.{OutputRow}

-- The two coinbase transactions that repeat the id of an earlier one get an id of their own.
unfoldable pub calculate_tx_id_with_workarounds : BlockData → Transaction → Network → ℕ
calculate_tx_id_with_workarounds block tx network =
    if not (is_mainnet network)
    then tx.txid
    else if block.height == 91842 && tx.is_coin_base
    then 0xd5d27987d2a3dfc724e359870c6644b40e497bdc0589a033220fe15429d885a0
    else if block.height == 91880 && tx.is_coin_base
    then 0xe3bf3d07d4b0375638d5f1db5255fe07ba2c4cb067cd81b84ee974b6585fb469
    else tx.txid

-- Keyed by a block's height and a transaction's position. An entry hides those behind it.
abbrev pub TxIdMap : Type 0
TxIdMap = List (BlockHeight × ℕ × ℕ)

unfoldable pub tx_id_at : BlockHeight → ℕ → TxIdMap → Outcome ℕ
tx_id_at height i [] = panic
tx_id_at height i ((h, j, txid) ∷ ids) =
    if h == height && j == i then ok txid else tx_id_at height i ids

unfoldable pub add_tx_ids : BlockData → Network → ℕ → List Transaction → TxIdMap → TxIdMap
unfolding calculate_tx_id_with_workarounds
add_tx_ids block network i [] ids = ids
add_tx_ids block network i (tx ∷ txs) ids =
    add_tx_ids block network (suc i) txs
      ((block.height, i, calculate_tx_id_with_workarounds block tx network) ∷ ids)

unfoldable pub tx_ids_onto : List BlockData → Network → TxIdMap → TxIdMap
unfolding add_tx_ids
tx_ids_onto [] network ids = ids
tx_ids_onto (block ∷ blocks) network ids =
    tx_ids_onto blocks network (add_tx_ids block network 0 block.payload.txdata ids)

unfoldable pub tx_id_map_from_blocks : List BlockData → Network → TxIdMap
unfolding tx_ids_onto
tx_id_map_from_blocks blocks network = tx_ids_onto blocks network []

pub record HashIdOutPoint : Type 0 where
  pub tx_hash_id : ℕ
  pub vout : ℕ

unfoldable pub from_tx_hash_and_idx : ℕ → ℕ → HashIdOutPoint
unfolding hash_to_hash_id
from_tx_hash_and_idx tx_hash idx = record { tx_hash_id = hash_to_hash_id tx_hash; vout = idx }

-- `HashIdOutPoint::from`
unfoldable pub from_out_point : OutPoint → HashIdOutPoint
unfolding hash_to_hash_id
from_out_point p = record { tx_hash_id = hash_to_hash_id p.txid; vout = p.vout }

abbrev pub same_point : HashIdOutPoint → HashIdOutPoint → Bool
same_point a b = a.tx_hash_id == b.tx_hash_id && a.vout == b.vout

-- `UtxoSetEntry` holds a value alone.
abbrev pub UtxoDetailsMap : Type 0
UtxoDetailsMap = List (HashIdOutPoint × ℕ)

unfoldable pub find_utxo : HashIdOutPoint → UtxoDetailsMap → Option ℕ
find_utxo p [] = none
find_utxo p ((q, v) ∷ m) = if same_point q p then some v else find_utxo p m

unfoldable pub remove_utxo : HashIdOutPoint → UtxoDetailsMap → UtxoDetailsMap
remove_utxo p [] = []
remove_utxo p ((q, v) ∷ m) =
    let rest = remove_utxo p m in if same_point q p then rest else (q, v) ∷ rest

unfoldable pub insert_utxo : HashIdOutPoint → ℕ → UtxoDetailsMap → UtxoDetailsMap
unfolding remove_utxo
insert_utxo p v m = (p, v) ∷ remove_utxo p m

-- The loops of `insert_new_utxos_from_blocks`, the innermost first.
unfoldable pub insert_outputs :
    BlockHeight → ℕ → TxIdMap → ℕ → List TxOut → UtxoDetailsMap → Outcome UtxoDetailsMap
unfolding tx_id_at from_tx_hash_and_idx insert_utxo
insert_outputs height tx_i ids idx [] cache = ok cache
insert_outputs height tx_i ids idx (output ∷ outputs) cache = do
  txid ← tx_id_at height tx_i ids
  insert_outputs height tx_i ids (suc idx) outputs
      (insert_utxo (from_tx_hash_and_idx txid (idx % u32_size)) output.value cache)

unfoldable pub insert_txs :
    BlockHeight → TxIdMap → ℕ → List Transaction → UtxoDetailsMap → Outcome UtxoDetailsMap
unfolding insert_outputs
insert_txs height ids tx_i [] cache = ok cache
insert_txs height ids tx_i (tx ∷ txs) cache = do
  cache' ← insert_outputs height tx_i ids 0 tx.output cache
  insert_txs height ids (suc tx_i) txs cache'

unfoldable pub insert_new_utxos_from_blocks :
    List BlockData → TxIdMap → UtxoDetailsMap → Outcome UtxoDetailsMap
unfolding insert_txs
insert_new_utxos_from_blocks [] ids cache = ok cache
insert_new_utxos_from_blocks (block ∷ blocks) ids cache = do
  cache' ← insert_txs block.height ids 0 block.payload.txdata cache
  insert_new_utxos_from_blocks blocks ids cache'

pub record Consumed : Type 0 where
  pub entries : UtxoDetailsMap
  pub found : UtxoDetailsMap
  pub missing : List HashIdOutPoint

unfoldable pub consume_one : HashIdOutPoint → Consumed → Consumed
unfolding find_utxo insert_utxo
consume_one p c = elim (find_utxo p c.entries) [
  | none ↦ record c { missing = c.missing ++ p ∷ [] }
  | some v ↦ record c { entries = remove_utxo p c.entries; found = insert_utxo p v c.found }
]

unfoldable pub consume_spent_utxos : List HashIdOutPoint → Consumed → Consumed
unfolding consume_one
consume_spent_utxos [] c = c
consume_spent_utxos (p ∷ ps) c = consume_spent_utxos ps (consume_one p c)

unfoldable pub spent_by : List Transaction → List HashIdOutPoint
unfolding from_out_point
spent_by [] = []
spent_by (tx ∷ txs) =
    (if tx.is_coin_base then [] else map (λ (i : TxIn). from_out_point i.previous_output) tx.input)
    ++ spent_by txs

unfoldable pub spent_by_blocks : List BlockData → List HashIdOutPoint
unfolding spent_by
spent_by_blocks [] = []
spent_by_blocks (block ∷ blocks) = spent_by block.payload.txdata ++ spent_by_blocks blocks

unfoldable pub consume_spent_utxos_from_blocks : List BlockData → UtxoDetailsMap → Consumed
unfolding consume_spent_utxos spent_by_blocks
consume_spent_utxos_from_blocks blocks cache =
    consume_spent_utxos (spent_by_blocks blocks)
      (record { entries = cache; found = []; missing = [] })

unfoldable pub is_among : HashIdOutPoint → List HashIdOutPoint → Bool
is_among p [] = false
is_among p (q ∷ qs) = same_point q p || is_among p qs

-- `SELECT tx_hash_id, tx_idx, value FROM output WHERE (tx_hash_id, tx_idx) IN (…)`, put into a map.
-- The values stand in one statement for each 30000 of them; the rows found are the same.
unfoldable pub fetch_outputs :
    List OutputRow → List HashIdOutPoint → UtxoDetailsMap → UtxoDetailsMap
unfolding is_among insert_utxo
fetch_outputs [] points out = out
fetch_outputs (row ∷ rows) points out = fetch_outputs rows points (
    if is_among (record { tx_hash_id = row.tx_hash_id; vout = row.tx_idx }) points
    then insert_utxo (record { tx_hash_id = row.tx_hash_id; vout = row.tx_idx }) row.value out
    else out)

unfoldable pub fetch_missing_utxos : List OutputRow → List HashIdOutPoint → Outcome UtxoDetailsMap
unfolding fetch_outputs
fetch_missing_utxos table [] = ok []
fetch_missing_utxos table (p ∷ missing) = do
  let out = fetch_outputs table (p ∷ missing) []
  assert (length (p ∷ missing) == length out)
  ok out

unfoldable pub insert_all_utxos : UtxoDetailsMap → UtxoDetailsMap → UtxoDetailsMap
unfolding insert_utxo
insert_all_utxos [] m = m
insert_all_utxos ((p, v) ∷ more) m = insert_all_utxos more (insert_utxo p v m)

-- `process_blocks`: the new cache, and the values of all spent outputs.
unfoldable pub process_blocks :
    List OutputRow
    → List BlockData
    → TxIdMap
    → UtxoDetailsMap
    → Outcome (UtxoDetailsMap × UtxoDetailsMap)
unfolding insert_new_utxos_from_blocks consume_spent_utxos_from_blocks fetch_missing_utxos
    insert_all_utxos
process_blocks table blocks ids cache = do
  grown ← insert_new_utxos_from_blocks blocks ids cache
  let consumed = consume_spent_utxos_from_blocks blocks grown
  fetched ← fetch_missing_utxos table consumed.missing
  ok (consumed.entries, insert_all_utxos fetched consumed.found)
