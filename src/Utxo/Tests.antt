-- ===== src/Utxo/Tests.antt =====
-- Two blocks for src/db/pg.rs, of which the second spends an output of the first and one of the table.
use rust_bitcoin_indexer.Base.{
  ℕ, ◌≡◌, subst, refl, inl, inr, true, false, none, some, List, [], ◌∷◌, Bool-cases, arith,
}
use rust_bitcoin_indexer.Base.Outcome.{ok}
use rust_bitcoin_indexer.Bitcoin.{Transaction, BlockData, regtest}
use rust_bitcoin_indexer.Db.{OutputRow}
use rust_bitcoin_indexer.Hash.{hash_to_hash_id}
use rust_bitcoin_indexer.Utxo.{
  calculate_tx_id_with_workarounds, from_tx_hash_and_idx, from_out_point, tx_id_map_from_blocks,
  HashIdOutPoint, UtxoDetailsMap, same_point, find_utxo, is_among, spent_by_blocks,
  insert_all_utxos, process_blocks,
}
use rust_bitcoin_indexer.Utxo.Maps.{same_point→eq, Distinct}
use rust_bitcoin_indexer.Utxo.Creating.{DistinctHeights}
use rust_bitcoin_indexer.Utxo.Spending.{value_of, Spends, process_blocks-Spends}

abbrev coinbase : Transaction
coinbase = record {
  txid = 7;
  weight = 1;
  lock_time = 0;
  is_coin_base = true;
  input = [];
  output = record { value = 50; script_pubkey = 0 } ∷ [];
}

abbrev payment : Transaction
payment = record {
  txid = 8;
  weight = 1;
  lock_time = 0;
  is_coin_base = false;
  input =
      record { previous_output = record { txid = 7; vout = 0 }; has_witness = false }
      ∷ record { previous_output = record { txid = 5; vout = 1 }; has_witness = false }
      ∷ [];
  output = record { value = 60; script_pubkey = 0 } ∷ [];
}

abbrev pub paying_blocks : List BlockData
paying_blocks =
    record {
      height = 0;
      id = 10;
      payload = record { prev_blockhash = 0; merkle_root = 0; time = 0; txdata = coinbase ∷ [] };
    }
    ∷ record {
      height = 1;
      id = 20;
      payload = record { prev_blockhash = 10; merkle_root = 0; time = 0; txdata = payment ∷ [] };
    }
    ∷ []

abbrev pub old_outputs : List OutputRow
old_outputs = record { tx_hash_id = 5; tx_idx = 1; value = 30; address = none } ∷ []

pub paying-DistinctHeights : DistinctHeights paying_blocks
paying-DistinctHeights = ground arith

pub paying-Distinct : Distinct (spent_by_blocks paying_blocks)
unfolding spent_by_blocks is_among from_out_point
paying-Distinct = (refl, (refl, tt))

abbrev fresh_point : HashIdOutPoint
fresh_point = record { tx_hash_id = 7; vout = 0 }

abbrev old_point : HashIdOutPoint
old_point = record { tx_hash_id = 5; vout = 1 }

abbrev HasValue : HashIdOutPoint → Type 0
HasValue p = (v : ℕ) × (value_of old_outputs regtest paying_blocks [] p ≡ some v)

fresh_value : HasValue fresh_point
unfolding find_utxo insert_all_utxos from_tx_hash_and_idx calculate_tx_id_with_workarounds
    hash_to_hash_id
fresh_value = (50, refl)

old_value : HasValue old_point
unfolding find_utxo insert_all_utxos from_tx_hash_and_idx calculate_tx_id_with_workarounds
    hash_to_hash_id
old_value = (30, refl)

pub paying_known :
    (p : HashIdOutPoint) → is_among p (spent_by_blocks paying_blocks) ≡ true → HasValue p
unfolding spent_by_blocks is_among from_out_point
paying_known p among = elim (Bool-cases (same_point fresh_point p)) [
  | inl fresh ↦ subst HasValue (same_point→eq fresh_point p fresh) fresh_value
  | inr other ↦ elim (Bool-cases (same_point old_point p)) [
    | inl old ↦ subst HasValue (same_point→eq old_point p old) old_value
    | inr neither ↦ ground (arith, among, other, neither)
  ]
]

process_blocks-Spends_example :
    (cache utxo : UtxoDetailsMap) × (process_blocks old_outputs paying_blocks
        (tx_id_map_from_blocks paying_blocks regtest)
        []
      ≡ ok (cache, utxo))
    × Spends old_outputs regtest paying_blocks [] cache utxo
process_blocks-Spends_example =
    process_blocks-Spends old_outputs regtest paying_blocks [] paying-DistinctHeights
      paying-Distinct paying_known
