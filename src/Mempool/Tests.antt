-- ===== src/Mempool/Tests.antt =====
-- A round of src/bin/mempool-indexer.rs over three ids, one of them twice.
use rust_bitcoin_indexer.Base.{
  ℕ, ◌+◌, ◌≤◌, ◌≡◌, refl, Bool, true, false, Option, none, some, [], ◌∷◌, arith, length,
}
use rust_bitcoin_indexer.Base.Outcome.{ok}
use rust_bitcoin_indexer.Hash.{hash_to_hash_id, hash_rest}
use rust_bitcoin_indexer.Bitcoin.{Transaction, bitcoin}
use rust_bitcoin_indexer.Store.{contains_hash, insert_hashes}
use rust_bitcoin_indexer.Store.Tests.{no_address, two_db}
use rust_bitcoin_indexer.Utxo.{fetch_outputs}
use rust_bitcoin_indexer.Db.Constraints.{has_key}
use rust_bitcoin_indexer.Format.{fmt_tx, insert_keyed}
use rust_bitcoin_indexer.Mempool.{
  insert, insert_tx_data, input_points, Scan, max_done, begin_round, count_result, scan,
}
use rust_bitcoin_indexer.Mempool.Rounds.{round_bounds, round_repeats}

abbrev empty_tx : ℕ → Option Transaction
empty_tx id =
    some (record {
      txid = id;
      weight = 4;
      lock_time = 0;
      is_coin_base = true;
      input = [];
      output = [];
    })

abbrev reads_all : ℕ → Bool
reads_all id = true

abbrev at_first : Scan
at_first = record {
  store = record { db = two_db; network = bitcoin };
  done = [];
  inserted = 0;
  failed = 0;
}

one_round :
    (t : Scan) × (scan no_address empty_tx reads_all (7 ∷ 9 ∷ 7 ∷ []) (begin_round at_first) ≡ ok t)
unfolding scan begin_round contains_hash insert fetch_outputs input_points insert_tx_data fmt_tx
    insert_keyed has_key count_result insert_hashes hash_to_hash_id hash_rest
one_round = (_, refl)

all_inserted : (one_round.0.inserted ≡ 2) × (one_round.0.failed ≡ 0) × (length one_round.0.done ≡ 2)
unfolding one_round
all_inserted = (refl, refl, refl)

round_bounds_example :
    (length one_round.0.done ≡ length (begin_round at_first).done + one_round.0.inserted)
    × (one_round.0.inserted + one_round.0.failed ≤ 3)
    × (length one_round.0.done ≤ max_done + 3)
round_bounds_example =
    round_bounds no_address empty_tx reads_all (7 ∷ 9 ∷ 7 ∷ []) at_first one_round.0 one_round.1

round_repeats_example :
    scan no_address (λ _. none) (λ _. false) (7 ∷ 9 ∷ 7 ∷ []) (begin_round one_round.0)
    ≡ ok (begin_round one_round.0)
round_repeats_example =
    round_repeats no_address empty_tx (λ _. none) reads_all (λ _. false) (7 ∷ 9 ∷ 7 ∷ []) at_first
      one_round.0 one_round.1 all_inserted.1 (omega (arith, all_inserted.2))
