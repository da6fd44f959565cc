-- ===== src/Utxo/Spending.antt =====
-- `process_blocks` of src/db/pg.rs: the outputs that stay in the cache, and the values of the spent ones.
use rust_bitcoin_indexer.Base.{
  ℕ, ◌≡◌, ◌∙◌, sym, refl, true, Option, none, some, List, [], if◌then◌else◌, arith,
}
use rust_bitcoin_indexer.Base.Outcome.{ok}
use rust_bitcoin_indexer.Bitcoin.{BlockData, Network}
use rust_bitcoin_indexer.Db.{OutputRow}
use rust_bitcoin_indexer.Utxo.{
  tx_id_map_from_blocks, HashIdOutPoint, UtxoDetailsMap, find_utxo, insert_all_utxos, is_among,
  spent_by_blocks, Consumed, consume_spent_utxos, consume_spent_utxos_from_blocks, process_blocks,
}
use rust_bitcoin_indexer.Utxo.Maps.{or_else, Distinct, find-insert_all}
use rust_bitcoin_indexer.Utxo.Consuming.{
  missing_of, consume-entries, consume-found, consume-missing, is_among-missing_of,
  missing_of-Distinct,
}
use rust_bitcoin_indexer.Utxo.Fetching.{row_value, fetch_missing_utxos-Fetched}
use rust_bitcoin_indexer.Utxo.Creating.{
  created, DistinctHeights, tx_id_map_from_blocks-Knows, insert_new_utxos_from_blocks-created,
}

module _ (table : List OutputRow) (network : Network) (blocks : List BlockData)
    (cache : UtxoDetailsMap) where
  -- The outputs that are known once the blocks' own are: cached or created ones.
  abbrev pub grown : UtxoDetailsMap
  grown = insert_all_utxos (created network blocks) cache

  -- The value of an output, from the cache and the blocks or else from the table.
  abbrev pub value_of : HashIdOutPoint → Option ℕ
  value_of p = or_else (find_utxo p grown) (row_value p table)

  -- The spent outputs leave the cache, and their values, and no others, are given.
  pub record Spends (cache' utxo : UtxoDetailsMap) : Type 0 where
    pub left :
        (p : HashIdOutPoint)
        → find_utxo p cache'
          ≡ (if is_among p (spent_by_blocks blocks) then none else find_utxo p grown)
    pub values :
        (p : HashIdOutPoint)
        → find_utxo p utxo ≡ (if is_among p (spent_by_blocks blocks) then value_of p else none)

  abbrev start : Consumed
  start = record { entries = grown; found = []; missing = [] }

  -- For blocks at different heights, in which no output is spent twice and each spent output is
  -- cached, created by the blocks or in the table, `process_blocks` succeeds: the cache keeps the
  -- cached and created outputs but the spent ones, and the map it gives has the value of each
  -- spent output and no others.
  pub process_blocks-Spends :
      DistinctHeights blocks
      → Distinct (spent_by_blocks blocks)
      → ((p : HashIdOutPoint)
          → is_among p (spent_by_blocks blocks) ≡ true
          → (v : ℕ) × (value_of p ≡ some v))
      → (cache' utxo : UtxoDetailsMap) × (process_blocks table blocks
            (tx_id_map_from_blocks blocks network)
            cache
          ≡ ok (cache', utxo))
        × Spends cache' utxo
  unfolding process_blocks consume_spent_utxos_from_blocks
  process_blocks-Spends heights once known =
      let points = spent_by_blocks blocks in
      let grow =
        insert_new_utxos_from_blocks-created network (tx_id_map_from_blocks blocks network) blocks
          cache (tx_id_map_from_blocks-Knows network blocks heights) in
      let asked : (p : HashIdOutPoint)
          → is_among p (missing_of grown points) ≡ true
          → (v : ℕ) × (row_value p table ≡ some v) =
        λ p among.
          let both = sym (is_among-missing_of p grown points) ∙ among in
          let (v, e) = known p (ground (arith, both)) in (v, ground (arith, both, e)) in
      let missed : (consume_spent_utxos points start).missing ≡ missing_of grown points =
        consume-missing points start once in
      let (fetched, done, k) =
        fetch_missing_utxos-Fetched table (missing_of grown points)
          (missing_of-Distinct grown points once) asked in
      (
        (consume_spent_utxos points start).entries,
        insert_all_utxos fetched (consume_spent_utxos points start).found,
        rw (grow, missed, done) refl,
        record {
          left = λ p. consume-entries p points start;
          values = λ p.
              find-insert_all p fetched _ k.is_map
              ∙ (ground (
                arith,
                k.values p,
                consume-found p points start,
                is_among-missing_of p grown points,
              ));
        },
      )
