-- ===== src/Indexer/Tests.antt =====
-- A run of src/main.rs on a database with two blocks, over a node that has another block at height 1.
use rust_bitcoin_indexer.Base.{
  ℕ, zero, suc, ◌≡◌, ◌⊎◌, refl, some, true, Option, none, [], ◌∷◌, arith, All,
}
use rust_bitcoin_indexer.Format.{all_fit}
use rust_bitcoin_indexer.Base.Outcome.{ok, err, ◌>>=◌}
use rust_bitcoin_indexer.BTreeMap
use rust_bitcoin_indexer.BTreeMap.{split_below, split_from}
use rust_bitcoin_indexer.Types.{BlockHeight, BlockHash, RpcBlockWithPrevId}
use rust_bitcoin_indexer.Bitcoin.{Block, BlockData, bitcoin}
use rust_bitcoin_indexer.Hash.{hash_to_hash_id, hash_id_and_rest_to_hash}
use rust_bitcoin_indexer.Db.{
  Db, OutputRow, live_desc, height_bound, live_at, insert_events, find_block, set_extinct,
  insert_blocks,
}
use rust_bitcoin_indexer.Prefetcher.{
  Prefetcher, Deliveries, take_item, track_reorgs, is_reorg, record_hash, receive,
}
use rust_bitcoin_indexer.Prefetcher
use rust_bitcoin_indexer.Prefetcher.Session.{AreSessions}
use rust_bitcoin_indexer.Store.{
  IndexerStore, process_batch, flush_batch, flush_workers, read_db_block_hash_by_height,
}
use rust_bitcoin_indexer.Store.Insert.{
  insert, get_head_height, get_hash_by_height, replay_pending, first_different, revert_from,
}
use rust_bitcoin_indexer.Store.Coherent.{IsCoherent}
use rust_bitcoin_indexer.Store.Linked.{LinkedView}
use rust_bitcoin_indexer.Store.Start
use rust_bitcoin_indexer.Db.Constraints.{normal_keys_hold, foreign_keys_hold}
use rust_bitcoin_indexer.Store.Start.{live_rows}
use rust_bitcoin_indexer.Store.Recovery.{HasKeys, Started, new-Decides}
use rust_bitcoin_indexer.Store.Tests.{no_address, empty_block, two_db, two_db-IsCoherent}
use rust_bitcoin_indexer.Store.IndexingTests.{block_of, two_db-AreGenuine}
use rust_bitcoin_indexer.Indexer.{Indexer, new, run}
use rust_bitcoin_indexer.Indexer.Chain.{chain_of}
use rust_bitcoin_indexer.Indexer.Follow.{parent_id, AreBlocks, Follows}
use rust_bitcoin_indexer.Indexer.Run.{Ready, new-Ready, run-Follows}

abbrev item : BlockData → RpcBlockWithPrevId Block
item b = record { block = b; prev_block_id = b.payload.prev_blockhash }

-- The workers that start at height 1 send the two blocks of the other chain, the later one first, and
-- the one that starts at height 2, when the fast sync ends, sends the later one.
abbrev sends : Deliveries Block
sends session threads (suc zero) = item (empty_block 2 31 21) ∷ item (empty_block 1 21 10) ∷ []
sends session threads (suc (suc zero)) = item (empty_block 2 31 21) ∷ []
sends session threads _ = []

sends-AreBlocks : AreBlocks block_of sends
unfolding hash_to_hash_id
sends-AreBlocks = record { sessions = good; genuine = true_blocks }
  where
    good : AreSessions parent_id sends
    good session threads zero = (tt, tt)
    good session threads (suc zero) = ground arith
    good session threads (suc (suc zero)) = ground arith
    good session threads (suc (suc (suc h))) = (tt, tt)

    true_blocks :
        (session threads : ℕ) (height : BlockHeight)
        → All
            (λ item. block_of (hash_to_hash_id item.block.id) ≡ item.block)
            (sends session threads height)
    true_blocks session threads zero = tt
    true_blocks session threads (suc zero) = (refl, (refl, tt))
    true_blocks session threads (suc (suc zero)) = (refl, tt)
    true_blocks session threads (suc (suc (suc h))) = tt

two-LinkedView : LinkedView block_of (20 ∷ 10 ∷ [])
unfolding hash_to_hash_id
two-LinkedView = record { linked = λ h x y up down. ground arith; named = λ h x at. ground arith }

-- The database knows its mode.
marked : two_db.bulk_mode ≡ none → two_db.block ≡ []
marked e = cc

two_db-HasKeys : HasKeys two_db
unfolding normal_keys_hold foreign_keys_hold
two_db-HasKeys = (λ e. cc, λ e. refl)

-- Two outputs with one key, which the fresh bulk mode lets in.
abbrev repeated_output : OutputRow
repeated_output = record { tx_hash_id = 7; tx_idx = 0; value = 50; address = none }

abbrev repeating_db : Db
repeating_db = record two_db {
  output = repeated_output ∷ repeated_output ∷ [];
  bulk_mode = some true;
}

repeating_db-IsCoherent : IsCoherent 2 repeating_db (20 ∷ 10 ∷ [])
repeating_db-IsCoherent = record {
  current = two_db-IsCoherent.current;
  unique = two_db-IsCoherent.unique;
  in_range = two_db-IsCoherent.in_range;
  below = two_db-IsCoherent.below;
  log = two_db-IsCoherent.log;
}

new-Decides_example :
    (HasKeys repeating_db
      × ((s : IndexerStore) × (Start.new no_address repeating_db 2 bitcoin ≡ ok s)
          × Started repeating_db (20 ∷ 10 ∷ []) s))
    ⊎ (¬ HasKeys repeating_db × (Start.new no_address repeating_db 2 bitcoin ≡ err))
new-Decides_example =
    new-Decides no_address 2 bitcoin repeating_db (20 ∷ 10 ∷ []) repeating_db-IsCoherent (λ e. cc)

new-Ready_example :
    (x : Indexer) × (new no_address two_db 2 bitcoin ≡ ok x)
    × Ready block_of sends sends-AreBlocks no_address 4 2 bitcoin two_db
        (20 ∷ 10 ∷ [])
        two_db-IsCoherent
        marked
        two_db-AreGenuine
        two-LinkedView
        (omega arith)
        (omega arith)
        x
new-Ready_example =
    new-Ready block_of sends sends-AreBlocks no_address 4 2 bitcoin two_db (20 ∷ 10 ∷ [])
      two_db-IsCoherent marked two_db-AreGenuine two-LinkedView (omega arith) (omega arith)
      two_db-HasKeys

two_rounds :
    (r : Prefetcher Block × Indexer) × (new no_address two_db 2 bitcoin
        >>= run no_address sends 2 4 2
      ≡ ok r)
unfolding new run Start.new Prefetcher.new Prefetcher.next insert BTreeMap.is_empty replay_pending
    split_from BTreeMap.insert split_below first_different hash_id_and_rest_to_hash find_block
    revert_from set_extinct hash_to_hash_id process_batch insert_blocks get_head_height
    get_hash_by_height BTreeMap.get take_item track_reorgs is_reorg record_hash BTreeMap.remove
    BTreeMap.first BTreeMap.last receive flush_batch flush_workers height_bound live_rows
    read_db_block_hash_by_height live_at insert_events normal_keys_hold all_fit live_desc
two_rounds = (_, refl)

run-Follows_example :
    (from : Option (BlockHeight × BlockHash)) × (p : Prefetcher Block) × (Prefetcher.new sends 4 2
        from
      ≡ ok p)
    × Follows block_of sends sends-AreBlocks no_address 2 p
        (chain_of block_of (20 ∷ 10 ∷ []))
        two_rounds.0.0
        two_rounds.0.1
run-Follows_example =
    run-Follows block_of sends sends-AreBlocks no_address 4 2 bitcoin two_db (20 ∷ 10 ∷ [])
      two_db-IsCoherent marked two_db-AreGenuine two-LinkedView (omega arith) (omega arith) 2
      two_rounds.0.0 two_rounds.0.1 two_rounds.1
