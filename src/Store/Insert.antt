-- ===== src/Store/Insert.antt =====
-- `insert` of `IndexerStore` in src/db/pg.rs, with the reorgs that it collects and finishes.
use rust_bitcoin_indexer.Base.{
  ℕ, ◌+◌, ◌-◌, ◌%◌, ◌&&◌, Bool, true, false, not, Option, none, some, List, [], ◌∷◌, ◌++◌, map, leb,
  ◌==◌, if◌then◌else◌, length,
}
use rust_bitcoin_indexer.Base.Outcome.{Outcome, ok, err, panic, ◌>>=◌, ◌>>◌, assert}
use rust_bitcoin_indexer.BTreeMap
use rust_bitcoin_indexer.BTreeMap.{BTreeMap, split_below, split_from}
use rust_bitcoin_indexer.Types.{BlockHeight, BlockHash, u32_size}
use rust_bitcoin_indexer.Bitcoin.{BlockData, Network}
use rust_bitcoin_indexer.Hash.{hash_to_hash_id}
use rust_bitcoin_indexer.Db.{
  Db, BlockRow, find_block, height_bound, live_at, live_desc, set_extinct, revive, insert_events,
  clear_current_height,
}
use rust_bitcoin_indexer.Format.{normal, is_bulk, u64_size}
use rust_bitcoin_indexer.Store.{
  IndexerStore, read_db_block_hash_by_height, process_batch, stop_workers, start_workers,
  flush_batch, flush_workers, set_mode,
}

unfoldable pub is_in_reorg : IndexerStore → Bool
unfolding BTreeMap.is_empty
is_in_reorg s = not (BTreeMap.is_empty s.pending_reorg)

unfoldable pub are_workers_stopped : IndexerStore → Bool
are_workers_stopped s = elim s.pipeline [ none ↦ true | some w ↦ false ]

-- The first pending height at which the database has another block.
unfoldable pub first_different : Db → BTreeMap BlockData → Option BlockHeight
unfolding read_db_block_hash_by_height
first_different db [] = none
first_different db ((height, block) ∷ pending) =
    let rest = first_different db pending in
    elim (read_db_block_hash_by_height db height) [
      | none ↦ rest
      | some existing_hash ↦ if existing_hash == block.id then rest else some block.height
    ]

-- The reverts and the extinct blocks.
unfoldable pub revert_from : BlockHeight → Db → Db
revert_from from db =
    let ids = map (λ (r : BlockRow). r.hash_id) (live_desc (height_bound db.block) from db.block) in
    record (insert_events true ids db) { block = set_extinct from db.block }

-- Whether no block at a height is part of the chain, of which the index
-- `block_height_for_not_extinct` lets there be one: reviving another is an error.
unfoldable pub is_free : BlockHeight → List BlockRow → Bool
unfolding live_at
is_free h rows = length (live_at h rows) == 0

-- An indexed block becomes part of the chain again.
unfoldable pub revive_block : BlockData → Db → Db
revive_block block db = insert_events false (hash_to_hash_id block.id ∷ []) (record db {
  block = revive (hash_to_hash_id block.id) db.block;
  tx = clear_current_height block.height db.tx;
})

-- The loop over the pending blocks: the database with the indexed ones revived, and the others.
unfoldable pub replay_pending :
    Option BlockHeight → BTreeMap BlockData → Db → List BlockData → Outcome (Db × List BlockData)
unfolding revive_block is_free
replay_pending prev_height [] db batch = ok (db, batch)
replay_pending prev_height ((height, block) ∷ pending) db batch = do
  assert (elim prev_height [ none ↦ true | some prev ↦ (prev + 1) % u32_size == height ])
  elim (find_block (hash_to_hash_id block.id) db.block) [
    | none ↦ replay_pending (some block.height) pending db (batch ++ block ∷ [])
    | some row ↦
        let revived = replay_pending (some block.height) pending (revive_block block db) batch in
        if row.extinct then (if is_free row.height db.block then revived else err) else panic
  ]

abbrev pub or_height : Option BlockHeight → BlockHeight → BlockHeight
or_height none h = h
or_height (some k) h = k

abbrev pub tx_count : List BlockData → ℕ
tx_count [] = 0
tx_count (b ∷ bs) = length b.payload.txdata + tx_count bs

module _ (address : Network → ℕ → Option ℕ) where
  -- All of it is one transaction, which is committed when the batch is written.
  unfoldable pub finish_reorg : IndexerStore → Outcome IndexerStore
  finish_reorg s = do
    let from = or_height (first_different s.db s.pending_reorg) s.chain_block_count
    (db, fresh) ← replay_pending none (split_from from s.pending_reorg) (revert_from from s.db) []
    let batch = s.batch ++ fresh
    assert (not (length batch == 0))
    (cache, db') ← process_batch address s.mode s.network batch [] db
    ok (
        start_workers (record s {
          pending_reorg = [];
          db = db';
          batch = [];
          batch_txs_total = (s.batch_txs_total + tx_count fresh) % u64_size;
          chain_block_count = (s.chain_block_count + 1) % u32_size;
        }))

  unfoldable pub insert_when_in_reorg : IndexerStore → BlockData → Outcome IndexerStore
  unfolding finish_reorg
  insert_when_in_reorg s block = do
    assert (leb block.height s.chain_block_count)
    let pending = BTreeMap.insert block.height block (split_below block.height s.pending_reorg)
    let s' = record s { pending_reorg = pending }
    let finished = finish_reorg s'
    if block.height == s.chain_block_count then finished else ok s'

  -- A block below the tip: one that is there already, or the first of a reorg.
  unfoldable pub insert_below_tip : IndexerStore → BlockData → Outcome IndexerStore
  unfolding read_db_block_hash_by_height
  insert_below_tip s block = do
    flushed ← flush_batch s
    stopped ← stop_workers address flushed
    elim (read_db_block_hash_by_height stopped.db block.height) [
      | none ↦ panic
      | some db_hash ↦ if db_hash == block.id then ok (start_workers stopped) else (do
        assert (length stopped.batch == 0)
        ok (record stopped {
          pending_reorg = BTreeMap.insert block.height block stopped.pending_reorg;
        }))
    ]

  -- A block on top of the tip.
  unfoldable pub insert_on_tip : IndexerStore → BlockData → Outcome IndexerStore
  unfolding is_bulk
  insert_on_tip s block = do
    let grown = record s {
      batch_txs_total = (s.batch_txs_total + length block.payload.txdata) % u64_size;
      batch = s.batch ++ block ∷ [];
      chain_block_count = (s.chain_block_count + 1) % u32_size;
    }
    let keep = is_bulk s.mode && leb grown.batch_txs_total 100_000
    flushed ← (if keep then ok grown else flush_batch grown)
    if s.node_chain_head_height == block.height then set_mode address normal flushed else ok flushed

  unfoldable pub insert_when_at_tip : IndexerStore → BlockData → Outcome IndexerStore
  unfolding insert_below_tip insert_on_tip
  insert_when_at_tip s block =
      assert (leb block.height s.chain_block_count)
      >> (if block.height == s.chain_block_count
          then insert_on_tip s block
          else insert_below_tip s block)

  unfoldable pub insert : IndexerStore → BlockData → Outcome IndexerStore
  unfolding is_in_reorg insert_when_in_reorg insert_when_at_tip
  insert s block =
      if is_in_reorg s then insert_when_in_reorg s block else insert_when_at_tip s block

  unfoldable pub get_hash_by_height :
      IndexerStore → BlockHeight → Outcome (Option BlockHash × IndexerStore)
  unfolding read_db_block_hash_by_height
  get_hash_by_height s height =
      if leb s.chain_block_count height
      then ok (none, s)
      else elim (BTreeMap.get height s.pending_reorg) [
        | some block ↦ ok (some block.id, s)
        | none ↦ do
          flushed ← flush_workers address s
          ok (read_db_block_hash_by_height flushed.db height, flushed)
      ]

unfoldable pub get_head_height : IndexerStore → Option BlockHeight
get_head_height s = if s.chain_block_count == 0 then none else some (s.chain_block_count - 1)
