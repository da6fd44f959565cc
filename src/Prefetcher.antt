-- ===== src/Prefetcher.antt =====
-- `Prefetcher` of src/node/prefetcher.rs: the iterator that hands out blocks in order and steps back
-- when the node has switched to another chain. The channel is the list of what the workers of the
-- running session send, in the order of arrival; an exhausted list means that `recv` waits for ever.
pub mod Window
pub mod Session
pub mod Chain
pub mod Tracking
pub mod Next
pub mod Progress
pub mod Order
pub mod Worker
pub mod Client
pub mod Rounds
pub mod Sends
pub mod Origin
pub mod Tests
pub mod WorkerTests
pub mod ClientTests
use rust_bitcoin_indexer.Base.{
  ℕ, zero, suc, ◌+◌, ◌-◌, ◌%◌, Bool, true, false, not, Option, none, some, List, [], ◌∷◌, ltb, leb,
  ◌==◌, if◌then◌else◌, length,
}
use rust_bitcoin_indexer.Base.Outcome.{
  Outcome, ok, panic, blocked, out_of_fuel, ◌>>=◌, ◌>>◌, assert,
}
use rust_bitcoin_indexer.BTreeMap.{BTreeMap, get, insert, remove, first, last}
use rust_bitcoin_indexer.Types.{
  BlockHeight, BlockHash, u32_size, WithHeightAndId, RpcBlockWithPrevId,
}

pub record Prefetcher (D : Type 0) : Type 0 where
  pub rx : Option (List (RpcBlockWithPrevId D))
  pub thread_joins : ℕ
  pub out_of_order_items : BTreeMap (RpcBlockWithPrevId D)
  pub cur_height : BlockHeight
  pub prev_hashes : BTreeMap BlockHash
  pub workers_finish : Bool
  pub thread_num : ℕ
  pub end_of_fast_sync : BlockHeight
  -- How many times workers were started: it tells apart what each session's workers send.
  pub sessions : ℕ

-- What the workers of a session send, by the session, the thread count and the start height.
abbrev pub Deliveries : Type 0 → Type 0
Deliveries D = ℕ → ℕ → BlockHeight → List (RpcBlockWithPrevId D)

abbrev pub window_size : ℕ
window_size = 1000

-- The height to start at and the hashes to start with.
unfoldable pub starting_point : Option (BlockHeight × BlockHash) → BlockHeight × BTreeMap BlockHash
starting_point none = (0, [])
starting_point (some (height, id)) = ((height + 1) % u32_size, (height, id) ∷ [])

module _ {D : Type 0} (workers : Deliveries D) where
  unfoldable pub start_workers : Prefetcher D → Outcome (Prefetcher D)
  start_workers p = do
    assert (p.thread_joins == 0)
    ok (record p {
      workers_finish = false;
      rx = some (workers p.sessions p.thread_num p.cur_height);
      thread_joins = p.thread_num;
      sessions = suc p.sessions;
    })

  -- `Prefetcher::new`, given the number of processors and the node's block count.
  unfoldable pub new : ℕ → BlockHeight → Option (BlockHeight × BlockHash) → Outcome (Prefetcher D)
  unfolding start_workers starting_point
  new cpus block_count last_block = start_workers (record {
    rx = none;
    thread_joins = 0;
    out_of_order_items = [];
    cur_height = (starting_point last_block).0;
    prev_hashes = (starting_point last_block).1;
    workers_finish = false;
    thread_num = cpus + cpus;
    end_of_fast_sync = block_count;
    sessions = 0;
  })

-- The workers' channel is read to its end, and what came in is dropped.
unfoldable pub stop_workers : {D : Type 0} → Prefetcher D → Outcome (Prefetcher D)
stop_workers p = elim p.rx [
  | none ↦ panic
  | some items ↦
      ok (record p { workers_finish = true; rx = none; thread_joins = 0; out_of_order_items = [] })
]

-- No hash is recorded for the height below: the first block, or a reorg that is too deep.
unfoldable pub without_prev_hash : BlockHeight → BTreeMap BlockHash → Outcome Bool
without_prev_hash cur_height prev_hashes = elim (first prev_hashes) [
  | none ↦ panic
  | some (min, _) ↦ if ltb cur_height min then panic else elim (last prev_hashes) [
    | none ↦ panic
    | some (max, _) ↦ if cur_height == max + 1 then ok false else panic
  ]
]

-- Whether the block's parent is another block than the one recorded below it.
unfoldable pub is_reorg : BlockHeight → BTreeMap BlockHash → BlockHash → Outcome Bool
unfolding without_prev_hash
is_reorg cur_height prev_hashes prev_block_id =
    if ltb 0 cur_height
    then elim (get (cur_height - 1) prev_hashes) [
      | some stored_prev_id ↦ ok (not (stored_prev_id == prev_block_id))
      | none ↦ without_prev_hash cur_height prev_hashes
    ]
    else ok false

-- The hash is recorded, and the one that leaves the window is dropped.
unfoldable pub record_hash : BlockHeight → BlockHash → BTreeMap BlockHash → BTreeMap BlockHash
record_hash cur_height id prev_hashes =
    let hashes = insert cur_height id prev_hashes in
    if leb window_size cur_height then remove (cur_height - window_size) hashes else hashes

module _ {D : Type 0} where
  unfoldable pub track_reorgs : Prefetcher D → RpcBlockWithPrevId D → Outcome (Bool × Prefetcher D)
  track_reorgs p item = do
    assert (item.block.height == p.cur_height)
    reorg ← is_reorg p.cur_height p.prev_hashes item.prev_block_id
    let hashes = record_hash p.cur_height item.block.id p.prev_hashes
    let kept = assert (leb (length hashes) window_size)
    if reorg then ok (true, p) else (kept >> ok (false, record p { prev_hashes = hashes }))

  -- The inner loop of `next`: what arrives early is kept for later.
  unfoldable pub receive :
      BlockHeight
      → List (RpcBlockWithPrevId D)
      → BTreeMap (RpcBlockWithPrevId D)
      → Outcome
          (RpcBlockWithPrevId D × List (RpcBlockWithPrevId D) × BTreeMap (RpcBlockWithPrevId D))
  receive cur_height [] early = blocked
  receive cur_height (item ∷ rest) early =
      let later = receive cur_height rest (insert item.block.height item early) in
      if item.block.height == cur_height
      then ok (item, rest, early)
      else if ltb cur_height item.block.height
      then later
      else panic

  -- The item at the current height, from what arrived early or from the channel.
  unfoldable pub take_item : Prefetcher D → Outcome (RpcBlockWithPrevId D × Prefetcher D)
  unfolding receive
  take_item p = elim (get p.cur_height p.out_of_order_items) [
    | some item ↦
        ok (item, record p { out_of_order_items = remove p.cur_height p.out_of_order_items })
    | none ↦ elim p.rx [
      | none ↦ panic
      | some items ↦ do
        (item, rest, early) ← receive p.cur_height items p.out_of_order_items
        ok (item, record p { rx = some rest; out_of_order_items = early })
    ]
  ]

module _ {D : Type 0} (workers : Deliveries D) where
  unfoldable pub reset_on_reorg : Prefetcher D → Outcome (Prefetcher D)
  unfolding stop_workers start_workers
  reset_on_reorg p = do
    stopped ← stop_workers p
    assert (ltb 0 stopped.cur_height)
    start_workers workers (record stopped { cur_height = stopped.cur_height - 1 })

  -- The loop `'retry_on_reorg`, a round for each unit of fuel.
  unfoldable pub next_block : ℕ → Prefetcher D → Outcome (WithHeightAndId D × Prefetcher D)
  next_block zero p = out_of_fuel
  next_block (suc fuel) p = do
    (item, taken) ← take_item p
    (reorg, tracked) ← track_reorgs taken item
    let again = reset_on_reorg tracked >>= next_block fuel
    let done = record tracked { cur_height = (tracked.cur_height + 1) % u32_size }
    if reorg then again else ok (item.block, done)

  -- At the end of the fast sync the workers are replaced by one.
  unfoldable pub end_fast_sync : Prefetcher D → Outcome (Prefetcher D)
  unfolding stop_workers start_workers
  end_fast_sync p =
      if p.end_of_fast_sync == p.cur_height
      then (do stopped ← stop_workers p; start_workers workers (record stopped { thread_num = 1 }))
      else ok p

  -- `Iterator::next`. Each retry lowers the height, so `cur_height + 1` rounds are enough.
  unfoldable pub next : Prefetcher D → Outcome (WithHeightAndId D × Prefetcher D)
  unfolding end_fast_sync next_block
  next p = do ready ← end_fast_sync p; next_block (suc ready.cur_height) ready
