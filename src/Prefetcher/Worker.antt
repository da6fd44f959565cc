-- ===== src/Prefetcher/Worker.antt =====
-- The worker threads of src/node/prefetcher.rs: `Worker` and its loop, the counter that the workers of
-- a session share, and the channel.
use rust_bitcoin_indexer.Base.{
  ℕ, ◌+◌, ◌-◌, ◌*◌, ◌%◌, ◌^◌, ◌<◌, ◌≡◌, Bool, true, false, Option, none, some, List, [], ◌∷◌, ◌++◌,
  ◌==◌, if◌then◌else◌,
}
use rust_bitcoin_indexer.Base.Outcome.{Outcome, ok, err, panic, blocked, out_of_fuel, ◌>>=◌}
use rust_bitcoin_indexer.BTreeMap.{BTreeMap, get, insert, remove, first}
use rust_bitcoin_indexer.Types.{BlockHeight, BlockHash, u32_size, RpcBlockWithPrevId}

-- The two calls of the node's client. Each answer may be another one at the next call.
pub record Rpc (D : Type 0) : Type 0 where
  pub get_block_id_by_height : BlockHeight → Outcome (Option BlockHash)
  pub get_block_by_id : BlockHash → Outcome (Option (D × BlockHash))

-- `Worker::get_block_by_height`
unfoldable pub get_block_by_height :
    {D : Type 0} → Rpc D → BlockHeight → Outcome (Option (RpcBlockWithPrevId D))
get_block_by_height rpc height = do
  found ← rpc.get_block_id_by_height height
  elim found [
    | none ↦ ok none
    | some id ↦ do
      answer ← rpc.get_block_by_id id
      elim answer [
        | none ↦ ok none
        | some (payload, prev_block_id) ↦ ok (
            some (record {
              block = record { height = height; id = id; payload = payload };
              prev_block_id = prev_block_id;
            }))
      ]
  ]

-- Where a worker's loop stands.
pub data Pc : Type 0 where
  idle stopped : Pc
  fetching : BlockHeight → Pc

-- `in_progress` is a set. It is made for each worker anew, so no two share one.
pub record Worker : Type 0 where
  pub pc : Pc
  pub in_progress : BTreeMap (Unit {0})

-- What the workers of a session share: the counter, the flag and the channel.
pub record Shared (D : Type 0) : Type 0 where
  pub next_height : ℕ
  pub workers_finish : Bool
  pub sent : List (RpcBlockWithPrevId D)

-- `fetch_add` on a `usize`, and the cast to a height.
unfoldable pub get_height_to_fetch : {D : Type 0} → Shared D → Worker → Shared D × Worker
get_height_to_fetch s w =
    let height = s.next_height % u32_size in
    (
      record s { next_height = (s.next_height + 1) % 2 ^ 64 },
      record { pc = fetching height; in_progress = insert height tt w.in_progress },
    )

unfoldable pub get_min_height_in_progress : Worker → Option BlockHeight
get_min_height_in_progress w = elim (first w.in_progress) [
  | none ↦ none
  | some (height, _) ↦ some height
]

unfoldable pub mark_height_fetched : BlockHeight → Worker → Outcome Worker
mark_height_fetched height w = elim (get height w.in_progress) [
  | none ↦ panic
  | some _ ↦ ok (record w { in_progress = remove height w.in_progress })
]

-- The milliseconds of sleep after an error at a height.
unfoldable pub error_delay : ℕ → BlockHeight → Worker → Outcome ℕ
unfolding get_min_height_in_progress
error_delay retry_delay height w = elim (get_min_height_in_progress w) [
  | none ↦ panic
  | some min ↦ ok ((1 + retry_delay) * (height - min))
]

-- What the loop `'retry` does with an answer.
unfoldable pub handle :
    {D : Type 0}
    → ℕ
    → BlockHeight
    → Shared D
    → Worker
    → Outcome (Option (RpcBlockWithPrevId D))
    → Outcome (Shared D × Worker)
unfolding error_delay mark_height_fetched
handle retry_delay height s w (ok none) = ok (s, w)
handle retry_delay height s w (ok (some item)) = do
  marked ← mark_height_fetched height w
  ok (record s { sent = s.sent ++ item ∷ [] }, record marked { pc = idle })
handle retry_delay height s w err = do delay ← error_delay retry_delay height w; ok (s, w)
handle retry_delay height s w panic = panic
handle retry_delay height s w blocked = blocked
handle retry_delay height s w out_of_fuel = out_of_fuel

-- One step of `Worker::run`: it takes a height, or looks at the flag and asks the node.
unfoldable pub work : {D : Type 0} → ℕ → Rpc D → Shared D → Worker → Outcome (Shared D × Worker)
unfolding get_height_to_fetch get_block_by_height handle
work retry_delay rpc s w = elim w.pc [
  | idle ↦ ok (get_height_to_fetch s w)
  | stopped ↦ ok (s, w)
  | fetching height ↦
      let asked = handle retry_delay height s w (get_block_by_height rpc height) in
      if s.workers_finish then ok (s, record w { pc = stopped }) else asked
]

pub record Session (D : Type 0) : Type 0 where
  pub shared : Shared D
  pub worker : ℕ → Worker

-- `start_workers`: the counter stands at the current height, and no worker has begun.
abbrev pub begin : {D : Type 0} → BlockHeight → Session D
begin height = record {
  shared = record { next_height = height; workers_finish = false; sent = [] };
  worker = λ _. record { pc = idle; in_progress = [] };
}

abbrev pub set : (ℕ → Worker) → ℕ → Worker → ℕ → Worker
set workers i w j = if j == i then w else workers j

-- What the node's client documents: the parent's id is the one of the block, and a height that has a
-- block is not the last one that fits in 32 bits.
pub record IsNode {D : Type 0} (prev : D → BlockHash) (rpc : Rpc D) : Type 0 where
  pub parent :
      (id prev_block_id : BlockHash) (payload : D)
      → rpc.get_block_by_id id ≡ ok (some (payload, prev_block_id))
      → prev_block_id ≡ prev payload
  pub fits :
      (height : BlockHeight) (id : BlockHash)
      → rpc.get_block_id_by_height height ≡ ok (some id)
      → height + 1 < u32_size

-- Any worker takes a step, with whatever the node answers, or the flag is set.
pub data Step {D : Type 0} (prev : D → BlockHash) (retry_delay threads : ℕ) (s : Session D)
    : Session D → Type 0 where
  works :
      (i : ℕ) (rpc : Rpc D) (shared : Shared D) (w : Worker)
      → i < threads
      → IsNode prev rpc
      → work retry_delay rpc s.shared (s.worker i) ≡ ok (shared, w)
      → Step prev retry_delay threads s (record { shared = shared; worker = set s.worker i w })
  finishes :
      Step prev retry_delay threads s
        (record s { shared = record s.shared { workers_finish = true } })

-- The sessions that workers started at a height come to.
pub data Reach {D : Type 0} (prev : D → BlockHash) (retry_delay threads : ℕ) (height : BlockHeight)
    : Session D → Type 0 where
  started : Reach prev retry_delay threads height (begin height)
  later :
      {s t : Session D}
      → Reach prev retry_delay threads height s
      → Step prev retry_delay threads s t
      → Reach prev retry_delay threads height t
