-- ===== src/Prefetcher/WorkerTests.antt =====
-- A session of worker threads of src/node/prefetcher.rs that sends one block.
use rust_bitcoin_indexer.Base.{
  ℕ, zero, suc, ◌+◌, ◌-◌, ◌<◌, ◌≡◌, ◌⊎◌, refl, inl, inr, Option, none, some, [], ◌∷◌, arith, ltb,
  if◌then◌else◌,
}
use rust_bitcoin_indexer.Base.Outcome.{ok, err}
use rust_bitcoin_indexer.Types.{BlockHeight, BlockHash, RpcBlockWithPrevId}
use rust_bitcoin_indexer.BTreeMap.{get, insert, remove}
use rust_bitcoin_indexer.Prefetcher.{Deliveries}
use rust_bitcoin_indexer.Prefetcher.Session.{AreSessions}
use rust_bitcoin_indexer.Prefetcher.Worker.{
  Rpc, IsNode, Worker, Shared, Session, begin, set, idle, fetching, Reach, started, later, works,
  work, error_delay, get_block_by_height, get_height_to_fetch, handle, mark_height_fetched,
}
use rust_bitcoin_indexer.Prefetcher.Sends.{StaysBelow, Reach-Works, Reach-AreSessions}

-- The payload is the parent's hash, and the ids are ten more than the heights.
abbrev node : Rpc BlockHash
node = record {
  get_block_id_by_height = λ h. if ltb h 100 then ok (some (h + 10)) else ok none;
  get_block_by_id = λ id. ok (some (id - 1, id - 1));
}

abbrev parent_of : BlockHash → BlockHash
parent_of x = x

node-IsNode : IsNode parent_of node
node-IsNode = record {
  parent = λ id parent payload e. ground arith;
  fits = λ height id e. ground arith;
}

abbrev item : RpcBlockWithPrevId BlockHash
item = record { block = record { height = 1; id = 11; payload = 10 }; prev_block_id = 10 }

-- The first worker takes the height 1, and then it sends the block.
abbrev taken : Session BlockHash
taken = record {
  shared = record (begin 1).shared { next_height = 2 };
  worker =
      set (begin {D = BlockHash} 1).worker 0
        (record { pc = fetching 1; in_progress = (1, tt) ∷ [] });
}

abbrev sent : Session BlockHash
sent = record {
  shared = record taken.shared { sent = item ∷ [] };
  worker = set taken.worker 0 (record { pc = idle; in_progress = [] });
}

takes :
    work 100 node (begin {D = BlockHash} 1).shared ((begin {D = BlockHash} 1).worker 0)
    ≡ ok (taken.shared, taken.worker 0)
unfolding work get_height_to_fetch insert
takes = refl

sends : work 100 node taken.shared (taken.worker 0) ≡ ok (sent.shared, sent.worker 0)
unfolding work get_block_by_height handle mark_height_fetched get remove
sends = refl

abbrev taken-Reach : (threads : ℕ) → 0 < threads → Reach parent_of 100 threads 1 taken
taken-Reach threads lt =
    later started (works 0 node taken.shared (taken.worker 0) lt node-IsNode takes)

abbrev sent-Reach : (threads : ℕ) → 0 < threads → Reach parent_of 100 threads 1 sent
sent-Reach threads lt =
    later (taken-Reach threads lt) (works 0 node sent.shared (sent.worker 0) lt node-IsNode sends)

abbrev workers : Deliveries BlockHash
workers session (suc threads) (suc zero) = item ∷ []
workers session threads height = []

Reach-AreSessions_example : AreSessions parent_of workers
Reach-AreSessions_example = Reach-AreSessions parent_of 100 workers reached
  where
    reached :
        (session threads : ℕ) (height : BlockHeight)
        → (workers session threads height ≡ [])
          ⊎ ((s : Session BlockHash) × (r : Reach parent_of 100 threads height s) × StaysBelow
                parent_of height 100 threads r
              × (workers session threads height ≡ s.shared.sent))
    reached session zero height = inl refl
    reached session (suc threads) zero = inl refl
    reached session (suc threads) (suc zero) = inr (
      sent,
      sent-Reach (suc threads) (omega arith),
      ((omega arith, omega arith), omega arith),
      refl,
    )
    reached session (suc threads) (suc (suc h)) = inl refl

-- A node that fails.
abbrev down : Rpc BlockHash
down = record { get_block_id_by_height = λ h. err; get_block_by_id = λ id. err }

down_answers :
    (h : BlockHeight)
    → ((a : Option (RpcBlockWithPrevId BlockHash)) × (get_block_by_height down h ≡ ok a))
      ⊎ (get_block_by_height down h ≡ err)
unfolding get_block_by_height
down_answers h = inr refl

Reach-Works_example :
    ((t : Shared BlockHash × Worker) × (work 100 down taken.shared (taken.worker 0) ≡ ok t))
    × ((h : BlockHeight)
        → (taken.worker 0).pc ≡ fetching h
        → error_delay 100 h (taken.worker 0) ≡ ok 0)
Reach-Works_example =
    Reach-Works parent_of 1 100 8 (taken-Reach 8 (omega arith)) (omega arith, omega arith) 0 down
      down_answers
