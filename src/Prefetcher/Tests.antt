-- ===== src/Prefetcher/Tests.antt =====
-- A run of the prefetcher over a node that switches to another chain, as in src/tests.rs.
use rust_bitcoin_indexer.Base.{
  zero, suc, ltb, if◌then◌else◌, ◌≡◌, refl, none, some, List, [], ◌∷◌, inr, arith,
}
use rust_bitcoin_indexer.Base.Outcome.{ok}
use rust_bitcoin_indexer.Types.{
  BlockHeight, BlockHash, u32_size, WithHeightAndId, RpcBlockWithPrevId,
}
use rust_bitcoin_indexer.BTreeMap.{get}
use rust_bitcoin_indexer.Prefetcher.{Prefetcher, Deliveries, record_hash, receive, new, next}
use rust_bitcoin_indexer.Prefetcher.Window.{IsWindow, record_hash-IsWindow}
use rust_bitcoin_indexer.Prefetcher.Chain.{chain_insert, chain_insert_lem, IsLinked}
use rust_bitcoin_indexer.Prefetcher.Session.{IsSession, AreSessions, Receives, receive-Receives}
use rust_bitcoin_indexer.Prefetcher.Tracking.{IsTracking, Yields}
use rust_bitcoin_indexer.Prefetcher.Next.{next-Yields}
use rust_bitcoin_indexer.Prefetcher.Progress.{Supplies, IsSupplied, Returns, next-Returns}
use rust_bitcoin_indexer.Prefetcher.Order.{
  follow, FollowsChain, new_at_genesis, new_at_block, follow-FollowsChain,
}

-- The payload is the parent's hash.
abbrev block : BlockHeight → BlockHash → BlockHash → RpcBlockWithPrevId BlockHash
block height id parent = record {
  block = record { height = height; id = id; payload = parent };
  prev_block_id = parent;
}

abbrev parent_of : BlockHash → BlockHash
parent_of x = x

-- The first workers see the block 30 on the block 21, the later ones see the chain without it.
abbrev sends : Deliveries BlockHash
sends zero threads zero = block 1 20 10 ∷ block 0 10 0 ∷ block 2 30 21 ∷ []
sends (suc zero) threads (suc zero) = block 2 30 21 ∷ block 1 21 10 ∷ []
sends _ _ _ = []

sends-AreSessions : AreSessions parent_of sends
sends-AreSessions zero threads zero = ground arith
sends-AreSessions zero threads (suc h) = (tt, tt)
sends-AreSessions (suc zero) threads zero = (tt, tt)
sends-AreSessions (suc zero) threads (suc zero) = ground arith
sends-AreSessions (suc zero) threads (suc (suc h)) = (tt, tt)
sends-AreSessions (suc (suc s)) threads h = (tt, tt)

abbrev started : Prefetcher BlockHash
started = (new_at_genesis sends parent_of sends-AreSessions 4 100).0

started-IsTracking : IsTracking parent_of 0 started []
started-IsTracking = (new_at_genesis sends parent_of sends-AreSessions 4 100).2

next-Yields_example : Yields parent_of 0 started [] (next sends started)
next-Yields_example = next-Yields sends parent_of sends-AreSessions 0 started [] started-IsTracking

follow-FollowsChain_example : FollowsChain parent_of 0 3 started (follow sends 3 started [])
follow-FollowsChain_example =
    follow-FollowsChain sends parent_of sends-AreSessions 3 0 started [] started-IsTracking

-- A window of two hashes.
two_hashes-IsWindow : IsWindow 0 2 ((0, 10) ∷ (1, 20) ∷ [])
two_hashes-IsWindow = record {
  keys = (refl, (refl, tt));
  from = omega arith;
  upto = omega arith;
  bounded = omega arith;
  tracked = inr (omega arith);
}

record_hash-IsWindow_example : IsWindow 0 3 (record_hash 2 30 ((0, 10) ∷ (1, 20) ∷ []))
record_hash-IsWindow_example =
    record_hash-IsWindow 0 2 30 ((0, 10) ∷ (1, 20) ∷ []) two_hashes-IsWindow

abbrev one_block : List (WithHeightAndId BlockHash)
one_block = (block 0 10 0).block ∷ []

one_block-IsLinked : IsLinked parent_of one_block
one_block-IsLinked = record { parent = λ h a b p q. ground arith }

new_at_block_example :
    (p : Prefetcher BlockHash) × (new sends 4 100 (some (0, 10)) ≡ ok p)
    × IsTracking parent_of 0 p one_block
new_at_block_example =
    new_at_block sends parent_of sends-AreSessions 4 100 0 (block 0 10 0).block one_block refl
      (omega arith) (omega arith) one_block-IsLinked

chain_insert_example : chain_insert {A = BlockHash} (10 ∷ 20 ∷ 30 ∷ []) 1 21 ≡ ok (10 ∷ 21 ∷ [])
chain_insert_example = chain_insert_lem {A = BlockHash} (10 ∷ 20 ∷ 30 ∷ []) 1 21 (omega arith)

first-IsSession : IsSession parent_of 0 (sends 0 8 0) []
unfolding get
first-IsSession = record {
  ahead = (sends-AreSessions 0 8 0).0;
  distinct = (sends-AreSessions 0 8 0).1;
  kept = λ h item g. absurd (ground arith);
}

nothing_kept : get {V = RpcBlockWithPrevId BlockHash} 0 [] ≡ none
unfolding get
nothing_kept = refl

receive-Receives_example : Receives parent_of 0 (receive 0 (sends 0 8 0) [])
receive-Receives_example =
    receive-Receives parent_of 0 (sends 0 8 0) [] first-IsSession nothing_kept

-- Each session sends the height that it was started with, up to the last one that has a next one.
abbrev steady : Deliveries BlockHash
steady session threads height = if ltb (suc height) u32_size then block height 10 9 ∷ [] else []

steady-AreSessions : AreSessions parent_of steady
steady-AreSessions session threads height = ground arith

steady-Supplies : Supplies steady
steady-Supplies session threads height small n = ground arith

abbrev steady_start : Prefetcher BlockHash
steady_start = (new_at_genesis steady parent_of steady-AreSessions 4 100).0

steady_start-IsSupplied : IsSupplied steady_start
steady_start-IsSupplied items e none_kept =
    let first = new_at_genesis steady parent_of steady-AreSessions 4 100 in
    ground (arith, e, first.3, first.4)

next-Returns_example : Returns steady parent_of steady-AreSessions steady-Supplies steady_start []
next-Returns_example =
    next-Returns steady parent_of steady-AreSessions steady-Supplies steady_start []
      (new_at_genesis steady parent_of steady-AreSessions 4 100).2 steady_start-IsSupplied
      (omega (arith, (new_at_genesis steady parent_of steady-AreSessions 4 100).4))
