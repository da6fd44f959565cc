-- ===== src/Fetcher.antt =====
-- `Fetcher` of src/node/fetcher.rs: the prefetcher's blocks up to a height.
pub mod Stops
pub mod Tests
use rust_bitcoin_indexer.Base.{
  ℕ, zero, suc, Bool, true, false, ◌||◌, Option, none, some, List, [], ◌∷◌, ltb, leb, if◌then◌else◌,
}
use rust_bitcoin_indexer.Base.Outcome.{Outcome, ok, ◌>>=◌}
use rust_bitcoin_indexer.Types.{BlockHeight, BlockHash, WithHeightAndId}
use rust_bitcoin_indexer.Prefetcher.{Prefetcher, Deliveries}
use rust_bitcoin_indexer.Prefetcher

pub record Fetcher (D : Type 0) : Type 0 where
  pub cached_node_block_count : Option ℕ
  pub prefetcher : Prefetcher D
  pub ended : Bool
  pub end : Option BlockHeight

module _ {D : Type 0} (workers : Deliveries D) where
  -- `Fetcher::new`, with what `Prefetcher::new` is given.
  unfoldable pub new :
      ℕ → BlockHeight → Option (BlockHeight × BlockHash) → Option BlockHeight → Outcome (Fetcher D)
  new cpus block_count start end = do
    prefetcher ← Prefetcher.new workers cpus block_count start
    ok (record {
      cached_node_block_count = none;
      prefetcher = prefetcher;
      ended = false;
      end = end;
    })

  abbrev or_zero : Option ℕ → ℕ
  or_zero none = 0
  or_zero (some n) = n

  -- What is decided on a block of a height. `block_count` is what the node answers in the end: a call
  -- that fails is made again.
  unfoldable pub decide : BlockHeight → BlockHeight → Fetcher D → Fetcher D
  decide block_count height f = elim f.end [
    | some end ↦ record f { ended = f.ended || leb end height }
    | none ↦
        if ltb (or_zero f.cached_node_block_count) height
        then record f {
          cached_node_block_count = some block_count;
          ended = f.ended || leb block_count height;
        }
        else f
  ]

  -- `Iterator::next`
  unfoldable pub next : BlockHeight → Fetcher D → Outcome (Option (WithHeightAndId D) × Fetcher D)
  unfolding decide
  next block_count f =
      let fetched = (do
        (item, prefetcher) ← Prefetcher.next workers f.prefetcher
        ok (some item, decide block_count item.height (record f { prefetcher = prefetcher }))) in
      if f.ended then ok (none, f) else fetched

  -- A block that was found goes before those of the later calls.
  abbrev pub push_found :
      Option (WithHeightAndId D)
      → Fetcher D
      → Outcome (List (WithHeightAndId D) × Fetcher D)
      → Outcome (List (WithHeightAndId D) × Fetcher D)
  push_found none f later = ok ([], f)
  push_found (some item) f later = do (items, g) ← later; ok (item ∷ items, g)

  -- The blocks of at most `n` calls, with the node's block count at each.
  unfoldable pub fetch :
      (ℕ → BlockHeight) → ℕ → Fetcher D → Outcome (List (WithHeightAndId D) × Fetcher D)
  unfolding next
  fetch counts zero f = ok ([], f)
  fetch counts (suc n) f = do (found, g) ← next (counts n) f; push_found found g (fetch counts n g)
