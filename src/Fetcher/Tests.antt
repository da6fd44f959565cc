-- ===== src/Fetcher/Tests.antt =====
-- A fetcher of src/node/fetcher.rs that ends at height 1.
use rust_bitcoin_indexer.Base.{◌≡◌, refl, false, none, some, List, [], ◌∷◌}
use rust_bitcoin_indexer.Base.Outcome.{ok}
use rust_bitcoin_indexer.BTreeMap.{get, insert, remove}
use rust_bitcoin_indexer.Types.{BlockHeight, BlockHash, WithHeightAndId, RpcBlockWithPrevId}
use rust_bitcoin_indexer.Prefetcher.{
  Deliveries, take_item, receive, track_reorgs, is_reorg, record_hash,
}
use rust_bitcoin_indexer.Prefetcher
use rust_bitcoin_indexer.Fetcher.{Fetcher, new, next, fetch, decide}
use rust_bitcoin_indexer.Fetcher.Stops.{StopsAt, fetch-StopsAt}

abbrev item : BlockHeight → BlockHash → RpcBlockWithPrevId BlockHash
item height id = record {
  block = record { height = height; id = id; payload = id };
  prev_block_id = height;
}

-- Three blocks, the ids being one more than the heights.
abbrev sends : Deliveries BlockHash
sends session threads height = item 1 2 ∷ item 0 1 ∷ item 2 3 ∷ []

made : (f : Fetcher BlockHash) × (new sends 1 9 none (some 1) ≡ ok f)
unfolding new Prefetcher.new
made = (_, refl)

open_end : (made.0.ended ≡ false) × (made.0.end ≡ some 1)
unfolding made
open_end = (refl, refl)

three_calls :
    (r : List (WithHeightAndId BlockHash) × Fetcher BlockHash) × (fetch sends (λ _. 9) 3 made.0
      ≡ ok r)
unfolding made fetch next decide Prefetcher.next take_item receive track_reorgs is_reorg record_hash
    get insert remove
three_calls = (_, refl)

fetch-StopsAt_example : StopsAt 1 three_calls.0.0 three_calls.0.1.ended
fetch-StopsAt_example =
    fetch-StopsAt sends 1 (λ _. 9) 3 made.0 three_calls.0.1 three_calls.0.0 open_end.0 open_end.1
      three_calls.1
