-- ===== src/BottleCheck/Tests.antt =====
-- Two calls of 20 seconds each, by `BottleCheck` of src/util.rs.
use rust_bitcoin_indexer.Base.{◌≤◌, [], ◌∷◌, arith}
use rust_bitcoin_indexer.BottleCheck.{new, check_all, thirty_seconds, check_all_bound}

started_low : (new 0).accumulated ≤ thirty_seconds
unfolding new
started_low = omega arith

check_all_bound_example :
    (check_all ((0, 20_000_000_000) ∷ (20_000_000_001, 40_000_000_001) ∷ []) (new 0)).accumulated
    ≤ thirty_seconds
check_all_bound_example =
    check_all_bound ((0, 20_000_000_000) ∷ (20_000_000_001, 40_000_000_001) ∷ []) (new 0)
      started_low
