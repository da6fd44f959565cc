-- ===== src/BottleCheck.antt =====
-- `BottleCheck` of src/util.rs, which measures how long a component keeps the others waiting. Times
-- are in nanoseconds.
pub mod Tests
use rust_bitcoin_indexer.Base.{
  List, [], ◌∷◌, ℕ, ◌+◌, ◌-◌, ◌*◌, ◌/◌, ◌≤◌, ◌≡◌, inl, inr, Bool, true, false, arith, ltb,
  if◌then◌else◌, Bool-cases, ltb→le,
}

pub record BottleCheck : Type 0 where
  pub accumulated : ℕ
  pub last : ℕ

-- `new`, at a moment.
unfoldable pub new : ℕ → BottleCheck
new now = record { accumulated = 0; last = now }

abbrev pub thirty_seconds : ℕ
thirty_seconds = 30_000_000_000

-- The time of a call counts when it is longer than a thousandth of the time since the last call.
unfoldable pub accumulate : ℕ → ℕ → BottleCheck → ℕ
accumulate start end b =
    if ltb ((start - b.last) / 1000) (end - start)
    then b.accumulated + (end - start)
    else b.accumulated

-- `check` of a call from `start` to `end`, and whether it logs the bottleneck.
unfoldable pub check : ℕ → ℕ → BottleCheck → Bool × BottleCheck
unfolding accumulate
check start end b =
    let total = accumulate start end b in
    let reports = ltb thirty_seconds total in
    (reports, record { accumulated = if reports then 0 else total; last = end })

-- The calls of a component, each with its start and end.
unfoldable pub check_all : List (ℕ × ℕ) → BottleCheck → BottleCheck
unfolding check
check_all [] b = b
check_all ((start, end) ∷ calls) b = check_all calls (check start end b).1

check_bound : (start end : ℕ) (b : BottleCheck) → (check start end b).1.accumulated ≤ thirty_seconds
unfolding check
check_bound start end b = elim (Bool-cases (ltb thirty_seconds (accumulate start end b))) [
  | inl over ↦ rw over (omega arith)
  | inr under ↦ rw under (ltb→le thirty_seconds (accumulate start end b) under)
]

-- However long the calls take, no more than 30 seconds stay accumulated after them, where no more
-- were before.
pub check_all_bound :
    (calls : List (ℕ × ℕ)) (b : BottleCheck)
    → b.accumulated ≤ thirty_seconds
    → (check_all calls b).accumulated ≤ thirty_seconds
unfolding check_all
check_all_bound [] b h = h
check_all_bound ((start, end) ∷ calls) b h =
    check_all_bound calls (check start end b).1 (check_bound start end b)
