-- ===== src/BTreeMap.antt =====
-- `BTreeMap` with numbers for keys, as the list of its entries in key order. `HashMap`s with such
-- keys, which the program never iterates over, use the same operations.
pub mod Laws
pub mod Consecutive
use rust_bitcoin_indexer.Base.{
  ℕ, ◌≡◌, Bool, true, false, Option, none, some, List, [], ◌∷◌, ltb, ◌==◌, if◌then◌else◌,
}

abbrev pub BTreeMap {ℓ} : Type ℓ → Type ℓ
BTreeMap V = List (ℕ × V)

module _ {ℓ} {V : Type ℓ} where
  unfoldable pub get : ℕ → BTreeMap V → Option V
  get k [] = none
  get k ((j, v) ∷ m) = if j == k then some v else get k m

  unfoldable pub insert : ℕ → V → BTreeMap V → BTreeMap V
  insert k v [] = (k, v) ∷ []
  insert k v ((j, w) ∷ m) =
      if ltb k j then (k, v) ∷ (j, w) ∷ m else if j == k then (k, v) ∷ m else (j, w) ∷ insert k v m

  unfoldable pub remove : ℕ → BTreeMap V → BTreeMap V
  remove k [] = []
  remove k ((j, w) ∷ m) = let rest = remove k m in if j == k then rest else (j, w) ∷ rest

  -- What `split_off` leaves in the map: the entries below the key.
  unfoldable pub split_below : ℕ → BTreeMap V → BTreeMap V
  split_below k [] = []
  split_below k ((j, w) ∷ m) = let rest = split_below k m in if ltb j k then (j, w) ∷ rest else rest

  -- What `split_off` returns: the entries from the key on.
  unfoldable pub split_from : ℕ → BTreeMap V → BTreeMap V
  split_from k [] = []
  split_from k ((j, w) ∷ m) = let rest = split_from k m in if ltb j k then rest else (j, w) ∷ rest

  -- `iter().next()`
  unfoldable pub first : BTreeMap V → Option (ℕ × V)
  first [] = none
  first (e ∷ m) = some e

  -- `iter().next_back()`
  unfoldable pub last : BTreeMap V → Option (ℕ × V)
  last [] = none
  last (e ∷ []) = some e
  last (e ∷ f ∷ m) = last (f ∷ m)

  unfoldable pub is_empty : BTreeMap V → Bool
  is_empty [] = true
  is_empty (e ∷ m) = false
