-- ===== src/BTreeMap/Laws.antt =====
-- What a key reads as after each operation of a map.
use rust_bitcoin_indexer.Base.{ℕ, ◌≡◌, refl, none, some, [], ◌∷◌, arith, ltb, ◌==◌, if◌then◌else◌}
use rust_bitcoin_indexer.BTreeMap.{BTreeMap, get, insert, remove, split_below, split_from}

module _ {ℓ} {V : Type ℓ} where
  pub get-insert :
      (i k : ℕ) (v : V) (m : BTreeMap V)
      → get i (insert k v m) ≡ (if k == i then some v else get i m)
  unfolding get insert
  get-insert i k v [] = refl
  get-insert i k v ((j, w) ∷ m) = ground (arith, get-insert i k v m)

  pub get-remove :
      (i k : ℕ) (m : BTreeMap V) → get i (remove k m) ≡ (if k == i then none else get i m)
  unfolding get remove
  get-remove i k [] = ground arith
  get-remove i k ((j, w) ∷ m) = ground (arith, get-remove i k m)

  pub get-split_below :
      (i k : ℕ) (m : BTreeMap V) → get i (split_below k m) ≡ (if ltb i k then get i m else none)
  unfolding get split_below
  get-split_below i k [] = ground arith
  get-split_below i k ((j, w) ∷ m) = ground (arith, get-split_below i k m)

  pub get-split_from :
      (i k : ℕ) (m : BTreeMap V) → get i (split_from k m) ≡ (if ltb i k then none else get i m)
  unfolding get split_from
  get-split_from i k [] = ground arith
  get-split_from i k ((j, w) ∷ m) = ground (arith, get-split_from i k m)

pub ruleset map_laws = (get-insert, get-remove, get-split_below, get-split_from)
