-- ===== src/BTreeMap/Consecutive.antt =====
-- Maps whose keys are consecutive numbers, and the operations that keep them so.
use rust_bitcoin_indexer.Base.{
  ℕ, suc, ◌+◌, ◌-◌, ◌≤◌, ◌<◌, ◌≡◌, refl, none, some, [], subst, inl, inr, Bool-cases, ◌∷◌, arith,
  ltb, ◌==◌, if◌then◌else◌, length,
}
use rust_bitcoin_indexer.BTreeMap.{BTreeMap, get, insert, remove, split_below, split_from, last}

module _ {ℓ} {V : Type ℓ} where
  -- The keys are `lo`, `lo + 1`, and so on.
  abbrev pub IsFrom : ℕ → BTreeMap V → Type 0
  IsFrom lo [] = Unit {0}
  IsFrom lo ((k, v) ∷ m) = (k ≡ lo) × IsFrom (suc lo) m

  pub insert-IsFrom :
      (lo k : ℕ) (v : V) (m : BTreeMap V)
      → lo ≤ k
      → k ≤ lo + length m
      → IsFrom lo m
      → IsFrom lo (insert k v m)
  unfolding insert
  insert-IsFrom lo k v [] a b h = (omega arith, tt)
  insert-IsFrom lo k v ((j, w) ∷ m) a b h = ground (arith, insert-IsFrom (suc lo) k v m)

  pub length-insert :
      (lo k : ℕ) (v : V) (m : BTreeMap V)
      → lo ≤ k
      → k ≤ lo + length m
      → IsFrom lo m
      → length (insert k v m) ≡ (if k == lo + length m then suc (length m) else length m)
  unfolding insert
  length-insert lo k v [] a b h = ground arith
  length-insert lo k v ((j, w) ∷ m) a b h = ground (arith, length-insert (suc lo) k v m)

  pub get_from :
      (lo k : ℕ) (m : BTreeMap V)
      → IsFrom lo m
      → lo ≤ k
      → k < lo + length m
      → (v : V) × (get k m ≡ some v)
  unfolding get
  get_from lo k [] h a b = absurd (omega arith)
  get_from lo k ((j, w) ∷ m) h a b = elim (Bool-cases (j == k)) [
    | inl e ↦ (w, rw e)
    | inr e ↦ rw e (get_from (suc lo) k m h.1 (ground arith) (omega arith))
  ]

  pub get_below : (lo k : ℕ) (m : BTreeMap V) → IsFrom lo m → k < lo → get k m ≡ none
  unfolding get
  get_below lo k [] h a = refl
  get_below lo k ((j, w) ∷ m) h a = ground (arith, get_below (suc lo) k m)

  pub get_above : (lo k : ℕ) (m : BTreeMap V) → IsFrom lo m → lo + length m ≤ k → get k m ≡ none
  unfolding get
  get_above lo k [] h a = refl
  get_above lo k ((j, w) ∷ m) h a = ground (arith, get_above (suc lo) k m)

  pub remove_below : (lo k : ℕ) (m : BTreeMap V) → IsFrom lo m → k < lo → remove k m ≡ m
  unfolding remove
  remove_below lo k [] h a = refl
  remove_below lo k ((j, w) ∷ m) h a = ground (arith, remove_below (suc lo) k m)

  pub remove_first :
      (lo : ℕ) (m : BTreeMap V)
      → IsFrom lo m
      → IsFrom (suc lo) (remove lo m) × (length (remove lo m) ≡ length m - 1)
  unfolding remove
  remove_first lo [] h = (tt, refl)
  remove_first lo ((j, w) ∷ m) h = ground (arith, remove_below (suc lo) lo m h.1)

  pub split_below_none : (lo k : ℕ) (m : BTreeMap V) → IsFrom lo m → k ≤ lo → split_below k m ≡ []
  unfolding split_below
  split_below_none lo k [] h a = refl
  split_below_none lo k ((j, w) ∷ m) h a = ground (arith, split_below_none (suc lo) k m)

  pub split_below-IsFrom :
      (lo k : ℕ) (m : BTreeMap V)
      → IsFrom lo m
      → lo ≤ k
      → k ≤ lo + length m
      → IsFrom lo (split_below k m) × (lo + length (split_below k m) ≡ k)
  unfolding split_below
  split_below-IsFrom lo k [] h a b = (tt, omega arith)
  split_below-IsFrom lo k ((j, w) ∷ m) h a b = elim (Bool-cases (ltb j k)) [
    | inl e ↦
        let ih = split_below-IsFrom (suc lo) k m h.1 (ground arith) (omega arith) in
        rw e ((h.0, ih.0), omega (arith, ih.1))
    | inr e ↦ rw (e, split_below_none (suc lo) k m h.1 (ground arith)) (tt, ground arith)
  ]

  pub split_from_all : (lo k : ℕ) (m : BTreeMap V) → IsFrom lo m → k ≤ lo → split_from k m ≡ m
  unfolding split_from
  split_from_all lo k [] h a = refl
  split_from_all lo k ((j, w) ∷ m) h a = ground (arith, split_from_all (suc lo) k m)

  pub split_from-IsFrom :
      (lo k : ℕ) (m : BTreeMap V)
      → IsFrom lo m
      → lo ≤ k
      → k ≤ lo + length m
      → IsFrom k (split_from k m) × (k + length (split_from k m) ≡ lo + length m)
  unfolding split_from
  split_from-IsFrom lo k [] h a b = (tt, omega arith)
  split_from-IsFrom lo k ((j, w) ∷ m) h a b = elim (Bool-cases (ltb j k)) [
    | inl e ↦
        let ih = split_from-IsFrom (suc lo) k m h.1 (ground arith) (omega arith) in
        rw e (ih.0, omega (arith, ih.1))
    | inr e ↦
        rw (e, split_from_all (suc lo) k m h.1 (ground arith))
          ((ground arith, subst (λ n. IsFrom (suc n) m) (ground arith) h.1), ground arith)
  ]

  pub last_from :
      (lo : ℕ) (m : BTreeMap V) {k : ℕ} {v : V}
      → IsFrom lo m
      → last m ≡ some (k, v)
      → k + 1 ≡ lo + length m
  unfolding last
  last_from lo [] h e = cc
  last_from lo ((j, w) ∷ []) h e = ground arith
  last_from lo ((j, w) ∷ (j', w') ∷ m) h e = omega (arith, last_from (suc lo) ((j', w') ∷ m) h.1 e)
