-- ===== src/Prefetcher/Chain.antt =====
-- The chain that a reader of the prefetcher keeps, as `chain_insert` of src/tests.rs does it: a
-- block replaces all that stands at its height and above.
use rust_bitcoin_indexer.Base.{
  ℕ, zero, suc, ◌-◌, ◌≤◌, ◌≡◌, ◌≢◌, refl, some, List, [], ◌∷◌, ◌++◌, arith, ltb, ◌==◌,
  if◌then◌else◌, length, take, get_elem?, get_elem?-push, length-take,
}
use rust_bitcoin_indexer.Base.Outcome.{Outcome, ok, panic, ◌>>◌, assert}
use rust_bitcoin_indexer.Types.{BlockHash, WithHeightAndId}

-- The second test repeats the first the other way round, and never passes.
unfoldable pub chain_insert : {A : Type 0} → List A → ℕ → A → Outcome (List A)
chain_insert {A} chain height x =
    if ltb height (length chain)
    then push (take height chain)
    else if ltb height (length chain)
    then panic
    else push chain
  where
    push : List A → Outcome (List A)
    push cut = assert (length cut == height) >> ok (cut ++ x ∷ [])

module _ {A : Type 0} where
  take_all : (n : ℕ) (xs : List A) → length xs ≤ n → take n xs ≡ xs
  take_all zero [] h = refl
  take_all zero (x ∷ xs) h = absurd (omega arith)
  take_all (suc n) [] h = refl
  take_all (suc n) (x ∷ xs) h = rw (take_all n xs (omega arith))

  -- Up to the length of the chain an insertion succeeds.
  pub chain_insert_lem :
      (chain : List A) (height : ℕ) (x : A)
      → height ≤ length chain
      → chain_insert chain height x ≡ ok (take height chain ++ x ∷ [])
  unfolding chain_insert
  chain_insert_lem chain height x h =
      ground (arith, take_all height chain, length-take height chain)

module _ {D : Type 0} (prev : D → BlockHash) where
  -- Each block's parent is the block below it.
  pub record IsLinked (chain : List (WithHeightAndId D)) : Type 0 where
    pub parent :
        (h : ℕ) (a b : WithHeightAndId D)
        → get_elem? chain h ≡ some a
        → get_elem? chain (suc h) ≡ some b
        → prev b.payload ≡ a.id

  pub push-IsLinked :
      (chain : List (WithHeightAndId D)) (height : ℕ) (x : WithHeightAndId D)
      → height ≤ length chain
      → IsLinked chain
      → ((a : WithHeightAndId D)
          → height ≢ 0
          → get_elem? chain (height - 1) ≡ some a
          → prev x.payload ≡ a.id)
      → IsLinked (take height chain ++ x ∷ [])
  push-IsLinked chain height x le l top = record {
    parent = λ h a b p q. ground (
      arith,
      get_elem?-push height h chain x le,
      get_elem?-push height (suc h) chain x le,
      l.parent h a b,
      top a,
    );
  }
