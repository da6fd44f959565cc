-- ===== src/Indexer/Chain.antt =====
-- The two views of a chain that src/main.rs brings together: the list of blocks that a reader of the
-- prefetcher keeps, and the ids that the store represents, the tip first.
use rust_bitcoin_indexer.Base.{
  ℕ, zero, suc, ◌≤◌, ◌<◌, ◌≡◌, ◌∙◌, sym, ap, refl, inl, inr, none, some, List, [], ◌∷◌, ◌++◌, arith,
  ltb, ◌==◌, if◌then◌else◌, Bool-cases, length, length-append, length-take, ltb→le, take, get_elem?,
  get_elem?-push,
}
use rust_bitcoin_indexer.Types.{BlockHash}
use rust_bitcoin_indexer.Bitcoin.{BlockData}
use rust_bitcoin_indexer.Hash.{hash_to_hash_id}
use rust_bitcoin_indexer.Db.Current.{at_height, at_height-cut, length-cut, cut}
use rust_bitcoin_indexer.Prefetcher.Chain.{IsLinked}
use rust_bitcoin_indexer.Store.Linked.{LinkedView, at_height-some, below_top}

-- The reader's blocks stand at their heights in the chain of the store.
pub record Agrees (chain : List BlockData) (view : List BlockHash) : Type 0 where
  pub tall : length chain ≤ length view
  pub at : (h : ℕ) (b : BlockData) → get_elem? chain h ≡ some b → at_height h view ≡ b.id ∷ []

get_elem?_beyond : {A : Type 0} (xs : List A) (i : ℕ) → length xs ≤ i → get_elem? xs i ≡ none
get_elem?_beyond [] i h = refl
get_elem?_beyond (x ∷ xs) zero h = absurd (omega arith)
get_elem?_beyond (x ∷ xs) (suc i) h = get_elem?_beyond xs i (omega arith)

pub get_elem?-some :
    {A : Type 0} (xs : List A) (i : ℕ) → i < length xs → (x : A) × (get_elem? xs i ≡ some x)
get_elem?-some [] i h = absurd (omega arith)
get_elem?-some (x ∷ xs) zero h = (x, refl)
get_elem?-some (x ∷ xs) (suc i) h = get_elem?-some xs i (omega arith)

get_elem?-push_last :
    {A : Type 0} (xs : List A) (x : A) (i : ℕ)
    → get_elem? (xs ++ x ∷ []) i ≡ (if i == length xs then some x else get_elem? xs i)
get_elem?-push_last [] x zero = refl
get_elem?-push_last [] x (suc i) = ground arith
get_elem?-push_last (y ∷ xs) x zero = ground arith
get_elem?-push_last (y ∷ xs) x (suc i) = ground (arith, get_elem?-push_last xs x i)

module _ (block_of : ℕ → BlockData) where
  -- The blocks of a chain.
  abbrev pub chain_of : List BlockHash → List BlockData
  chain_of [] = []
  chain_of (x ∷ view) = chain_of view ++ block_of (hash_to_hash_id x) ∷ []

  pub length-chain_of : (view : List BlockHash) → length (chain_of view) ≡ length view
  length-chain_of [] = refl
  length-chain_of (x ∷ view) = omega (
    arith,
    length-append (chain_of view) (block_of (hash_to_hash_id x) ∷ []),
    length-chain_of view,
  )

  pub get_elem?-chain_of :
      (view : List BlockHash) (h : ℕ) (x : BlockHash)
      → at_height h view ≡ x ∷ []
      → get_elem? (chain_of view) h ≡ some (block_of (hash_to_hash_id x))
  get_elem?-chain_of [] h x e = cc
  get_elem?-chain_of (y ∷ view) h x e = ground (
    arith,
    get_elem?-push_last (chain_of view) (block_of (hash_to_hash_id y)) h,
    length-chain_of view,
    get_elem?-chain_of view h x,
  )

  at_chain_of :
      (view : List BlockHash) (h : ℕ) (b : BlockData)
      → get_elem? (chain_of view) h ≡ some b
      → (x : BlockHash) × (at_height h view ≡ x ∷ []) × (block_of (hash_to_hash_id x) ≡ b)
  at_chain_of view h b e = elim (Bool-cases (ltb h (length view))) [
    | inl below ↦
        let (x, at) = at_height-some h view (ground (arith, below)) in
        (x, at, ground (arith, get_elem?-chain_of view h x at, e))
    | inr above ↦
        let past =
          get_elem?_beyond (chain_of view) h
            (omega (arith, length-chain_of view, ltb→le h (length view) above)) in
        cc
  ]

  pub chain_of-Agrees :
      (view : List BlockHash) → LinkedView block_of view → Agrees (chain_of view) view
  chain_of-Agrees view k = record {
    tall = omega (arith, length-chain_of view);
    at = λ h b e.
        let (x, at, same) = at_chain_of view h b e in
        at ∙ ap (λ i. i ∷ []) (sym (k.named h x at).0 ∙ ap (λ y. y.id) same);
  }

  pub chain_of-IsLinked :
      (view : List BlockHash)
      → LinkedView block_of view
      → IsLinked (λ b. b.prev_blockhash) (chain_of view)
  chain_of-IsLinked view k = record {
    parent = λ h a b down up.
        let (x, at, same) = at_chain_of view h a down in
        let (y, over, this) = at_chain_of view (suc h) b up in
        sym (ap (λ i. i.payload.prev_blockhash) this)
        ∙ k.linked h y x over at
        ∙ sym (k.named h x at).0
        ∙ ap (λ i. i.id) same;
  }

-- The reader and the store put the same block at its height.
pub put-Agrees :
    (chain : List BlockData) (view : List BlockHash) (b : BlockData)
    → b.height ≤ length chain
    → Agrees chain view
    → Agrees (take b.height chain ++ b ∷ []) (b.id ∷ cut b.height view)
put-Agrees chain view b high k = record {
  tall = omega (
    arith,
    length-append (take b.height chain) (b ∷ []),
    length-take b.height chain,
    length-cut b.height view (omega (arith, high, k.tall)),
  );
  at = λ h x e. ground (
    arith,
    get_elem?-push b.height h chain b high,
    k.at h x,
    k.tall,
    at_height-cut h b.height view,
    length-cut b.height view,
  );
}

-- So they do where the store has the block already.
pub same-Agrees :
    (chain : List BlockData) (view : List BlockHash) (b : BlockData)
    → b.height ≤ length chain
    → at_height b.height view ≡ b.id ∷ []
    → Agrees chain view
    → Agrees (take b.height chain ++ b ∷ []) view
same-Agrees chain view b high there k = record {
  tall = omega (
    arith,
    length-append (take b.height chain) (b ∷ []),
    length-take b.height chain,
    below_top b.height view b.id there,
  );
  at = λ h x e. ground (arith, get_elem?-push b.height h chain b high, k.at h x, there);
}
