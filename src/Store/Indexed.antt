-- ===== src/Store/Indexed.antt =====
-- The pending blocks of a reorg in src/db/pg.rs: those that are indexed already, and the fresh ones.
use rust_bitcoin_indexer.Base.{
  ℕ, suc, ◌≡◌, ◌≢◌, ◌∙◌, ◌⊎◌, sym, refl, inl, inr, true, false, none, some, List, [], ◌∷◌, ◌++◌,
  map, arith, ltb, ◌==◌, if◌then◌else◌, Bool-cases, All, ltb→le,
}
use rust_bitcoin_indexer.BTreeMap.{BTreeMap, split_from}
use rust_bitcoin_indexer.BTreeMap.Consecutive.{IsFrom, split_from_all}
use rust_bitcoin_indexer.Bitcoin.{BlockData}
use rust_bitcoin_indexer.Hash.{hash_to_hash_id}
use rust_bitcoin_indexer.Db.{BlockRow, find_block, set_extinct, revive}
use rust_bitcoin_indexer.Db.Current.{row_hash}
use rust_bitcoin_indexer.Format.{block_row}
use rust_bitcoin_indexer.Store.Batch.{AreNew}

abbrev pub blocks_of : BTreeMap BlockData → List BlockData
blocks_of = map (λ e. e.1)

-- Each entry's key is its block's height.
abbrev pub KeysMatch : BTreeMap BlockData → Type 0
KeysMatch = All (λ e. e.0 ≡ e.1.height)

-- The row that a block is indexed by, which has its height and its whole hash.
abbrev pub RowOf : List BlockRow → BlockData → Type 0
RowOf rows b =
    (r : BlockRow) × (find_block (hash_to_hash_id b.id) rows ≡ some r)
    × (r.height ≡ b.height)
    × (row_hash r ≡ b.id)

-- Blocks that are not indexed, with ids of their own.
abbrev pub AreFresh : List BlockRow → List BlockData → Type 0
AreFresh rows [] = Unit {0}
AreFresh rows (b ∷ bs) =
    (find_block (hash_to_hash_id b.id) rows ≡ none)
    × All (λ other. hash_to_hash_id other.id ≢ hash_to_hash_id b.id) bs
    × AreFresh rows bs

-- Indexed blocks come first: a block is indexed only on top of an indexed one.
abbrev pub IndexedFirst : List BlockRow → BTreeMap BlockData → Type 0
IndexedFirst rows [] = Unit {0}
IndexedFirst rows (e ∷ pending) =
    (RowOf rows e.1 × IndexedFirst rows pending) ⊎ AreFresh rows (blocks_of (e ∷ pending))

find_block-set_extinct :
    (from id : ℕ) (rows : List BlockRow) {r : BlockRow}
    → find_block id rows ≡ some r
    → find_block id (set_extinct from rows)
      ≡ some (if ltb r.height from then r else record r { extinct = true })
unfolding find_block set_extinct
find_block-set_extinct from id [] e = cc
find_block-set_extinct from id (row ∷ rows) {r} e =
    ground (arith, find_block-set_extinct from id rows {r = r})

find_block-set_extinct-none :
    (from id : ℕ) (rows : List BlockRow)
    → find_block id rows ≡ none
    → find_block id (set_extinct from rows) ≡ none
unfolding find_block set_extinct
find_block-set_extinct-none from id [] e = refl
find_block-set_extinct-none from id (row ∷ rows) e =
    ground (arith, find_block-set_extinct-none from id rows)

find_block-revive :
    (j id : ℕ) (rows : List BlockRow) {r : BlockRow}
    → find_block id rows ≡ some r
    → find_block id (revive j rows)
      ≡ some (if r.hash_id == j then record r { extinct = false } else r)
unfolding find_block revive
find_block-revive j id [] e = cc
find_block-revive j id (row ∷ rows) {r} e = ground (arith, find_block-revive j id rows {r = r})

find_block-revive-none :
    (j id : ℕ) (rows : List BlockRow)
    → find_block id rows ≡ none
    → find_block id (revive j rows) ≡ none
unfolding find_block revive
find_block-revive-none j id [] e = refl
find_block-revive-none j id (row ∷ rows) e = ground (arith, find_block-revive-none j id rows)

RowOf-set_extinct :
    (from : ℕ) (rows : List BlockRow) (b : BlockData)
    → RowOf rows b
    → RowOf (set_extinct from rows) b
RowOf-set_extinct from rows b (r, e, h, same) = (
  (if ltb r.height from then r else record r { extinct = true }),
  find_block-set_extinct from (hash_to_hash_id b.id) rows e,
  ground arith,
  ground arith,
)

RowOf-revive :
    (j : ℕ) (rows : List BlockRow) (b : BlockData) → RowOf rows b → RowOf (revive j rows) b
RowOf-revive j rows b (r, e, h, same) = (
  (if r.hash_id == j then record r { extinct = false } else r),
  find_block-revive j (hash_to_hash_id b.id) rows e,
  ground arith,
  ground arith,
)

module _ (f : List BlockRow → List BlockRow)
    (keeps : (rows : List BlockRow) (b : BlockData) → RowOf rows b → RowOf (f rows) b)
    (adds_none : (id : ℕ) (rows : List BlockRow)
      → find_block id rows ≡ none
      → find_block id (f rows) ≡ none) where
  AreFresh-step :
      (rows : List BlockRow) (bs : List BlockData) → AreFresh rows bs → AreFresh (f rows) bs
  AreFresh-step rows [] a = tt
  AreFresh-step rows (b ∷ bs) a = (adds_none _ rows a.0, a.1, AreFresh-step rows bs a.2)

  IndexedFirst-step :
      (rows : List BlockRow) (pending : BTreeMap BlockData)
      → IndexedFirst rows pending
      → IndexedFirst (f rows) pending
  IndexedFirst-step rows [] a = tt
  IndexedFirst-step rows (e ∷ pending) (inl (r, rest)) =
      inl (keeps rows e.1 r, IndexedFirst-step rows pending rest)
  IndexedFirst-step rows (e ∷ pending) (inr fresh) =
      inr (AreFresh-step rows (blocks_of (e ∷ pending)) fresh)

pub IndexedFirst-set_extinct :
    (from : ℕ) (rows : List BlockRow) (pending : BTreeMap BlockData)
    → IndexedFirst rows pending
    → IndexedFirst (set_extinct from rows) pending
IndexedFirst-set_extinct from =
    IndexedFirst-step (set_extinct from) (RowOf-set_extinct from) (find_block-set_extinct-none from)

pub IndexedFirst-revive :
    (j : ℕ) (rows : List BlockRow) (pending : BTreeMap BlockData)
    → IndexedFirst rows pending
    → IndexedFirst (revive j rows) pending
IndexedFirst-revive j = IndexedFirst-step (revive j) (RowOf-revive j) (find_block-revive-none j)

IndexedFirst-tail :
    (rows : List BlockRow) (e : ℕ × BlockData) (pending : BTreeMap BlockData)
    → IndexedFirst rows (e ∷ pending)
    → IndexedFirst rows pending
IndexedFirst-tail rows e pending (inl (r, rest)) = rest
IndexedFirst-tail rows e [] (inr fresh) = tt
IndexedFirst-tail rows e (e' ∷ pending) (inr fresh) = inr fresh.2

pub IndexedFirst-split_from :
    (from : ℕ) (rows : List BlockRow) (lo : ℕ) (pending : BTreeMap BlockData)
    → IsFrom lo pending
    → IndexedFirst rows pending
    → IndexedFirst rows (split_from from pending)
unfolding split_from
IndexedFirst-split_from from rows lo [] f a = tt
IndexedFirst-split_from from rows lo ((h, b) ∷ pending) f a = elim (Bool-cases (ltb h from)) [
  | inl below ↦ rw below (
      IndexedFirst-split_from from rows (suc lo) pending f.1
        (IndexedFirst-tail rows (h, b) pending a))
  | inr not_below ↦
      rw
        (
          not_below,
          split_from_all (suc lo) from pending f.1 (omega (arith, f.0, ltb→le h from not_below)),
        )
        a
]

pub KeysMatch-split_from :
    (from : ℕ) (pending : BTreeMap BlockData)
    → KeysMatch pending
    → KeysMatch (split_from from pending)
unfolding split_from
KeysMatch-split_from from [] k = tt
KeysMatch-split_from from ((h, b) ∷ pending) k = elim (Bool-cases (ltb h from)) [
  | inl below ↦ rw below (KeysMatch-split_from from pending k.1)
  | inr not_below ↦ rw not_below (k.0, KeysMatch-split_from from pending k.1)
]

-- Fresh blocks at consecutive heights are new blocks on top of a chain.
find_block-push :
    (id : ℕ) (rows : List BlockRow) (row : BlockRow)
    → find_block id rows ≡ none
    → row.hash_id ≢ id
    → find_block id (rows ++ row ∷ []) ≡ none
unfolding find_block
find_block-push id [] row e n = ground arith
find_block-push id (r ∷ rows) row e n = ground (arith, find_block-push id rows row)

AreFresh-push :
    (rows : List BlockRow) (b : BlockData) (bs : List BlockData)
    → All (λ (other : BlockData). hash_to_hash_id other.id ≢ hash_to_hash_id b.id) bs
    → AreFresh rows bs
    → AreFresh (rows ++ block_row b ∷ []) bs
unfolding block_row
AreFresh-push rows b [] n a = tt
AreFresh-push rows b (x ∷ xs) n a = (
  find_block-push (hash_to_hash_id x.id) rows _ a.0 (λ e. n.0 (sym e)),
  a.1,
  AreFresh-push rows b xs n.1 a.2,
)

pub AreFresh-AreNew :
    (n : ℕ) (pending : BTreeMap BlockData) (rows : List BlockRow)
    → IsFrom n pending
    → KeysMatch pending
    → AreFresh rows (blocks_of pending)
    → AreNew n (blocks_of pending) rows
unfolding block_row
AreFresh-AreNew n [] rows f k a = tt
AreFresh-AreNew n ((h, b) ∷ pending) rows f k a = (
  refl,
  sym k.0 ∙ f.0,
  a.0,
  AreFresh-AreNew (suc n) pending (rows ++ block_row b ∷ []) f.1 k.1
      (AreFresh-push rows b (blocks_of pending) a.1 a.2),
)
