-- ===== src/Store/Genuine.antt =====
-- Rows of src/db/pg.rs that tell the truth about their blocks: what a hash id identifies is one block,
-- and a row that has the id is that block's.
use rust_bitcoin_indexer.Base.{
  ℕ, suc, ◌<◌, ◌≡◌, ◌≢◌, ◌∙◌, ◌⊎◌, sym, ap, subst, inl, inr, none, some, List, [], ◌∷◌, map, arith,
  ◌==◌, Bool-cases, Option-cases, All,
}
use rust_bitcoin_indexer.BTreeMap.{BTreeMap}
use rust_bitcoin_indexer.BTreeMap.Consecutive.{IsFrom}
use rust_bitcoin_indexer.Bitcoin.{BlockData}
use rust_bitcoin_indexer.Hash.{hash_to_hash_id, join-split}
use rust_bitcoin_indexer.Db.{BlockRow, find_block}
use rust_bitcoin_indexer.Db.Current.{row_hash}
use rust_bitcoin_indexer.Format.{block_row}
use rust_bitcoin_indexer.Store.Indexed.{blocks_of, KeysMatch, RowOf, AreFresh, IndexedFirst}
use rust_bitcoin_indexer.Store.Relabel.{forget, find_block-forget, find_block-forget-none}

abbrev pub IsFound : ℕ → List BlockRow → Type 0
IsFound id rows = (r : BlockRow) × (find_block id rows ≡ some r)

pub find_block-id :
    (id : ℕ) (rows : List BlockRow) (r : BlockRow) → find_block id rows ≡ some r → r.hash_id ≡ id
unfolding find_block
find_block-id id [] r e = cc
find_block-id id (row ∷ rows) r e = ground (arith, find_block-id id rows r)

pub find_block-All :
    (P : BlockRow → Type 0) (id : ℕ) (rows : List BlockRow) (r : BlockRow)
    → All P rows
    → find_block id rows ≡ some r
    → P r
unfolding find_block
find_block-All P id [] r a e = cc
find_block-All P id (row ∷ rows) r a e = elim (Bool-cases (row.hash_id == id)) [
  | inl here ↦ let same : row ≡ r = ground (arith, e, here) in subst P same a.0
  | inr there ↦ find_block-All P id rows r a.1 (ground (arith, e, there))
]

-- The block that a hash id is the id of.
module _ (block_of : ℕ → BlockData) where
  abbrev pub IsGenuine : BlockData → Type 0
  IsGenuine b = block_of (hash_to_hash_id b.id) ≡ b

  abbrev pub IsGenuineRow : BlockRow → Type 0
  IsGenuineRow row = row ≡ block_row (block_of row.hash_id)

  -- Each row is that of the block with its id, and the block below it is indexed too.
  pub record AreGenuine (rows : List BlockRow) : Type 0 where
    pub genuine : All IsGenuineRow rows
    pub parents : All (λ row. (row.height ≡ 0) ⊎ IsFound row.prev_hash_id rows) rows

  -- The row that is found for a block is the block's.
  pub found-block_row :
      (b : BlockData) (rows : List BlockRow) (r : BlockRow)
      → IsGenuine b
      → All IsGenuineRow (map forget rows)
      → find_block (hash_to_hash_id b.id) rows ≡ some r
      → forget r ≡ block_row b
  found-block_row b rows r g a e =
      let found = find_block-forget (hash_to_hash_id b.id) rows r e in
      find_block-All IsGenuineRow (hash_to_hash_id b.id) (map forget rows) (forget r) a found
      ∙ ap (λ id. block_row (block_of id)) (find_block-id (hash_to_hash_id b.id) rows r e)
      ∙ ap block_row g

  pub found-height :
      (b : BlockData) (rows : List BlockRow) (r : BlockRow)
      → IsGenuine b
      → All IsGenuineRow (map forget rows)
      → find_block (hash_to_hash_id b.id) rows ≡ some r
      → r.height ≡ b.height
  unfolding block_row
  found-height b rows r g a e = ap (λ x. x.height) (found-block_row b rows r g a e)

  found-RowOf :
      (b : BlockData) (rows : List BlockRow) (r : BlockRow)
      → IsGenuine b
      → All IsGenuineRow (map forget rows)
      → find_block (hash_to_hash_id b.id) rows ≡ some r
      → RowOf rows b
  unfolding block_row
  found-RowOf b rows r g a e = (
    r,
    e,
    found-height b rows r g a e,
    ap row_hash (found-block_row b rows r g a e) ∙ join-split b.id,
  )

  -- Each block's parent is the one before it.
  abbrev pub AreLinked : List BlockData → Type 0
  AreLinked [] = Unit {0}
  AreLinked (b ∷ []) = Unit {0}
  AreLinked (b ∷ next ∷ bs) = (next.payload.prev_blockhash ≡ b.id) × AreLinked (next ∷ bs)

  module _ (rows : List BlockRow) (k : AreGenuine (map forget rows)) where
    -- A block whose parent is not indexed is not indexed.
    child-unknown :
        (b next : BlockData)
        → IsGenuine next
        → next.payload.prev_blockhash ≡ b.id
        → 0 < next.height
        → find_block (hash_to_hash_id b.id) rows ≡ none
        → find_block (hash_to_hash_id next.id) rows ≡ none
    unfolding block_row
    child-unknown b next g parent high unknown =
        elim (Option-cases (find_block (hash_to_hash_id next.id) rows)) [
          | inl e ↦ e
          | inr (r, e) ↦
              let row = found-block_row next rows r g k.genuine e in
              elim (find_block-All (λ x. (x.height ≡ 0) ⊎ IsFound x.prev_hash_id (map forget rows))
                (hash_to_hash_id next.id) (map forget rows) (forget r) k.parents
                (find_block-forget (hash_to_hash_id next.id) rows r e)) [
                  | inl zero_high ↦ absurd (omega (arith, zero_high, ap (λ x. x.height) row, high))
                  | inr (p, at_p) ↦
                      let same : r.prev_hash_id ≡ hash_to_hash_id b.id =
                        ap (λ x. x.prev_hash_id) row ∙ ap hash_to_hash_id parent in
                      let none_at : find_block r.prev_hash_id (map forget rows) ≡ none =
                        ap (λ id. find_block id (map forget rows)) same
                        ∙ find_block-forget-none (hash_to_hash_id b.id) rows unknown in
                      cc
                ]
        ]

    -- Blocks at greater heights have other ids.
    other_ids :
        (b : BlockData) (n : ℕ) (pending : BTreeMap BlockData)
        → IsGenuine b
        → b.height < n
        → IsFrom n pending
        → KeysMatch pending
        → All IsGenuine (blocks_of pending)
        → All
            (λ (other : BlockData). hash_to_hash_id other.id ≢ hash_to_hash_id b.id)
            (blocks_of pending)
    other_ids b n [] g high f keys a = tt
    other_ids b n ((h, x) ∷ pending) g high f keys a = (
      (λ e.
          let same : x ≡ b = sym a.0 ∙ ap block_of e ∙ g in
          absurd (omega (arith, f.0, keys.0, ap (λ (y : BlockData). y.height) same, high))),
      other_ids b (suc n) pending g (omega arith) f.1 keys.1 a.1,
    )

    children-AreFresh :
        (n h : ℕ) (b : BlockData) (pending : BTreeMap BlockData)
        → IsFrom n ((h, b) ∷ pending)
        → KeysMatch ((h, b) ∷ pending)
        → All IsGenuine (b ∷ blocks_of pending)
        → AreLinked (b ∷ blocks_of pending)
        → find_block (hash_to_hash_id b.id) rows ≡ none
        → AreFresh rows (b ∷ blocks_of pending)
    children-AreFresh n h b [] f keys a linked unknown = (unknown, tt, tt)
    children-AreFresh n h b ((j, x) ∷ pending) f keys a linked unknown = (
      unknown,
      other_ids b (suc n) ((j, x) ∷ pending) a.0 (omega (arith, f.0, keys.0)) f.1 keys.1 a.1,
      children-AreFresh (suc n) j x pending f.1 keys.1 a.1 linked.1
          (child-unknown b x a.1.0 linked.0 (omega (arith, f.1.0, keys.1.0)) unknown),
    )

    -- Of linked blocks at consecutive heights, those that are indexed come first.
    pub linked-IndexedFirst :
        (n : ℕ) (pending : BTreeMap BlockData)
        → IsFrom n pending
        → KeysMatch pending
        → All IsGenuine (blocks_of pending)
        → AreLinked (blocks_of pending)
        → IndexedFirst rows pending
    linked-IndexedFirst n [] f keys a linked = tt
    linked-IndexedFirst n ((h, b) ∷ pending) f keys a linked =
        elim (Option-cases (find_block (hash_to_hash_id b.id) rows)) [
          | inl unknown ↦ inr (children-AreFresh n h b pending f keys a linked unknown)
          | inr (r, e) ↦ inl (
            found-RowOf b rows r a.0 k.genuine e,
            linked-IndexedFirst (suc n) pending f.1 keys.1 a.1 (rest pending linked),
          )
        ]
      where
        rest :
            (pending : BTreeMap BlockData)
            → AreLinked (b ∷ blocks_of pending)
            → AreLinked (blocks_of pending)
        rest [] linked = tt
        rest (e ∷ pending) linked = linked.1
