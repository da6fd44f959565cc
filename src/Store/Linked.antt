-- ===== src/Store/Linked.antt =====
-- A chain in which each block's parent is the block below it, as `insert` of src/db/pg.rs grows it.
use rust_bitcoin_indexer.Base.{
  ℕ, suc, ◌-◌, ◌≤◌, ◌<◌, ◌≡◌, ◌∙◌, ◌⊎◌, sym, ap, refl, inl, inr, not, ◌&&◌, List, [], ◌∷◌, ◌++◌,
  arith, ◌==◌, Bool-cases, length, All, eqb→eq, eqb→ne,
}
use rust_bitcoin_indexer.Types.{BlockHeight, BlockHash}
use rust_bitcoin_indexer.Bitcoin.{BlockData}
use rust_bitcoin_indexer.Hash.{hash_to_hash_id, hash_id_size, split-join}
use rust_bitcoin_indexer.Db.{BlockRow, find_block, live_at}
use rust_bitcoin_indexer.Db.Current.{
  row_hash, hashes_at, at_height, at_height-cut, length-cut, cut, push_all,
}
use rust_bitcoin_indexer.Store.{block_ids}
use rust_bitcoin_indexer.Store.Positions.{at_height-push_all}
use rust_bitcoin_indexer.Store.Genuine.{IsFound, IsGenuine, AreLinked}

-- The block at a height of a chain is indexed.
pub hashes_at-IsFound :
    (h : BlockHeight) (x : BlockHash) (rows : List BlockRow)
    → All (λ row. row.hash_id < hash_id_size) rows
    → hashes_at h rows ≡ x ∷ []
    → IsFound (hash_to_hash_id x) rows
unfolding live_at find_block
hashes_at-IsFound h x [] a e = cc
hashes_at-IsFound h x (row ∷ rows) a e = elim (Bool-cases (row.hash_id == hash_to_hash_id x)) [
  | inl here ↦ (row, ground (arith, here))
  | inr there ↦ elim (Bool-cases (row.height == h && not row.extinct)) [
    | inl live ↦
        let joined = split-join row.hash_id row.hash_rest a.0 in
        let whole : row_hash row ≡ x = ground (arith, live, e) in
        absurd
          (eqb→ne row.hash_id (hash_to_hash_id x) there (sym joined.0 ∙ ap hash_to_hash_id whole))
    | inr dead ↦
        let rest = hashes_at-IsFound h x rows a.1 (ground (arith, dead, e)) in
        (rest.0, ground (arith, there, rest.1))
  ]
]

pub IsFound-append :
    (id : ℕ) (rows more : List BlockRow) → IsFound id rows → IsFound id (rows ++ more)
unfolding find_block
IsFound-append id [] more (r, e) = cc
IsFound-append id (row ∷ rows) more (r, e) = elim (Bool-cases (row.hash_id == id)) [
  | inl here ↦ (row, ground (arith, here))
  | inr there ↦
      let rest = IsFound-append id rows more (r, ground (arith, there, e)) in
      (rest.0, ground (arith, there, rest.1))
]

-- Something stands at each height below the tip.
pub at_height-some :
    {A : Type 0} (h : ℕ) (c : List A) → h < length c → (x : A) × (at_height h c ≡ x ∷ [])
at_height-some h [] lt = absurd (omega arith)
at_height-some h (x ∷ c) lt = elim (Bool-cases (h == length c)) [
  | inl top ↦ (x, rw top refl)
  | inr below ↦
      let rest = at_height-some h c (omega (arith, eqb→ne h (length c) below)) in
      (rest.0, rw below rest.1)
]

pub below_top : {A : Type 0} (h : ℕ) (c : List A) (x : A) → at_height h c ≡ x ∷ [] → h < length c
below_top h [] x e = cc
below_top h (y ∷ c) x e = ground (arith, below_top h c x)

module _ (block_of : ℕ → BlockData) where
  -- The ids of a chain are those of their blocks, and the block at each height has the one below it as
  -- its parent.
  pub record LinkedView (view : List BlockHash) : Type 0 where
    pub linked :
        (h : BlockHeight) (x y : BlockHash)
        → at_height (suc h) view ≡ x ∷ []
        → at_height h view ≡ y ∷ []
        → (block_of (hash_to_hash_id x)).payload.prev_blockhash ≡ y
    pub named :
        (h : BlockHeight) (x : BlockHash)
        → at_height h view ≡ x ∷ []
        → ((block_of (hash_to_hash_id x)).id ≡ x) × ((block_of (hash_to_hash_id x)).height ≡ h)

  -- The block's parent is the one below its height.
  abbrev pub HasParent : BlockData → List BlockHash → Type 0
  HasParent b view =
      (b.height ≡ 0) ⊎ (at_height (b.height - 1) view ≡ b.payload.prev_blockhash ∷ [])

  pub push_all-AreLinked :
      (bs : List BlockData) (c : List BlockHash)
      → LinkedView (push_all (block_ids bs) c)
      → All (IsGenuine block_of) bs
      → AreLinked block_of bs
  push_all-AreLinked [] c k a = tt
  push_all-AreLinked (b ∷ []) c k a = tt
  push_all-AreLinked (b ∷ next ∷ bs) c k a =
      let upper = at_height-push_all (suc (length c)) bs (next.id ∷ b.id ∷ c) (omega arith) in
      let lower = at_height-push_all (length c) bs (next.id ∷ b.id ∷ c) (omega arith) in
      (
        sym (ap (λ x. x.payload.prev_blockhash) a.1.0)
            ∙ k.linked (length c) next.id b.id (upper ∙ ground arith) (lower ∙ ground arith),
        push_all-AreLinked (next ∷ bs) (b.id ∷ c) k a.1,
      )

  module _ (b : BlockData) (view : List BlockHash) (g : IsGenuine block_of b)
      (parent : HasParent b view) (high : b.height ≤ length view) where
    -- A chain stays linked when a block with its parent below it replaces those at its height and above.
    pub LinkedView-put : LinkedView view → LinkedView (b.id ∷ cut b.height view)
    LinkedView-put k = record {
      linked = λ h x y up down. elim (Bool-cases (suc h == b.height)) [
        | inl top ↦
            let at = eqb→eq (suc h) b.height top in
            elim parent [
              | inl zero_high ↦ absurd (omega (arith, zero_high, at))
              | inr below ↦
                  let here : x ≡ b.id = ground (arith, up, at, length-cut b.height view high) in
                  let there : at_height h view ≡ b.payload.prev_blockhash ∷ [] =
                    ap (λ n. at_height n view) (omega (arith, at)) ∙ below in
                  let under : at_height h view ≡ y ∷ [] = ground (
                    arith,
                    down,
                    at,
                    at_height-cut h b.height view,
                    length-cut b.height view high,
                  ) in
                  ap (λ i. (block_of (hash_to_hash_id i)).payload.prev_blockhash) here
                  ∙ ap (λ x. x.payload.prev_blockhash) g
                  ∙ ground (arith, there, under)
            ]
        | inr other ↦
            let ne = eqb→ne (suc h) b.height other in
            k.linked h x y
              (ground
                (arith, up, ne, at_height-cut (suc h) b.height view, length-cut b.height view high))
              (ground (
                arith,
                up,
                down,
                ne,
                at_height-cut (suc h) b.height view,
                at_height-cut h b.height view,
                length-cut b.height view high,
              ))
      ];
      named = λ h x at. elim (Bool-cases (h == b.height)) [
        | inl top ↦
            let here : x ≡ b.id = ground (arith, at, top, length-cut b.height view high) in
            let same : block_of (hash_to_hash_id x) ≡ b =
              ap (λ i. block_of (hash_to_hash_id i)) here ∙ g in
            (ap (λ y. y.id) same ∙ sym here, ap (λ y. y.height) same ∙ sym (eqb→eq h b.height top))
        | inr other ↦ k.named h x (
            ground (
              arith,
              at,
              eqb→ne h b.height other,
              at_height-cut h b.height view,
              length-cut b.height view high,
            ))
      ];
    }
