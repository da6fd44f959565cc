-- ===== src/Store/Differs.antt =====
-- `finish_reorg` of src/db/pg.rs: the first pending height at which the chain differs.
use rust_bitcoin_indexer.Base.{
  ℕ, suc, ◌+◌, ◌≤◌, ◌<◌, ◌≡◌, ◌∙◌, sym, ap, subst, refl, inl, inr, none, some, List, [], ◌∷◌, arith,
  ◌==◌, Bool-cases, length, eqb→eq, eqb→ne, lt→ltb,
}
use rust_bitcoin_indexer.BTreeMap.{BTreeMap, split_from}
use rust_bitcoin_indexer.BTreeMap.Consecutive.{IsFrom, split_from_all}
use rust_bitcoin_indexer.Types.{BlockHeight, BlockHash}
use rust_bitcoin_indexer.Bitcoin.{BlockData}
use rust_bitcoin_indexer.Db.{Db}
use rust_bitcoin_indexer.Db.Current.{
  cut, cut_all, push_all, at_height, at_height_above, hashes_at, IsChain,
}
use rust_bitcoin_indexer.Store.{block_ids, read_db_block_hash_by_height}
use rust_bitcoin_indexer.Store.Insert.{first_different, or_height}
use rust_bitcoin_indexer.Store.Indexed.{blocks_of, KeysMatch}

-- The element at a height below the tip, and the chain cut above it.
pub cut-suc :
    {A : Type 0} (h : ℕ) (c : List A)
    → h < length c
    → (x : A) × (at_height h c ≡ x ∷ []) × (cut (suc h) c ≡ x ∷ cut h c)
cut-suc h [] lt = absurd (omega arith)
cut-suc h (y ∷ c) lt = elim (Bool-cases (h == length c)) [
  | inl tip ↦ (y, rw tip, ground (arith, cut_all h c))
  | inr below ↦
      let (x, at, above) = cut-suc h c (omega (arith, eqb→ne h (length c) below)) in
      (x, rw below at, ground (arith, above))
]

-- The block hash that the database has at a height is that of the chain.
pub read_some :
    (db : Db) (h : BlockHeight) (x : BlockHash)
    → hashes_at h db.block ≡ x ∷ []
    → read_db_block_hash_by_height db h ≡ some x
unfolding read_db_block_hash_by_height
read_some db h x e = ground (arith, e)

pub read_none :
    (db : Db) (h : BlockHeight)
    → hashes_at h db.block ≡ []
    → read_db_block_hash_by_height db h ≡ none
unfolding read_db_block_hash_by_height
read_none db h e = ground (arith, e)

-- The pending blocks below the first different height are those that the chain has.
pub record Agrees (db : Db) (c : List BlockHash) (lo : BlockHeight) (pending : BTreeMap BlockData)
    (from : BlockHeight) : Type 0 where
  pub above : lo ≤ from
  pub within : from ≤ length c
  pub same :
      push_all (block_ids (blocks_of pending)) (cut lo c)
      ≡ push_all (block_ids (blocks_of (split_from from pending))) (cut from c)

Agrees-here :
    (db : Db) (c : List BlockHash) (lo : BlockHeight) (pending : BTreeMap BlockData)
    → IsFrom lo pending
    → lo ≤ length c
    → Agrees db c lo pending lo
Agrees-here db c lo pending f le = record {
  above = omega arith;
  within = le;
  same = rw (split_from_all lo lo pending f (omega arith));
}

Agrees-step :
    (db : Db) (c : List BlockHash) (lo h : BlockHeight) (b : BlockData)
    (pending : BTreeMap BlockData) (from : BlockHeight)
    → h ≡ lo
    → cut (suc lo) c ≡ b.id ∷ cut lo c
    → Agrees db c (suc lo) pending from
    → Agrees db c lo ((h, b) ∷ pending) from
unfolding split_from
Agrees-step db c lo h b pending from e up a = record {
  above = omega (arith, a.above);
  within = a.within;
  same =
      rw (lt→ltb h from (omega (arith, a.above)))
        (ap (push_all (block_ids (blocks_of pending))) (sym up) ∙ a.same);
}

pub first_different-Agrees :
    (db : Db) (c : List BlockHash) (lo : BlockHeight) (pending : BTreeMap BlockData)
    → IsChain db.block c
    → IsFrom lo pending
    → KeysMatch pending
    → lo ≤ length c
    → lo + length pending ≡ suc (length c)
    → Agrees db c lo pending (or_height (first_different db pending) (length c))
unfolding first_different
first_different-Agrees db c lo [] k f m le n = absurd (omega arith)
first_different-Agrees db c lo ((h, b) ∷ pending) k f m le n = elim (Bool-cases (h == length c)) [
  | inl tip ↦
      let top = eqb→eq h (length c) tip in
      let read = read_none db h (k.at h ∙ at_height_above h c (omega (arith, top))) in
      let last = no_more pending (omega (arith, top, f.0)) in
      subst (Agrees db c lo ((h, b) ∷ pending)) (ground (arith, read, last, top, f.0))
        (Agrees-here db c lo ((h, b) ∷ pending) f le)
  | inr below ↦
      let lt : h < length c = omega (arith, f.0, eqb→ne h (length c) below) in
      let (x, at, up) = cut-suc h c lt in
      let read = read_some db h x (k.at h ∙ at) in
      elim (Bool-cases (x == b.id)) [
        | inl equal ↦ subst (Agrees db c lo ((h, b) ∷ pending)) (ground (arith, read, equal)) (
            Agrees-step db c lo h b pending _ f.0
              (subst (λ n. cut (suc n) c ≡ b.id ∷ cut n c) f.0
                (up ∙ ap (λ y. y ∷ cut h c) (eqb→eq x b.id equal)))
              (first_different-Agrees db c (suc lo) pending k f.1 m.1 (omega (arith, f.0))
                (omega arith)))
        | inr differs ↦
            subst (Agrees db c lo ((h, b) ∷ pending)) (ground (arith, read, differs, m.0, f.0))
              (Agrees-here db c lo ((h, b) ∷ pending) f le)
      ]
]
  where
    no_more : (l : BTreeMap BlockData) → length l ≡ 0 → first_different db l ≡ none
    no_more [] z = refl
    no_more (y ∷ l) z = absurd (omega arith)
