-- ===== src/Store/Positions.antt =====
-- Where pushed blocks stand in a chain, and which blocks of a map stay when one more is put in.
use rust_bitcoin_indexer.Base.{
  ℕ, suc, ◌<◌, ◌≡◌, ◌∙◌, refl, List, [], ◌∷◌, ◌++◌, arith, ltb, ◌==◌, length, All, Bool-cases, inl,
  inr,
}
use rust_bitcoin_indexer.BTreeMap
use rust_bitcoin_indexer.BTreeMap.{BTreeMap, split_below, split_from}
use rust_bitcoin_indexer.Types.{BlockHash}
use rust_bitcoin_indexer.Bitcoin.{BlockData}
use rust_bitcoin_indexer.Db.{BlockRow}
use rust_bitcoin_indexer.Db.Current.{at_height, push_all}
use rust_bitcoin_indexer.Format.{block_row}
use rust_bitcoin_indexer.Store.{block_ids}
use rust_bitcoin_indexer.Store.Batch.{AreNew}
use rust_bitcoin_indexer.Store.Indexed.{blocks_of}
use rust_bitcoin_indexer.Store.Collecting.{with_block}

pub at_height-push_all :
    (h : ℕ) (xs : List BlockData) (c : List BlockHash)
    → h < length c
    → at_height h (push_all (block_ids xs) c) ≡ at_height h c
at_height-push_all h [] c lt = refl
at_height-push_all h (x ∷ xs) c lt = at_height-push_all h xs (x.id ∷ c) (omega arith) ∙ ground arith

-- New blocks that are pushed stand at their heights.
pub AreNew-at_height :
    (n : ℕ) (xs : List BlockData) (rows : List BlockRow) (c : List BlockHash)
    → length c ≡ n
    → AreNew n xs rows
    → All (λ b. at_height b.height (push_all (block_ids xs) c) ≡ b.id ∷ []) xs
unfolding block_row
AreNew-at_height n [] rows c e a = tt
AreNew-at_height n (x ∷ xs) rows c e a = (
  at_height-push_all x.height xs (x.id ∷ c) (omega (arith, a.1, e)) ∙ ground (arith, a.1, e),
  AreNew-at_height (suc n) xs (rows ++ block_row x ∷ []) (x.id ∷ c) (omega (arith, e)) a.3,
)

pub All-both {ℓ κ} :
    {A : Type ℓ} (P Q : A → Type κ) (xs : List A) → All P xs → All Q xs → All (λ x. P x × Q x) xs
All-both P Q [] a b = tt
All-both P Q (x ∷ xs) a b = ((a.0, b.0), All-both P Q xs a.1 b.1)

module _ (P : BlockData → Type 0) where
  All-split_below :
      (k : ℕ) (m : BTreeMap BlockData) → All P (blocks_of m) → All P (blocks_of (split_below k m))
  unfolding split_below
  All-split_below k [] a = tt
  All-split_below k ((j, w) ∷ m) a = elim (Bool-cases (ltb j k)) [
    | inl e ↦ rw e (a.0, All-split_below k m a.1)
    | inr e ↦ rw e (All-split_below k m a.1)
  ]

  All-insert :
      (k : ℕ) (b : BlockData) (m : BTreeMap BlockData)
      → P b
      → All P (blocks_of m)
      → All P (blocks_of (BTreeMap.insert k b m))
  unfolding BTreeMap.insert
  All-insert k b [] p a = (p, tt)
  All-insert k b ((j, w) ∷ m) p a = elim (Bool-cases (ltb k j)) [
    | inl e ↦ rw e (p, a)
    | inr e ↦ elim (Bool-cases (j == k)) [
      | inl same ↦ rw (e, same) (p, a.1)
      | inr other ↦ rw (e, other) (a.0, All-insert k b m p a.1)
    ]
  ]

  pub All-with_block :
      (block : BlockData) (pending : BTreeMap BlockData)
      → P block
      → All P (blocks_of pending)
      → All P (blocks_of (with_block block pending))
  All-with_block block pending p a =
      All-insert block.height block (split_below block.height pending) p
        (All-split_below block.height pending a)

  pub All-split_from :
      (k : ℕ) (m : BTreeMap BlockData) → All P (blocks_of m) → All P (blocks_of (split_from k m))
  unfolding split_from
  All-split_from k [] a = tt
  All-split_from k ((j, w) ∷ m) a = elim (Bool-cases (ltb j k)) [
    | inl e ↦ rw e (All-split_from k m a.1)
    | inr e ↦ rw e (a.0, All-split_from k m a.1)
  ]
