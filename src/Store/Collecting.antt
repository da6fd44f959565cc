-- ===== src/Store/Collecting.antt =====
-- A store that collects the blocks of a reorg, in src/db/pg.rs: one more block in the map of pending ones.
use rust_bitcoin_indexer.Base.{
  ℕ, suc, ◌+◌, ◌≤◌, ◌<◌, ◌≡◌, ◌∙◌, sym, ap, refl, inl, inr, List, [], ◌∷◌, ◌++◌, arith, ltb,
  Bool-cases, length, length-append, length-map, All-append, ltb→lt, ltb→le,
}
use mathlib.Core.List.{map-append}
use rust_bitcoin_indexer.BTreeMap
use rust_bitcoin_indexer.BTreeMap.{BTreeMap, split_below, split_from}
use rust_bitcoin_indexer.BTreeMap.Consecutive.{IsFrom, split_below-IsFrom, split_below_none}
use rust_bitcoin_indexer.Types.{BlockHeight, BlockHash}
use rust_bitcoin_indexer.Bitcoin.{BlockData}
use rust_bitcoin_indexer.Db.Current.{cut, cut_all, push_all, length-cut}
use rust_bitcoin_indexer.Store.{IndexerStore, block_ids}
use rust_bitcoin_indexer.Store.Coherent.{IsCoherent}
use rust_bitcoin_indexer.Store.Indexed.{blocks_of, KeysMatch}
use rust_bitcoin_indexer.Store.Queue.{push_block_ids-append, length-push_block_ids}

-- The pending blocks start at height `lo` and do not yet overtake the chain `c` of the database.
pub record IsCollecting (s : IndexerStore) (c : List BlockHash) (lo : BlockHeight) : Type 0 where
  pub coherent : IsCoherent (length c) s.db c
  pub counted : s.chain_block_count ≡ length c
  pub no_batch : s.batch ≡ []
  pub from_lo : IsFrom lo s.pending_reorg
  pub keys : KeysMatch s.pending_reorg
  pub some_pending : 0 < length s.pending_reorg
  pub behind : lo + length s.pending_reorg ≤ length c

-- The chain below the first pending block, with the pending blocks on top.
abbrev pub collected : List BlockHash → BlockHeight → BTreeMap BlockData → List BlockHash
collected c lo pending = push_all (block_ids (blocks_of pending)) (cut lo c)

module _ {V : Type 0} where
  insert_last :
      (lo k : ℕ) (v : V) (m : BTreeMap V)
      → IsFrom lo m
      → lo + length m ≡ k
      → BTreeMap.insert k v m ≡ m ++ (k, v) ∷ []
  unfolding BTreeMap.insert
  insert_last lo k v [] f e = refl
  insert_last lo k v ((j, w) ∷ m) f e = ground (arith, insert_last (suc lo) k v m f.1)

  IsFrom-push :
      (lo k : ℕ) (v : V) (m : BTreeMap V)
      → IsFrom lo m
      → lo + length m ≡ k
      → IsFrom lo (m ++ (k, v) ∷ [])
  IsFrom-push lo k v [] f e = (omega arith, tt)
  IsFrom-push lo k v ((j, w) ∷ m) f e = (f.0, IsFrom-push (suc lo) k v m f.1 (omega arith))

  split_below-append-split_from :
      (k : ℕ) (m : BTreeMap V) (lo : ℕ) → IsFrom lo m → split_below k m ++ split_from k m ≡ m
  unfolding split_below split_from
  split_below-append-split_from k [] lo f = refl
  split_below-append-split_from k ((j, w) ∷ m) lo f =
      ground
        (arith, split_below-append-split_from k m (suc lo) f.1, split_below_none (suc lo) k m f.1)

KeysMatch-split_below : (k : ℕ) (m : BTreeMap BlockData) → KeysMatch m → KeysMatch (split_below k m)
unfolding split_below
KeysMatch-split_below k [] f = tt
KeysMatch-split_below k ((j, w) ∷ m) f = ground (arith, KeysMatch-split_below k m f.1, f.0)

cut-push_all :
    (h : ℕ) (xs : List BlockData) (c : List BlockHash)
    → h ≤ length c
    → cut h (push_all (block_ids xs) c) ≡ cut h c
cut-push_all h [] c le = refl
cut-push_all h (x ∷ xs) c le = cut-push_all h xs (x.id ∷ c) (omega arith) ∙ ground arith

cut-cut : (h lo : ℕ) (c : List BlockHash) → h ≤ lo → cut h (cut lo c) ≡ cut h c
cut-cut h lo [] le = refl
cut-cut h lo (x ∷ c) le = ground (arith, cut-cut h lo c)

collected-append :
    (c : List BlockHash) (lo : BlockHeight) (xs ys : BTreeMap BlockData)
    → collected c lo (xs ++ ys) ≡ push_all (block_ids (blocks_of ys)) (collected c lo xs)
collected-append c lo xs ys =
    rw map-append (push_block_ids-append (blocks_of xs) (blocks_of ys) (cut lo c))

-- The pending blocks after one more block, which replaces those at its height and above.
abbrev pub with_block : BlockData → BTreeMap BlockData → BTreeMap BlockData
with_block block pending = BTreeMap.insert block.height block (split_below block.height pending)

-- What the pending blocks are after one more block.
pub record Grows (c : List BlockHash) (lo : BlockHeight) (block : BlockData)
    (pending : BTreeMap BlockData) : Type 0 where
  pub low : BlockHeight
  pub low_le : low ≤ block.height
  pub from_low : IsFrom low (with_block block pending)
  pub keys : KeysMatch (with_block block pending)
  pub reaches : low + length (with_block block pending) ≡ suc block.height
  pub pushed :
      collected c low (with_block block pending)
      ≡ block.id ∷ cut block.height (collected c lo pending)

module _ (c : List BlockHash) (lo : BlockHeight) (block : BlockData) (pending : BTreeMap BlockData)
    (f : IsFrom lo pending) (keys : KeysMatch pending) (le : lo ≤ length c) where
  Grows-below : block.height < lo → Grows c lo block pending
  Grows-below below =
      let none_below = split_below_none lo block.height pending f (omega arith) in
      let only : with_block block pending ≡ (block.height, block) ∷ [] =
        ap (BTreeMap.insert block.height block) none_below
        ∙ insert_last block.height block.height block [] tt (omega arith) in
      record {
        low = block.height;
        low_le = omega arith;
        from_low = rw only (refl, tt);
        keys = rw only (refl, tt);
        reaches = rw only (omega arith);
        pushed = rw only (
            ap (λ l. block.id ∷ l)
              (sym (
                cut-push_all block.height (blocks_of pending) (cut lo c)
                  (omega (arith, length-cut lo c le))
                ∙ cut-cut block.height lo c (omega arith))));
      }

  Grows-within : lo ≤ block.height → block.height ≤ lo + length pending → Grows c lo block pending
  Grows-within low high =
      let parts = split_below-IsFrom lo block.height pending f low high in
      let kept = split_below block.height pending in
      let more : with_block block pending ≡ kept ++ (block.height, block) ∷ [] =
        insert_last lo block.height block kept parts.0 parts.1 in
      let short = push_all (block_ids (blocks_of kept)) (cut lo c) in
      let tall : length short ≡ block.height =
        length-push_block_ids (blocks_of kept) (cut lo c)
        ∙ omega
            (arith, length-map kept (λ (x : ℕ × BlockData). x.1), length-cut lo c le, parts.1) in
      let whole : collected c lo pending
          ≡ push_all (block_ids (blocks_of (split_from block.height pending))) short =
        ap (collected c lo) (sym (split_below-append-split_from block.height pending lo f))
        ∙ collected-append c lo kept (split_from block.height pending) in
      let back : cut block.height (collected c lo pending) ≡ short =
        ap (cut block.height) whole
        ∙ cut-push_all block.height (blocks_of (split_from block.height pending)) short
            (omega (arith, tall))
        ∙ cut_all block.height short (omega (arith, tall)) in
      record {
        low = lo;
        low_le = low;
        from_low = rw more (IsFrom-push lo block.height block kept parts.0 parts.1);
        keys = rw more (
            All-append _ kept ((block.height, block) ∷ [])
              (KeysMatch-split_below block.height pending keys) (refl, tt));
        reaches = rw more (omega (arith, length-append kept ((block.height, block) ∷ []), parts.1));
        pushed = rw more (
            collected-append c lo kept ((block.height, block) ∷ [])
            ∙ ap (λ l. block.id ∷ l) (sym back));
      }

  pub grow : block.height ≤ lo + length pending → Grows c lo block pending
  grow high = elim (Bool-cases (ltb block.height lo)) [
    | inl below ↦ Grows-below (ltb→lt block.height lo below)
    | inr within ↦ Grows-within (ltb→le block.height lo within) high
  ]
