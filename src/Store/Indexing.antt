-- ===== src/Store/Indexing.antt =====
-- The store of src/db/pg.rs over a whole run: what `insert` keeps true of its rows and of the chain
-- that it represents.
use rust_bitcoin_indexer.Base.{
  ℕ, zero, suc, length-map, ◌+◌, ◌≤◌, ◌<◌, ◌≡◌, ◌∙◌, ◌⊎◌, sym, ap, subst, refl, inl, inr, Option,
  List, [], ◌∷◌, map, arith, Option-cases, length, All, All-append, All-map,
}
use rust_bitcoin_indexer.Base.Outcome.{ok}
use rust_bitcoin_indexer.BTreeMap.{BTreeMap}
use rust_bitcoin_indexer.Types.{BlockHeight, BlockHash, u32_size}
use rust_bitcoin_indexer.Bitcoin.{BlockData, Network}
use rust_bitcoin_indexer.Hash.{hash_to_hash_id, hash_id_size}
use rust_bitcoin_indexer.Db.{BlockRow, find_block}
use rust_bitcoin_indexer.Db.Current.{at_height, length-cut, cut, IsChain, InRange}
use rust_bitcoin_indexer.Format.{block_row}
use rust_bitcoin_indexer.Store.{IndexerStore}
use rust_bitcoin_indexer.Store.Insert.{insert}
use rust_bitcoin_indexer.Store.Indexed.{blocks_of, IndexedFirst}
use rust_bitcoin_indexer.Store.Relabel.{forget, find_block-forget}
use rust_bitcoin_indexer.Store.Positions.{All-with_block}
use rust_bitcoin_indexer.Store.Holding.{IsHolding-below}
use rust_bitcoin_indexer.Store.Collecting.{collected, with_block, grow}
use rust_bitcoin_indexer.Store.Collects.{Represents, Adds}
use rust_bitcoin_indexer.Store.Represents.{IsAdmitted, insert-Represents}
use rust_bitcoin_indexer.Store.Linked.{
  LinkedView, HasParent, hashes_at-IsFound, IsFound-append, at_height-some, below_top,
  push_all-AreLinked, LinkedView-put,
}
use rust_bitcoin_indexer.Store.Queue.{length-push_block_ids}
use rust_bitcoin_indexer.Store.Genuine.{
  IsFound, IsGenuine, IsGenuineRow, AreGenuine, found-height, linked-IndexedFirst, find_block-All,
}

pub length-collected :
    (c : List BlockHash) (lo : BlockHeight) (pending : BTreeMap BlockData)
    → lo + length pending ≤ length c
    → length (collected c lo pending) ≡ lo + length pending
length-collected c lo pending behind =
    length-push_block_ids (blocks_of pending) (cut lo c)
    ∙ omega (
      arith,
      length-map pending (λ (x : ℕ × BlockData). x.1),
      length-cut lo c (omega (arith, behind)),
    )

module _ (block_of : ℕ → BlockData) where
  -- The store represents the chain, every row is that of its block, and no block stands on one that is
  -- not indexed.
  pub record IsIndexing (s : IndexerStore) (view : List BlockHash) : Type 0 where
    pub rows : List BlockRow
    pub represents : Represents (IsGenuine block_of) s rows view
    pub genuine : AreGenuine block_of (map forget rows)
    pub linked : LinkedView block_of view

  IsGenuineRow-block_rows :
      (bs : List BlockData)
      → All (IsGenuine block_of) bs
      → All (IsGenuineRow block_of) (map block_row bs)
  unfolding block_row
  IsGenuineRow-block_rows [] a = tt
  IsGenuineRow-block_rows (b ∷ bs) a = (ap block_row (sym a.0), IsGenuineRow-block_rows bs a.1)

  genuine-InRange :
      (rows : List BlockRow) → All (IsGenuineRow block_of) (map forget rows) → InRange rows
  unfolding block_row hash_to_hash_id
  genuine-InRange [] a = tt
  genuine-InRange (row ∷ rows) a = (
    subst (λ i. i < hash_id_size) (sym (ap (λ x. x.hash_id) a.0)) (omega arith),
    genuine-InRange rows a.1,
  )

  -- The new blocks that stand in the chain of the rows stand on indexed blocks.
  new-parents :
      (rows : List BlockRow) (view : List BlockHash) (new : List BlockData)
      → IsChain rows view
      → LinkedView block_of view
      → All (IsGenuineRow block_of) (map forget rows)
      → All (λ b. IsGenuine block_of b × (at_height b.height view ≡ b.id ∷ [])) new
      → All
          (λ row. (row.height ≡ 0) ⊎ IsFound row.prev_hash_id (map forget rows))
          (map block_row new)
  unfolding block_row
  new-parents rows view [] current k a n = tt
  new-parents rows view (b ∷ new) current k a n =
      (parent b.height n.0.1 refl, new-parents rows view new current k a n.1)
    where
      parent :
          (h : ℕ)
          → at_height h view ≡ b.id ∷ []
          → h ≡ b.height
          → (b.height ≡ 0) ⊎ IsFound (hash_to_hash_id b.payload.prev_blockhash) (map forget rows)
      parent zero at same = inl (sym same)
      parent (suc h) at same =
          let tall : suc h < length view = below_top (suc h) view b.id at in
          let (y, under) = at_height-some h view (omega arith) in
          let prev : b.payload.prev_blockhash ≡ y =
            sym (ap (λ x. x.payload.prev_blockhash) n.0.0) ∙ k.linked h b.id y at under in
          let (r, found) =
            hashes_at-IsFound h y rows (genuine-InRange rows a) (current.at h ∙ under) in
          inr (
            forget r,
            ap (λ i. find_block (hash_to_hash_id i) (map forget rows)) prev
                ∙ find_block-forget (hash_to_hash_id y) rows r found,
          )

  -- Added rows are those of their blocks and stand on indexed blocks.
  Adds-AreGenuine :
      (rows rows' : List BlockRow) (view : List BlockHash)
      → AreGenuine block_of (map forget rows)
      → LinkedView block_of view
      → Adds (IsGenuine block_of) rows rows' view
      → AreGenuine block_of (map forget rows')
  Adds-AreGenuine rows rows' view k linked (new, grown, good, placed) =
      let genuine : All (IsGenuineRow block_of) (map forget rows') =
        subst (All (IsGenuineRow block_of)) (sym grown) (
          All-append (IsGenuineRow block_of) (map forget rows) (map block_row new) k.genuine
            (IsGenuineRow-block_rows new (All-map (IsGenuine block_of) (λ b g. g.0) new good))) in
      let WithParent =
        λ (row : BlockRow). (row.height ≡ 0) ⊎ IsFound row.prev_hash_id (map forget rows') in
      let old : All WithParent (map forget rows) =
        All-map WithParent
          (λ row p. elim p [
            | inl zero_high ↦ inl zero_high
            | inr found ↦ inr (
                subst (IsFound row.prev_hash_id) (sym grown)
                  (IsFound-append row.prev_hash_id (map forget rows) (map block_row new) found))
          ])
          (map forget rows) k.parents in
      let added : All WithParent (map block_row new) = elim placed [
        | inl nothing ↦ rw nothing tt
        | inr current ↦ new-parents rows' view new current linked genuine good
      ] in
      record {
        genuine = genuine;
        parents =
            subst (All WithParent) (sym grown)
              (All-append WithParent (map forget rows) (map block_row new) old added);
      }

  module _ (s : IndexerStore) (b : BlockData) (view : List BlockHash) (k : IsIndexing s view)
      (g : IsGenuine block_of b) (parent : HasParent block_of b view)
      (high : b.height ≤ length view) where
    -- The store of a run admits the block: at the tip it is unknown, since each row that the store
    -- knows stands below.
    pub IsIndexing-IsAdmitted : IsAdmitted s k.rows b
    IsIndexing-IsAdmitted = record {
      unknown = λ settled top. elim k.represents [
        | inl held ↦ elim (Option-cases (find_block (hash_to_hash_id b.id) k.rows)) [
          | inl e ↦ e
          | inr (r, e) ↦ absurd (
              omega (
                arith,
                found-height block_of b k.rows r g k.genuine.genuine e,
                find_block-All (λ row. row.height < length view) (hash_to_hash_id b.id) k.rows r
                    (IsHolding-below s k.rows view held) e,
                top,
                held.counted,
              ))
        ]
        | inr (c, lo, collecting, same, table, all) ↦
            absurd (omega (arith, collecting.some_pending, ap length settled))
      ];
      indexed = λ some_pending top. elim k.represents [
        | inl held ↦ absurd (omega (arith, some_pending, ap length held.settled))
        | inr (c, lo, collecting, same, table, all) ↦
            let tall : length view ≡ lo + length s.pending_reorg =
              ap length same ∙ length-collected c lo s.pending_reorg collecting.behind in
            let grows =
              grow c lo b s.pending_reorg collecting.from_lo collecting.keys
                (omega (arith, collecting.behind)) (omega (arith, high, tall)) in
            let all_good = All-with_block (IsGenuine block_of) b s.pending_reorg g all in
            let linked = LinkedView-put block_of b view g parent high k.linked in
            let pushed : collected c grows.low (with_block b s.pending_reorg)
                ≡ b.id ∷ cut b.height view =
              grows.pushed ∙ ap (λ l. b.id ∷ cut b.height l) (sym same) in
            subst (λ t. IndexedFirst t (with_block b s.pending_reorg)) (sym table)
              (linked-IndexedFirst block_of k.rows k.genuine grows.low
                (with_block b s.pending_reorg) grows.from_low grows.keys all_good
                (push_all-AreLinked block_of (blocks_of (with_block b s.pending_reorg))
                  (cut grows.low c) (subst (LinkedView block_of) (sym pushed) linked) all_good))
      ];
    }

    -- When `insert` succeeds on the store of a run, which represents a linked chain and whose
    -- rows are those of their blocks, for the block that its id says, with its parent in the
    -- chain below its height and that height below 2^32 - 1, the store is one of a run again: it
    -- represents the chain cut at the block's height with the block on top, or, where the chain
    -- has that very block at the height, the same chain.
    pub insert-IsIndexing :
        (address : Network → ℕ → Option ℕ) (s' : IndexerStore)
        → suc b.height < u32_size
        → insert address s b ≡ ok s'
        → IsIndexing s' (b.id ∷ cut b.height view)
          ⊎ ((at_height b.height view ≡ b.id ∷ []) × IsIndexing s' view)
    insert-IsIndexing address s' small e =
        elim (insert-Represents (IsGenuine block_of) address s s' b k.rows view g k.represents high
          small IsIndexing-IsAdmitted e) [
            | inl (rows', adds, rep) ↦
                let linked = LinkedView-put block_of b view g parent high k.linked in
                inl (record {
                  rows = rows';
                  represents = rep;
                  genuine =
                      Adds-AreGenuine k.rows rows' (b.id ∷ cut b.height view) k.genuine linked adds;
                  linked = linked;
                })
            | inr (at, rep) ↦ inr (
              at,
              record { rows = k.rows; represents = rep; genuine = k.genuine; linked = k.linked },
            )
          ]
