-- ===== src/Prefetcher/Tracking.antt =====
-- A state of `Prefetcher` in src/node/prefetcher.rs whose recorded hashes are those of the reader's
-- chain, and what a call of `next` may come to.
use rust_bitcoin_indexer.Base.{
  ℕ, suc, ◌+◌, ◌-◌, ◌%◌, ◌≤◌, ◌<◌, ◌≡◌, ◌≢◌, ◌⊎◌, inl, inr, refl, subst, sym, some, List, [], ◌∷◌,
  ◌++◌, Bool, true, false, arith, ◌==◌, Bool-cases, length, take, get_elem?, get_elem?-push,
  length-append, length-take, eqb→eq, eqb→ne,
}
use rust_bitcoin_indexer.Base.Outcome.{Outcome, ok, panic, blocked}
use rust_bitcoin_indexer.BTreeMap.{BTreeMap, get}
use rust_bitcoin_indexer.Types.{
  BlockHeight, BlockHash, u32_size, WithHeightAndId, RpcBlockWithPrevId,
}
use rust_bitcoin_indexer.Prefetcher.{Prefetcher, is_reorg, record_hash}
use rust_bitcoin_indexer.Prefetcher.Window.{
  IsWindow, next_low, record_hash-IsWindow, get-record_hash, is_reorg_tracked, is_reorg_lowest,
}
use rust_bitcoin_indexer.Prefetcher.Session.{IsGood, IsSession, IsReady}
use rust_bitcoin_indexer.Prefetcher.Chain.{chain_insert, IsLinked, push-IsLinked}

module _ {D : Type 0} (prev : D → BlockHash) where
  -- `lo` is the lowest height with a recorded hash.
  pub record IsTracking (lo : BlockHeight) (p : Prefetcher D) (chain : List (WithHeightAndId D))
      : Type 0 where
    pub window : IsWindow lo p.cur_height p.prev_hashes
    pub ready : IsReady prev p
    pub extends : p.cur_height ≤ length chain
    pub synced :
        (h : ℕ) (x : BlockHash)
        → h < p.cur_height
        → get h p.prev_hashes ≡ some x
        → (b : WithHeightAndId D) × (get_elem? chain h ≡ some b) × (b.id ≡ x)
    pub linked : IsLinked prev chain

  -- The three answers of `is_reorg`.
  abbrev pub Detects : BlockHeight → Prefetcher D → BlockHash → Outcome Bool → Type 0
  Detects lo p parent r =
      ((r ≡ ok false) × ((p.cur_height ≡ 0) ⊎ (get (p.cur_height - 1) p.prev_hashes ≡ some parent)))
      ⊎ ((r ≡ ok true) × (lo < p.cur_height))
      ⊎ ((r ≡ panic) × (0 < lo))

  pub is_reorg-Detects :
      (lo : BlockHeight) (p : Prefetcher D) (parent : BlockHash)
      → IsWindow lo p.cur_height p.prev_hashes
      → Detects lo p parent (is_reorg p.cur_height p.prev_hashes parent)
  is_reorg-Detects lo p parent w = elim (Bool-cases (lo == p.cur_height)) [
    | inl at ↦
        let e =
          is_reorg_lowest lo p.cur_height p.prev_hashes w parent
            (sym (eqb→eq lo p.cur_height at)) in
        ground (arith, e)
    | inr above ↦
        let (stored, g, e) =
          is_reorg_tracked lo p.cur_height p.prev_hashes w parent
            (omega (arith, w.from, eqb→ne lo p.cur_height above)) in
        ground (arith, g, e, w.from)
  ]

  -- What a call of `next` may come to: a wait for the node, a panic where a reorg goes below the
  -- recorded hashes, or a block that continues the reader's chain at its height or lower down.
  abbrev pub Yields :
      BlockHeight
      → Prefetcher D
      → List (WithHeightAndId D)
      → Outcome (WithHeightAndId D × Prefetcher D)
      → Type 0
  Yields lo p chain r =
      (r ≡ blocked)
      ⊎ ((r ≡ panic) × (0 < lo))
      ⊎ ((b : WithHeightAndId D) × (q : Prefetcher D) × (r ≡ ok (b, q))
          × (b.height ≤ p.cur_height)
          × (q.cur_height ≡ suc b.height)
          × (chain_insert chain b.height b ≡ ok (take b.height chain ++ b ∷ []))
          × IsTracking (next_low lo b.height) q (take b.height chain ++ b ∷ []))

  abbrev pub taken :
      Prefetcher D → List (RpcBlockWithPrevId D) → BTreeMap (RpcBlockWithPrevId D) → Prefetcher D
  taken p rest early = record p { rx = some rest; out_of_order_items = early }

  -- The state after an item at the current height is recorded and handed out.
  abbrev pub yielded : Prefetcher D → RpcBlockWithPrevId D → Prefetcher D
  yielded p item = record p {
    prev_hashes = record_hash p.cur_height item.block.id p.prev_hashes;
    cur_height = (p.cur_height + 1) % u32_size;
  }

  module _ (lo : BlockHeight) (p : Prefetcher D) (chain : List (WithHeightAndId D))
      (item : RpcBlockWithPrevId D) (rest : List (RpcBlockWithPrevId D))
      (early : BTreeMap (RpcBlockWithPrevId D)) (t : IsTracking lo p chain)
      (at : item.block.height ≡ p.cur_height) (good : IsGood prev item)
      (s : IsSession prev (suc p.cur_height) rest early)
      (agrees : (p.cur_height ≡ 0)
        ⊎ (get (p.cur_height - 1) p.prev_hashes ≡ some item.prev_block_id)) where
    abbrev extended : List (WithHeightAndId D)
    extended = take p.cur_height chain ++ item.block ∷ []

    pub no_wrap : (p.cur_height + 1) % u32_size ≡ suc p.cur_height
    no_wrap = omega (arith, good.1, at)

    extended-IsLinked : IsLinked prev extended
    extended-IsLinked =
        push-IsLinked prev chain p.cur_height item.block t.extends t.linked
          λ a ne g. parent_of a ne g agrees
      where
        parent_of :
            (a : WithHeightAndId D)
            → p.cur_height ≢ 0
            → get_elem? chain (p.cur_height - 1) ≡ some a
            → (p.cur_height ≡ 0) ⊎ (get (p.cur_height - 1) p.prev_hashes ≡ some item.prev_block_id)
            → prev item.block.payload ≡ a.id
        parent_of a ne g (inl z) = absurd (ne z)
        parent_of a ne g (inr found) =
            let (b, at_b, same) =
              t.synced (p.cur_height - 1) item.prev_block_id (omega arith) found in
            ground (arith, good.0)

    extended-synced :
        (h : ℕ) (x : BlockHash)
        → h < suc p.cur_height
        → get h (record_hash p.cur_height item.block.id p.prev_hashes) ≡ some x
        → (b : WithHeightAndId D) × (get_elem? extended h ≡ some b) × (b.id ≡ x)
    extended-synced h x lt g =
        elim (get-record_hash lo p.cur_height item.block.id p.prev_hashes t.window h x g) [
          | inl (here, same) ↦ (
            item.block,
            ground (arith, get_elem?-push p.cur_height h chain item.block t.extends),
            sym same,
          )
          | inr (other, below) ↦
              let (b, at_b, same) = t.synced h x (omega arith) below in
              (b, ground (arith, get_elem?-push p.cur_height h chain item.block t.extends), same)
        ]

    pub yielded-IsTracking :
        IsTracking (next_low lo p.cur_height) (yielded (taken p rest early) item) extended
    yielded-IsTracking = record {
      window =
          subst
            (λ c.
              IsWindow (next_low lo p.cur_height) c
                (record_hash p.cur_height item.block.id p.prev_hashes))
            (sym no_wrap)
            (record_hash-IsWindow lo p.cur_height item.block.id p.prev_hashes t.window);
      ready = record {
        items = rest;
        running = refl;
        session = subst (λ c. IsSession prev c rest early) (sym no_wrap) s;
      };
      extends = rw no_wrap (
          omega (
            arith,
            length-append (take p.cur_height chain) (item.block ∷ []),
            length-take p.cur_height chain,
            t.extends,
          ));
      synced = rw no_wrap extended-synced;
      linked = extended-IsLinked;
    }
