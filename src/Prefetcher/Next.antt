-- ===== src/Prefetcher/Next.antt =====
-- One call of `next` of src/node/prefetcher.rs.
use rust_bitcoin_indexer.Base.{
  ℕ, zero, suc, ◌-◌, ◌≤◌, ◌<◌, ◌≡◌, inl, inr, refl, ap, subst, ◌∙◌, sym, some, List, [], ◌∷◌, ◌++◌,
  true, false, arith, ◌==◌, Bool-cases, take,
}
use rust_bitcoin_indexer.Base.Outcome.{Outcome, ok, panic}
use rust_bitcoin_indexer.BTreeMap.{BTreeMap, get}
use rust_bitcoin_indexer.Types.{BlockHeight, BlockHash, WithHeightAndId, RpcBlockWithPrevId}
use rust_bitcoin_indexer.Prefetcher.{
  Prefetcher, Deliveries, is_reorg, track_reorgs, take_item, reset_on_reorg, next_block,
  end_fast_sync, next,
}
use rust_bitcoin_indexer.Prefetcher.Window.{next_low, record_hash-IsWindow}
use rust_bitcoin_indexer.Prefetcher.Session.{
  IsGood, IsSession, AreSessions, IsReady, take_item-Takes,
}
use rust_bitcoin_indexer.Prefetcher.Chain.{chain_insert_lem}
use rust_bitcoin_indexer.Prefetcher.Tracking.{
  IsTracking, Detects, is_reorg-Detects, Yields, taken, yielded, no_wrap, yielded-IsTracking,
}

module _ {D : Type 0} (workers : Deliveries D) (prev : D → BlockHash)
    (sessions : AreSessions prev workers) where
  -- Workers started at `height`, after the old ones were stopped.
  abbrev pub restarted : Prefetcher D → ℕ → BlockHeight → Prefetcher D
  restarted p threads height = record p {
    rx = some (workers p.sessions threads height);
    thread_joins = threads;
    out_of_order_items = [];
    cur_height = height;
    workers_finish = false;
    thread_num = threads;
    sessions = suc p.sessions;
  }

  restarted-IsReady :
      (p : Prefetcher D) (threads : ℕ) (height : BlockHeight)
      → IsReady prev (restarted p threads height)
  unfolding get
  restarted-IsReady p threads height = record {
    items = workers p.sessions threads height;
    running = refl;
    session = record {
      ahead = (sessions p.sessions threads height).0;
      distinct = (sessions p.sessions threads height).1;
      kept = λ h item g. absurd (ground arith);
    };
  }

  pub restarted-IsTracking :
      (lo : BlockHeight) (p : Prefetcher D) (chain : List (WithHeightAndId D)) (threads : ℕ)
      (height : BlockHeight)
      → IsTracking prev lo p chain
      → lo ≤ height
      → height ≤ p.cur_height
      → IsTracking prev lo (restarted p threads height) chain
  restarted-IsTracking lo p chain threads height t a b = record {
    window = record {
      keys = t.window.keys;
      from = a;
      upto = omega (arith, t.window.upto);
      bounded = t.window.bounded;
      tracked = ground (arith, t.window.tracked);
    };
    ready = restarted-IsReady p threads height;
    extends = omega (arith, t.extends);
    synced = λ h x lt g. t.synced h x (omega arith) g;
    linked = t.linked;
  }

  reset_on_reorg_lem :
      (p : Prefetcher D) (items : List (RpcBlockWithPrevId D))
      → p.rx ≡ some items
      → 0 < p.cur_height
      → reset_on_reorg workers p ≡ ok (restarted p p.thread_num (p.cur_height - 1))
  unfolding reset_on_reorg
  reset_on_reorg_lem p items e pos = ground (arith, e)

  lower :
      (lo : BlockHeight) (p q : Prefetcher D) (chain : List (WithHeightAndId D))
      (r : Outcome (WithHeightAndId D × Prefetcher D))
      → q.cur_height ≤ p.cur_height
      → Yields prev lo q chain r
      → Yields prev lo p chain r
  lower lo p q chain r le (inl waits) = inl waits
  lower lo p q chain r le (inr (inl deep)) = inr (inl deep)
  lower lo p q chain r le (inr (inr (b, q', e, below, up, inserted, t))) =
      inr (inr (b, q', e, omega (arith, below), up, inserted, t))

  module _ (fuel : ℕ) (lo : BlockHeight) (p : Prefetcher D) (chain : List (WithHeightAndId D))
      (t : IsTracking prev lo p chain) (item : RpcBlockWithPrevId D)
      (rest : List (RpcBlockWithPrevId D)) (early : BTreeMap (RpcBlockWithPrevId D))
      (got : take_item p ≡ ok (item, record p { rx = some rest; out_of_order_items = early }))
      (at : item.block.height ≡ p.cur_height) where
    pub next_block_resets :
        is_reorg p.cur_height p.prev_hashes item.prev_block_id ≡ ok true
        → 0 < p.cur_height
        → next_block workers (suc fuel) p
          ≡ next_block workers fuel (restarted p p.thread_num (p.cur_height - 1))
    unfolding next_block track_reorgs
    next_block_resets found pos =
        ground (arith, got, found, reset_on_reorg_lem (taken prev p rest early) rest refl pos)

    pub next_block_yields :
        is_reorg p.cur_height p.prev_hashes item.prev_block_id ≡ ok false
        → next_block workers (suc fuel) p
          ≡ ok (item.block, yielded prev (taken prev p rest early) item)
    unfolding next_block track_reorgs
    next_block_yields none_found =
        let w = record_hash-IsWindow lo p.cur_height item.block.id p.prev_hashes t.window in
        ground (arith, got, none_found, w.bounded)

  Detects-next :
      (fuel : ℕ) (lo : BlockHeight) (p : Prefetcher D) (chain : List (WithHeightAndId D))
      → IsTracking prev lo p chain
      → p.cur_height < suc fuel
      → ((q : Prefetcher D)
          → IsTracking prev lo q chain
          → q.cur_height < fuel
          → Yields prev lo q chain (next_block workers fuel q))
      → (item : RpcBlockWithPrevId D) (rest : List (RpcBlockWithPrevId D))
        (early : BTreeMap (RpcBlockWithPrevId D))
      → take_item p ≡ ok (item, record p { rx = some rest; out_of_order_items = early })
      → item.block.height ≡ p.cur_height
      → IsGood prev item
      → IsSession prev (suc p.cur_height) rest early
      → Detects prev lo p item.prev_block_id
          (is_reorg p.cur_height p.prev_hashes item.prev_block_id)
      → Yields prev lo p chain (next_block workers (suc fuel) p)
  Detects-next fuel lo p chain t f again item rest early got at good s (inl (none_found, agrees)) =
      rw (next_block_yields fuel lo p chain t item rest early got at none_found) (
        inr (
          inr (
            item.block,
            yielded prev (taken prev p rest early) item,
            refl,
            omega (arith, at),
            no_wrap prev lo p chain item rest early t at good s agrees ∙ ap suc (sym at),
            chain_insert_lem chain item.block.height item.block (omega (arith, at, t.extends)),
            subst
                (λ h.
                  IsTracking prev (next_low lo h) (yielded prev (taken prev p rest early) item)
                    (take h chain ++ item.block ∷ []))
                (sym at) (yielded-IsTracking prev lo p chain item rest early t at good s agrees),
          )))
  Detects-next fuel lo p chain t f again item rest early got at good s (inr (inl (found, above))) =
      let q = restarted p p.thread_num (p.cur_height - 1) in
      rw (next_block_resets fuel lo p chain t item rest early got at found (omega arith)) (
        lower lo p q chain (next_block workers fuel q) (omega arith) (
          again q
            (restarted-IsTracking lo p chain p.thread_num (p.cur_height - 1) t (omega arith)
              (omega arith))
            (omega arith)))
  Detects-next fuel lo p chain t f again item rest early got at good s (inr (inr (deep, pos))) =
      inr (inl (deep_panics, pos))
    where
      deep_panics : next_block workers (suc fuel) p ≡ panic
      deep_panics = unfold next_block track_reorgs in ground (arith, got, deep)

  next_block-Yields :
      (fuel : ℕ) (lo : BlockHeight) (p : Prefetcher D) (chain : List (WithHeightAndId D))
      → IsTracking prev lo p chain
      → p.cur_height < fuel
      → Yields prev lo p chain (next_block workers fuel p)
  unfolding next_block
  next_block-Yields zero lo p chain t f = absurd (omega arith)
  next_block-Yields (suc fuel) lo p chain t f = elim (take_item-Takes prev p t.ready) [
    | inl waits ↦ inl (ground (arith, waits))
    | inr (item, rest, early, got, at, good, s) ↦
        Detects-next fuel lo p chain t f (λ q t' f'. next_block-Yields fuel lo q chain t' f') item
          rest early got at good s (is_reorg-Detects prev lo p item.prev_block_id t.window)
  ]

  pub fast_sync_ends :
      (p : Prefetcher D) (items : List (RpcBlockWithPrevId D))
      → p.rx ≡ some items
      → (p.end_of_fast_sync == p.cur_height) ≡ true
      → end_fast_sync workers p ≡ ok (restarted p 1 p.cur_height)
  unfolding end_fast_sync
  fast_sync_ends p items e ends = ground (arith, e, ends)

  -- A call of `next` on a state that tracks a reader's chain waits, or panics where a reorg goes
  -- below the recorded hashes and these do not start at the genesis block, or hands out a block
  -- at most at the current height that continues the chain, and the state tracks the result; the
  -- workers' sessions are as described by `AreSessions`.
  pub next-Yields :
      (lo : BlockHeight) (p : Prefetcher D) (chain : List (WithHeightAndId D))
      → IsTracking prev lo p chain
      → Yields prev lo p chain (next workers p)
  unfolding next
  next-Yields lo p chain t = elim (Bool-cases (p.end_of_fast_sync == p.cur_height)) [
    | inl ends ↦
        let q = restarted p 1 p.cur_height in
        let t' = restarted-IsTracking lo p chain 1 p.cur_height t t.window.from (omega arith) in
        rw (fast_sync_ends p t.ready.items t.ready.running ends) (
          lower lo p q chain (next_block workers (suc p.cur_height) q) (omega arith)
            (next_block-Yields (suc p.cur_height) lo q chain t' (omega arith)))
    | inr goes_on ↦
        rw (goes_on, end_fast_sync)
          (next_block-Yields (suc p.cur_height) lo p chain t (omega arith))
  ]
