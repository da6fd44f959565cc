-- ===== src/Prefetcher/Progress.antt =====
-- Progress of `next` in src/node/prefetcher.rs: it does not wait for ever while the workers send the
-- height that it waits for.
use rust_bitcoin_indexer.Base.{
  ℕ, zero, suc, ◌-◌, ◌<◌, ◌≡◌, ◌≢◌, inl, inr, none, some, List, [], ◌∷◌, ◌++◌, take, arith, ◌==◌,
  Bool-cases, Option-cases, eqb→ne, ltb, sym, ◌∙◌,
}
use rust_bitcoin_indexer.Base.Outcome.{ok, panic, blocked}
use rust_bitcoin_indexer.BTreeMap.{BTreeMap, get, insert}
use rust_bitcoin_indexer.Types.{
  BlockHeight, BlockHash, u32_size, WithHeightAndId, RpcBlockWithPrevId,
}
use rust_bitcoin_indexer.Prefetcher.{
  Prefetcher, Deliveries, is_reorg, track_reorgs, receive, take_item, next_block, end_fast_sync,
  next,
}
use rust_bitcoin_indexer.Prefetcher.Session.{NotAt, IsGood, AreSessions, take_item-Takes}
use rust_bitcoin_indexer.Prefetcher.Window.{next_low}
use rust_bitcoin_indexer.Prefetcher.Chain.{chain_insert}
use rust_bitcoin_indexer.Prefetcher.Tracking.{IsTracking, Detects, is_reorg-Detects}
use rust_bitcoin_indexer.Prefetcher.Next.{
  restarted, restarted-IsTracking, next_block_resets, next_block_yields, fast_sync_ends,
  next-Yields,
}

-- Every session sends the height that it was started with.
abbrev pub Supplies : {D : Type 0} → Deliveries D → Type 0
Supplies workers =
    (session threads : ℕ) (height : BlockHeight)
    → suc height < u32_size
    → ¬ NotAt height (workers session threads height)

-- The current item is kept or will arrive.
abbrev pub IsSupplied : {D : Type 0} → Prefetcher D → Type 0
IsSupplied p =
    (items : List _)
    → p.rx ≡ some items
    → get p.cur_height p.out_of_order_items ≡ none
    → ¬ NotAt p.cur_height items

module _ {D : Type 0} where
  receive-arrives :
      (cur : ℕ) (items : List (RpcBlockWithPrevId D)) (early : BTreeMap (RpcBlockWithPrevId D))
      → ¬ NotAt cur items
      → receive cur items early ≢ blocked
  unfolding receive
  receive-arrives cur [] early there e = there tt
  receive-arrives cur (item ∷ rest) early there e = elim (Bool-cases (item.block.height == cur)) [
    | inl now ↦ ground (arith, e, now)
    | inr other ↦ elim (Bool-cases (ltb cur item.block.height)) [
      | inl later ↦
          receive-arrives cur rest (insert item.block.height item early)
            (λ n. there (eqb→ne item.block.height cur other, n)) (ground (arith, e, other, later))
      | inr gone ↦ ground (arith, e, other, gone)
    ]
  ]

  take_item-arrives :
      (p : Prefetcher D) (items : List (RpcBlockWithPrevId D))
      → p.rx ≡ some items
      → IsSupplied p
      → take_item p ≢ blocked
  unfolding take_item
  take_item-arrives p items runs there e =
      elim (Option-cases (get p.cur_height p.out_of_order_items)) [
        | inl none_kept ↦
            receive-arrives p.cur_height items p.out_of_order_items (there items runs none_kept)
              (ground (arith, e, runs, none_kept))
        | inr (item, kept) ↦ ground (arith, e, kept)
      ]

module _ {D : Type 0} (workers : Deliveries D) (prev : D → BlockHash)
    (sessions : AreSessions prev workers) (supplies : Supplies workers) where
  restarted-IsSupplied :
      (p : Prefetcher D) (threads : ℕ) (height : BlockHeight)
      → suc height < u32_size
      → IsSupplied (restarted workers prev sessions p threads height)
  restarted-IsSupplied p threads height small items e none_kept =
      ground (arith, supplies p.sessions threads height small)

  -- A round takes the current item, and hands it out, panics, or starts workers anew.
  Detects-progress :
      (fuel : ℕ) (lo : BlockHeight) (p : Prefetcher D) (chain : List (WithHeightAndId D))
      → IsTracking prev lo p chain
      → p.cur_height < suc fuel
      → ((q : Prefetcher D)
          → IsTracking prev lo q chain
          → IsSupplied q
          → q.cur_height < fuel
          → next_block workers fuel q ≢ blocked)
      → (item : RpcBlockWithPrevId D) (rest : List (RpcBlockWithPrevId D))
        (early : BTreeMap (RpcBlockWithPrevId D))
      → take_item p ≡ ok (item, record p { rx = some rest; out_of_order_items = early })
      → item.block.height ≡ p.cur_height
      → IsGood prev item
      → Detects prev lo p item.prev_block_id
          (is_reorg p.cur_height p.prev_hashes item.prev_block_id)
      → next_block workers (suc fuel) p ≢ blocked
  Detects-progress fuel lo p chain t f again item rest early got at good (inl (none_found, agrees))
        e =
      ground (
        arith,
        e,
        next_block_yields workers prev sessions fuel lo p chain t item rest early got at none_found,
      )
  Detects-progress fuel lo p chain t f again item rest early got at good (inr (inl (found, above)))
        e =
      let q = restarted workers prev sessions p p.thread_num (p.cur_height - 1) in
      again q
        (restarted-IsTracking workers prev sessions lo p chain p.thread_num (p.cur_height - 1) t
          (omega arith) (omega arith))
        (restarted-IsSupplied p p.thread_num (p.cur_height - 1) (omega (arith, good.1, at)))
        (omega arith)
        (sym (
            next_block_resets workers prev sessions fuel lo p chain t item rest early got at found
              (omega arith))
          ∙ e)
  Detects-progress fuel lo p chain t f again item rest early got at good (inr (inr (deep, pos))) e =
      let panics : next_block workers (suc fuel) p ≡ panic =
        unfold next_block track_reorgs in ground (arith, got, deep) in
      ground (arith, e, panics)

  next_block-progress :
      (fuel : ℕ) (lo : BlockHeight) (p : Prefetcher D) (chain : List (WithHeightAndId D))
      → IsTracking prev lo p chain
      → IsSupplied p
      → p.cur_height < fuel
      → next_block workers fuel p ≢ blocked
  next_block-progress zero lo p chain t there f = absurd (omega arith)
  next_block-progress (suc fuel) lo p chain t there f = elim (take_item-Takes prev p t.ready) [
    | inl waits ↦ absurd (take_item-arrives p t.ready.items t.ready.running there waits)
    | inr (item, rest, early, got, at, good, s) ↦
        Detects-progress fuel lo p chain t f
          (λ q t' there' f'. next_block-progress fuel lo q chain t' there' f') item rest early got
          at good (is_reorg-Detects prev lo p item.prev_block_id t.window)
  ]

  next-progress :
      (lo : BlockHeight) (p : Prefetcher D) (chain : List (WithHeightAndId D))
      → IsTracking prev lo p chain
      → IsSupplied p
      → suc p.cur_height < u32_size
      → next workers p ≢ blocked
  unfolding next
  next-progress lo p chain t there small e =
      elim (Bool-cases (p.end_of_fast_sync == p.cur_height)) [
        | inl ends ↦
            let q = restarted workers prev sessions p 1 p.cur_height in
            next_block-progress (suc p.cur_height) lo q chain
              (restarted-IsTracking workers prev sessions lo p chain 1 p.cur_height t t.window.from
                (omega arith))
              (restarted-IsSupplied p 1 p.cur_height small) (omega arith)
              (rw (fast_sync_ends workers prev sessions p t.ready.items t.ready.running ends) at e)
        | inr goes_on ↦
            next_block-progress (suc p.cur_height) lo p chain t there (omega arith)
              (rw (goes_on, end_fast_sync) at e)
      ]

  -- A block that continues the reader's chain.
  abbrev pub Returns : Prefetcher D → List (WithHeightAndId D) → Type 0
  Returns p chain =
      (b : WithHeightAndId D) × (q : Prefetcher D) × (next workers p ≡ ok (b, q))
      × (chain_insert chain b.height b ≡ ok (take b.height chain ++ b ∷ []))
      × IsTracking prev (next_low 0 b.height) q (take b.height chain ++ b ∷ [])

  -- From a prefetcher that tracks a reader's chain down to the genesis block, at a height that
  -- fits with its successor in 32 bits, `next` returns a block that continues the chain, whatever
  -- reorgs the node makes, when the current item is kept or will arrive and every session of
  -- workers sends the height that it was started with; the sessions are as described by
  -- `AreSessions`.
  pub next-Returns :
      (p : Prefetcher D) (chain : List (WithHeightAndId D))
      → IsTracking prev 0 p chain
      → IsSupplied p
      → suc p.cur_height < u32_size
      → Returns p chain
  next-Returns p chain t there small = elim (next-Yields workers prev sessions 0 p chain t) [
    | inl waits ↦ absurd (next-progress 0 p chain t there small waits)
    | inr (inl (deep, low)) ↦ absurd (omega arith)
    | inr (inr (b, q, got, below, up, inserted, t')) ↦ (b, q, got, inserted, t')
  ]
