-- ===== src/Prefetcher/Session.antt =====
-- What a session of workers sends: each height once, none below the current one. So nothing that
-- arrives is older than what `next` waits for.
use rust_bitcoin_indexer.Base.{
  ℕ, suc, ◌+◌, ◌≤◌, ◌<◌, ◌≡◌, refl, ap, subst, ◌≢◌, ◌⊎◌, inl, inr, none, some, true, false, List,
  [], ◌∷◌, arith, ◌==◌, Bool-cases, Option-cases, All, eqb→eq, eqb→ne, lt→ltb,
}
use rust_bitcoin_indexer.Base.Outcome.{Outcome, ok, blocked}
use rust_bitcoin_indexer.BTreeMap.{BTreeMap, get, insert, remove}
use rust_bitcoin_indexer.BTreeMap.Laws.{get-insert, get-remove}
use rust_bitcoin_indexer.Types.{BlockHeight, BlockHash, u32_size, RpcBlockWithPrevId}
use rust_bitcoin_indexer.Prefetcher.{Prefetcher, Deliveries, receive, take_item}

-- `prev` reads the parent's id off a block's payload, as `get_block_by_id` does.
module _ {D : Type 0} (prev : D → BlockHash) where
  abbrev pub IsGood : RpcBlockWithPrevId D → Type 0
  IsGood item = (item.prev_block_id ≡ prev item.block.payload) × (item.block.height + 1 < u32_size)

  abbrev pub IsAhead : BlockHeight → RpcBlockWithPrevId D → Type 0
  IsAhead cur item = (cur ≤ item.block.height) × IsGood item

abbrev pub NotAt : {D : Type 0} → BlockHeight → List (RpcBlockWithPrevId D) → Type 0
NotAt height = All (λ item. item.block.height ≢ height)

abbrev pub Distinct : {D : Type 0} → List (RpcBlockWithPrevId D) → Type 0
Distinct [] = Unit {0}
Distinct (item ∷ rest) = NotAt item.block.height rest × Distinct rest

module _ {D : Type 0} (prev : D → BlockHash) where
  -- The items still in the channel and those kept for later.
  pub record IsSession (cur : BlockHeight) (items : List (RpcBlockWithPrevId D))
      (early : BTreeMap (RpcBlockWithPrevId D)) : Type 0 where
    pub ahead : All (IsAhead prev cur) items
    pub distinct : Distinct items
    pub kept :
        (h : ℕ) (item : RpcBlockWithPrevId D)
        → get h early ≡ some item
        → (item.block.height ≡ h) × IsAhead prev cur item × NotAt h items

  -- Every session starts with nothing kept, at the height that the workers were started with.
  abbrev pub AreSessions : Deliveries D → Type 0
  AreSessions workers =
      (session threads : ℕ) (height : BlockHeight)
      → All (IsAhead prev height) (workers session threads height)
        × Distinct (workers session threads height)

  past :
      (cur : ℕ) (items : List (RpcBlockWithPrevId D))
      → All (IsAhead prev cur) items
      → NotAt cur items
      → All (IsAhead prev (suc cur)) items
  past cur [] a n = tt
  past cur (item ∷ rest) a n = ((omega (arith, a.0.0, n.0), a.0.1), past cur rest a.1 n.1)

  -- Once the current item is out, what is left is a session of the next height.
  advance :
      (cur : ℕ) (items : List (RpcBlockWithPrevId D)) (early : BTreeMap (RpcBlockWithPrevId D))
      → IsSession cur items early
      → NotAt cur items
      → get cur early ≡ none
      → IsSession (suc cur) items early
  advance cur items early s n e = record {
    ahead = past cur items s.ahead n;
    distinct = s.distinct;
    kept = λ h item g.
        let k = s.kept h item g in
        let other : h ≢ cur = λ q. cc (ap (λ (j : ℕ). get j early) q) in
        (k.0, (omega (arith, k.0, k.1.0, other), k.1.1), k.2);
  }

  drop_first :
      (cur : ℕ) (item : RpcBlockWithPrevId D) (rest : List (RpcBlockWithPrevId D))
      (early : BTreeMap (RpcBlockWithPrevId D))
      → IsSession cur (item ∷ rest) early
      → IsSession cur rest early
  drop_first cur item rest early s = record {
    ahead = s.ahead.1;
    distinct = s.distinct.1;
    kept = λ h found g. let k = s.kept h found g in (k.0, k.1, k.2.1);
  }

  keep :
      (cur : ℕ) (item : RpcBlockWithPrevId D) (rest : List (RpcBlockWithPrevId D))
      (early : BTreeMap (RpcBlockWithPrevId D))
      → IsSession cur (item ∷ rest) early
      → IsSession cur rest (insert item.block.height item early)
  keep cur item rest early s = record {
    ahead = s.ahead.1;
    distinct = s.distinct.1;
    kept = λ h found g. kept_insert h found g (Bool-cases (item.block.height == h));
  }
    where
      kept_insert :
          (h : ℕ) (found : RpcBlockWithPrevId D)
          → get h (insert item.block.height item early) ≡ some found
          → ((item.block.height == h) ≡ true) ⊎ ((item.block.height == h) ≡ false)
          → (found.block.height ≡ h) × IsAhead prev cur found × NotAt h rest
      kept_insert h found g (inl same) =
          let at = eqb→eq item.block.height h same in
          let e : item ≡ found = ground (arith, get-insert h item.block.height item early) in
          subst (λ x. (x.block.height ≡ h) × IsAhead prev cur x × NotAt h rest) e
            (at, s.ahead.0, subst (λ j. NotAt j rest) at s.distinct.0)
      kept_insert h found g (inr other) =
          let k = s.kept h found (rw (get-insert, other) at g) in (k.0, k.1, k.2.1)

  -- What `receive` comes to: a wait, or the current item with a session of the next height left.
  abbrev pub Receives :
      BlockHeight
      → Outcome
          (RpcBlockWithPrevId D × List (RpcBlockWithPrevId D) × BTreeMap (RpcBlockWithPrevId D))
      → Type 0
  Receives cur r =
      (r ≡ blocked)
      ⊎ ((item : RpcBlockWithPrevId D) × (rest : List (RpcBlockWithPrevId D)) × (early : BTreeMap
            (RpcBlockWithPrevId D))
          × (r ≡ ok (item, rest, early))
          × (item.block.height ≡ cur)
          × IsGood prev item
          × IsSession (suc cur) rest early)

  -- The inner loop of `next` never panics on a session of workers: it waits, or finds the item at
  -- the current height, and what is left is a session of the next height.
  pub receive-Receives :
      (cur : ℕ) (items : List (RpcBlockWithPrevId D)) (early : BTreeMap (RpcBlockWithPrevId D))
      → IsSession cur items early
      → get cur early ≡ none
      → Receives cur (receive cur items early)
  unfolding receive
  receive-Receives cur [] early s e = inl refl
  receive-Receives cur (item ∷ rest) early s e = elim (Bool-cases (item.block.height == cur)) [
    | inl now ↦
        let at = eqb→eq item.block.height cur now in
        rw now (
          inr (
            item,
            rest,
            early,
            refl,
            at,
            s.ahead.0.1,
            advance cur rest early (drop_first cur item rest early s)
                (subst (λ h. NotAt h rest) at s.distinct.0) e,
          ))
    | inr not_now ↦
        let later = lt→ltb cur item.block.height (omega (arith, s.ahead.0.0, eqb→ne _ _ not_now)) in
        rw (not_now, later)
          (receive-Receives cur rest (insert item.block.height item early)
            (keep cur item rest early s) (rw (get-insert, not_now) e))
  ]

  -- The prefetcher has a channel, and what it and the kept items hold is a session.
  pub record IsReady (p : Prefetcher D) : Type 0 where
    pub items : List (RpcBlockWithPrevId D)
    pub running : p.rx ≡ some items
    pub session : IsSession p.cur_height items p.out_of_order_items

  -- What taking the current item comes to. Only the channel and the kept items change.
  abbrev pub Takes : Prefetcher D → Outcome (RpcBlockWithPrevId D × Prefetcher D) → Type 0
  Takes p r =
      (r ≡ blocked)
      ⊎ ((item : RpcBlockWithPrevId D) × (rest : List (RpcBlockWithPrevId D)) × (early : BTreeMap
            (RpcBlockWithPrevId D))
          × (r ≡ ok (item, record p { rx = some rest; out_of_order_items = early }))
          × (item.block.height ≡ p.cur_height)
          × IsGood prev item
          × IsSession (suc p.cur_height) rest early)

  take_received :
      (p : Prefetcher D) (r : IsReady p)
      → get p.cur_height p.out_of_order_items ≡ none
      → Receives p.cur_height (receive p.cur_height r.items p.out_of_order_items)
      → Takes p (take_item p)
  unfolding take_item
  take_received p r e (inl waits) = inl (ground (arith, waits, r.running))
  take_received p r e (inr (item, rest, early, got, at, good, s)) =
      inr (item, rest, early, ground (arith, got, r.running), at, good, s)

  take_kept :
      (p : Prefetcher D) (r : IsReady p)
      → NotAt p.cur_height r.items
      → IsSession (suc p.cur_height) r.items (remove p.cur_height p.out_of_order_items)
  take_kept p r n = record {
    ahead = past p.cur_height r.items r.session.ahead n;
    distinct = r.session.distinct;
    kept = λ h item g.
        let other : h ≢ p.cur_height =
          λ q. ground (arith, get-remove h p.cur_height p.out_of_order_items) in
        let k =
          r.session.kept h item (ground (arith, get-remove h p.cur_height p.out_of_order_items)) in
        (k.0, (omega (arith, k.0, k.1.0, other), k.1.1), k.2);
  }

  pub take_item-Takes : (p : Prefetcher D) → IsReady p → Takes p (take_item p)
  unfolding take_item
  take_item-Takes p r = elim (Option-cases (get p.cur_height p.out_of_order_items)) [
    | inl none_kept ↦
        let got = receive-Receives p.cur_height r.items p.out_of_order_items r.session none_kept in
        take_received p r none_kept got
    | inr (item, kept) ↦
        let k = r.session.kept p.cur_height item kept in
        inr (
          item,
          r.items,
          remove p.cur_height p.out_of_order_items,
          ground (arith, kept, r.running),
          k.0,
          k.1.1,
          take_kept p r k.2,
        )
  ]
