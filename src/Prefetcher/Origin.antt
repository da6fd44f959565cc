-- ===== src/Prefetcher/Origin.antt =====
-- Where the blocks of `next` in src/node/prefetcher.rs come from: the workers have sent them.
use rust_bitcoin_indexer.Base.{
  ℕ, zero, suc, ◌+◌, ◌-◌, ◌≡◌, subst, inl, inr, Bool, false, Option, none, some, List, [], ◌∷◌,
  arith, ltb, leb, ◌==◌, Bool-cases, Option-cases, length, All,
}
use rust_bitcoin_indexer.Base.Outcome.{ok, assert, >>=-eq-ok, subst_ok}
use rust_bitcoin_indexer.BTreeMap.{BTreeMap, get, insert, remove}
use rust_bitcoin_indexer.Types.{BlockHeight, BlockHash, WithHeightAndId, RpcBlockWithPrevId}
use rust_bitcoin_indexer.Prefetcher.{
  Prefetcher, Deliveries, window_size, stop_workers, start_workers, is_reorg, record_hash,
  track_reorgs, receive, take_item, reset_on_reorg, next_block, end_fast_sync, next, new,
  starting_point,
}

module _ {D : Type 0} (P : WithHeightAndId D → Type 0) where
  abbrev Sent : List (RpcBlockWithPrevId D) → Type 0
  Sent = All (λ item. P item.block)

  abbrev Kept : BTreeMap (RpcBlockWithPrevId D) → Type 0
  Kept = All (λ e. P e.1.block)

  abbrev InChannel : Option (List (RpcBlockWithPrevId D)) → Type 0
  InChannel none = Unit {0}
  InChannel (some items) = Sent items

  -- What is in the channel and what was kept has `P`.
  abbrev pub HasOnly : Prefetcher D → Type 0
  HasOnly p = InChannel p.rx × Kept p.out_of_order_items

  insert-Kept :
      (k : ℕ) (item : RpcBlockWithPrevId D) (m : BTreeMap (RpcBlockWithPrevId D))
      → P item.block
      → Kept m
      → Kept (insert k item m)
  unfolding insert
  insert-Kept k item [] p a = (p, tt)
  insert-Kept k item ((j, w) ∷ m) p a = elim (Bool-cases (ltb k j)) [
    | inl e ↦ rw e (p, a)
    | inr e ↦ elim (Bool-cases (j == k)) [
      | inl same ↦ rw (e, same) (p, a.1)
      | inr other ↦ rw (e, other) (a.0, insert-Kept k item m p a.1)
    ]
  ]

  get-Kept :
      (k : ℕ) (item : RpcBlockWithPrevId D) (m : BTreeMap (RpcBlockWithPrevId D))
      → Kept m
      → get k m ≡ some item
      → P item.block
  unfolding get
  get-Kept k item [] a e = cc
  get-Kept k item ((j, w) ∷ m) a e = elim (Bool-cases (j == k)) [
    | inl same ↦ let here : w ≡ item = ground (arith, e, same) in rw (← here) a.0
    | inr other ↦ get-Kept k item m a.1 (ground (arith, e, other))
  ]

  remove-Kept : (k : ℕ) (m : BTreeMap (RpcBlockWithPrevId D)) → Kept m → Kept (remove k m)
  unfolding remove
  remove-Kept k [] a = tt
  remove-Kept k ((j, w) ∷ m) a = elim (Bool-cases (j == k)) [
    | inl same ↦ rw same (remove-Kept k m a.1)
    | inr other ↦ rw other (a.0, remove-Kept k m a.1)
  ]

  receive-Sent :
      (height : BlockHeight) (items : List (RpcBlockWithPrevId D))
      (early : BTreeMap (RpcBlockWithPrevId D))
      (r : RpcBlockWithPrevId D × List (RpcBlockWithPrevId D) × BTreeMap (RpcBlockWithPrevId D))
      → Sent items
      → Kept early
      → receive height items early ≡ ok r
      → P r.0.block × Sent r.1 × Kept r.2
  unfolding receive
  receive-Sent height [] early r s k e = cc
  receive-Sent height (item ∷ rest) early r s k e =
      elim (Bool-cases (item.block.height == height)) [
        | inl at ↦ subst_ok (λ x. P x.0.block × Sent x.1 × Kept x.2) (rw at at e) (s.0, s.1, k)
        | inr other ↦ elim (Bool-cases (ltb height item.block.height)) [
          | inl above ↦
              receive-Sent height rest (insert item.block.height item early) r s.1
                (insert-Kept item.block.height item early s.0 k) (rw above at (rw other at e))
          | inr below ↦ ground (arith, e, other, below)
        ]
      ]

  take_item-HasOnly :
      (p q : Prefetcher D) (item : RpcBlockWithPrevId D)
      → HasOnly p
      → take_item p ≡ ok (item, q)
      → P item.block × HasOnly q
  unfolding take_item
  take_item-HasOnly p q item a e = elim (Option-cases (get p.cur_height p.out_of_order_items)) [
    | inr (kept, found) ↦
        subst_ok (λ x. P x.0.block × HasOnly x.1) (rw (take_item, found) at e)
          (
            get-Kept p.cur_height kept p.out_of_order_items a.1 found,
            (a.0, remove-Kept p.cur_height p.out_of_order_items a.1),
          )
    | inl missing ↦ elim (Option-cases p.rx) [
      | inl closed ↦ ground (arith, e, missing, closed)
      | inr (items, running) ↦
          let (r, got, k) =
            >>=-eq-ok (receive p.cur_height items p.out_of_order_items) _
              (rw (take_item, missing, running) at e) in
          let s =
            receive-Sent p.cur_height items p.out_of_order_items r (subst InChannel running a.0) a.1
              got in
          subst_ok (λ x. P x.0.block × HasOnly x.1) k (s.0, (s.1, s.2))
    ]
  ]

  track_reorgs-HasOnly :
      (p q : Prefetcher D) (item : RpcBlockWithPrevId D) (reorg : Bool)
      → HasOnly p
      → track_reorgs p item ≡ ok (reorg, q)
      → HasOnly q
  unfolding track_reorgs
  track_reorgs-HasOnly p q item reorg a e =
      let (_, _, k) = >>=-eq-ok (assert (item.block.height == p.cur_height)) _ e in
      let (found, _, k1) = >>=-eq-ok (is_reorg p.cur_height p.prev_hashes item.prev_block_id) _ k in
      elim (Bool-cases found) [
        | inl again ↦ subst_ok (λ x. HasOnly x.1) (rw again at k1) a
        | inr kept ↦
            let (_, _, k2) =
              >>=-eq-ok
                (assert
                  (leb (length (record_hash p.cur_height item.block.id p.prev_hashes)) window_size))
                _ (rw kept at k1) in
            subst_ok (λ x. HasOnly x.1) k2 a
      ]

  module _ (workers : Deliveries D)
      (sent : (session threads : ℕ) (height : BlockHeight)
        → Sent (workers session threads height)) where
    start_workers-HasOnly :
        (p q : Prefetcher D)
        → Kept p.out_of_order_items
        → start_workers workers p ≡ ok q
        → HasOnly q
    unfolding start_workers
    start_workers-HasOnly p q a e =
        let (_, _, k) = >>=-eq-ok (assert (p.thread_joins == 0)) _ e in
        subst_ok HasOnly k (sent p.sessions p.thread_num p.cur_height, a)

    stop_workers-Kept : (p q : Prefetcher D) → stop_workers p ≡ ok q → q.out_of_order_items ≡ []
    unfolding stop_workers
    stop_workers-Kept p q e = ground arith

    reset_on_reorg-HasOnly : (p q : Prefetcher D) → reset_on_reorg workers p ≡ ok q → HasOnly q
    unfolding reset_on_reorg
    reset_on_reorg-HasOnly p q e =
        let (stopped, e1, k1) = >>=-eq-ok (stop_workers p) _ e in
        let (_, _, k2) = >>=-eq-ok (assert (ltb 0 stopped.cur_height)) _ k1 in
        start_workers-HasOnly (record stopped { cur_height = stopped.cur_height - 1 }) q
          (rw (stop_workers-Kept p stopped e1) tt) k2

    next_block-HasOnly :
        (fuel : ℕ) (p q : Prefetcher D) (b : WithHeightAndId D)
        → HasOnly p
        → next_block workers fuel p ≡ ok (b, q)
        → P b × HasOnly q
    unfolding next_block
    next_block-HasOnly zero p q b a e = cc
    next_block-HasOnly (suc fuel) p q b a e =
        let ((item, taken), e1, k1) = >>=-eq-ok (take_item p) _ e in
        let one = take_item-HasOnly p taken item a e1 in
        let ((reorg, tracked), e2, k2) = >>=-eq-ok (track_reorgs taken item) _ k1 in
        let two = track_reorgs-HasOnly taken tracked item reorg one.1 e2 in
        elim (Bool-cases reorg) [
          | inl again ↦
              let (ready, e3, k3) = >>=-eq-ok (reset_on_reorg workers tracked) _ (rw again at k2) in
              next_block-HasOnly fuel ready q b (reset_on_reorg-HasOnly tracked ready e3) k3
          | inr done ↦ subst_ok (λ x. P x.0 × HasOnly x.1) (rw done at k2) (one.0, two)
        ]

    end_fast_sync-HasOnly :
        (p q : Prefetcher D) → HasOnly p → end_fast_sync workers p ≡ ok q → HasOnly q
    unfolding end_fast_sync
    end_fast_sync-HasOnly p q a e = elim (Bool-cases (p.end_of_fast_sync == p.cur_height)) [
      | inl ends ↦
          let (stopped, e1, k1) = >>=-eq-ok (stop_workers p) _ (rw ends at e) in
          start_workers-HasOnly (record stopped { thread_num = 1 }) q
            (rw (stop_workers-Kept p stopped e1) tt) k1
      | inr goes ↦ subst_ok HasOnly (rw goes at e) a
    ]

    -- What `next` hands out was sent by the workers of some session.
    pub next-HasOnly :
        (p q : Prefetcher D) (b : WithHeightAndId D)
        → HasOnly p
        → next workers p ≡ ok (b, q)
        → P b × HasOnly q
    unfolding next
    next-HasOnly p q b a e =
        let (ready, e1, k1) = >>=-eq-ok (end_fast_sync workers p) _ e in
        next_block-HasOnly (suc ready.cur_height) ready q b (end_fast_sync-HasOnly p ready a e1) k1

    pub new-HasOnly :
        (cpus : ℕ) (count : BlockHeight) (last : Option (BlockHeight × BlockHash))
        (p : Prefetcher D)
        → new workers cpus count last ≡ ok p
        → HasOnly p
    unfolding new
    new-HasOnly cpus count last p e =
        start_workers-HasOnly
          (record {
            rx = none;
            thread_joins = 0;
            out_of_order_items = [];
            cur_height = (starting_point last).0;
            prev_hashes = (starting_point last).1;
            workers_finish = false;
            thread_num = cpus + cpus;
            end_of_fast_sync = count;
            sessions = 0;
          })
          p tt e
