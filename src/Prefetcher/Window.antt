-- ===== src/Prefetcher/Window.antt =====
-- The window of recorded hashes: consecutive heights, at most `window_size` of them, with the
-- current height inside the window or just above it.
use rust_bitcoin_indexer.Base.{
  ℕ, suc, ◌+◌, ◌-◌, ◌≤◌, ◌<◌, ◌≡◌, ◌≢◌, ◌⊎◌, inl, inr, true, false, not, some, arith, ltb, leb,
  ◌==◌, if◌then◌else◌, length, Bool-cases, Option-cases, leb→le, eqb→eq, eqb→ne,
}
use rust_bitcoin_indexer.Base.Outcome.{ok, panic}
use rust_bitcoin_indexer.BTreeMap.{BTreeMap, get, insert, remove, last}
use rust_bitcoin_indexer.BTreeMap.Laws.{get-insert, get-remove}
use rust_bitcoin_indexer.BTreeMap.Consecutive.{
  IsFrom, insert-IsFrom, length-insert, get_from, get_below, last_from, remove_below, remove_first,
}
use rust_bitcoin_indexer.Types.{BlockHeight, BlockHash}
use rust_bitcoin_indexer.Prefetcher.{window_size, is_reorg, without_prev_hash, record_hash}

-- `lo` is the lowest recorded height.
pub record IsWindow (lo cur : BlockHeight) (m : BTreeMap BlockHash) : Type 0 where
  pub keys : IsFrom lo m
  pub from : lo ≤ cur
  pub upto : cur ≤ lo + length m
  pub bounded : length m ≤ window_size
  pub tracked : (cur ≡ 0) ⊎ (0 < length m)

-- The lowest height after the current one is recorded.
abbrev pub next_low : BlockHeight → BlockHeight → BlockHeight
next_low lo cur = if lo + window_size == cur then suc lo else lo

module _ (lo cur : BlockHeight) (m : BTreeMap BlockHash) (w : IsWindow lo cur m) where
  -- Above the lowest recorded height of a window, the hash of the parent's height is recorded,
  -- and a reorg is reported exactly when it is not the block's parent.
  pub is_reorg_tracked :
      (prev : BlockHash)
      → lo < cur
      → (stored : BlockHash) × (get (cur - 1) m ≡ some stored)
        × (is_reorg cur m prev ≡ ok (not (stored == prev)))
  unfolding is_reorg
  is_reorg_tracked prev above =
      let (stored, e) = get_from lo (cur - 1) m w.keys (omega arith) (omega (arith, w.upto)) in
      (stored, e, ground (arith, e))

  last_not_below :
      (max : ℕ) (id : BlockHash) → cur ≡ lo → 0 < cur → last m ≡ some (max, id) → cur ≢ max + 1
  last_not_below max id e pos l =
      ground (arith, last_from lo m {k = max} {v = id} w.keys l, w.tracked)

  without_prev_hash_lowest : cur ≡ lo → 0 < cur → without_prev_hash cur m ≡ panic
  unfolding without_prev_hash
  without_prev_hash_lowest e pos = elim (Option-cases (last m)) [
    | inl l ↦ ground (arith, l)
    | inr ((max, id), l) ↦ ground (arith, l, last_not_below max id e pos l)
  ]

  -- At the lowest recorded height the parent is unknown: a panic, but for the first block.
  pub is_reorg_lowest :
      (prev : BlockHash) → cur ≡ lo → is_reorg cur m prev ≡ (if ltb 0 cur then panic else ok false)
  unfolding is_reorg
  is_reorg_lowest prev e =
      ground (arith, get_below lo (cur - 1) m w.keys, without_prev_hash_lowest e)

module _ (lo cur : BlockHeight) (id : BlockHash) (m : BTreeMap BlockHash)
    (w : IsWindow lo cur m) where
  inserted : IsFrom lo (insert cur id m)
  inserted = insert-IsFrom lo cur id m w.from w.upto w.keys

  length_inserted :
      length (insert cur id m) ≡ (if cur == lo + length m then suc (length m) else length m)
  length_inserted = length-insert lo cur id m w.from w.upto w.keys

  record_hash_full : lo + window_size ≡ cur → record_hash cur id m ≡ remove lo (insert cur id m)
  unfolding record_hash
  record_hash_full e =
      let at : cur - window_size ≡ lo = omega arith in
      let big : leb window_size cur ≡ true = ground arith in rw (big, at)

  record_hash_more : lo + window_size ≢ cur → record_hash cur id m ≡ insert cur id m
  unfolding record_hash
  record_hash_more ne = elim (Bool-cases (leb window_size cur)) [
    | inl big ↦ rw big (
        remove_below lo (cur - window_size) (insert cur id m) inserted
          (omega (arith, w.upto, w.bounded, leb→le window_size cur big)))
    | inr small ↦ rw small
  ]

  -- Recording a hash at the current height keeps the recorded hashes a window of consecutive
  -- heights, at most 1000 of them, whose lowest height moves up when the window is full.
  pub record_hash-IsWindow : IsWindow (next_low lo cur) (suc cur) (record_hash cur id m)
  record_hash-IsWindow = elim (Bool-cases (lo + window_size == cur)) [
    | inl full ↦
        let e = eqb→eq (lo + window_size) cur full in
        let cut = remove_first lo (insert cur id m) inserted in
        rw (full, record_hash_full e)
          (record {
            keys = cut.0;
            from = omega arith;
            upto = ground (arith, cut.1, length_inserted, w.upto);
            bounded = ground (arith, cut.1, length_inserted, w.bounded);
            tracked = ground (arith, cut.1, length_inserted, w.upto);
          })
    | inr more ↦
        let ne = eqb→ne (lo + window_size) cur more in
        rw (more, record_hash_more ne)
          (record {
            keys = inserted;
            from = omega (arith, w.from);
            upto = ground (arith, length_inserted, w.upto);
            bounded = ground (arith, length_inserted, w.upto, w.bounded);
            tracked = ground (arith, length_inserted, w.upto, w.from);
          })
  ]

  -- At the current height the new hash is recorded; below it nothing is recorded anew.
  pub get-record_hash :
      (h : ℕ) (x : BlockHash)
      → get h (record_hash cur id m) ≡ some x
      → ((h ≡ cur) × (x ≡ id)) ⊎ ((h ≢ cur) × (get h m ≡ some x))
  unfolding record_hash
  get-record_hash h x e =
      ground (arith, get-insert h cur id m, get-remove h (cur - window_size) (insert cur id m))
