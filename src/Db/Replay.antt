-- ===== src/Db/Replay.antt =====
-- The event log as a subscriber reads it: an event pushes a block, a revert pops it. The log of a
-- coherent database replays to its chain.
use rust_bitcoin_indexer.Base.{
  ℕ, zero, suc, ◌≤◌, ◌<◌, ◌≡◌, ◌∙◌, ap, refl, inl, inr, Bool, true, false, Option, none, some, List,
  [], ◌∷◌, ◌++◌, map, arith, ltb, ◌==◌, if◌then◌else◌, Option-cases, Bool-cases, length,
}
use mathlib.Core.List.{map-append}
use rust_bitcoin_indexer.Types.{BlockHash}
use rust_bitcoin_indexer.Hash.{hash_to_hash_id, split-join}
use rust_bitcoin_indexer.Db.{
  Db, BlockRow, EventRow, live_at, height_bound, live_desc, insert_events,
}
use rust_bitcoin_indexer.Db.Current.{
  hashes_at, at_height, at_height_above, cut, cut_all, above, push_all, IsChain, InRange,
}

-- The reader's stack of block ids, the tip first. A revert of another block than the tip fails.
unfoldable pub apply_event : EventRow → List ℕ → Option (List ℕ)
apply_event e [] = if e.revert then none else some (e.block_hash_id ∷ [])
apply_event e (tip ∷ rest) =
    if e.revert
    then (if tip == e.block_hash_id then some rest else none)
    else some (e.block_hash_id ∷ tip ∷ rest)

unfoldable pub replay : List EventRow → List ℕ → Option (List ℕ)
replay [] stack = some stack
replay (e ∷ events) stack = elim (apply_event e stack) [
  | none ↦ none
  | some next ↦ replay events next
]

replay-append :
    (xs : List EventRow) (e : EventRow) (stack mid : List ℕ)
    → replay xs stack ≡ some mid
    → replay (xs ++ e ∷ []) stack ≡ apply_event e mid
unfolding replay
replay-append [] e stack mid h = ground arith
replay-append (x ∷ xs) e stack mid h = elim (Option-cases (apply_event x stack)) [
  | inl stuck ↦ ground (arith, stuck)
  | inr (next, goes) ↦ ground (arith, goes, replay-append xs e next mid)
]

-- Events of new blocks push them in order.
pub replay-push :
    (ids : List ℕ) (db : Db) (stack : List ℕ)
    → replay db.event [] ≡ some stack
    → replay (insert_events false ids db).event [] ≡ some (push_all ids stack)
unfolding insert_events
replay-push [] db stack h = h
replay-push (id ∷ ids) db stack h =
    replay-push ids _ (id ∷ stack) (pushed stack (replay-append db.event _ [] stack h))
  where
    pushed :
        (s : List ℕ) {r : Option (List ℕ)}
        → r ≡ apply_event (record { id = db.next_event; revert = false; block_hash_id = id }) s
        → r ≡ some (id ∷ s)
    pushed [] e = unfold apply_event in e
    pushed (x ∷ s) e = unfold apply_event in e

-- Reverts of the topmost blocks, the tip first, pop them.
pub replay-pop :
    (ids : List ℕ) (db : Db) (stack : List ℕ)
    → replay db.event [] ≡ some (ids ++ stack)
    → replay (insert_events true ids db).event [] ≡ some stack
unfolding insert_events
replay-pop [] db stack h = h
replay-pop (id ∷ ids) db stack h = replay-pop ids _ stack (
    unfold apply_event in
    ground (
      arith,
      replay-append db.event (record { id = db.next_event; revert = true; block_hash_id = id }) []
          (id ∷ ids ++ stack) h,
    ))

pub insert_events-keeps :
    (revert : Bool) (ids : List ℕ) (db : Db)
    → ((insert_events revert ids db).block ≡ db.block) × ((insert_events revert ids db).tx ≡ db.tx)
unfolding insert_events
insert_events-keeps revert [] db = (refl, refl)
insert_events-keeps revert (id ∷ ids) db = insert_events-keeps revert ids _

-- The blocks that a reorg reverts, in the order of the statement, are the top of the chain.

cut_none : (c : List BlockHash) → cut 0 c ≡ []
cut_none [] = refl
cut_none (x ∷ xs) = ground (arith, cut_none xs)

above-cut :
    (h from : ℕ) (c : List BlockHash)
    → above from (cut (suc h) c)
      ≡ (if ltb h from then [] else at_height h c ++ above from (cut h c))
above-cut h from [] = ground arith
above-cut h from (x ∷ xs) = ground (arith, above-cut h from xs, at_height_above h xs, cut_all h xs)

pub above-append-cut : (from : ℕ) (c : List BlockHash) → above from c ++ cut from c ≡ c
above-append-cut from [] = refl
above-append-cut from (x ∷ xs) = ground (arith, above-append-cut from xs)

ids_at :
    (h : ℕ) (rows : List BlockRow)
    → InRange rows
    → map (λ row. row.hash_id) (live_at h rows) ≡ map hash_to_hash_id (hashes_at h rows)
unfolding live_at
ids_at h [] r = refl
ids_at h (row ∷ rows) r =
    ground (arith, ids_at h rows r.1, (split-join row.hash_id row.hash_rest r.0).0)

ids_desc :
    (n from : ℕ) (rows : List BlockRow) (c : List BlockHash)
    → InRange rows
    → IsChain rows c
    → map (λ row. row.hash_id) (live_desc n from rows) ≡ map hash_to_hash_id (above from (cut n c))
unfolding live_desc
ids_desc zero from rows c r k = rw cut_none
ids_desc (suc h) from rows c r k = elim (Bool-cases (ltb h from)) [
  | inl stops ↦ rw (stops, above-cut h from c, stops)
  | inr goes_on ↦ rw (
    goes_on,
    above-cut h from c,
    goes_on,
    map-append (λ (row : BlockRow). row.hash_id) (live_at h rows) _,
    map-append,
    ids_at h rows r,
    k.at h,
    ids_desc h from rows c r k,
  )
]

live_bound :
    (h : ℕ) (rows : List BlockRow) (x : BlockHash) (xs : List BlockHash)
    → hashes_at h rows ≡ x ∷ xs
    → h < height_bound rows
unfolding live_at height_bound
live_bound h [] x xs e = cc
live_bound h (row ∷ rows) x xs e = ground (arith, live_bound h rows x xs)

length-le-height_bound :
    (rows : List BlockRow) (c : List BlockHash) → IsChain rows c → length c ≤ height_bound rows
length-le-height_bound rows [] k = omega arith
length-le-height_bound rows (x ∷ xs) k =
    live_bound (length xs) rows x [] (k.at (length xs) ∙ ground arith)

-- The statement lists the ids of the chain's blocks from the height on, the tip first.
pub ids-live_desc :
    (from : ℕ) (rows : List BlockRow) (c : List BlockHash)
    → InRange rows
    → IsChain rows c
    → map (λ row. row.hash_id) (live_desc (height_bound rows) from rows)
      ≡ map hash_to_hash_id (above from c)
ids-live_desc from rows c r k =
    ids_desc (height_bound rows) from rows c r k
    ∙ ap (λ l. map hash_to_hash_id (above from l))
        (cut_all (height_bound rows) c (length-le-height_bound rows c k))
