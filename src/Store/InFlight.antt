-- ===== src/Store/InFlight.antt =====
-- The hashes in flight of src/db/pg.rs: those of the queued blocks, which the writer takes out again.
use rust_bitcoin_indexer.Base.{
  ℕ, suc, ◌≡◌, ◌∙◌, sym, ap, subst, refl, inl, inr, true, false, ◌||◌, Option, none, some, List, [],
  ◌∷◌, ◌++◌, append-nil, append_assoc, ◌==◌, Bool-cases, eqb→eq, arith,
}
use mathlib.Core.List.{map-append}
use rust_bitcoin_indexer.Base.Outcome.{ok, panic, ◌>>=◌}
use rust_bitcoin_indexer.Types.{BlockHash}
use rust_bitcoin_indexer.Bitcoin.{BlockData, Network}
use rust_bitcoin_indexer.Hash.{hash_to_hash_id}
use rust_bitcoin_indexer.Db.{Db, BlockRow, find_block}
use rust_bitcoin_indexer.Utxo.{UtxoDetailsMap}
use rust_bitcoin_indexer.Format.{Mode, block_row}
use rust_bitcoin_indexer.Store.{
  block_ids, contains_hash, insert_hashes, remove_hash, remove_hashes, process_batch, drain,
}
use rust_bitcoin_indexer.Store.Queue.{batches}
use rust_bitcoin_indexer.Store.Linked.{IsFound-append}
use rust_bitcoin_indexer.Store.Batch.{AreNew}

-- No hash is there twice.
abbrev pub AreDistinct : List BlockHash → Type 0
AreDistinct [] = Unit
AreDistinct (h ∷ hs) = (contains_hash h hs ≡ false) × AreDistinct hs

contains_hash-append :
    (h : BlockHash) (xs ys : List BlockHash)
    → contains_hash h (xs ++ ys) ≡ (contains_hash h xs || contains_hash h ys)
unfolding contains_hash
contains_hash-append h [] ys = refl
contains_hash-append h (x ∷ xs) ys = ground (arith, contains_hash-append h xs ys)

AreDistinct-mid :
    (h : BlockHash) (xs ys : List BlockHash)
    → AreDistinct (xs ++ h ∷ ys)
    → contains_hash h xs ≡ false
unfolding contains_hash
AreDistinct-mid h [] ys d = refl
AreDistinct-mid h (x ∷ xs) ys d =
    ground (arith, AreDistinct-mid h xs ys d.1, contains_hash-append x xs (h ∷ ys), d.0)

pub AreDistinct-left : (xs ys : List BlockHash) → AreDistinct (xs ++ ys) → AreDistinct xs
AreDistinct-left [] ys d = tt
AreDistinct-left (x ∷ xs) ys d =
    (ground (arith, contains_hash-append x xs ys, d.0), AreDistinct-left xs ys d.1)

pub AreDistinct-right : (xs ys : List BlockHash) → AreDistinct (xs ++ ys) → AreDistinct ys
AreDistinct-right [] ys d = d
AreDistinct-right (x ∷ xs) ys d = AreDistinct-right xs ys d.1

-- Hashes that are not there are added at the end.
pub insert_hashes-AreDistinct :
    (hs set : List BlockHash) → AreDistinct (set ++ hs) → insert_hashes hs set ≡ set ++ hs
unfolding insert_hashes
insert_hashes-AreDistinct [] set d = sym (append-nil set)
insert_hashes-AreDistinct (h ∷ hs) set d =
    let same : (set ++ h ∷ []) ++ hs ≡ set ++ h ∷ hs = append_assoc set (h ∷ []) hs in
    rw (AreDistinct-mid h set hs d)
      (insert_hashes-AreDistinct hs (set ++ h ∷ []) (subst AreDistinct (sym same) d) ∙ same)

remove_hash_missing :
    (h : BlockHash) (xs : List BlockHash) → contains_hash h xs ≡ false → remove_hash h xs ≡ xs
unfolding remove_hash contains_hash
remove_hash_missing h [] e = refl
remove_hash_missing h (x ∷ xs) e = ground (arith, remove_hash_missing h xs)

-- The hashes of the first batch are there, and the others are left.
remove_hashes-append :
    (hs rest : List BlockHash) → AreDistinct (hs ++ rest) → remove_hashes hs (hs ++ rest) ≡ ok rest
unfolding remove_hashes contains_hash remove_hash
remove_hashes-append [] rest d = refl
remove_hashes-append (h ∷ hs) rest d =
    let here : (h == h) ≡ true = ground arith in
    rw (here, remove_hash_missing h (hs ++ rest) d.0) (remove_hashes-append hs rest d.1)

-- An indexed block is not among new ones, and new ones are different from each other.
found-AreNew :
    (h : BlockHash) (n : ℕ) (blocks : List BlockData) (rows : List BlockRow) (r : BlockRow)
    → AreNew n blocks rows
    → find_block (hash_to_hash_id h) rows ≡ some r
    → contains_hash h (block_ids blocks) ≡ false
unfolding contains_hash block_row
found-AreNew h n [] rows r new e = refl
found-AreNew h n (b ∷ blocks) rows r new e =
    let apart : (b.id == h) ≡ false = elim (Bool-cases (b.id == h)) [
      | inl same ↦ absurd (cc (new.2, e, ap hash_to_hash_id (eqb→eq b.id h same)))
      | inr other ↦ other
    ] in
    let (r', there) = IsFound-append (hash_to_hash_id h) rows (block_row b ∷ []) (r, e) in
    rw apart (found-AreNew h (suc n) blocks (rows ++ block_row b ∷ []) r' new.3 there)

find_block_last :
    (rows : List BlockRow) (row : BlockRow)
    → find_block row.hash_id rows ≡ none
    → find_block row.hash_id (rows ++ row ∷ []) ≡ some row
unfolding find_block
find_block_last [] row e = ground arith
find_block_last (x ∷ rows) row e = ground (arith, find_block_last rows row)

pub AreNew-AreDistinct :
    (n : ℕ) (blocks : List BlockData) (rows : List BlockRow)
    → AreNew n blocks rows
    → AreDistinct (block_ids blocks)
unfolding block_row
AreNew-AreDistinct n [] rows new = tt
AreNew-AreDistinct n (b ∷ blocks) rows new =
    let there = find_block_last rows (block_row b) new.2 in
    (
      found-AreNew b.id (suc n) blocks (rows ++ block_row b ∷ []) (block_row b) new.3 there,
      AreNew-AreDistinct (suc n) blocks (rows ++ block_row b ∷ []) new.3,
    )

module _ (address : Network → ℕ → Option ℕ) (mode : Mode) (network : Network) where
  -- The workers can write each batch of the queue on what the ones before it leave.
  abbrev pub CanWrite : List (ℕ × List BlockData) → UtxoDetailsMap → Db → Type 0
  CanWrite [] cache db = Unit
  CanWrite ((id, blocks) ∷ queue) cache db =
      (cache' : UtxoDetailsMap) × (db' : Db) × (process_batch address mode network blocks cache db
        ≡ ok (cache', db'))
      × CanWrite queue cache' db'

  drain_step :
      (id : ℕ) (blocks : List BlockData) (queue : List (ℕ × List BlockData))
      (cache cache' : UtxoDetailsMap) (db db' : Db) (in_flight left : List BlockHash)
      → process_batch address mode network blocks cache db ≡ ok (cache', db')
      → remove_hashes (insert_hashes (block_ids blocks) []) in_flight ≡ ok left
      → drain address mode network ((id, blocks) ∷ queue) cache db in_flight
        ≡ drain address mode network queue cache' db' left
  unfolding drain
  drain_step id blocks queue cache cache' db db' in_flight left e removed =
      (λ i. elim (e i) [
        | ok (c, d) ↦ remove_hashes (insert_hashes (block_ids blocks) []) in_flight >>= λ rest.
            drain address mode network queue c d rest
        | _ ↦ panic
      ])
      ∙ (rw removed refl)

  -- A queue that can be written is written, and leaves no hash in flight.
  pub drain-CanWrite :
      (queue : List (ℕ × List BlockData)) (cache : UtxoDetailsMap) (db : Db)
      → CanWrite queue cache db
      → AreDistinct (block_ids (batches queue))
      → (db' : Db) × (drain address mode network queue cache db (block_ids (batches queue))
          ≡ ok (db', []))
  unfolding drain
  drain-CanWrite [] cache db w d = (db, refl)
  drain-CanWrite ((id, blocks) ∷ queue) cache db (cache', db1, e, w) d =
      let parts : block_ids (blocks ++ batches queue)
          ≡ block_ids blocks ++ block_ids (batches queue) =
        map-append (λ (b : BlockData). b.id) blocks (batches queue) in
      let d' = subst AreDistinct parts d in
      let first : insert_hashes (block_ids blocks) [] ≡ block_ids blocks =
        insert_hashes-AreDistinct (block_ids blocks) [] (AreDistinct-left _ _ d') in
      let removed = remove_hashes-append (block_ids blocks) (block_ids (batches queue)) d' in
      let (db', rest) =
        drain-CanWrite queue cache' db1 w (AreDistinct-right (block_ids blocks) _ d') in
      let step =
        drain_step id blocks queue cache cache' db db1
          (block_ids blocks ++ block_ids (batches queue)) (block_ids (batches queue)) e
          (rw first removed) in
      (
        db',
        subst (λ l. drain address mode network ((id, blocks) ∷ queue) cache db l ≡ ok (db', []))
            (sym parts) (step ∙ rest),
      )
