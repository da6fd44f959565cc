-- ===== src/Store/Queue.antt =====
-- The queue of batches of src/db/pg.rs: `AsyncBlockInsertWorker`, `flush_batch` and `stop_workers`.
use rust_bitcoin_indexer.Base.{
  ℕ, suc, ◌+◌, ◌≡◌, ◌∙◌, sym, subst, refl, Option, List, [], ◌∷◌, ◌++◌, map, append-nil,
  append_assoc, arith, length, length-append,
}
use mathlib.Core.List.{map-append}
use rust_bitcoin_indexer.Base.Outcome.{Outcome, ok, err, panic, blocked, out_of_fuel, >>=-eq-ok}
use rust_bitcoin_indexer.Types.{BlockHash}
use rust_bitcoin_indexer.Bitcoin.{BlockData, Network}
use rust_bitcoin_indexer.Db.{Db, BlockRow}
use rust_bitcoin_indexer.Db.Current.{push_all}
use rust_bitcoin_indexer.Utxo.{UtxoDetailsMap}
use rust_bitcoin_indexer.Format.{Mode, block_row}
use rust_bitcoin_indexer.Store.{block_ids, insert_hashes, remove_hashes, process_batch, drain}
use rust_bitcoin_indexer.Store.Coherent.{IsCoherent}
use rust_bitcoin_indexer.Store.Batch.{AreNew, process_batch-IsCoherent, process_batch-block}

-- All blocks of the queued batches, in order.
abbrev pub batches : List (ℕ × List BlockData) → List BlockData
batches [] = []
batches (entry ∷ queue) = entry.1 ++ batches queue

pub batches-append :
    (queue : List (ℕ × List BlockData)) (id : ℕ) (blocks : List BlockData)
    → batches (queue ++ (id, blocks) ∷ []) ≡ batches queue ++ blocks
batches-append [] id blocks = append-nil blocks
batches-append (entry ∷ queue) id blocks =
    rw (batches-append queue id blocks) (sym (append_assoc entry.1 (batches queue) blocks))

push_all-append : (xs ys c : List ℕ) → push_all (xs ++ ys) c ≡ push_all ys (push_all xs c)
push_all-append [] ys c = refl
push_all-append (x ∷ xs) ys c = push_all-append xs ys (x ∷ c)

pub push_block_ids-append :
    (xs ys : List BlockData) (c : List BlockHash)
    → push_all (block_ids (xs ++ ys)) c ≡ push_all (block_ids ys) (push_all (block_ids xs) c)
push_block_ids-append xs ys c = rw map-append (push_all-append (block_ids xs) (block_ids ys) c)

pub length-push_block_ids :
    (xs : List BlockData) (c : List BlockHash)
    → length (push_all (block_ids xs) c) ≡ length xs + length c
length-push_block_ids [] c = omega arith
length-push_block_ids (x ∷ xs) c = omega (arith, length-push_block_ids xs (x.id ∷ c))

-- New blocks in two parts: the first, and the second once the first is written.
pub AreNew-split :
    (n : ℕ) (xs ys : List BlockData) (rows : List BlockRow)
    → AreNew n (xs ++ ys) rows
    → AreNew n xs rows × AreNew (length xs + n) ys (rows ++ map block_row xs)
AreNew-split n [] ys rows a =
    let same : n ≡ 0 + n = omega arith in
    (tt, subst (λ m. AreNew m ys (rows ++ [])) same (rw append-nil a))
AreNew-split n (x ∷ xs) ys rows a =
    let rest = AreNew-split (suc n) xs ys (rows ++ block_row x ∷ []) a.3 in
    let shift : length xs + suc n ≡ suc (length xs) + n = omega arith in
    (
      (a.0, a.1, a.2, rest.0),
      rw (← shift, ← append_assoc rows (block_row x ∷ []) (map block_row xs)) rest.1,
    )

pub AreNew-append :
    (n : ℕ) (xs ys : List BlockData) (rows : List BlockRow)
    → AreNew n xs rows
    → AreNew (length xs + n) ys (rows ++ map block_row xs)
    → AreNew n (xs ++ ys) rows
AreNew-append n [] ys rows a b =
    let same : 0 + n ≡ n = omega arith in subst (λ m. AreNew m ys rows) same (rw append-nil at b)
AreNew-append n (x ∷ xs) ys rows a b =
    let shift : length xs + suc n ≡ suc (length xs) + n = omega arith in
    (
      a.0,
      a.1,
      a.2,
      AreNew-append (suc n) xs ys (rows ++ block_row x ∷ []) a.3
          (rw (shift, append_assoc rows (block_row x ∷ []) (map block_row xs)) b),
    )

-- A `match` that panics unless it finds a value.
pub or_panic-ok :
    {A B : Type 0} (r : Outcome A) (f : A → Outcome B) {b : B}
    → (elim r [ ok a ↦ f a | _ ↦ panic ]) ≡ ok b
    → (a : A) × (r ≡ ok a) × (f a ≡ ok b)
or_panic-ok (ok a) f e = (a, refl, e)
or_panic-ok err f e = cc
or_panic-ok panic f e = cc
or_panic-ok blocked f e = cc
or_panic-ok out_of_fuel f e = cc

-- What a queue of new blocks leaves when all of it is written.
pub record Drained (db : Db) (base : List BlockHash) (blocks : List BlockData) (db' : Db)
    : Type 0 where
  pub coherent : IsCoherent (length blocks + length base) db' (push_all (block_ids blocks) base)
  pub rows : db'.block ≡ db.block ++ map block_row blocks

Drained-cons :
    (xs ys : List BlockData) (db db1 db' : Db) (base : List BlockHash)
    → db1.block ≡ db.block ++ map block_row xs
    → Drained db1 (push_all (block_ids xs) base) ys db'
    → Drained db base (xs ++ ys) db'
Drained-cons xs ys db db1 db' base rows d = record {
  coherent =
      let tall : length ys + length (push_all (block_ids xs) base)
          ≡ length (xs ++ ys) + length base =
        omega (arith, length-push_block_ids xs base, length-append xs ys) in
      subst (λ n. IsCoherent n db' (push_all (block_ids (xs ++ ys)) base)) tall
        (rw push_block_ids-append d.coherent);
  rows =
      d.rows
      ∙ (rw (rows, map-append) (append_assoc db.block (map block_row xs) (map block_row ys)));
}

module _ (address : Network → ℕ → Option ℕ) (mode : Mode) (network : Network) where
  -- When the workers write their whole queue of new blocks on a coherent database, all of its
  -- blocks become the top of the chain in order and are appended to the table.
  pub drain-Drained :
      (queue : List (ℕ × List BlockData)) (cache : UtxoDetailsMap) (db db' : Db)
      (in_flight in_flight' : List BlockHash) (base : List BlockHash)
      → IsCoherent (length base) db base
      → AreNew (length base) (batches queue) db.block
      → drain address mode network queue cache db in_flight ≡ ok (db', in_flight')
      → Drained db base (batches queue) db'
  unfolding drain
  drain-Drained [] cache db db' in_flight in_flight' base k new e =
      let same : db ≡ db' = ground (arith, e) in
      let tall : length base ≡ 0 + length base = omega arith in
      subst (Drained db base []) same (record {
        coherent = subst (λ n. IsCoherent n db base) tall k;
        rows = sym (append-nil db.block);
      })
  drain-Drained ((id, blocks) ∷ queue) cache db db' in_flight in_flight' base k new e =
      let (written, e1, k1) =
        or_panic-ok (process_batch address mode network blocks cache db) _ e in
      let (left, e2, k2) =
        >>=-eq-ok (remove_hashes (insert_hashes (block_ids blocks) []) in_flight) _ k1 in
      let parts = AreNew-split (length base) blocks (batches queue) db.block new in
      let done =
        process_batch-IsCoherent mode (length base) db written.1 base blocks k parts.0 (omega arith)
          address network cache written.0 e1 in
      let rows =
        process_batch-block mode (length base) db written.1 base blocks k parts.0 (omega arith)
          address network cache written.0 e1 in
      let tall = length-push_block_ids blocks base in
      Drained-cons blocks (batches queue) db written.1 db' base rows (
        drain-Drained queue written.0 written.1 db' left in_flight'
          (push_all (block_ids blocks) base) (rw tall done) (rw (tall, rows) parts.1) k2)
