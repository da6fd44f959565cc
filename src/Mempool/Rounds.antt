-- ===== src/Mempool/Rounds.antt =====
-- Rounds of src/bin/mempool-indexer.rs: how the set of transactions that are done grows.
use rust_bitcoin_indexer.Base.{
  ℕ, suc, ◌+◌, ◌≤◌, ◌≡◌, refl, inl, inr, Bool, true, false, Option, List, [], ◌∷◌, ◌++◌, arith, ltb,
  Bool-cases, length, length-append, All, ltb→le,
}
use rust_bitcoin_indexer.Base.Outcome.{
  Outcome, ok, err, panic, blocked, out_of_fuel, >>=-eq-ok, subst_ok,
}
use rust_bitcoin_indexer.Bitcoin.{Transaction, Network}
use rust_bitcoin_indexer.Store.{contains_hash, insert_hashes}
use rust_bitcoin_indexer.Mempool.{
  MempoolStore, insert, Scan, max_done, begin_round, count_result, scan,
}

contains_hash-append :
    (h : ℕ) (xs ys : List ℕ) → contains_hash h xs ≡ true → contains_hash h (xs ++ ys) ≡ true
unfolding contains_hash
contains_hash-append h [] ys e = cc
contains_hash-append h (x ∷ xs) ys e = ground (arith, contains_hash-append h xs ys)

contains_hash-last : (h : ℕ) (xs : List ℕ) → contains_hash h (xs ++ h ∷ []) ≡ true
unfolding contains_hash
contains_hash-last h [] = ground arith
contains_hash-last h (x ∷ xs) = ground (arith, contains_hash-last h xs)

-- What a step does to the counts and to the set.
record Counts (tx_id : ℕ) (s t : Scan) : Type 0 where
  fails : s.failed ≤ t.failed
  once : t.inserted + t.failed ≡ suc (s.inserted + s.failed)
  grows : length t.done + s.inserted ≡ length s.done + t.inserted
  never : s.inserted ≤ t.inserted
  keeps : (h : ℕ) → contains_hash h s.done ≡ true → contains_hash h t.done ≡ true
  does : t.failed ≡ s.failed → contains_hash tx_id t.done ≡ true

-- What a round does to them.
record Scans (ids : List ℕ) (s t : Scan) : Type 0 where
  fails : s.failed ≤ t.failed
  each : t.inserted + t.failed ≤ s.inserted + s.failed + length ids
  grows : length t.done + s.inserted ≡ length s.done + t.inserted
  never : s.inserted ≤ t.inserted
  keeps : (h : ℕ) → contains_hash h s.done ≡ true → contains_hash h t.done ≡ true
  does : t.failed ≡ s.failed → All (λ id. contains_hash id t.done ≡ true) ids

module _ (address : Network → ℕ → Option ℕ) (get_by_id : ℕ → Option Transaction)
    (reads : ℕ → Bool) where
  count_result-Counts :
      (tx_id : ℕ) (s t : Scan) (r : Outcome MempoolStore)
      → contains_hash tx_id s.done ≡ false
      → count_result address get_by_id reads tx_id s r ≡ ok t
      → Counts tx_id s t
  unfolding count_result insert_hashes
  count_result-Counts tx_id s t (ok store) absent e = subst_ok (Counts tx_id s) e (record {
    fails = omega arith;
    once = omega arith;
    grows = rw absent (omega (arith, length-append s.done (tx_id ∷ [])));
    never = omega arith;
    keeps = λ h c. rw absent (contains_hash-append h s.done (tx_id ∷ []) c);
    does = λ _. rw absent (contains_hash-last tx_id s.done);
  })
  count_result-Counts tx_id s t err absent e = subst_ok (Counts tx_id s) e (record {
    fails = omega arith;
    once = omega arith;
    grows = omega arith;
    never = omega arith;
    keeps = λ h c. c;
    does = λ same. absurd (omega (arith, same));
  })
  count_result-Counts tx_id s t panic absent e = cc
  count_result-Counts tx_id s t blocked absent e = cc
  count_result-Counts tx_id s t out_of_fuel absent e = cc

  scan-Scans :
      (ids : List ℕ) (s t : Scan) → scan address get_by_id reads ids s ≡ ok t → Scans ids s t
  unfolding scan
  scan-Scans [] s t e = subst_ok (Scans [] s) e (record {
    fails = omega arith;
    each = omega arith;
    grows = omega arith;
    never = omega arith;
    keeps = λ h c. c;
    does = λ _. tt;
  })
  scan-Scans (tx_id ∷ ids) s t e = elim (Bool-cases (contains_hash tx_id s.done)) [
    | inl there ↦
        let rest = scan-Scans ids s t (rw there at e) in
        record {
          fails = rest.fails;
          each = omega (arith, rest.each);
          grows = rest.grows;
          never = rest.never;
          keeps = rest.keeps;
          does = λ same. (rest.keeps tx_id there, rest.does same);
        }
    | inr absent ↦
        let (u, one, last) =
          >>=-eq-ok
            (count_result address get_by_id reads tx_id s (
              insert address (reads tx_id) (record { id = tx_id; payload = get_by_id tx_id })
                s.store))
            (scan address get_by_id reads ids) (rw absent at e) in
        let first = count_result-Counts tx_id s u _ absent one in
        let rest = scan-Scans ids u t last in
        record {
          fails = omega (arith, first.fails, rest.fails);
          each = omega (arith, first.once, rest.each);
          grows = omega (arith, first.grows, rest.grows);
          never = omega (arith, first.never, rest.never);
          keeps = λ h c. rest.keeps h (first.keeps h c);
          does = λ same. (
            rest.keeps tx_id (first.does (omega (arith, same, first.fails, rest.fails))),
            rest.does (omega (arith, same, first.fails, rest.fails)),
          );
        }
  ]

  -- Transactions that are done are left alone.
  scan_done :
      (ids : List ℕ) (s : Scan)
      → All (λ id. contains_hash id s.done ≡ true) ids
      → scan address get_by_id reads ids s ≡ ok s
  unfolding scan
  scan_done [] s a = refl
  scan_done (tx_id ∷ ids) s a = rw a.0 (scan_done ids s a.1)

  -- In a round that succeeds, the set of done transactions grows by exactly the number that is
  -- counted as inserted, no more transactions are counted than the mempool has, and at most
  -- 500000 and the mempool's are done.
  pub round_bounds :
      (ids : List ℕ) (s t : Scan)
      → scan address get_by_id reads ids (begin_round s) ≡ ok t
      → (length t.done ≡ length (begin_round s).done + t.inserted)
        × (t.inserted + t.failed ≤ length ids)
        × (length t.done ≤ max_done + length ids)
  unfolding begin_round
  round_bounds ids s t e =
      let k = scan-Scans ids (begin_round s) t e in
      elim (Bool-cases (ltb max_done (length s.done))) [
        | inl full ↦
            let cleared : length (begin_round s).done ≡ 0 = rw full refl in
            (omega (arith, k.grows), omega (arith, k.each), omega (arith, k.grows, k.each, cleared))
        | inr room ↦
            let kept : length (begin_round s).done ≡ length s.done = rw room refl in
            (
              omega (arith, k.grows),
              omega (arith, k.each),
              omega (arith, k.grows, k.each, kept, ltb→le max_done (length s.done) room),
            )
      ]

-- A later round, over the node's answers then.
module _ (address : Network → ℕ → Option ℕ) (get_by_id later_by_id : ℕ → Option Transaction)
    (reads later_reads : ℕ → Bool) where
  -- After a round in which nothing failed, and which left no more than 500000 done transactions,
  -- a round over the same mempool leaves the store as it is, whatever the node answers then.
  pub round_repeats :
      (ids : List ℕ) (s t : Scan)
      → scan address get_by_id reads ids (begin_round s) ≡ ok t
      → t.failed ≡ 0
      → length t.done ≤ max_done
      → scan address later_by_id later_reads ids (begin_round t) ≡ ok (begin_round t)
  unfolding begin_round
  round_repeats ids s t e none_failed small =
      let k = scan-Scans address get_by_id reads ids (begin_round s) t e in
      let room : ltb max_done (length t.done) ≡ false = ground arith in
      scan_done address later_by_id later_reads ids (begin_round t) (rw room (k.does none_failed))
