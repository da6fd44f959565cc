-- ===== src/Utxo/Consuming.antt =====
-- What `consume_spent_utxos` of src/db/pg.rs takes out of the cache, finds and misses.
use rust_bitcoin_indexer.Base.{
  ℕ, ◌≡◌, ◌∙◌, sym, ap, refl, inl, inr, Bool, true, false, ◌&&◌, none, some, List, [], ◌∷◌, ◌++◌,
  append-nil, append_assoc, if◌then◌else◌, Bool-cases, Option-cases, arith,
}
use rust_bitcoin_indexer.Utxo.{
  HashIdOutPoint, same_point, UtxoDetailsMap, find_utxo, remove_utxo, insert_utxo, is_among,
  Consumed, consume_one, consume_spent_utxos,
}
use rust_bitcoin_indexer.Utxo.Maps.{
  or_else, is_none, same_point→eq, find-remove, find-insert, Distinct,
}

-- Among the points, those that the map does not have.
abbrev pub missing_of : UtxoDetailsMap → List HashIdOutPoint → List HashIdOutPoint
missing_of m [] = []
missing_of m (p ∷ ps) =
    let rest = missing_of m ps in if is_none (find_utxo p m) then p ∷ rest else rest

pub consume-entries :
    (q : HashIdOutPoint) (ps : List HashIdOutPoint) (c : Consumed)
    → find_utxo q (consume_spent_utxos ps c).entries
      ≡ (if is_among q ps then none else find_utxo q c.entries)
unfolding consume_spent_utxos consume_one is_among
consume-entries q [] c = refl
consume-entries q (p ∷ ps) c =
    consume-entries q ps (consume_one p c) ∙ (elim (Option-cases (find_utxo p c.entries)) [
      | inl missing ↦ ground (arith, missing, same_point→eq p q)
      | inr (v, there) ↦ ground (arith, there, find-remove q p c.entries)
    ])

pub consume-found :
    (q : HashIdOutPoint) (ps : List HashIdOutPoint) (c : Consumed)
    → find_utxo q (consume_spent_utxos ps c).found ≡ (
        if is_among q ps
        then or_else (find_utxo q c.entries) (find_utxo q c.found)
        else find_utxo q c.found)
unfolding consume_spent_utxos consume_one is_among
consume-found q [] c = refl
consume-found q (p ∷ ps) c =
    consume-found q ps (consume_one p c) ∙ (elim (Option-cases (find_utxo p c.entries)) [
      | inl missing ↦ ground (arith, missing, same_point→eq p q)
      | inr (v, there) ↦
          ground
            (arith, there, find-remove q p c.entries, find-insert q p v c.found, same_point→eq p q)
    ])

missing_of-remove :
    (p : HashIdOutPoint) (m : UtxoDetailsMap) (ps : List HashIdOutPoint)
    → is_among p ps ≡ false
    → missing_of (remove_utxo p m) ps ≡ missing_of m ps
unfolding is_among
missing_of-remove p m [] a = refl
missing_of-remove p m (q ∷ ps) a = ground (arith, find-remove q p m, missing_of-remove p m ps)

consume_one_missing :
    (p : HashIdOutPoint) (c : Consumed)
    → find_utxo p c.entries ≡ none
    → consume_one p c ≡ record c { missing = c.missing ++ p ∷ [] }
unfolding consume_one
consume_one_missing p c e = rw (e, consume_one) refl

consume_one_there :
    (p : HashIdOutPoint) (v : ℕ) (c : Consumed)
    → find_utxo p c.entries ≡ some v
    → consume_one p c
      ≡ record c { entries = remove_utxo p c.entries; found = insert_utxo p v c.found }
unfolding consume_one
consume_one_there p v c e = rw (e, consume_one) refl

pub consume-missing :
    (ps : List HashIdOutPoint) (c : Consumed)
    → Distinct ps
    → (consume_spent_utxos ps c).missing ≡ c.missing ++ missing_of c.entries ps
unfolding consume_spent_utxos
consume-missing [] c d = sym (append-nil c.missing)
consume-missing (p ∷ ps) c d =
    consume-missing ps (consume_one p c) d.1 ∙ (elim (Option-cases (find_utxo p c.entries)) [
      | inl missing ↦
          rw (consume_one_missing p c missing, missing)
            (append_assoc c.missing (p ∷ []) (missing_of c.entries ps))
      | inr (v, there) ↦
          rw (consume_one_there p v c there, there)
            (ap (λ l. c.missing ++ l) (missing_of-remove p c.entries ps d.0))
    ])

pub is_among-missing_of :
    (q : HashIdOutPoint) (m : UtxoDetailsMap) (ps : List HashIdOutPoint)
    → is_among q (missing_of m ps) ≡ (is_among q ps && is_none (find_utxo q m))
unfolding is_among
is_among-missing_of q m [] = refl
is_among-missing_of q m (p ∷ ps) = elim (Bool-cases (same_point p q)) [
  | inl same ↦
      let at : p ≡ q = same_point→eq p q same in
      ground (arith, is_among-missing_of q m ps, same, ap (λ r. find_utxo r m) at)
  | inr other ↦ ground (arith, is_among-missing_of q m ps, other)
]

pub missing_of-Distinct :
    (m : UtxoDetailsMap) (ps : List HashIdOutPoint) → Distinct ps → Distinct (missing_of m ps)
missing_of-Distinct m [] d = tt
missing_of-Distinct m (p ∷ ps) d =
    Distinct-unless p (is_none (find_utxo p m)) (missing_of m ps)
      (is_among-missing_of p m ps ∙ (rw d.0 refl)) (missing_of-Distinct m ps d.1)
  where
    Distinct-unless :
        (p : HashIdOutPoint) (keep : Bool) (rest : List HashIdOutPoint)
        → is_among p rest ≡ false
        → Distinct rest
        → Distinct (if keep then p ∷ rest else rest)
    Distinct-unless p true rest new d = (new, d)
    Distinct-unless p false rest new d = d
