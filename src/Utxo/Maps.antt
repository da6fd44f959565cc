-- ===== src/Utxo/Maps.antt =====
-- The maps of outputs of src/db/pg.rs: what is found after an insertion and a removal.
use rust_bitcoin_indexer.Base.{
  ℕ, suc, ◌≡◌, ◌∙◌, sym, ap, subst, refl, inl, inr, Bool, true, false, ◌||◌, Option, none, some,
  List, [], ◌∷◌, ◌++◌, if◌then◌else◌, Bool-cases, length, arith,
}
use rust_bitcoin_indexer.Utxo.{
  HashIdOutPoint, same_point, UtxoDetailsMap, find_utxo, remove_utxo, insert_utxo, insert_all_utxos,
  is_among,
}

-- The first of two that is there.
abbrev pub or_else : Option ℕ → Option ℕ → Option ℕ
or_else (some v) o = some v
or_else none o = o

abbrev pub is_none : Option ℕ → Bool
is_none none = true
is_none (some v) = false

pub same_point→eq : (p q : HashIdOutPoint) → same_point p q ≡ true → p ≡ q
same_point→eq p q e = ground arith

pub same_point_refl : (p : HashIdOutPoint) → same_point p p ≡ true
same_point_refl p = ground arith

pub same_point_sym : (p q : HashIdOutPoint) → same_point p q ≡ same_point q p
same_point_sym p q = ground arith

pub find-remove :
    (p q : HashIdOutPoint) (m : UtxoDetailsMap)
    → find_utxo p (remove_utxo q m) ≡ (if same_point q p then none else find_utxo p m)
unfolding find_utxo remove_utxo
find-remove p q [] = ground arith
find-remove p q ((r, v) ∷ m) = ground (arith, find-remove p q m)

pub find-insert :
    (p q : HashIdOutPoint) (v : ℕ) (m : UtxoDetailsMap)
    → find_utxo p (insert_utxo q v m) ≡ (if same_point q p then some v else find_utxo p m)
unfolding find_utxo insert_utxo
find-insert p q v m = ground (arith, find-remove p q m)

-- No key is there twice.
abbrev pub IsMap : UtxoDetailsMap → Type 0
IsMap [] = Unit
IsMap ((p, v) ∷ m) = (find_utxo p m ≡ none) × IsMap m

pub remove-IsMap : (q : HashIdOutPoint) (m : UtxoDetailsMap) → IsMap m → IsMap (remove_utxo q m)
unfolding remove_utxo
remove-IsMap q [] k = tt
remove-IsMap q ((p, v) ∷ m) k = elim (Bool-cases (same_point p q)) [
  | inl same ↦ rw same (remove-IsMap q m k.1)
  | inr other ↦ rw other (ground (arith, find-remove p q m, k), remove-IsMap q m k.1)
]

pub insert-IsMap :
    (q : HashIdOutPoint) (v : ℕ) (m : UtxoDetailsMap) → IsMap m → IsMap (insert_utxo q v m)
unfolding insert_utxo
insert-IsMap q v m k = (ground (arith, find-remove q q m), remove-IsMap q m k)

pub length-remove_missing :
    (q : HashIdOutPoint) (m : UtxoDetailsMap)
    → find_utxo q m ≡ none
    → length (remove_utxo q m) ≡ length m
unfolding find_utxo remove_utxo
length-remove_missing q [] e = refl
length-remove_missing q ((p, v) ∷ m) e = ground (arith, length-remove_missing q m)

pub length-remove :
    (q : HashIdOutPoint) (v : ℕ) (m : UtxoDetailsMap)
    → IsMap m
    → find_utxo q m ≡ some v
    → suc (length (remove_utxo q m)) ≡ length m
unfolding find_utxo remove_utxo
length-remove q v ((p, w) ∷ m) k e = elim (Bool-cases (same_point p q)) [
  | inl same ↦
      let missing : find_utxo q m ≡ none =
        subst (λ r. find_utxo r m ≡ none) (same_point→eq p q same) k.0 in
      rw same (ap suc (length-remove_missing q m missing))
  | inr other ↦ rw other (ap suc (length-remove q v m k.1 (rw other at e)))
]
length-remove q v [] k e = cc

-- No point is there twice.
abbrev pub Distinct : List HashIdOutPoint → Type 0
Distinct [] = Unit
Distinct (p ∷ ps) = (is_among p ps ≡ false) × Distinct ps

-- A map of given points has as many entries as there are points.
pub length-points :
    (ps : List HashIdOutPoint) (m : UtxoDetailsMap)
    → Distinct ps
    → IsMap m
    → ((p : HashIdOutPoint) → is_among p ps ≡ true → (v : ℕ) × (find_utxo p m ≡ some v))
    → ((p : HashIdOutPoint) → is_among p ps ≡ false → find_utxo p m ≡ none)
    → length m ≡ length ps
unfolding is_among find_utxo
length-points [] [] d k here there = refl
length-points [] ((p, v) ∷ m) d k here there = ground (arith, there p refl)
length-points (q ∷ qs) m d k here there =
    let (v, found) = here q (rw (same_point_refl q)) in
    sym (length-remove q v m k found)
    ∙ ap suc (
        length-points qs (remove_utxo q m) d.1 (remove-IsMap q m k)
          (λ p among. elim (Bool-cases (same_point q p)) [
            | inl same ↦ absurd (cc (d.0, among, same_point→eq q p same))
            | inr other ↦
                let (w, at) = here p (rw (other, among)) in (w, find-remove p q m ∙ (rw other at))
          ])
          (λ p among. elim (Bool-cases (same_point q p)) [
            | inl same ↦ find-remove p q m ∙ (rw same)
            | inr other ↦ find-remove p q m ∙ (rw other (there p (rw (other, among))))
          ]))

-- A map's entries are found over those of the map that it is put into.
pub find-insert_all :
    (q : HashIdOutPoint) (more m : UtxoDetailsMap)
    → IsMap more
    → find_utxo q (insert_all_utxos more m) ≡ or_else (find_utxo q more) (find_utxo q m)
unfolding insert_all_utxos find_utxo
find-insert_all q [] m k = refl
find-insert_all q ((p, v) ∷ more) m k =
    find-insert_all q more (insert_utxo p v m) k.1 ∙ (elim (Bool-cases (same_point p q)) [
      | inl same ↦
          let missing : find_utxo q more ≡ none =
            subst (λ r. find_utxo r more ≡ none) (same_point→eq p q same) k.0 in
          rw (missing, find-insert q p v m, same) refl
      | inr other ↦ rw (find-insert q p v m, other) refl
    ])

pub is_among-append :
    (p : HashIdOutPoint) (xs ys : List HashIdOutPoint)
    → is_among p (xs ++ ys) ≡ (is_among p xs || is_among p ys)
unfolding is_among
is_among-append p [] ys = refl
is_among-append p (x ∷ xs) ys = ground (arith, is_among-append p xs ys)
