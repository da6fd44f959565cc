-- ===== src/Utxo/Fetching.antt =====
-- What `fetch_outputs` and `fetch_missing_utxos` of src/db/pg.rs find in the table of outputs.
use rust_bitcoin_indexer.Base.{
  ℕ, ◌≡◌, ◌∙◌, sym, ap, refl, inl, inr, true, Option, none, some, List, [], ◌∷◌, ◌==◌,
  if◌then◌else◌, Bool-cases, length, eq→eqb, arith,
}
use rust_bitcoin_indexer.Base.Outcome.{ok}
use rust_bitcoin_indexer.Db.{OutputRow}
use rust_bitcoin_indexer.Utxo.{
  HashIdOutPoint, same_point, UtxoDetailsMap, find_utxo, is_among, fetch_outputs,
  fetch_missing_utxos,
}
use rust_bitcoin_indexer.Utxo.Maps.{
  or_else, same_point→eq, find-insert, IsMap, insert-IsMap, Distinct, length-points,
}

abbrev pub point_of : OutputRow → HashIdOutPoint
point_of row = record { tx_hash_id = row.tx_hash_id; vout = row.tx_idx }

-- The value of an output in the table.
abbrev pub row_value : HashIdOutPoint → List OutputRow → Option ℕ
row_value p [] = none
row_value p (row ∷ rows) =
    or_else (row_value p rows) (if same_point (point_of row) p then some row.value else none)

fetch_outputs-find :
    (p : HashIdOutPoint) (rows : List OutputRow) (ps : List HashIdOutPoint) (out : UtxoDetailsMap)
    → find_utxo p (fetch_outputs rows ps out)
      ≡ (if is_among p ps then or_else (row_value p rows) (find_utxo p out) else find_utxo p out)
unfolding fetch_outputs
fetch_outputs-find p [] ps out = ground arith
fetch_outputs-find p (row ∷ rows) ps out = elim (Bool-cases (is_among (point_of row) ps)) [
  | inl wanted ↦ fetch_outputs-find p rows ps _ ∙ (elim (Bool-cases (same_point (point_of row) p)) [
    | inl same ↦ ground (
      arith,
      wanted,
      same,
      find-insert p (point_of row) row.value out,
      ap (λ r. is_among r ps) (same_point→eq (point_of row) p same),
    )
    | inr apart ↦ ground (arith, wanted, apart, find-insert p (point_of row) row.value out)
  ])
  | inr other ↦ fetch_outputs-find p rows ps _ ∙ (elim (Bool-cases (same_point (point_of row) p)) [
    | inl same ↦
        ground (arith, other, same, ap (λ r. is_among r ps) (same_point→eq (point_of row) p same))
    | inr apart ↦ ground (arith, other, apart)
  ])
]

fetch_outputs-IsMap :
    (rows : List OutputRow) (ps : List HashIdOutPoint) (out : UtxoDetailsMap)
    → IsMap out
    → IsMap (fetch_outputs rows ps out)
unfolding fetch_outputs
fetch_outputs-IsMap [] ps out k = k
fetch_outputs-IsMap (row ∷ rows) ps out k = elim (Bool-cases (is_among (point_of row) ps)) [
  | inl wanted ↦
      rw wanted (fetch_outputs-IsMap rows ps _ (insert-IsMap (point_of row) row.value out k))
  | inr other ↦ rw other (fetch_outputs-IsMap rows ps out k)
]

-- The outputs that are asked for are found, and no others.
pub record Fetched (rows : List OutputRow) (ps : List HashIdOutPoint) (out : UtxoDetailsMap)
    : Type 0 where
  pub is_map : IsMap out
  pub values :
      (p : HashIdOutPoint) → find_utxo p out ≡ (if is_among p ps then row_value p rows else none)

or_none : (o : Option ℕ) → or_else o none ≡ o
or_none none = refl
or_none (some v) = refl

pub fetch_missing_utxos-Fetched :
    (rows : List OutputRow) (ps : List HashIdOutPoint)
    → Distinct ps
    → ((p : HashIdOutPoint) → is_among p ps ≡ true → (v : ℕ) × (row_value p rows ≡ some v))
    → (out : UtxoDetailsMap) × (fetch_missing_utxos rows ps ≡ ok out) × Fetched rows ps out
unfolding fetch_missing_utxos find_utxo
fetch_missing_utxos-Fetched rows [] d there =
    ([], refl, record { is_map = tt; values = λ p. ground arith })
fetch_missing_utxos-Fetched rows (q ∷ qs) d there = (out, rw (full) refl, fetched)
  where
    out : UtxoDetailsMap
    out = fetch_outputs rows (q ∷ qs) []

    fetched : Fetched rows (q ∷ qs) (fetch_outputs rows (q ∷ qs) [])
    fetched = record {
      is_map = fetch_outputs-IsMap rows (q ∷ qs) [] tt;
      values =
          λ p. fetch_outputs-find p rows (q ∷ qs) [] ∙ (ground (arith, or_none (row_value p rows)));
    }

    full : (length (q ∷ qs) == length (fetch_outputs rows (q ∷ qs) [])) ≡ true
    full = eq→eqb _ _ (
        sym (
          length-points (q ∷ qs) _ d fetched.is_map
            (λ p among. let (v, e) = there p among in (v, fetched.values p ∙ (rw among e)))
            (λ p among. fetched.values p ∙ (rw among refl))))
