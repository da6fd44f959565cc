-- ===== src/Store/Relabel.antt =====
-- A reorg in src/db/pg.rs only changes which rows of `block` are extinct. Rows are compared without
-- that column.
use rust_bitcoin_indexer.Base.{
  ℕ, ◌+◌, ◌%◌, ◌≡◌, ◌∙◌, ap, refl, inl, inr, true, false, Option, none, some, List, [], ◌∷◌, ◌++◌,
  map, arith, ◌==◌, Bool-cases, Option-cases, All, All-append,
}
use rust_bitcoin_indexer.Base.Outcome.{ok, assert, >>=-eq-ok, subst_ok}
use rust_bitcoin_indexer.BTreeMap.{BTreeMap}
use rust_bitcoin_indexer.Types.{BlockHeight, u32_size}
use rust_bitcoin_indexer.Bitcoin.{BlockData}
use rust_bitcoin_indexer.Hash.{hash_to_hash_id}
use rust_bitcoin_indexer.Db.{Db, BlockRow, find_block, set_extinct, revive}
use rust_bitcoin_indexer.Store.Insert.{is_free, revive_block, replay_pending}
use rust_bitcoin_indexer.Store.Indexed.{blocks_of}
use rust_bitcoin_indexer.Store.Reorg.{block-revive_block}

-- A row as it was inserted.
abbrev pub forget : BlockRow → BlockRow
forget row = record row { extinct = false }

pub map-forget-set_extinct :
    (from : BlockHeight) (rows : List BlockRow)
    → map forget (set_extinct from rows) ≡ map forget rows
unfolding set_extinct
map-forget-set_extinct from [] = refl
map-forget-set_extinct from (row ∷ rows) = ground (arith, map-forget-set_extinct from rows)

pub map-forget-revive :
    (id : ℕ) (rows : List BlockRow) → map forget (revive id rows) ≡ map forget rows
unfolding revive
map-forget-revive id [] = refl
map-forget-revive id (row ∷ rows) = ground (arith, map-forget-revive id rows)

pub map-forget-revive_block :
    (b : BlockData) (db : Db) → map forget (revive_block b db).block ≡ map forget db.block
map-forget-revive_block b db =
    ap (map forget) (block-revive_block b db) ∙ map-forget-revive (hash_to_hash_id b.id) db.block

-- The same rows are found, up to that column.
pub find_block-forget :
    (id : ℕ) (rows : List BlockRow) (row : BlockRow)
    → find_block id rows ≡ some row
    → find_block id (map forget rows) ≡ some (forget row)
unfolding find_block
find_block-forget id [] row e = cc
find_block-forget id (r ∷ rows) row e = ground (arith, find_block-forget id rows row)

pub find_block-forget-none :
    (id : ℕ) (rows : List BlockRow)
    → find_block id rows ≡ none
    → find_block id (map forget rows) ≡ none
unfolding find_block
find_block-forget-none id [] e = refl
find_block-forget-none id (r ∷ rows) e = ground (arith, find_block-forget-none id rows)

module _ (P : BlockData → Type 0) where
  -- The loop over the pending blocks changes no other column, and collects blocks of its input.
  pub replay_pending-keeps :
      (prev : Option BlockHeight) (pending : BTreeMap BlockData) (db db' : Db)
      (batch batch' : List BlockData)
      → All P batch
      → All P (blocks_of pending)
      → replay_pending prev pending db batch ≡ ok (db', batch')
      → (map forget db'.block ≡ map forget db.block) × All P batch'
  unfolding replay_pending
  replay_pending-keeps prev [] db db' batch batch' a b e =
      subst_ok (λ x. (map forget x.0.block ≡ map forget db.block) × All P x.1) e (refl, a)
  replay_pending-keeps prev ((h, block) ∷ pending) db db' batch batch' a b e =
      let (_, _, k) =
        >>=-eq-ok (assert (elim prev [ none ↦ true | some q ↦ (q + 1) % u32_size == h ])) _ e in
      elim (Option-cases (find_block (hash_to_hash_id block.id) db.block)) [
        | inl fresh ↦
            replay_pending-keeps (some block.height) pending db db' (batch ++ block ∷ []) batch'
              (All-append P batch (block ∷ []) a (b.0, tt)) b.1 (rw fresh at k)
        | inr (row, found) ↦ elim (Bool-cases row.extinct) [
          | inl dead ↦ elim (Bool-cases (is_free row.height db.block)) [
            | inl free ↦
                let rest =
                  replay_pending-keeps (some block.height) pending (revive_block block db) db' batch
                    batch' a b.1 (rw free at (rw dead at (rw found at k))) in
                (rest.0 ∙ map-forget-revive_block block db, rest.1)
            | inr taken ↦ ground (arith, k, found, dead, taken)
          ]
          | inr live ↦ ground (arith, k, found, live)
        ]
      ]
