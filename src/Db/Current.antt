-- ===== src/Db/Current.antt =====
-- The chain that the blocks which are not extinct make up: one block for each height, the tip first.
use rust_bitcoin_indexer.Base.{
  ℕ, suc, ◌+◌, ◌≤◌, ◌<◌, ◌≡◌, ◌≢◌, ◌∙◌, subst, refl, inl, inr, Bool, true, false, none, some, List,
  [], ◌∷◌, ◌++◌, map, append-nil, append_assoc, arith, ltb, ◌==◌, if◌then◌else◌, Bool-cases, length,
  All, eqb→eq,
}
use rust_bitcoin_indexer.Base.Outcome.{ok}
use rust_bitcoin_indexer.Types.{BlockHeight, BlockHash}
use rust_bitcoin_indexer.Hash.{hash_id_and_rest_to_hash, hash_id_size}
use rust_bitcoin_indexer.Db.{
  BlockRow, live_at, find_block, set_extinct, revive, conflicts, insert_blocks,
}

abbrev pub row_hash : BlockRow → BlockHash
row_hash row = hash_id_and_rest_to_hash row.hash_id row.hash_rest

abbrev pub hashes_at : BlockHeight → List BlockRow → List BlockHash
hashes_at h rows = map row_hash (live_at h rows)

-- What stands at a height of a chain.
abbrev pub at_height : {A : Type 0} → BlockHeight → List A → List A
at_height h [] = []
at_height h (x ∷ xs) = if h == length xs then x ∷ [] else at_height h xs

-- The chain below a height, and what stands from the height on.
abbrev pub cut : {A : Type 0} → BlockHeight → List A → List A
cut h [] = []
cut h (x ∷ xs) = if ltb (length xs) h then x ∷ xs else cut h xs

abbrev pub above : {A : Type 0} → BlockHeight → List A → List A
above h [] = []
above h (x ∷ xs) = if ltb (length xs) h then [] else x ∷ above h xs

-- The elements pushed one after the other, the last one becoming the tip.
abbrev pub push_all : {A : Type 0} → List A → List A → List A
push_all [] chain = chain
push_all (x ∷ xs) chain = push_all xs (x ∷ chain)

-- At each height stands the chain's block and no other, and nothing stands above the tip.
pub record IsChain (rows : List BlockRow) (chain : List BlockHash) : Type 0 where
  pub at : (h : BlockHeight) → hashes_at h rows ≡ at_height h chain

abbrev pub NotId : ℕ → List BlockRow → Type 0
NotId id = All (λ row. row.hash_id ≢ id)

-- The primary key.
abbrev pub UniqueIds : List BlockRow → Type 0
UniqueIds [] = Unit {0}
UniqueIds (row ∷ rows) = NotId row.hash_id rows × UniqueIds rows

abbrev pub InRange : List BlockRow → Type 0
InRange = All (λ row. row.hash_id < hash_id_size)

pub at_height_above : {A : Type 0} (h : ℕ) (c : List A) → length c ≤ h → at_height h c ≡ []
at_height_above h [] le = refl
at_height_above h (x ∷ xs) le = ground (arith, at_height_above h xs)

pub at_height-cut :
    {A : Type 0} (h from : ℕ) (c : List A)
    → at_height h (cut from c) ≡ (if ltb h from then at_height h c else [])
at_height-cut h from [] = ground arith
at_height-cut h from (x ∷ xs) = ground (arith, at_height-cut h from xs, at_height_above h xs)

pub cut_all : {A : Type 0} (n : ℕ) (c : List A) → length c ≤ n → cut n c ≡ c
cut_all n [] h = refl
cut_all n (x ∷ xs) h = ground arith

pub length-cut : {A : Type 0} (from : ℕ) (c : List A) → from ≤ length c → length (cut from c) ≡ from
length-cut from [] le = omega arith
length-cut from (x ∷ xs) le = ground (arith, length-cut from xs)

pub length-push_all : {A : Type 0} (xs c : List A) → length (push_all xs c) ≡ length xs + length c
length-push_all [] c = omega arith
length-push_all (x ∷ xs) c = omega (arith, length-push_all xs (x ∷ c))

hashes_at-append :
    (h : ℕ) (xs ys : List BlockRow) → hashes_at h (xs ++ ys) ≡ hashes_at h xs ++ hashes_at h ys
unfolding live_at
hashes_at-append h [] ys = refl
hashes_at-append h (x ∷ xs) ys = ground (arith, hashes_at-append h xs ys)

hashes_at-set_extinct :
    (h from : ℕ) (rows : List BlockRow)
    → hashes_at h (set_extinct from rows) ≡ (if ltb h from then hashes_at h rows else [])
unfolding live_at set_extinct
hashes_at-set_extinct h from [] = ground arith
hashes_at-set_extinct h from (row ∷ rows) = ground (arith, hashes_at-set_extinct h from rows)

-- Making blocks extinct from a height on cuts the chain there.
pub set_extinct-IsChain :
    (from : ℕ) (rows : List BlockRow) (c : List BlockHash)
    → IsChain rows c
    → IsChain (set_extinct from rows) (cut from c)
set_extinct-IsChain from rows c k = record {
  at = λ h. ground (arith, hashes_at-set_extinct h from rows, at_height-cut h from c, k.at h);
}

revive_absent : (id : ℕ) (rows : List BlockRow) → NotId id rows → revive id rows ≡ rows
unfolding revive
revive_absent id [] n = refl
revive_absent id (row ∷ rows) n = ground (arith, revive_absent id rows n.1)

hashes_at-revive :
    (h id : ℕ) (rows : List BlockRow) (found : BlockRow)
    → UniqueIds rows
    → find_block id rows ≡ some found
    → found.extinct ≡ true
    → hashes_at found.height rows ≡ []
    → hashes_at h (revive id rows)
      ≡ (if h == found.height then row_hash found ∷ [] else hashes_at h rows)
unfolding live_at find_block revive
hashes_at-revive h id [] found u e x n = cc
hashes_at-revive h id (row ∷ rows) found u e x n = elim (Bool-cases (row.hash_id == id)) [
  | inl here ↦
      let rest : revive id rows ≡ rows =
        revive_absent id rows (subst (λ i. NotId i rows) (eqb→eq row.hash_id id here) u.0) in
      let same : row ≡ found = ground (arith, here) in ground (arith, here, rest, same)
  | inr there ↦ ground (arith, there, hashes_at-revive h id rows found u.1)
]

-- Reviving an extinct block at the height above the tip pushes it.
pub revive-IsChain :
    (id : ℕ) (rows : List BlockRow) (found : BlockRow) (c : List BlockHash)
    → UniqueIds rows
    → find_block id rows ≡ some found
    → found.extinct ≡ true
    → found.height ≡ length c
    → IsChain rows c
    → IsChain (revive id rows) (row_hash found ∷ c)
revive-IsChain id rows found c u e x top k = record {
  at = λ h. ground (
    arith,
    hashes_at-revive h id rows found u e x,
    k.at h,
    k.at found.height,
    at_height_above found.height c,
  );
}

-- Pushing a new block.

conflicts-none :
    (row : BlockRow) (rows : List BlockRow)
    → find_block row.hash_id rows ≡ none
    → hashes_at row.height rows ≡ []
    → conflicts row rows ≡ false
unfolding conflicts find_block live_at
conflicts-none row [] f n = refl
conflicts-none row (other ∷ rows) f n = ground (arith, conflicts-none row rows)

push-IsChain :
    (row : BlockRow) (rows : List BlockRow) (c : List BlockHash)
    → row.extinct ≡ false
    → row.height ≡ length c
    → IsChain rows c
    → IsChain (rows ++ row ∷ []) (row_hash row ∷ c)
unfolding live_at
push-IsChain row rows c live top k = record {
  at = λ h. ground (
    arith,
    hashes_at-append h rows (row ∷ []),
    k.at h,
    append-nil (hashes_at h rows),
    at_height_above h c,
  );
}

-- Rows that are to be inserted one after the other on top of a chain of a given length.
abbrev pub IsNext : ℕ → List BlockRow → List BlockRow → Type 0
IsNext n [] rows = Unit {0}
IsNext n (row ∷ new) rows =
    (row.extinct ≡ false)
    × (row.height ≡ n)
    × (find_block row.hash_id rows ≡ none)
    × IsNext (suc n) new (rows ++ row ∷ [])

-- New blocks on top of the chain meet no conflict and are pushed in order.
pub insert_blocks-IsChain :
    (skip : Bool) (new rows : List BlockRow) (c : List BlockHash)
    → IsNext (length c) new rows
    → IsChain rows c
    → (insert_blocks skip new rows ≡ ok (rows ++ new))
      × IsChain (rows ++ new) (push_all (map row_hash new) c)
unfolding insert_blocks
insert_blocks-IsChain skip [] rows c n k = rw append-nil (refl, k)
insert_blocks-IsChain skip (row ∷ new) rows c n k =
    let free =
      conflicts-none row rows n.2
        (k.at row.height ∙ at_height_above row.height c (omega (arith, n.1))) in
    let rest =
      insert_blocks-IsChain skip new (rows ++ row ∷ []) (row_hash row ∷ c) n.3
        (push-IsChain row rows c n.0 n.1 k) in
    rw (free, ← append_assoc rows (row ∷ []) new) rest
