-- ===== src/Store/Coherent.antt =====
-- A coherent database: one chain of blocks that are not extinct, and an event log that replays to it.
use rust_bitcoin_indexer.Base.{
  ℕ, suc, ◌≤◌, ◌<◌, ◌≡◌, ◌∙◌, sym, ap, subst, refl, inl, inr, true, false, some, List, [], ◌∷◌, map,
  arith, ltb, ◌==◌, if◌then◌else◌, Bool-cases, length, All, All-map, eqb→eq, eqb→ne,
}
use mathlib.Core.List.{map-append}
use rust_bitcoin_indexer.Types.{BlockHeight, BlockHash}
use rust_bitcoin_indexer.Bitcoin.{BlockData}
use rust_bitcoin_indexer.Hash.{hash_to_hash_id}
use rust_bitcoin_indexer.Db.{Db, BlockRow, find_block, set_extinct, revive}
use rust_bitcoin_indexer.Db.Current.{
  row_hash, cut, IsChain, NotId, UniqueIds, InRange, set_extinct-IsChain, revive-IsChain,
}
use rust_bitcoin_indexer.Db.Replay.{
  replay, replay-push, replay-pop, insert_events-keeps, above-append-cut, ids-live_desc,
}
use rust_bitcoin_indexer.Store.Insert.{revert_from, revive_block}

-- Every block stands below the height `bound`.
pub record IsCoherent (bound : BlockHeight) (db : Db) (chain : List BlockHash) : Type 0 where
  pub current : IsChain db.block chain
  pub unique : UniqueIds db.block
  pub in_range : InRange db.block
  pub below : All (λ row. row.height < bound) db.block
  pub log : replay db.event [] ≡ some (map hash_to_hash_id chain)

pub block-revert_from :
    (from : BlockHeight) (db : Db) → (revert_from from db).block ≡ set_extinct from db.block
unfolding revert_from
block-revert_from from db = refl

-- From a height on, every block is extinct.
abbrev pub ExtinctFrom : BlockHeight → List BlockRow → Type 0
ExtinctFrom from = All (λ row. from ≤ row.height → row.extinct ≡ true)

module _ (from : BlockHeight) where
  NotId-set_extinct :
      (id : ℕ) (rows : List BlockRow) → NotId id rows → NotId id (set_extinct from rows)
  unfolding set_extinct
  NotId-set_extinct id [] n = tt
  NotId-set_extinct id (row ∷ rows) n = ground (arith, NotId-set_extinct id rows n.1)

  UniqueIds-set_extinct :
      (rows : List BlockRow) → UniqueIds rows → UniqueIds (set_extinct from rows)
  unfolding set_extinct
  UniqueIds-set_extinct [] u = tt
  UniqueIds-set_extinct (row ∷ rows) u = elim (Bool-cases (ltb row.height from)) [
    | inl kept ↦ rw kept (NotId-set_extinct row.hash_id rows u.0, UniqueIds-set_extinct rows u.1)
    | inr gone ↦ rw gone (NotId-set_extinct row.hash_id rows u.0, UniqueIds-set_extinct rows u.1)
  ]

  InRange-set_extinct : (rows : List BlockRow) → InRange rows → InRange (set_extinct from rows)
  unfolding set_extinct
  InRange-set_extinct [] u = tt
  InRange-set_extinct (row ∷ rows) u = (ground arith, InRange-set_extinct rows u.1)

  below-set_extinct :
      (n : ℕ) (rows : List BlockRow)
      → All (λ row. row.height < n) rows
      → All (λ row. row.height < n) (set_extinct from rows)
  unfolding set_extinct
  below-set_extinct n [] u = tt
  below-set_extinct n (row ∷ rows) u = (ground arith, below-set_extinct n rows u.1)

  pub set_extinct-ExtinctFrom : (rows : List BlockRow) → ExtinctFrom from (set_extinct from rows)
  unfolding set_extinct
  set_extinct-ExtinctFrom [] = tt
  set_extinct-ExtinctFrom (row ∷ rows) = (ground arith, set_extinct-ExtinctFrom rows)

  -- Reverting from a height on keeps a database coherent: the chain is cut at the height, and the
  -- revert events replay to the cut chain.
  pub revert_from-IsCoherent :
      (bound : BlockHeight) (db : Db) (c : List BlockHash)
      → IsCoherent bound db c
      → IsCoherent bound (revert_from from db) (cut from c)
  unfolding revert_from
  revert_from-IsCoherent bound db c k = record {
    current = set_extinct-IsChain from db.block c k.current;
    unique = UniqueIds-set_extinct db.block k.unique;
    in_range = InRange-set_extinct db.block k.in_range;
    below = below-set_extinct bound db.block k.below;
    log = replay-pop _ db (map hash_to_hash_id (cut from c)) (
        rw (ids-live_desc from db.block c k.in_range k.current, ← map-append, above-append-cut)
          k.log);
  }

module _ (id : ℕ) where
  NotId-revive : (j : ℕ) (rows : List BlockRow) → NotId j rows → NotId j (revive id rows)
  unfolding revive
  NotId-revive j [] n = tt
  NotId-revive j (row ∷ rows) n = ground (arith, NotId-revive j rows n.1)

  UniqueIds-revive : (rows : List BlockRow) → UniqueIds rows → UniqueIds (revive id rows)
  unfolding revive
  UniqueIds-revive [] u = tt
  UniqueIds-revive (row ∷ rows) u = elim (Bool-cases (row.hash_id == id)) [
    | inl back ↦ rw back (NotId-revive row.hash_id rows u.0, UniqueIds-revive rows u.1)
    | inr other ↦ rw other (NotId-revive row.hash_id rows u.0, UniqueIds-revive rows u.1)
  ]

  InRange-revive : (rows : List BlockRow) → InRange rows → InRange (revive id rows)
  unfolding revive
  InRange-revive [] u = tt
  InRange-revive (row ∷ rows) u = (ground arith, InRange-revive rows u.1)

  below-revive :
      (n : ℕ) (rows : List BlockRow)
      → All (λ row. row.height < n) rows
      → All (λ row. row.height < n) (revive id rows)
  unfolding revive
  below-revive n [] u = tt
  below-revive n (row ∷ rows) u = (ground arith, below-revive n rows u.1)

  -- Only the revived block's height loses its extinct block.
  pub revive-ExtinctFrom :
      (from : ℕ) (rows : List BlockRow)
      → All (λ row. row.hash_id ≡ id → row.height ≡ from) rows
      → ExtinctFrom from rows
      → ExtinctFrom (suc from) (revive id rows)
  unfolding revive
  revive-ExtinctFrom from [] a e = tt
  revive-ExtinctFrom from (row ∷ rows) a e =
      (λ le. revived le, revive-ExtinctFrom from rows a.1 e.1)
    where
      revived :
          suc from ≤ (if row.hash_id == id then record row { extinct = false } else row).height
          → (if row.hash_id == id then record row { extinct = false } else row).extinct ≡ true
      revived le = ground (arith, a.0, e.0)

-- The row found for an id is the only one with it.
pub height_of_id :
    (id : ℕ) (rows : List BlockRow) (found : BlockRow)
    → UniqueIds rows
    → find_block id rows ≡ some found
    → All (λ row. row.hash_id ≡ id → row.height ≡ found.height) rows
unfolding find_block
height_of_id id [] found u e = tt
height_of_id id (row ∷ rows) found u e = elim (Bool-cases (row.hash_id == id)) [
  | inl here ↦
      let same : row ≡ found = ground (arith, here) in
      (
        (λ _. ap (λ (r : BlockRow). r.height) same),
        All-map (λ r. r.hash_id ≡ id → r.height ≡ found.height)
            (λ r n i. absurd (n (i ∙ sym (eqb→eq row.hash_id id here)))) rows u.0,
      )
  | inr other ↦ (
    (λ i. absurd (eqb→ne row.hash_id id other i)),
    height_of_id id rows found u.1 (rw other at e),
  )
]

-- Reviving an extinct block that stands one above the tip keeps a database coherent, with the
-- block pushed on the chain and on the replayed event log.
pub revive_block-IsCoherent :
    (bound : BlockHeight) (db : Db) (c : List BlockHash) (block : BlockData) (row : BlockRow)
    → IsCoherent bound db c
    → find_block (hash_to_hash_id block.id) db.block ≡ some row
    → row.extinct ≡ true
    → row.height ≡ length c
    → row_hash row ≡ block.id
    → IsCoherent bound (revive_block block db) (block.id ∷ c)
unfolding revive_block
revive_block-IsCoherent bound db c block row k e x top same = record {
  current = rw (insert_events-keeps _ _ _).0 (
      subst (λ tip. IsChain (revive (hash_to_hash_id block.id) db.block) (tip ∷ c)) same
        (revive-IsChain (hash_to_hash_id block.id) db.block row c k.unique e x top k.current));
  unique =
      rw (insert_events-keeps _ _ _).0
        (UniqueIds-revive (hash_to_hash_id block.id) db.block k.unique);
  in_range =
      rw (insert_events-keeps _ _ _).0
        (InRange-revive (hash_to_hash_id block.id) db.block k.in_range);
  below =
      rw (insert_events-keeps _ _ _).0
        (below-revive (hash_to_hash_id block.id) bound db.block k.below);
  log = replay-push (hash_to_hash_id block.id ∷ []) _ (map hash_to_hash_id c) k.log;
}
