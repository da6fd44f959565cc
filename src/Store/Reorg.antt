-- ===== src/Store/Reorg.antt =====
-- `finish_reorg` of src/db/pg.rs: the loop over the pending blocks, and the chain that comes out.
use rust_bitcoin_indexer.Base.{
  ℕ, suc, ◌+◌, ◌%◌, ◌≤◌, ◌<◌, ◌≡◌, ◌∙◌, sym, subst, refl, inl, inr, true, Option, none, some, List,
  [], ◌∷◌, ◌++◌, append-nil, append_assoc, arith, ◌==◌, Bool-cases, eqb→eq, length, length-map, All,
}
use rust_bitcoin_indexer.Base.Outcome.{Outcome, ok}
use rust_bitcoin_indexer.BTreeMap.{BTreeMap}
use rust_bitcoin_indexer.BTreeMap.Consecutive.{IsFrom}
use rust_bitcoin_indexer.Types.{BlockHeight, BlockHash, u32_size}
use rust_bitcoin_indexer.Bitcoin.{BlockData}
use rust_bitcoin_indexer.Hash.{hash_to_hash_id}
use rust_bitcoin_indexer.Db.{Db, BlockRow, find_block, live_at, revive}
use rust_bitcoin_indexer.Db.Current.{push_all}
use rust_bitcoin_indexer.Db.Replay.{insert_events-keeps}
use rust_bitcoin_indexer.Store.{block_ids}
use rust_bitcoin_indexer.Store.Insert.{is_free, revive_block, replay_pending}
use rust_bitcoin_indexer.Store.Coherent.{
  IsCoherent, ExtinctFrom, revive-ExtinctFrom, height_of_id, revive_block-IsCoherent,
}
use rust_bitcoin_indexer.Store.Batch.{AreNew}
use rust_bitcoin_indexer.Store.Indexed.{
  blocks_of, KeysMatch, AreFresh, IndexedFirst, IndexedFirst-revive, AreFresh-AreNew,
}

-- The check of the previous height passes at `h`.
abbrev pub Follows : Option BlockHeight → BlockHeight → Type 0
Follows prev h = (elim prev [ none ↦ true | some q ↦ (q + 1) % u32_size == h ]) ≡ true

replay_fresh :
    (prev : Option BlockHeight) (n : ℕ) (pending : BTreeMap BlockData) (db : Db)
    (batch : List BlockData)
    → IsFrom n pending
    → KeysMatch pending
    → n + length pending < u32_size
    → Follows prev n
    → AreFresh db.block (blocks_of pending)
    → replay_pending prev pending db batch ≡ ok (db, batch ++ blocks_of pending)
unfolding replay_pending
replay_fresh prev n [] db batch f k small fo a = rw append-nil
replay_fresh prev n ((h, b) ∷ pending) db batch f k small fo a =
    let rest =
      replay_fresh (some b.height) (suc n) pending db (batch ++ b ∷ []) f.1 k.1 (omega arith)
        (ground (arith, f.0, k.0)) a.2 in
    ground (arith, f.0, fo, a.0, rest, append_assoc batch (b ∷ []) (blocks_of pending))

pub block-revive_block :
    (b : BlockData) (db : Db) → (revive_block b db).block ≡ revive (hash_to_hash_id b.id) db.block
unfolding revive_block
block-revive_block b db = (insert_events-keeps _ _ _).0

find_block_All :
    {from : ℕ} (id : ℕ) (rows : List BlockRow) (r : BlockRow)
    → ExtinctFrom from rows
    → find_block id rows ≡ some r
    → from ≤ r.height
    → r.extinct ≡ true
unfolding find_block
find_block_All id [] r x e = cc
find_block_All {from} id (row ∷ rows) r x e = elim (Bool-cases (row.hash_id == id)) [
  | inl here ↦
      let same : row ≡ r = ground (arith, here) in
      subst (λ (y : BlockRow). from ≤ y.height → y.extinct ≡ true) same x.0
  | inr other ↦ find_block_All {from = from} id rows r x.1 (rw other at e)
]

-- Where all blocks from a height up are extinct, the height is free.
live_at-ExtinctFrom :
    (from h : ℕ) (rows : List BlockRow) → ExtinctFrom from rows → from ≤ h → live_at h rows ≡ []
unfolding live_at
live_at-ExtinctFrom from h [] x above = refl
live_at-ExtinctFrom from h (row ∷ rows) x above =
    let rest = live_at-ExtinctFrom from h rows x.1 above in
    elim (Bool-cases (row.height == h)) [
      | inl here ↦
          let dead : row.extinct ≡ true = x.0 (omega (arith, eqb→eq row.height h here)) in
          ground (arith, here, dead, rest)
      | inr other ↦ ground (arith, other, rest)
    ]

ExtinctFrom-is_free :
    (from h : ℕ) (rows : List BlockRow) → ExtinctFrom from rows → from ≤ h → is_free h rows ≡ true
unfolding is_free
ExtinctFrom-is_free from h rows x above = rw (live_at-ExtinctFrom from h rows x above) refl

replay_revives :
    (prev : Option BlockHeight) (h : ℕ) (b : BlockData) (pending : BTreeMap BlockData) (db : Db)
    (r : BlockRow)
    → Follows prev h
    → find_block (hash_to_hash_id b.id) db.block ≡ some r
    → r.extinct ≡ true
    → is_free r.height db.block ≡ true
    → replay_pending prev ((h, b) ∷ pending) db []
      ≡ replay_pending (some b.height) pending (revive_block b db) []
unfolding replay_pending
replay_revives prev h b pending db r fo e dead free = ground (arith, fo, e, dead, free)

-- What the loop leaves: revived blocks on the chain, and a batch that completes it.
pub record Replayed (bound : ℕ) (c : List BlockHash) (pending : BTreeMap BlockData)
    (r : Outcome (Db × List BlockData)) : Type 0 where
  pub after : Db
  pub batch : List BlockData
  pub chain : List BlockHash
  pub returns : r ≡ ok (after, batch)
  pub coherent : IsCoherent bound after chain
  pub fresh : AreNew (length chain) batch after.block
  pub heights : length batch + length chain ≡ length pending + length c
  pub pushed : push_all (block_ids batch) chain ≡ push_all (block_ids (blocks_of pending)) c

-- On a coherent database in which all blocks from the tip up are extinct, the loop over
-- consecutive pending blocks, the indexed of them first, never panics: it revives the indexed
-- blocks in order, leaves the fresh ones as a batch, and the revived chain with the batch on top
-- has all the pending blocks on top of the old chain.
pub replay_pending-Replayed :
    (bound : ℕ) (prev : Option BlockHeight) (pending : BTreeMap BlockData) (db : Db)
    (c : List BlockHash)
    → IsFrom (length c) pending
    → KeysMatch pending
    → length c + length pending < u32_size
    → Follows prev (length c)
    → IsCoherent bound db c
    → ExtinctFrom (length c) db.block
    → IndexedFirst db.block pending
    → Replayed bound c pending (replay_pending prev pending db [])
replay_pending-Replayed bound prev [] db c f k small fo co x a = record {
  after = db;
  batch = [];
  chain = c;
  returns = unfold replay_pending in refl;
  coherent = co;
  fresh = tt;
  heights = refl;
  pushed = refl;
}
replay_pending-Replayed bound prev ((h, b) ∷ pending) db c f k small fo co x (inr fresh) = record {
  after = db;
  batch = b ∷ blocks_of pending;
  chain = c;
  returns = replay_fresh prev (length c) ((h, b) ∷ pending) db [] f k small fo fresh;
  coherent = co;
  fresh = AreFresh-AreNew (length c) ((h, b) ∷ pending) db.block f k fresh;
  heights = omega (arith, length-map pending (λ (x : ℕ × BlockData). x.1));
  pushed = refl;
}
replay_pending-Replayed bound prev ((h, b) ∷ pending) db c f k small fo co x
      (inl ((r, e, at, same), later)) =
    let id = hash_to_hash_id b.id in
    let db1 = revive_block b db in
    let top : r.height ≡ length c = at ∙ sym k.0 ∙ f.0 in
    let dead : r.extinct ≡ true = find_block_All id db.block r x e (omega (arith, top)) in
    let free = ExtinctFrom-is_free (length c) r.height db.block x (omega (arith, top)) in
    let ids : All (λ (row : BlockRow). row.hash_id ≡ id → row.height ≡ length c) db.block =
      subst (λ n. All (λ (row : BlockRow). row.hash_id ≡ id → row.height ≡ n) db.block) top
        (height_of_id id db.block r co.unique e) in
    let ih =
      replay_pending-Replayed bound (some b.height) pending db1 (b.id ∷ c) f.1 k.1 (omega arith)
        (ground (arith, f.0, k.0)) (revive_block-IsCoherent bound db c b r co e dead top same)
        (rw (block-revive_block b db) (revive-ExtinctFrom id (length c) db.block ids x))
        (rw (block-revive_block b db) (IndexedFirst-revive id db.block pending later)) in
    record {
      after = ih.after;
      batch = ih.batch;
      chain = ih.chain;
      returns = replay_revives prev h b pending db r fo' e dead free ∙ ih.returns;
      coherent = ih.coherent;
      fresh = ih.fresh;
      heights = omega (arith, ih.heights);
      pushed = ih.pushed;
    }
  where
    fo' : Follows prev h
    fo' = ground (arith, f.0, fo)
