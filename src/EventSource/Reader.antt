-- ===== src/EventSource/Reader.antt =====
-- A reader that follows the events of src/db/pg.rs page by page, as the cancelling protocol of
-- src/db/pg/init.sql says: an event pushes its block, a revert pops it.
use rust_bitcoin_indexer.Base.{
  ℕ, zero, suc, ◌^◌, ◌<◌, ◌≤◌, ◌≡◌, ◌≢◌, ◌∙◌, sym, ap, refl, inl, inr, Bool, not, ◌&&◌, Option,
  none, some, List, [], ◌∷◌, map, arith, ◌==◌, if◌then◌else◌, Bool-cases, Option-cases, length,
  take, All, eqb→eq,
}
use rust_bitcoin_indexer.Base.Outcome.{ok}
use rust_bitcoin_indexer.Types.{BlockHeight, BlockHash, WithHeightAndId}
use rust_bitcoin_indexer.Hash.{hash_to_hash_id, split-join}
use rust_bitcoin_indexer.Db.{Db, EventRow, BlockRow, find_block, live_at}
use rust_bitcoin_indexer.Db.Current.{row_hash, hashes_at, at_height, UniqueIds, InRange}
use rust_bitcoin_indexer.Db.Replay.{apply_event, replay}
use rust_bitcoin_indexer.Store.Coherent.{IsCoherent}
use rust_bitcoin_indexer.Store.Genuine.{IsFound, find_block-id, find_block-All}
use rust_bitcoin_indexer.Store.Linked.{below_top, hashes_at-IsFound}
use rust_bitcoin_indexer.EventSource.{Cursor, JoinedRow, joined_row, join_blocks, after}
use rust_bitcoin_indexer.EventSource.Pages.{
  Ascending, event_id, pages, read_pages, read_pages-pages, sum, pages_lem, page_lem,
}

-- The reader's chain, the tip first. A revert of another block than the tip fails.
unfoldable pub apply : WithHeightAndId Bool → List BlockHash → Option (List BlockHash)
apply e [] = if e.payload then none else some (e.id ∷ [])
apply e (tip ∷ rest) =
    if e.payload then (if tip == e.id then some rest else none) else some (e.id ∷ tip ∷ rest)

unfoldable pub apply_all : List (WithHeightAndId Bool) → List BlockHash → Option (List BlockHash)
apply_all [] chain = some chain
apply_all (e ∷ events) chain = elim (apply e chain) [
  | none ↦ none
  | some longer ↦ apply_all events longer
]

-- The hash of the row with an id.
abbrev hash_found : Option BlockRow → BlockHash
hash_found none = 0
hash_found (some row) = row_hash row

abbrev hash_of : List BlockRow → ℕ → BlockHash
hash_of rows id = hash_found (find_block id rows)

apply-hash_of :
    (rows : List BlockRow) (e : EventRow) (row : BlockRow) (ids later : List ℕ)
    → hash_of rows e.block_hash_id ≡ row_hash row
    → apply_event e ids ≡ some later
    → apply (joined_row e row).1 (map (hash_of rows) ids) ≡ some (map (hash_of rows) later)
unfolding apply apply_event
apply-hash_of rows e row [] later same k = elim (Bool-cases e.revert) [
  | inl reverts ↦ ground (arith, k, reverts)
  | inr adds ↦
      let now : later ≡ e.block_hash_id ∷ [] = ground (arith, k, adds) in rw (now, adds, same) refl
]
apply-hash_of rows e row (tip ∷ ids) later same k = elim (Bool-cases e.revert) [
  | inl reverts ↦ elim (Bool-cases (tip == e.block_hash_id)) [
    | inl top ↦
        let now : later ≡ ids = ground (arith, k, reverts, top) in
        let hash : hash_of rows tip ≡ row_hash row =
          ap (hash_of rows) (eqb→eq tip e.block_hash_id top) ∙ same in
        rw (now, reverts, hash) (ground arith)
    | inr other ↦ ground (arith, k, reverts, other)
  ]
  | inr adds ↦
      let now : later ≡ e.block_hash_id ∷ tip ∷ ids = ground (arith, k, adds) in
      rw (now, adds, same) refl
]

replay-apply_all :
    (rows : List BlockRow) (events : List EventRow) (ids later : List ℕ)
    → All (λ e. IsFound e.block_hash_id rows) events
    → replay events ids ≡ some later
    → apply_all (map (λ row. row.1) (join_blocks events rows)) (map (hash_of rows) ids)
      ≡ some (map (hash_of rows) later)
unfolding replay apply_all join_blocks
replay-apply_all rows [] ids later a k =
    let now : ids ≡ later = cc in ap (λ l. some (map (hash_of rows) l)) now
replay-apply_all rows (e ∷ events) ids later a k =
    let (row, found) = a.0 in
    elim (Option-cases (apply_event e ids)) [
      | inl stuck ↦ ground (arith, k, stuck)
      | inr (then_ids, goes) ↦
          let rest = replay-apply_all rows events then_ids later a.1 (rw (replay, goes) at k) in
          rw
            (
              apply_all,
              join_blocks,
              found,
              apply-hash_of rows e row ids then_ids (ap hash_found found) goes,
            )
            rest
    ]

hash_of-at :
    (h : BlockHeight) (x : BlockHash) (rows : List BlockRow)
    → UniqueIds rows
    → InRange rows
    → hashes_at h rows ≡ x ∷ []
    → hash_of rows (hash_to_hash_id x) ≡ x
unfolding live_at find_block
hash_of-at h x [] u r e = cc
hash_of-at h x (row ∷ rows) u r e = elim (Bool-cases (row.height == h && not row.extinct)) [
  | inl live ↦
      let whole : row_hash row ≡ x = ground (arith, live, e) in
      let here : row.hash_id ≡ hash_to_hash_id x =
        sym (split-join row.hash_id row.hash_rest r.0).0 ∙ ap hash_to_hash_id whole in
      let found : find_block (hash_to_hash_id x) (row ∷ rows) ≡ some row = ground (arith, here) in
      ap hash_found found ∙ whole
  | inr dead ↦
      let below : hashes_at h rows ≡ x ∷ [] = ground (arith, dead, e) in
      let (other, found) = hashes_at-IsFound h x rows r.1 below in
      let ne : other.hash_id ≢ row.hash_id =
        find_block-All (λ y. y.hash_id ≢ row.hash_id) (hash_to_hash_id x) rows other u.0 found in
      let same = find_block-id (hash_to_hash_id x) rows other found in
      let past : find_block (hash_to_hash_id x) (row ∷ rows) ≡ find_block (hash_to_hash_id x) rows =
        ground (arith, ne, same) in
      ap hash_found past ∙ hash_of-at h x rows u.1 r.1 below
]

map-at :
    (f : BlockHash → BlockHash) (c : List BlockHash)
    → ((h : BlockHeight) (x : BlockHash) → at_height h c ≡ x ∷ [] → f x ≡ x)
    → map f c ≡ c
map-at f [] k = refl
map-at f (x ∷ c) k =
    let top : f x ≡ x = k (length c) x (ground arith) in
    let rest = map-at f c (λ h y e. k h y (ground (arith, e, below_top h c y e))) in
    rw (top, rest) refl

after_every : (rows : List JoinedRow) → after none rows ≡ rows
unfolding after
after_every [] = refl
after_every (row ∷ rows) = ap (λ l. row ∷ l) (after_every rows)

take_whole : {A : Type 0} (n : ℕ) (xs : List A) → length xs ≤ n → take n xs ≡ xs
take_whole zero [] h = refl
take_whole zero (x ∷ xs) h = absurd (omega arith)
take_whole (suc n) [] h = refl
take_whole (suc n) (x ∷ xs) h = ap (λ l. x ∷ l) (take_whole n xs (omega arith))

length-join_blocks :
    (events : List EventRow) (rows : List BlockRow)
    → length (join_blocks events rows) ≤ length events
unfolding join_blocks
length-join_blocks [] rows = omega arith
length-join_blocks (e ∷ events) rows = elim (Option-cases (find_block e.block_hash_id rows)) [
  | inl missing ↦ rw (join_blocks, missing) (omega (arith, length-join_blocks events rows))
  | inr (row, found) ↦ rw (join_blocks, found) (omega (arith, length-join_blocks events rows))
]

-- The events of a coherent database, whose ids go up and whose blocks are in the table, read in
-- pages with limits below 2^63 that are long enough together, are read without an error and lead
-- a reader that pushes and pops to the database's chain.
pub read_pages-apply_all :
    (db : Db) (c : List BlockHash) (limits : List ℕ)
    → IsCoherent (length c) db c
    → Ascending event_id db.event
    → All (λ e. IsFound e.block_hash_id db.block) db.event
    → All (λ limit. limit < 2 ^ 63) limits
    → length db.event ≤ sum limits
    → (events : List (WithHeightAndId Bool)) × (last : Cursor) × (read_pages db none limits
        ≡ ok (events, last))
      × (apply_all events [] ≡ some c)
read_pages-apply_all db c limits k a known fit enough =
    let joined = join_blocks db.event db.block in
    let whole : take (sum limits) (after none joined) ≡ joined =
      ap (take (sum limits)) (after_every joined)
      ∙ take_whole (sum limits) joined
          (omega (arith, enough, length-join_blocks db.event db.block)) in
    let all : (pages db none limits).0 ≡ map (λ row. row.1) joined =
      ap (λ r. r.0) (pages_lem db none limits a ∙ page_lem db none (sum limits) a)
      ∙ ap (map (λ row. row.1)) whole in
    let named : map (λ x. hash_of db.block (hash_to_hash_id x)) c ≡ c =
      map-at (λ x. hash_of db.block (hash_to_hash_id x)) c
        (λ h x at. hash_of-at h x db.block k.unique k.in_range (k.current.at h ∙ at)) in
    (
      (pages db none limits).0,
      (pages db none limits).1,
      read_pages-pages db none limits fit,
      ap (λ l. apply_all l []) all
          ∙ replay-apply_all db.block db.event [] (map hash_to_hash_id c) known k.log
          ∙ ap some (map-map c ∙ named),
    )
  where
    map-map :
        (d : List BlockHash)
        → map (hash_of db.block) (map hash_to_hash_id d)
          ≡ map (λ x. hash_of db.block (hash_to_hash_id x)) d
    map-map [] = refl
    map-map (x ∷ d) = ap (λ l. hash_of db.block (hash_to_hash_id x) ∷ l) (map-map d)
