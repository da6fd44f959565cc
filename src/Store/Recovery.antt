-- ===== src/Store/Recovery.antt =====
-- A restart of the store of src/db/pg.rs: `new` on a coherent database holds its chain.
use rust_bitcoin_indexer.Base.{
  ℕ, ◌≤◌, ◌<◌, ◌≡◌, ◌∙◌, ◌⊎◌, sym, ap, refl, inl, inr, Bool, true, false, ◌&&◌, Option, none, some,
  List, [], ◌∷◌, append-nil, arith, ◌==◌, Bool-cases, length, All,
}
use rust_bitcoin_indexer.Base.Outcome.{ok, err}
use rust_bitcoin_indexer.Types.{BlockHeight, BlockHash}
use rust_bitcoin_indexer.Bitcoin.{Network}
use rust_bitcoin_indexer.Db.{Db, BlockRow, height_bound, live_at}
use rust_bitcoin_indexer.Db.Constraints.{bulk_keys_hold, normal_keys_hold}
use rust_bitcoin_indexer.Db.Current.{hashes_at, at_height}
use rust_bitcoin_indexer.Db.Replay.{replay}
use rust_bitcoin_indexer.Format.{Mode, fresh_bulk, bulk, normal}
use rust_bitcoin_indexer.Store.{
  IndexerStore, flush_workers, set_schema_to_mode, set_mode_unconditionally, start_workers,
}
use rust_bitcoin_indexer.Store.Start.{
  opened, live_rows, read_db_chain_block_count, read_db_chain_current_block_count,
  read_indexer_state, self_test, new,
}
use rust_bitcoin_indexer.Store.Coherent.{IsCoherent}
use rust_bitcoin_indexer.Store.Holding.{waiting, IsHolding}

height_bound-below :
    (n : ℕ) (rows : List BlockRow) → All (λ row. row.height < n) rows → height_bound rows ≤ n
unfolding height_bound
height_bound-below n [] a = omega arith
height_bound-below n (row ∷ rows) a = ground (arith, height_bound-below n rows a.1)

live_rows-below :
    (n : ℕ) (rows : List BlockRow)
    → All (λ row. row.height < n) rows
    → All (λ row. row.height < n) (live_rows rows)
unfolding live_rows
live_rows-below n [] a = tt
live_rows-below n (row ∷ rows) a = elim (Bool-cases row.extinct) [
  | inl dead ↦ rw dead (live_rows-below n rows a.1)
  | inr live ↦ rw live (a.0, live_rows-below n rows a.1)
]

height_bound-live_rows : (rows : List BlockRow) → height_bound (live_rows rows) ≤ height_bound rows
unfolding height_bound live_rows
height_bound-live_rows [] = omega arith
height_bound-live_rows (row ∷ rows) = ground (arith, height_bound-live_rows rows)

-- Something that is not extinct stands at a height below the bound.
hashes_at-height_bound :
    (h : ℕ) (x : BlockHash) (rows : List BlockRow)
    → hashes_at h rows ≡ x ∷ []
    → h < height_bound (live_rows rows)
unfolding height_bound live_rows live_at
hashes_at-height_bound h x [] e = cc
hashes_at-height_bound h x (row ∷ rows) e = ground (arith, hashes_at-height_bound h x rows)

module _ (db : Db) (c : List BlockHash) (k : IsCoherent (length c) db c) where
  tip_height : (d : List BlockHash) → d ≡ c → length c ≤ height_bound (live_rows db.block)
  tip_height [] e = omega (arith, ap length e)
  tip_height (x ∷ d) e =
      let at : hashes_at (length d) db.block ≡ x ∷ [] =
        k.current.at (length d) ∙ ap (at_height (length d)) (sym e) ∙ ground arith in
      omega (arith, ap length e, hashes_at-height_bound (length d) x db.block at)

  -- Both counts of a coherent database are the length of its chain.
  pub read_db_chain_block_count_lem :
      (read_db_chain_block_count db ≡ length c) × (read_db_chain_current_block_count db ≡ length c)
  unfolding read_db_chain_block_count read_db_chain_current_block_count
  read_db_chain_block_count_lem =
      let low = tip_height c refl in
      let high = height_bound-below (length c) db.block k.below in
      let live = height_bound-live_rows db.block in (omega arith, omega arith)

-- What a started store comes to: it holds the chain, with nothing queued and no table changed.
pub record Started (db : Db) (c : List BlockHash) (s : IndexerStore) : Type 0 where
  pub holding : IsHolding s db.block c
  pub written : s.db.block ≡ db.block
  pub none_in_flight : s.in_flight ≡ []
  pub no_batch : s.batch ≡ []
  pub workers : waiting s ≡ []

-- The rows have the keys of the mode that is recorded, where that is not the fresh one.
abbrev pub HasKeys : Db → Type 0
HasKeys db =
    (db.bulk_mode ≡ some true → 0 < length db.block → bulk_keys_hold db ≡ true)
    × (db.bulk_mode ≡ some false → normal_keys_hold db ≡ true)

module _ (address : Network → ℕ → Option ℕ) (node_height : BlockHeight) (network : Network)
    (db : Db) (c : List BlockHash) (k : IsCoherent (length c) db c)
    (recorded : db.bulk_mode ≡ none → db.block ≡ []) where
  counts_agree : (read_db_chain_block_count db == read_db_chain_current_block_count db) ≡ true
  counts_agree = ground (arith, read_db_chain_block_count_lem db c k)

  abbrev Starts : Type 0
  Starts = (s : IndexerStore) × (new address db node_height network ≡ ok s) × Started db c s

  opened-Started : (mode : Mode) → Started db c (start_workers (opened mode db node_height network))
  unfolding start_workers
  opened-Started mode = record {
    holding = record {
      base = c;
      coherent = k;
      new = tt;
      view = refl;
      counted = (read_db_chain_block_count_lem db c k).0;
      settled = refl;
      known = append-nil db.block;
    };
    written = refl;
    none_in_flight = refl;
    no_batch = refl;
    workers = refl;
  }

  -- A mode that is not the fresh one leaves the database as it is.
  old_starts :
      (is_bulk_mode : Bool)
      → db.bulk_mode ≡ some is_bulk_mode
      → (is_bulk_mode && (length db.block == 0)) ≡ false
      → HasKeys db
      → Starts
  unfolding new read_indexer_state set_schema_to_mode normal_keys_hold bulk_keys_hold
  old_starts true e other keys = (
    start_workers (opened bulk db node_height network),
    rw (e, other, counts_agree, keys.0 e (ground arith)) refl,
    opened-Started bulk,
  )
  old_starts false e other keys = (
    start_workers (opened normal db node_height network),
    rw (e, counts_agree, keys.1 e) refl,
    opened-Started normal,
  )

  -- Where `new` succeeds, the rows have had the keys.
  pub new-HasKeys : (s : IndexerStore) → new address db node_height network ≡ ok s → HasKeys db
  unfolding new read_indexer_state set_schema_to_mode bulk_keys_hold normal_keys_hold
  new-HasKeys s made = (
    λ e some_block. elim (Bool-cases (bulk_keys_hold db)) [
      | inl hold ↦ hold
      | inr fail ↦
          let other : (length db.block == 0) ≡ false = ground arith in
          absurd (no_err (sym made ∙ (rw (e, other, counts_agree, fail) refl)))
    ],
    λ e. elim (Bool-cases (normal_keys_hold db)) [
      | inl hold ↦ hold
      | inr fail ↦ absurd (no_err (sym made ∙ (rw (e, counts_agree, fail) refl)))
    ],
  )
    where
      no_err : ok s ≡ err → ⊥
      no_err e = cc

  -- The fresh mode drops the tables, which have no block.
  abbrev emptied : Db
  emptied = record db {
    event = [];
    next_event = 1;
    block = [];
    block_tx = [];
    tx = [];
    output = [];
    input = [];
    bulk_mode = some true;
  }

  no_chain : db.block ≡ [] → c ≡ []
  unfolding height_bound live_rows
  no_chain none_there = nothing c refl
    where
      nothing : (d : List BlockHash) → d ≡ c → c ≡ []
      nothing [] e = sym e
      nothing (x ∷ d) e =
          let tall = tip_height db c k c refl in
          absurd (
            omega (arith, tall, ap length e, ap (λ rows. height_bound (live_rows rows)) none_there))

  fresh-Started :
      db.block ≡ []
      → Started db c (
          start_workers (record (opened fresh_bulk emptied node_height network) {
            chain_block_count = read_db_chain_block_count db;
          }))
  unfolding start_workers replay live_at
  fresh-Started none_there = record {
    holding = record {
      base = [];
      coherent = record {
        current = record { at = λ h. refl };
        unique = tt;
        in_range = tt;
        below = tt;
        log = refl;
      };
      new = tt;
      view = sym (no_chain none_there);
      counted = (read_db_chain_block_count_lem db c k).0;
      settled = refl;
      known = sym none_there;
    };
    written = sym none_there;
    none_in_flight = refl;
    no_batch = refl;
    workers = refl;
  }

  first_starts : db.bulk_mode ≡ none → Starts
  unfolding new read_indexer_state self_test set_mode_unconditionally flush_workers
      set_schema_to_mode bulk_keys_hold normal_keys_hold
  first_starts e = (_, rw (e, counts_agree) refl, fresh-Started (recorded e))

  fresh_starts : db.bulk_mode ≡ some true → db.block ≡ [] → Starts
  unfolding new read_indexer_state self_test set_mode_unconditionally flush_workers
      set_schema_to_mode bulk_keys_hold normal_keys_hold
  fresh_starts e none_there = (_, rw (e, is_empty, counts_agree) refl, fresh-Started none_there)
    where
      is_empty : (length db.block == 0) ≡ true
      is_empty = ap (λ rows. length rows == 0) none_there

  pub new-Started : HasKeys db → Starts
  new-Started keys = go db.bulk_mode refl
    where
      bulk_starts : db.bulk_mode ≡ some true → (rows : List BlockRow) → db.block ≡ rows → Starts
      bulk_starts e [] none_there = fresh_starts e none_there
      bulk_starts e (row ∷ rows) there =
          old_starts true e (ap (λ l. length l == 0) there ∙ ground arith) keys

      go : (mode : Option Bool) → db.bulk_mode ≡ mode → Starts
      go none e = first_starts e
      go (some true) e = bulk_starts e db.block refl
      go (some false) e = old_starts false e refl keys

  -- On a coherent database, in which the row of `indexer_state` is missing only before the first
  -- block, `new` succeeds and the store holds the database's chain with nothing queued where the
  -- tables have the keys that the recorded mode adds if it is not the fresh one, and otherwise it
  -- is an error, and no panic.
  pub new-Decides :
      (HasKeys db × Starts) ⊎ (¬ HasKeys db × (new address db node_height network ≡ err))
  unfolding new read_indexer_state set_schema_to_mode bulk_keys_hold normal_keys_hold
  new-Decides = go db.bulk_mode refl
    where
      Decided : Type 0
      Decided = (HasKeys db × Starts) ⊎ (¬ HasKeys db × (new address db node_height network ≡ err))

      holds : HasKeys db → Decided
      holds keys = inl (keys, new-Started keys)

      no_rows : (length db.block == 0) ≡ false → 0 < length db.block
      no_rows e = ground arith

      bulk_decides :
          db.bulk_mode ≡ some true
          → ((length db.block == 0) ≡ true) ⊎ ((length db.block == 0) ≡ false)
          → Decided
      bulk_decides e (inl empty) =
          holds (λ _ some_block. absurd (ground (arith, some_block, empty)), λ f. cc (e, f))
      bulk_decides e (inr there) = elim (Bool-cases (bulk_keys_hold db)) [
        | inl hold ↦ holds (λ _ _. hold, λ f. cc (e, f))
        | inr fail ↦
            inr
              (λ keys. cc (keys.0 e (no_rows there), fail), rw (e, there, counts_agree, fail) refl)
      ]

      go : (mode : Option Bool) → db.bulk_mode ≡ mode → Decided
      go none e = holds (λ f _. cc (e, f), λ f. cc (e, f))
      go (some true) e = bulk_decides e (Bool-cases (length db.block == 0))
      go (some false) e = elim (Bool-cases (normal_keys_hold db)) [
        | inl hold ↦ holds (λ f _. cc (e, f), λ _. hold)
        | inr fail ↦ inr (λ keys. cc (keys.1 e, fail), rw (e, counts_agree, fail) refl)
      ]
