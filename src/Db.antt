-- ===== src/Db.antt =====
-- The tables of src/db/pg/init.sql and what the statements of src/db/pg.rs do to them. Postgres runs
-- the statements: each function below is the documented effect of one statement, named at it. A height
-- fits in an INT column, so that the casts of heights to and from 32 signed bits change nothing.
pub mod Current
pub mod Replay
pub mod Constraints
use rust_bitcoin_indexer.Base.{
  ℕ, zero, suc, ◌+◌, ◌≡◌, Bool, true, false, not, ◌&&◌, ◌||◌, Option, none, some, List, [], ◌∷◌,
  ◌++◌, ltb, leb, ◌==◌, if◌then◌else◌,
}
use rust_bitcoin_indexer.Base.Outcome.{Outcome, ok, err, ◌>>=◌}
use rust_bitcoin_indexer.Types.{BlockHeight, BlockHash}

pub record BlockRow : Type 0 where
  pub time : ℕ
  pub height : BlockHeight
  pub extinct : Bool
  pub hash_id : ℕ
  pub hash_rest : ℕ
  pub prev_hash_id : ℕ
  pub merkle_root : ℕ

pub record EventRow : Type 0 where
  pub id : ℕ
  pub revert : Bool
  pub block_hash_id : ℕ

pub record TxRow : Type 0 where
  pub hash_id : ℕ
  pub hash_rest : ℕ
  pub weight : ℕ
  pub fee : ℕ
  pub locktime : ℕ
  pub coinbase : Bool
  pub current_height : Option BlockHeight
  pub in_mempool : Bool

pub record BlockTxRow : Type 0 where
  pub block_hash_id : ℕ
  pub tx_hash_id : ℕ

pub record OutputRow : Type 0 where
  pub tx_hash_id : ℕ
  pub tx_idx : ℕ
  pub value : ℕ
  pub address : Option ℕ

pub record InputRow : Type 0 where
  pub output_tx_hash_id : ℕ
  pub output_tx_idx : ℕ
  pub tx_hash_id : ℕ
  pub has_witness : Bool

-- `next_event` is the sequence of the column `id`.
pub record Db : Type 0 where
  pub event : List EventRow
  pub next_event : ℕ
  pub block : List BlockRow
  pub block_tx : List BlockTxRow
  pub tx : List TxRow
  pub output : List OutputRow
  pub input : List InputRow
  pub bulk_mode : Option Bool

-- `… WHERE height = h AND extinct = false`
unfoldable pub live_at : BlockHeight → List BlockRow → List BlockRow
live_at h [] = []
live_at h (row ∷ rows) =
    let rest = live_at h rows in if row.height == h && not row.extinct then row ∷ rest else rest

-- `… WHERE hash_id = id`
unfoldable pub find_block : ℕ → List BlockRow → Option BlockRow
find_block id [] = none
find_block id (row ∷ rows) = if row.hash_id == id then some row else find_block id rows

-- `SELECT max(height) FROM block`, one more of it, and 0 for no row.
unfoldable pub height_bound : List BlockRow → BlockHeight
height_bound [] = 0
height_bound (row ∷ rows) =
    let rest = height_bound rows in if leb rest row.height then suc row.height else rest

-- `SELECT … WHERE height >= from AND NOT extinct ORDER BY height DESC`, for heights below a bound.
unfoldable pub live_desc : ℕ → BlockHeight → List BlockRow → List BlockRow
unfolding live_at
live_desc zero from rows = []
live_desc (suc h) from rows =
    let rest = live_desc h from rows in if ltb h from then [] else live_at h rows ++ rest

-- `UPDATE block SET extinct = true WHERE height >= from`
unfoldable pub set_extinct : BlockHeight → List BlockRow → List BlockRow
set_extinct from [] = []
set_extinct from (row ∷ rows) =
    (if ltb row.height from then row else record row { extinct = true }) ∷ set_extinct from rows

-- `UPDATE block SET extinct = false WHERE hash_id = id`
unfoldable pub revive : ℕ → List BlockRow → List BlockRow
revive id [] = []
revive id (row ∷ rows) =
    (if row.hash_id == id then record row { extinct = false } else row) ∷ revive id rows

-- The primary key of `block` and its unique index on the heights that are not extinct.
unfoldable pub conflicts : BlockRow → List BlockRow → Bool
conflicts row [] = false
conflicts row (other ∷ rows) =
    other.hash_id == row.hash_id
    || (other.height == row.height && not other.extinct && not row.extinct)
    || conflicts row rows

-- `INSERT INTO block …`, an error on a conflict, or with `ON CONFLICT DO NOTHING`.
unfoldable pub insert_blocks : Bool → List BlockRow → List BlockRow → Outcome (List BlockRow)
unfolding conflicts
insert_blocks skip [] table = ok table
insert_blocks skip (row ∷ rows) table =
    let kept = insert_blocks skip rows table in
    let added = insert_blocks skip rows (table ++ row ∷ []) in
    if conflicts row table then (if skip then kept else err) else added

-- `INSERT INTO event (block_hash_id, revert) VALUES …`
unfoldable pub insert_events : Bool → List ℕ → Db → Db
insert_events revert [] db = db
insert_events revert (hash_id ∷ rest) db = insert_events revert rest (record db {
  event = db.event ++ record { id = db.next_event; revert = revert; block_hash_id = hash_id } ∷ [];
  next_event = suc db.next_event;
})

-- `UPDATE tx SET current_height = NULL WHERE current_height = h`
unfoldable pub clear_current_height : BlockHeight → List TxRow → List TxRow
clear_current_height h [] = []
clear_current_height h (row ∷ rows) = cleared row.current_height ∷ clear_current_height h rows
  where
    cleared : Option BlockHeight → TxRow
    cleared none = row
    cleared (some j) = if j == h then record row { current_height = none } else row
