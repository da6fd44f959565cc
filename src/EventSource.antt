-- ===== src/EventSource.antt =====
-- `EventSource` of src/event_source.rs as src/db/pg.rs implements it: the events after a cursor, a page
-- at a time.
pub mod Pages
pub mod Reader
pub mod Tests
use rust_bitcoin_indexer.Base.{
  ℕ, ◌^◌, Bool, true, false, Option, none, some, List, [], ◌∷◌, ◌++◌, map, ltb, if◌then◌else◌, take,
}
use rust_bitcoin_indexer.Base.Outcome.{Outcome, ok, err}
use rust_bitcoin_indexer.Types.{BlockHeight, WithHeightAndId}
use rust_bitcoin_indexer.Db.{Db, BlockRow, EventRow, find_block}
use rust_bitcoin_indexer.Db.Current.{row_hash}

-- A row of `event JOIN block ON event.block_hash_id = block.hash_id`: the event's id, and what the
-- source makes of the other columns.
abbrev pub JoinedRow : Type 0
JoinedRow = ℕ × WithHeightAndId Bool

abbrev pub joined_row : EventRow → BlockRow → JoinedRow
joined_row event row =
    (event.id, record { height = row.height; id = row_hash row; payload = event.revert })

unfoldable pub join_blocks : List EventRow → List BlockRow → List JoinedRow
unfolding find_block
join_blocks [] rows = []
join_blocks (event ∷ events) rows =
    let rest = join_blocks events rows in
    elim (find_block event.block_hash_id rows) [
      | none ↦ rest
      | some row ↦ joined_row event row ∷ rest
    ]

-- A cursor is the id of the last event read. The ids are not negative, so that `none` stands for the
-- cursor -1 also, which is what a cursor that is not given comes to.
abbrev pub Cursor : Type 0
Cursor = Option ℕ

abbrev pub is_after : Cursor → ℕ → Bool
is_after none id = true
is_after (some cursor) id = ltb cursor id

-- `… WHERE event.id > $1`
unfoldable pub after : Cursor → List JoinedRow → List JoinedRow
after cursor [] = []
after cursor (row ∷ rows) =
    let rest = after cursor rows in if is_after cursor row.0 then row ∷ rest else rest

-- `… ORDER BY id ASC`
unfoldable pub insert_by_id : JoinedRow → List JoinedRow → List JoinedRow
insert_by_id row [] = row ∷ []
insert_by_id row (other ∷ rows) =
    if ltb other.0 row.0 then other ∷ insert_by_id row rows else row ∷ other ∷ rows

unfoldable pub order_by_id : List JoinedRow → List JoinedRow
unfolding insert_by_id
order_by_id [] = []
order_by_id (row ∷ rows) = insert_by_id row (order_by_id rows)

-- The loop over the rows leaves the last id.
unfoldable pub last_id : Cursor → List JoinedRow → Cursor
last_id last [] = last
last_id last (row ∷ rows) = last_id (some row.0) rows

-- What the query gives, with a limit that is not negative.
unfoldable pub page : Db → Cursor → ℕ → List (WithHeightAndId Bool) × Cursor
unfolding join_blocks after order_by_id last_id
page db cursor limit =
    let rows = take limit (order_by_id (after cursor (join_blocks db.event db.block))) in
    (map (λ row. row.1) rows, last_id cursor rows)

-- `limit as i64` is negative for a limit of 2^63 or more, below 2^64, which is an error of the query.
unfoldable pub next : Db → Cursor → ℕ → Outcome (List (WithHeightAndId Bool) × Cursor)
unfolding page
next db cursor limit = if ltb limit (2 ^ 63) then ok (page db cursor limit) else err
