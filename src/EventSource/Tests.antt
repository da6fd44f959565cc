-- ===== src/EventSource/Tests.antt =====
-- Two pages of one event each of src/db/pg.rs.
use rust_bitcoin_indexer.Base.{◌≡◌, refl, none, some, Bool, List, [], ◌∷◌, arith, All}
use rust_bitcoin_indexer.Db.{find_block}
use rust_bitcoin_indexer.Store.Tests.{two_db, two_db-IsCoherent}
use rust_bitcoin_indexer.Store.Genuine.{IsFound}
use rust_bitcoin_indexer.EventSource.{Cursor, next}
use rust_bitcoin_indexer.Base.Outcome.{ok}
use rust_bitcoin_indexer.Types.{WithHeightAndId}
use rust_bitcoin_indexer.EventSource.Pages.{Ascending, event_id, read_pages, sum, read_pages_lem}
use rust_bitcoin_indexer.EventSource.Reader.{apply_all, read_pages-apply_all}

two_db-Ascending : Ascending event_id two_db.event
two_db-Ascending = ground arith

two_db-known : All (λ e. IsFound e.block_hash_id two_db.block) two_db.event
unfolding find_block
two_db-known = ((_, refl), ((_, refl), tt))

read_pages_lem_example :
    read_pages two_db (some 1) (1 ∷ 1 ∷ []) ≡ next two_db (some 1) (sum (1 ∷ 1 ∷ []))
read_pages_lem_example = read_pages_lem two_db (some 1) (1 ∷ 1 ∷ []) two_db-Ascending (omega arith)

read_pages-apply_all_example :
    (events : List (WithHeightAndId Bool)) × (last : Cursor) × (read_pages two_db none (1 ∷ 1 ∷ [])
      ≡ ok (events, last))
    × (apply_all events [] ≡ some (20 ∷ 10 ∷ []))
read_pages-apply_all_example =
    read_pages-apply_all two_db (20 ∷ 10 ∷ []) (1 ∷ 1 ∷ []) two_db-IsCoherent two_db-Ascending
      two_db-known (omega arith, (omega arith, tt)) (omega arith)
