-- ===== src/Format/Values/Tests.antt =====
-- Three values written by `MultiValueSqlFormatter` of src/db/pg.rs.
use rust_bitcoin_indexer.Base.{◌≡◌, refl, [], ◌∷◌}
use rust_bitcoin_indexer.Format.Values.{
  new_no_conflict_check, new_on_conflict, fmt_with, fmt_all, finish, maybe_terminate_query,
  terminate_query,
}
use rust_bitcoin_indexer.Format.Values.Statements.{Writes, fmt_all-statements}

-- `I1,2,3;` after a text.
three_values :
    (finish (
      fmt_all
        ((49 ∷ []) ∷ (50 ∷ []) ∷ (51 ∷ []) ∷ [])
        (new_no_conflict_check (32 ∷ []) (73 ∷ [])))).out
    ≡ 32 ∷ 73 ∷ 49 ∷ 44 ∷ 50 ∷ 44 ∷ 51 ∷ 59 ∷ []
unfolding fmt_all fmt_with finish maybe_terminate_query terminate_query new_no_conflict_check
    new_on_conflict
three_values = refl

fmt_all-statements_example :
    Writes
      (73 ∷ [])
      []
      (32 ∷ [])
      ((49 ∷ []) ∷ (50 ∷ []) ∷ (51 ∷ []) ∷ [])
      (finish (
        fmt_all
          ((49 ∷ []) ∷ (50 ∷ []) ∷ (51 ∷ []) ∷ [])
          (new_on_conflict (32 ∷ []) (73 ∷ []) []))).out
fmt_all-statements_example =
    fmt_all-statements (73 ∷ []) [] ((49 ∷ []) ∷ (50 ∷ []) ∷ (51 ∷ []) ∷ []) (32 ∷ [])
