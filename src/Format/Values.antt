-- ===== src/Format/Values.antt =====
-- `MultiValueSqlFormatter` of src/db/pg.rs: values are written to statements of bounded size. A text is
-- a list of characters, which only the separators name.
pub mod Statements
pub mod Formatters
pub mod Tests
use rust_bitcoin_indexer.Base.{Text, codes, ℕ, suc, List, [], ◌∷◌, ◌++◌, ltb, ◌==◌, if◌then◌else◌}
use rust_bitcoin_indexer.Format.{Mode, is_bulk, sql_insert_values_size}

abbrev pub comma : Text
comma = codes ","

abbrev pub semicolon : Text
semicolon = codes ";"

pub record MultiValueSqlFormatter : Type 0 where
  pub out : Text
  pub opening : Text
  pub on_conflict : Text
  pub query_values_count : ℕ

-- The constructors, given the text of their conflict clause.
unfoldable pub new_on_conflict : Text → Text → Text → MultiValueSqlFormatter
new_on_conflict out opening on_conflict = record {
  out = out;
  opening = opening;
  on_conflict = on_conflict;
  query_values_count = 0;
}

unfoldable pub new_no_conflict_check : Text → Text → MultiValueSqlFormatter
unfolding new_on_conflict
new_no_conflict_check out opening = new_on_conflict out opening []

unfoldable pub new_on_conflict_do_nothing_auto : Text → Text → Text → Mode → MultiValueSqlFormatter
unfolding new_on_conflict is_bulk
new_on_conflict_do_nothing_auto do_nothing out opening mode =
    new_on_conflict out opening (if is_bulk mode then [] else do_nothing)

unfoldable pub terminate_query : MultiValueSqlFormatter → MultiValueSqlFormatter
terminate_query f = record f { query_values_count = 0; out = (f.out ++ f.on_conflict) ++ semicolon }

unfoldable pub maybe_terminate_query : MultiValueSqlFormatter → MultiValueSqlFormatter
unfolding terminate_query
maybe_terminate_query f =
    if ltb sql_insert_values_size f.query_values_count then terminate_query f else f

-- `fmt_with`, for a function that writes the text of one value.
unfoldable pub fmt_with : Text → MultiValueSqlFormatter → MultiValueSqlFormatter
unfolding maybe_terminate_query
fmt_with value f =
    let ready = maybe_terminate_query f in
    record ready {
      out =
          (ready.out ++ (if ready.query_values_count == 0 then ready.opening else comma)) ++ value;
      query_values_count = suc ready.query_values_count;
    }

-- `drop`
unfoldable pub finish : MultiValueSqlFormatter → MultiValueSqlFormatter
unfolding terminate_query
finish f = if ltb 0 f.query_values_count then terminate_query f else f

-- The loops of the formatters over their values.
unfoldable pub fmt_all : List Text → MultiValueSqlFormatter → MultiValueSqlFormatter
unfolding fmt_with
fmt_all [] f = f
fmt_all (value ∷ values) f = fmt_all values (fmt_with value f)
