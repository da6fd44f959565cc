-- ===== src/Format/Sql/Statements.antt =====
-- How Postgres reads the statements that src/db/pg.rs writes, and that they have the rows of their values.
use rust_bitcoin_indexer.Base.{
  ℕ, zero, suc, ◌<◌, ◌≡◌, ◌∙◌, sym, ap, subst, refl, Option, none, some, List, [], ◌∷◌, ◌++◌,
  append_assoc, map, Text, All, length, length-append, arith, true, ◌==◌, eq→eqb,
}
use rust_bitcoin_indexer.Format.{sql_insert_values_size}
use rust_bitcoin_indexer.Format.Values.{
  comma, semicolon, MultiValueSqlFormatter, new_on_conflict, finish, fmt_all,
}
use rust_bitcoin_indexer.Format.Values.Statements.{
  more_values, body, statement, statements, join, IsShort, fmt_all-statements,
}
use rust_bitcoin_indexer.Format.Sql.{write_all}
use rust_bitcoin_indexer.Format.Sql.Reading.{Column, strip_prefix, read_row}

-- What is behind a text.
strip_prefix-append : (pattern rest : Text) → strip_prefix pattern (pattern ++ rest) ≡ some rest
unfolding strip_prefix
strip_prefix-append [] rest = refl
strip_prefix-append (c ∷ pattern) rest =
    let same : (c == c) ≡ true = eq→eqb c c refl in rw (same) (strip_prefix-append pattern rest)

write_all-append :
    (texts : List Text) (rest : Text) → write_all texts [] ++ rest ≡ write_all texts rest
write_all-append [] rest = refl
write_all-append (text ∷ texts) rest =
    append_assoc text (write_all texts []) rest ∙ ap (λ l. text ++ l) (write_all-append texts rest)

module _ (decode_hex : Text → Option (List ℕ)) (width : ℕ) where
  -- Rows of so many values, each behind a comma.
  unfoldable pub read_more : ℕ → Text → Option (List (List Column) × Text)
  unfolding strip_prefix read_row
  read_more zero text = none
  read_more (suc fuel) text = elim (strip_prefix comma text) [
    | none ↦ some ([], text)
    | some value ↦ elim (read_row decode_hex width value) [
      | none ↦ none
      | some (row, behind) ↦ elim (read_more fuel behind) [
        | none ↦ none
        | some (rows, rest) ↦ some (row ∷ rows, rest)
      ]
    ]
  ]

  unfoldable pub read_statement : Text → Text → ℕ → Text → Option (List (List Column) × Text)
  unfolding strip_prefix read_row read_more
  read_statement opening on_conflict fuel text = elim (strip_prefix opening text) [
    | none ↦ none
    | some value ↦ elim (read_row decode_hex width value) [
      | none ↦ none
      | some (row, behind) ↦ elim (read_more fuel behind) [
        | none ↦ none
        | some (rows, end) ↦ elim (strip_prefix (on_conflict ++ semicolon) end) [
          | none ↦ none
          | some rest ↦ some (row ∷ rows, rest)
        ]
      ]
    ]
  ]

  -- The statements of a text, each of which has so many rows at most.
  unfoldable pub read_statements : Text → Text → ℕ → ℕ → Text → Option (List (List Column))
  unfolding read_statement
  read_statements opening on_conflict size zero text = none
  read_statements opening on_conflict size (suc fuel) [] = some []
  read_statements opening on_conflict size (suc fuel) (c ∷ text) =
      elim (read_statement opening on_conflict size (c ∷ text)) [
        | none ↦ none
        | some (rows, rest) ↦ elim (read_statements opening on_conflict size fuel rest) [
          | none ↦ none
          | some more ↦ some (rows ++ more)
        ]
      ]

  -- The row that a text is read as.
  abbrev row_of : Text → List Column
  row_of value = elim (read_row decode_hex width value) [ none ↦ [] | some (row, rest) ↦ row ]

  -- A text that is read as a row, whatever follows.
  abbrev pub IsRow : Text → Type 0
  IsRow value =
      (rest : Text) → read_row decode_hex width (value ++ rest) ≡ some (row_of value, rest)

  read_more_lem :
      (values : List Text) (fuel : ℕ) (rest : Text)
      → All IsRow values
      → length values < fuel
      → strip_prefix comma rest ≡ none
      → read_more fuel (more_values values ++ rest) ≡ some (map row_of values, rest)
  unfolding read_more strip_prefix
  read_more_lem values zero rest rows enough end = absurd (omega arith)
  read_more_lem [] (suc fuel) rest rows enough end = rw (read_more, end) refl
  read_more_lem (value ∷ values) (suc fuel) rest rows enough end =
      subst (λ text. read_more (suc fuel) text ≡ some (map row_of (value ∷ values), rest))
        (sym (
          append_assoc (comma ++ value) (more_values values) rest
          ∙ append_assoc comma value (more_values values ++ rest)))
        (rw
          (
            read_more,
            rows.0 (more_values values ++ rest),
            read_more_lem values fuel rest rows.1 (omega arith) end,
          )
          refl)

  module _ (opening on_conflict : Text) (size : ℕ)
      (ends : (rest : Text) → strip_prefix comma ((on_conflict ++ semicolon) ++ rest) ≡ none) where
    read_statement_lem :
        (value : Text) (values : List Text) (rest : Text)
        → All IsRow (value ∷ values)
        → length values < size
        → read_statement opening on_conflict size
            (statement opening on_conflict (value ∷ values) ++ rest)
          ≡ some (map row_of (value ∷ values), rest)
    unfolding read_statement
    read_statement_lem value values rest rows enough =
        let tail = (on_conflict ++ semicolon) ++ rest in
        subst
          (λ text.
            read_statement opening on_conflict size text ≡ some (map row_of (value ∷ values), rest))
          (sym (
            ap (λ l. l ++ rest) (append_assoc (body opening (value ∷ values)) on_conflict semicolon)
            ∙ append_assoc (body opening (value ∷ values)) (on_conflict ++ semicolon) rest
            ∙ append_assoc (opening ++ value) (more_values values) tail
            ∙ append_assoc opening value (more_values values ++ tail)))
          (rw
            (
              read_statement,
              strip_prefix-append opening (value ++ (more_values values ++ tail)),
              rows.0 (more_values values ++ tail),
              read_more_lem values size tail rows.1 enough (ends rest),
              strip_prefix-append (on_conflict ++ semicolon) rest,
            )
            refl)

    read_statements-next :
        (c fuel : ℕ) (text rest : Text) (rows more : List (List Column))
        → read_statement opening on_conflict size (c ∷ text) ≡ some (rows, rest)
        → read_statements opening on_conflict size fuel rest ≡ some more
        → read_statements opening on_conflict size (suc fuel) (c ∷ text) ≡ some (rows ++ more)
    unfolding read_statements
    read_statements-next c fuel text rest rows more one others =
        rw (read_statements, one, others) refl

  All-parts : (xs ys : List Text) → All IsRow (xs ++ ys) → All IsRow xs × All IsRow ys
  All-parts [] ys rows = (tt, rows)
  All-parts (x ∷ xs) ys rows = let (front, back) = All-parts xs ys rows.1 in ((rows.0, front), back)

  map-row_of-append : (xs ys : List Text) → map row_of (xs ++ ys) ≡ map row_of xs ++ map row_of ys
  map-row_of-append [] ys = refl
  map-row_of-append (x ∷ xs) ys = ap (λ l. row_of x ∷ l) (map-row_of-append xs ys)

  module _ (c : ℕ) (opening on_conflict : Text) (size : ℕ)
      (ends : (rest : Text) → strip_prefix comma ((on_conflict ++ semicolon) ++ rest) ≡ none)
      (large : sql_insert_values_size < size) where
    read_statements_lem :
        (groups : List (List Text)) (fuel : ℕ)
        → All IsRow (join groups)
        → All IsShort groups
        → length (join groups) < fuel
        → read_statements
            (c ∷ opening)
            on_conflict
            size
            fuel
            (statements (c ∷ opening) on_conflict groups)
          ≡ some (map row_of (join groups))
    unfolding read_statements
    read_statements_lem groups zero rows short enough = absurd (omega arith)
    read_statements_lem [] (suc fuel) rows short enough = refl
    read_statements_lem ([] ∷ groups) (suc fuel) rows short enough =
        absurd (omega (arith, short.0.0))
    read_statements_lem ((value ∷ values) ∷ groups) (suc fuel) rows short enough =
        let (front, back) = All-parts (value ∷ values) (join groups) rows in
        read_statements-next (c ∷ opening) on_conflict size ends c fuel _ _ _ _
          (read_statement_lem (c ∷ opening) on_conflict size ends value values
            (statements (c ∷ opening) on_conflict groups) front (omega (arith, short.0.1, large)))
          (read_statements_lem groups fuel back short.1
            (omega (arith, enough, length-append values (join groups))))
        ∙ ap (λ l. some l) (sym (map-row_of-append (value ∷ values) (join groups)))

    statements-read :
        (values : List Text)
        → All IsRow values
        → read_statements
            (c ∷ opening)
            on_conflict
            size
            (suc (length values))
            (finish (fmt_all values (new_on_conflict [] (c ∷ opening) on_conflict))).out
          ≡ some (map row_of values)
    statements-read values rows =
        let (groups, out, all, short) = fmt_all-statements (c ∷ opening) on_conflict values [] in
        ap (read_statements (c ∷ opening) on_conflict size (suc (length values))) out
        ∙ subst
            (λ vs.
              All IsRow vs
              → read_statements (c ∷ opening) on_conflict size (suc (length vs))
                  (statements (c ∷ opening) on_conflict groups)
                ≡ some (map row_of vs))
            all
            (λ read.
              read_statements_lem groups (suc (length (join groups))) read short (omega arith))
            rows

  -- Items, each of whose texts is read as its columns.
  module _ {A : Type 0} (texts : A → List Text) (columns : A → List Column) where
    abbrev pub text_of : A → Text
    text_of a = write_all (texts a) []

    -- The statements that a formatter writes for items, none of which has more than so many rows, are
    -- read as their columns, in order.
    abbrev pub ReadsBack : MultiValueSqlFormatter → Type 0
    ReadsBack f =
        (items : List A)
        → read_statements f.opening f.on_conflict (suc sql_insert_values_size)
            (suc (length (map text_of items))) (finish (fmt_all (map text_of items) f)).out
          ≡ some (map columns items)

  module _ {A : Type 0} (texts : A → List Text) (columns : A → List Column)
      (read : (a : A) (rest : Text)
        → read_row decode_hex width (write_all (texts a) rest) ≡ some (columns a, rest)) where
    row_of-text_of : (a : A) → row_of (text_of texts columns a) ≡ columns a
    row_of-text_of a = rw (row_of, read a []) refl

    text_of-IsRow : (a : A) → IsRow (text_of texts columns a)
    text_of-IsRow a rest =
        ap (read_row decode_hex width) (write_all-append (texts a) rest)
        ∙ read a rest
        ∙ ap (λ row. some (row, rest)) (sym (row_of-text_of a))

    All-rows : (items : List A) → All IsRow (map (text_of texts columns) items)
    All-rows [] = tt
    All-rows (a ∷ items) = (text_of-IsRow a, All-rows items)

    their_columns :
        (items : List A) → map row_of (map (text_of texts columns) items) ≡ map columns items
    their_columns [] = refl
    their_columns (a ∷ items) = λ i. row_of-text_of a i ∷ their_columns items i

    pub new_on_conflict-ReadsBack :
        (c : ℕ) (opening on_conflict : Text)
        → ((rest : Text) → strip_prefix comma ((on_conflict ++ semicolon) ++ rest) ≡ none)
        → ReadsBack texts columns (new_on_conflict [] (c ∷ opening) on_conflict)
    unfolding new_on_conflict
    new_on_conflict-ReadsBack c opening on_conflict ends items =
        statements-read c opening on_conflict (suc sql_insert_values_size) ends (omega arith)
          (map (text_of texts columns) items) (All-rows items)
        ∙ ap (λ l. some l) (their_columns items)
