-- ===== src/Format/Values/Statements.antt =====
-- What `MultiValueSqlFormatter` of src/db/pg.rs writes: whole statements, none with too many values.
use rust_bitcoin_indexer.Base.{
  ℕ, suc, ◌≤◌, ◌<◌, ◌≡◌, ◌∙◌, sym, ap, refl, inl, inr, true, false, List, [], ◌∷◌, ◌++◌, append-nil,
  append_assoc, arith, ltb, ◌==◌, Bool-cases, length, length-append, All, ltb→lt, ltb→le,
}
use rust_bitcoin_indexer.Format.{sql_insert_values_size}
use rust_bitcoin_indexer.Format.Values.{
  Text, comma, semicolon, MultiValueSqlFormatter, new_on_conflict, terminate_query,
  maybe_terminate_query, fmt_with, finish, fmt_all,
}

-- The values of one statement, behind its opening.
abbrev pub more_values : List Text → Text
more_values [] = []
more_values (value ∷ values) = (comma ++ value) ++ more_values values

abbrev pub body : Text → List Text → Text
body opening [] = opening
body opening (value ∷ values) = (opening ++ value) ++ more_values values

abbrev pub statement : Text → Text → List Text → Text
statement opening on_conflict values = (body opening values ++ on_conflict) ++ semicolon

abbrev pub statements : Text → Text → List (List Text) → Text
statements opening on_conflict [] = []
statements opening on_conflict (group ∷ groups) =
    statement opening on_conflict group ++ statements opening on_conflict groups

abbrev pub join {ℓ} : {A : Type ℓ} → List (List A) → List A
join [] = []
join (xs ∷ rest) = xs ++ join rest

-- A statement has a value, and at most one more than the size.
abbrev pub IsShort : List Text → Type 0
IsShort group = (0 < length group) × (length group ≤ suc sql_insert_values_size)

more_values-push :
    (values : List Text) (value : Text)
    → more_values (values ++ value ∷ []) ≡ (more_values values ++ comma) ++ value
more_values-push [] value = append-nil (comma ++ value)
more_values-push (v ∷ values) value =
    ap (λ l. (comma ++ v) ++ l) (more_values-push values value)
    ∙ sym (append_assoc (comma ++ v) (more_values values ++ comma) value)
    ∙ ap (λ l. l ++ value) (sym (append_assoc (comma ++ v) (more_values values) comma))

body-push :
    (opening : Text) (group : List Text) (value : Text)
    → 0 < length group
    → body opening (group ++ value ∷ []) ≡ (body opening group ++ comma) ++ value
body-push opening [] value h = absurd (omega arith)
body-push opening (v ∷ group) value h =
    ap (λ l. (opening ++ v) ++ l) (more_values-push group value)
    ∙ sym (append_assoc (opening ++ v) (more_values group ++ comma) value)
    ∙ ap (λ l. l ++ value) (sym (append_assoc (opening ++ v) (more_values group) comma))

length-push : (group : List Text) (value : Text) → length (group ++ value ∷ []) ≡ suc (length group)
length-push group value = omega (arith, length-append group (value ∷ []))

module _ (opening on_conflict : Text) where
  -- A formatter in the middle of a statement.
  abbrev within : Text → List Text → MultiValueSqlFormatter
  within base group = record {
    out = base ++ body opening group;
    opening = opening;
    on_conflict = on_conflict;
    query_values_count = length group;
  }

  -- What a formatter has written, with all of its values.
  abbrev pub Writes : Text → List Text → Text → Type 0
  Writes base values out =
      (groups : List (List Text)) × (out ≡ base ++ statements opening on_conflict groups)
      × (join groups ≡ values)
      × All IsShort groups

  abbrev at_count : Text → ℕ → MultiValueSqlFormatter
  at_count out count = record {
    out = out;
    opening = opening;
    on_conflict = on_conflict;
    query_values_count = count;
  }

  fmt_with-next :
      (base : Text) (group : List Text) (value : Text)
      → 0 < length group
      → length group ≤ sql_insert_values_size
      → fmt_with value (within base group) ≡ within base (group ++ value ∷ [])
  unfolding fmt_with maybe_terminate_query
  fmt_with-next base group value some_there room =
      let keeps : ltb sql_insert_values_size (length group) ≡ false = ground arith in
      let goes_on : (length group == 0) ≡ false = ground arith in
      rw (fmt_with, maybe_terminate_query, keeps, goes_on)
        (ap (λ (l : Text). at_count l (suc (length group)))
            (ap (λ l. l ++ value) (append_assoc base (body opening group) comma)
              ∙ append_assoc base (body opening group ++ comma) value
              ∙ ap (λ l. base ++ l) (sym (body-push opening group value some_there)))
          ∙ ap (at_count (base ++ body opening (group ++ value ∷ [])))
              (sym (length-push group value)))

  whole :
      (base text : Text)
      → ((base ++ text) ++ on_conflict) ++ semicolon ≡ base ++ ((text ++ on_conflict) ++ semicolon)
  whole base text =
      ap (λ l. l ++ semicolon) (append_assoc base text on_conflict)
      ∙ append_assoc base (text ++ on_conflict) semicolon

  finish_within :
      (base : Text) (group : List Text)
      → 0 < length group
      → (finish (within base group)).out ≡ base ++ statement opening on_conflict group
  unfolding finish terminate_query
  finish_within base group some_there =
      let ends : ltb 0 (length group) ≡ true = ground arith in
      rw (finish, ends, terminate_query) (whole base (body opening group))

  fmt_with-full :
      (base : Text) (group : List Text) (value : Text)
      → length group ≡ suc sql_insert_values_size
      → fmt_with value (within base group)
        ≡ within (base ++ statement opening on_conflict group) (value ∷ [])
  unfolding fmt_with maybe_terminate_query terminate_query
  fmt_with-full base group value full =
      let ends : ltb sql_insert_values_size (length group) ≡ true = ground arith in
      rw (fmt_with, maybe_terminate_query, ends, terminate_query)
        (ap (λ (l : Text). at_count l 1)
          (ap (λ l. (l ++ opening) ++ value) (whole base (body opening group))
            ∙ append_assoc (base ++ statement opening on_conflict group) opening value
            ∙ ap (λ l. (base ++ statement opening on_conflict group) ++ l)
                (sym (append-nil (opening ++ value)))))

  -- Each value of a formatter goes into the statement that is open, or starts one.
  fmt_all-Writes :
      (values : List Text) (base : Text) (group : List Text)
      → IsShort group
      → Writes base (group ++ values) (finish (fmt_all values (within base group))).out
  unfolding fmt_all
  fmt_all-Writes [] base group short = (
    group ∷ [],
    finish_within base group short.0
        ∙ ap (λ l. base ++ l) (sym (append-nil (statement opening on_conflict group))),
    refl,
    (short, tt),
  )
  fmt_all-Writes (value ∷ values) base group short =
      elim (Bool-cases (ltb (length group) (suc sql_insert_values_size))) [
        | inl room ↦
            let next =
              fmt_with-next base group value short.0
                (omega (arith, ltb→lt (length group) (suc sql_insert_values_size) room)) in
            let (groups, out, all, bounds) = fmt_all-Writes values base (group ++ value ∷ []) (
              omega (arith, length-push group value),
              omega (
                arith,
                length-push group value,
                ltb→lt (length group) (suc sql_insert_values_size) room,
              ),
            ) in
            (
              groups,
              ap (λ f. (finish (fmt_all values f)).out) next ∙ out,
              all ∙ append_assoc group (value ∷ []) values,
              bounds,
            )
        | inr full ↦
            let next =
              fmt_with-full base group value
                (omega (arith, short.1, ltb→le (length group) (suc sql_insert_values_size) full)) in
            let (groups, out, all, bounds) =
              fmt_all-Writes values (base ++ statement opening on_conflict group) (value ∷ [])
                (omega arith, omega arith) in
            (
              group ∷ groups,
              ap (λ f. (finish (fmt_all values f)).out) next
                  ∙ out
                  ∙ append_assoc base (statement opening on_conflict group)
                      (statements opening on_conflict groups),
              ap (λ l. group ++ l) all,
              (short, bounds),
            )
      ]

  -- However many values a formatter is given, it appends whole statements to the text, which have
  -- the values in order, and each of which has at least one and at most 30001 of them.
  pub fmt_all-statements :
      (values : List Text) (out : Text)
      → Writes out values (finish (fmt_all values (new_on_conflict out opening on_conflict))).out
  unfolding fmt_all new_on_conflict finish fmt_with maybe_terminate_query
  fmt_all-statements [] out = ([], sym (append-nil out), refl, tt)
  fmt_all-statements (value ∷ values) out =
      let first : fmt_with value (new_on_conflict out opening on_conflict)
          ≡ within out (value ∷ []) =
        ap (λ (l : Text). at_count l 1)
          (append_assoc out opening value
            ∙ ap (λ l. out ++ l) (sym (append-nil (opening ++ value)))) in
      let (groups, text, all, bounds) =
        fmt_all-Writes values out (value ∷ []) (omega arith, omega arith) in
      (groups, ap (λ f. (finish (fmt_all values f)).out) first ∙ text, all, bounds)
