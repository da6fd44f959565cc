-- ===== src/Format/Sql/Reading.antt =====
-- How Postgres reads one row of values, and that the texts of src/db/pg.rs are read as their rows.
use rust_bitcoin_indexer.Base.{
  ℕ, zero, suc, ◌<◌, ◌≡◌, ◌≢◌, ◌∙◌, sym, ap, subst, refl, Bool, true, false, Option, none, some,
  List, [], ◌∷◌, ◌++◌, Text, codes, All, All-map, ◌==◌, ne→eqb, if◌then◌else◌,
}
use rust_bitcoin_indexer.Format.Sql.Decimal.{
  decimal, scan, is_digit, IsEnd, scan-decimal, decimal-head,
}

-- The values of a row.
pub data Column : Type 0 where
  bytes : List ℕ → Column
  number : ℕ → Column
  boolean : Bool → Column
  string : Text → Column
  null now : Column

unfoldable pub strip_prefix : Text → Text → Option Text
strip_prefix [] text = some text
strip_prefix (c ∷ pattern) [] = none
strip_prefix (c ∷ pattern) (d ∷ text) =
    let rest = strip_prefix pattern text in if c == d then rest else none

-- The text up to a quote, and what stands behind the quote.
unfoldable pub until_quote : Text → Option (Text × Text)
until_quote [] = none
until_quote (c ∷ text) =
    let more : Option (Text × Text) = elim (until_quote text) [
      | none ↦ none
      | some (before, rest) ↦ some (c ∷ before, rest)
    ] in
    if c == b'\'' then some ([], text) else more

module _ (decode_hex : Text → Option (List ℕ)) where
  -- What is behind `'\x`.
  unfoldable pub read_bytes : Text → Option (Column × Text)
  unfolding until_quote strip_prefix
  read_bytes text = elim (until_quote text) [
    | none ↦ none
    | some (hex, behind) ↦ elim (strip_prefix (codes "::bytea") behind) [
      | none ↦ none
      | some rest ↦ elim (decode_hex hex) [ none ↦ none | some bs ↦ some (bytes bs, rest) ]
    ]
  ]

  unfoldable pub read_string : Text → Option (Column × Text)
  unfolding until_quote
  read_string text = elim (until_quote text) [
    | none ↦ none
    | some (s, rest) ↦ some (string s, rest)
  ]

  -- A value that is no number.
  unfoldable pub read_word : Text → Option (Column × Text)
  unfolding strip_prefix read_bytes read_string
  read_word text = elim (strip_prefix (codes "'\\x") text) [
    | some rest ↦ read_bytes rest
    | none ↦ elim (strip_prefix (codes "'") text) [
      | some rest ↦ read_string rest
      | none ↦ elim (strip_prefix (codes "NULL") text) [
        | some rest ↦ some (null, rest)
        | none ↦ elim (strip_prefix (codes "true") text) [
          | some rest ↦ some (boolean true, rest)
          | none ↦ elim (strip_prefix (codes "false") text) [
            | some rest ↦ some (boolean false, rest)
            | none ↦ elim (strip_prefix (codes "timezone('utc', now())") text) [
              | some rest ↦ some (now, rest)
              | none ↦ none
            ]
          ]
        ]
      ]
    ]
  ]

  unfoldable pub read_column : Text → Option (Column × Text)
  unfolding scan read_word
  read_column [] = none
  read_column (c ∷ text) =
      let n = scan (c ∷ text) 0 in
      let word = read_word (c ∷ text) in if is_digit c then some (number n.0, n.1) else word

  -- So many values with commas between them, up to a parenthesis.
  unfoldable pub read_columns : ℕ → Text → Option (List Column × Text)
  read_columns zero text = none
  read_columns (suc zero) text = elim (read_column text) [
    | none ↦ none
    | some (c, behind) ↦ elim (strip_prefix (codes ")") behind) [
      | none ↦ none
      | some rest ↦ some (c ∷ [], rest)
    ]
  ]
  read_columns (suc (suc n)) text = elim (read_column text) [
    | none ↦ none
    | some (c, behind) ↦ elim (strip_prefix (codes ",") behind) [
      | none ↦ none
      | some more ↦ elim (read_columns (suc n) more) [
        | none ↦ none
        | some (cs, rest) ↦ some (c ∷ cs, rest)
      ]
    ]
  ]

  unfoldable pub read_row : ℕ → Text → Option (List Column × Text)
  read_row n text = elim (strip_prefix (codes "(") text) [
    | none ↦ none
    | some more ↦ read_columns n more
  ]

-- The text of a value, in front of another text.
abbrev pub write_column : (List ℕ → Text) → Column → Text → Text
write_column encode_hex (bytes bs) rest =
    codes "'\\x" ++ (encode_hex bs ++ (codes "'::bytea" ++ rest))
write_column encode_hex (number n) rest = decimal n ++ rest
write_column encode_hex (boolean true) rest = codes "true" ++ rest
write_column encode_hex (boolean false) rest = codes "false" ++ rest
write_column encode_hex (string s) rest = codes "'" ++ (s ++ (codes "'" ++ rest))
write_column encode_hex null rest = codes "NULL" ++ rest
write_column encode_hex now rest = codes "timezone('utc', now())" ++ rest

abbrev pub write_columns : (List ℕ → Text) → List Column → Text → Text
write_columns encode_hex [] rest = rest
write_columns encode_hex (c ∷ []) rest = write_column encode_hex c (codes ")" ++ rest)
write_columns encode_hex (c ∷ d ∷ cs) rest =
    write_column encode_hex c (codes "," ++ write_columns encode_hex (d ∷ cs) rest)

abbrev pub write_row : (List ℕ → Text) → List Column → Text → Text
write_row encode_hex cs rest = codes "(" ++ write_columns encode_hex cs rest

-- What the `hex` crate and Postgres document of hexadecimal text.
pub record IsHex (encode_hex : List ℕ → Text) (decode_hex : Text → Option (List ℕ)) : Type 0 where
  pub decodes : (bs : List ℕ) → All (λ b. b < 256) bs → decode_hex (encode_hex bs) ≡ some bs
  pub no_quote : (bs : List ℕ) → All (λ c. c ≢ b'\'') (encode_hex bs)

-- A text that can stand between quotes.
abbrev pub IsPlain : Text → Type 0
IsPlain text = All (λ c. (c ≢ b'\'') × (c ≢ b'\\')) text

abbrev pub IsWritable : Column → Type 0
IsWritable (bytes bs) = All (λ b. b < 256) bs
IsWritable (string s) = IsPlain s
IsWritable _ = Unit

until_quote_lem :
    (text rest : Text)
    → All (λ c. c ≢ b'\'') text
    → until_quote (text ++ (codes "'" ++ rest)) ≡ some (text, rest)
unfolding until_quote
until_quote_lem [] rest a = refl
until_quote_lem (c ∷ text) rest a =
    let other : (c == b'\'') ≡ false = ne→eqb c b'\'' a.0 in
    rw (other, until_quote_lem text rest a.1) refl

module _ (encode_hex : List ℕ → Text) (decode_hex : Text → Option (List ℕ))
    (hex : IsHex encode_hex decode_hex) where
  read_bytes-write :
      (bs : List ℕ) (rest : Text)
      → All (λ b. b < 256) bs
      → read_bytes decode_hex (encode_hex bs ++ (codes "'::bytea" ++ rest)) ≡ some (bytes bs, rest)
  unfolding read_bytes strip_prefix
  read_bytes-write bs rest small =
      let quoted : until_quote (encode_hex bs ++ (codes "'::bytea" ++ rest))
          ≡ some (encode_hex bs, codes "::bytea" ++ rest) =
        until_quote_lem (encode_hex bs) (codes "::bytea" ++ rest) (hex.no_quote bs) in
      rw (read_bytes, quoted, hex.decodes bs small) refl

  read_string-write :
      (s : Text) (rest : Text)
      → IsPlain s
      → read_string decode_hex (s ++ (codes "'" ++ rest)) ≡ some (string s, rest)
  unfolding read_string
  read_string-write s rest plain =
      rw (read_string, until_quote_lem s rest (All-map _ (λ c p. p.0) s plain)) refl

  read_word-string :
      (s : Text) (rest : Text)
      → IsPlain s
      → read_word decode_hex (codes "'" ++ (s ++ (codes "'" ++ rest))) ≡ some (string s, rest)
  unfolding read_word strip_prefix
  read_word-string [] rest plain = read_string-write [] rest plain
  read_word-string (c ∷ s) rest plain =
      let other : (b'\\' == c) ≡ false = ne→eqb b'\\' c (λ e. plain.0.1 (sym e)) in
      rw (other, read_word) (read_string-write (c ∷ s) rest plain)

  read_column-number :
      (n : ℕ) (rest : Text)
      → IsEnd rest
      → read_column decode_hex (decimal n ++ rest) ≡ some (number n, rest)
  unfolding read_column scan read_word
  read_column-number n rest end =
      let (c, text, e, d) = decimal-head n in
      let read = subst (λ t. scan (t ++ rest) 0 ≡ (n, rest)) e (scan-decimal n rest end) in
      subst (λ t. read_column decode_hex (t ++ rest) ≡ some (number n, rest)) (sym e)
        (digit_first c (text ++ rest) n rest d read)
    where
      digit_first :
          (c : ℕ) (text : Text) (n : ℕ) (rest : Text)
          → is_digit c ≡ true
          → scan (c ∷ text) 0 ≡ (n, rest)
          → read_column decode_hex (c ∷ text) ≡ some (number n, rest)
      digit_first c text n rest d e =
          (λ i.
            if d i
            then some (number (scan (c ∷ text) 0).0, (scan (c ∷ text) 0).1)
            else read_word decode_hex (c ∷ text))
          ∙ ap (λ r. some (number r.0, r.1)) e

  pub read_column-write :
      (c : Column) (rest : Text)
      → IsWritable c
      → IsEnd rest
      → read_column decode_hex (write_column encode_hex c rest) ≡ some (c, rest)
  unfolding read_column read_word strip_prefix
  read_column-write (bytes bs) rest w end = read_bytes-write bs rest w
  read_column-write (number n) rest w end = read_column-number n rest end
  read_column-write (boolean true) rest w end = refl
  read_column-write (boolean false) rest w end = refl
  read_column-write (string s) rest w end = read_word-string s rest w
  read_column-write null rest w end = refl
  read_column-write now rest w end = refl
