-- ===== src/Format/Sql/Tests.antt =====
-- Hexadecimal text with two digits for each byte, and rows of src/db/pg.rs in it.
use rust_bitcoin_indexer.Base.{
  ℕ, ◌+◌, ◌-◌, ◌*◌, ◌/◌, ◌%◌, ◌<◌, ◌≡◌, ◌≢◌, refl, Option, none, some, List, [], ◌∷◌, Text, codes,
  All, ltb, if◌then◌else◌, arith,
}
use rust_bitcoin_indexer.Bitcoin.{Network, bitcoin}
use rust_bitcoin_indexer.Format.Sql.Reading.{IsHex}
use rust_bitcoin_indexer.Format.Sql.Written.{AreWritten, statements-read_back}
use rust_bitcoin_indexer.Format.Sql.Rows.{AreRead, values-read}

abbrev hex_digit : ℕ → ℕ
hex_digit n = if ltb n 10 then b'0' + n else b'a' + n - 10

abbrev hex_value : ℕ → ℕ
hex_value c = if ltb c b'a' then c - b'0' else c + 10 - b'a'

abbrev encode_hex : List ℕ → Text
encode_hex [] = []
encode_hex (b ∷ bs) = hex_digit (b / 16) ∷ hex_digit (b % 16) ∷ encode_hex bs

abbrev decode_hex : Text → Option (List ℕ)
decode_hex [] = some []
decode_hex (c ∷ []) = none
decode_hex (c ∷ d ∷ text) = elim (decode_hex text) [
  | none ↦ none
  | some bs ↦ some ((hex_value c * 16 + hex_value d) ∷ bs)
]

byte-back :
    (b : ℕ) → b < 256 → hex_value (hex_digit (b / 16)) * 16 + hex_value (hex_digit (b % 16)) ≡ b
byte-back b h = ground arith

decodes : (bs : List ℕ) → All (λ b. b < 256) bs → decode_hex (encode_hex bs) ≡ some bs
decodes [] a = refl
decodes (b ∷ bs) a = rw (decodes bs a.1, byte-back b a.0) refl

no_quote : (bs : List ℕ) → All (λ c. c ≢ b'\'') (encode_hex bs)
no_quote [] = tt
no_quote (b ∷ bs) = (ground arith, (ground arith, no_quote bs))

digits-IsHex : IsHex encode_hex decode_hex
digits-IsHex = record { decodes = decodes; no_quote = no_quote }

abbrev some_address : Network → ℕ → Option ℕ
some_address network script = if ltb script 1 then none else some script

abbrev show_address : ℕ → Text
show_address a = codes "1BoatSLRHtKNngkdXEeobR76b53LETtpyT"

values-read_example :
    AreRead encode_hex decode_hex digits-IsHex some_address show_address (λ a. omega arith) bitcoin
values-read_example =
    values-read encode_hex decode_hex digits-IsHex some_address show_address (λ a. omega arith)
      bitcoin

statements-read_back_example :
    AreWritten encode_hex decode_hex digits-IsHex some_address show_address
      (λ a. omega arith)
      bitcoin
statements-read_back_example =
    statements-read_back encode_hex decode_hex digits-IsHex some_address show_address
      (λ a. omega arith) bitcoin
