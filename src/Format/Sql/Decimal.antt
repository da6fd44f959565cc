-- ===== src/Format/Sql/Decimal.antt =====
-- Numbers in decimal, as the standard library prints them for src/db/pg.rs, and read back.
use rust_bitcoin_indexer.Base.{
  ℕ, zero, suc, ◌+◌, ◌-◌, ◌*◌, ◌/◌, ◌%◌, ◌<◌, ◌≡◌, ◌∙◌, refl, inl, inr, Bool, true, false, ◌&&◌, [],
  ◌∷◌, ◌++◌, Text, ltb, leb, if◌then◌else◌, Bool-cases, ltb→le, arith,
}

-- The digits before those that are written. Each round divides by ten.
unfoldable pub digits : ℕ → ℕ → Text → Text
digits zero n out = out
digits (suc fuel) n out =
    let rest = digits fuel (n / 10) ((b'0' + n % 10) ∷ out) in
    if ltb n 10 then (b'0' + n) ∷ out else rest

-- `Display` of a number. There are fewer digits than the number and one.
unfoldable pub decimal : ℕ → Text
unfolding digits
decimal n = digits (suc n) n []

abbrev pub is_digit : ℕ → Bool
is_digit c = leb b'0' c && leb c b'9'

-- The number that the digits in front of a text spell behind one, and the text after them.
unfoldable pub scan : Text → ℕ → ℕ × Text
scan [] n = (n, [])
scan (c ∷ text) n =
    let more = scan text (n * 10 + (c - b'0')) in if is_digit c then more else (n, c ∷ text)

scan-digits :
    (fuel n : ℕ) (out rest : Text)
    → n < fuel
    → scan (digits fuel n out ++ rest) 0 ≡ scan (out ++ rest) n
unfolding digits scan
scan-digits zero n out rest h = absurd (omega arith)
scan-digits (suc fuel) n out rest h = elim (Bool-cases (ltb n 10)) [
  | inl small ↦ ground (arith, small)
  | inr big ↦ rw big (
      scan-digits fuel (n / 10) ((b'0' + n % 10) ∷ out) rest (omega (arith, ltb→le n 10 big))
      ∙ ground (arith, big))
]

-- No digit stands in front of the text.
abbrev pub IsEnd : Text → Type 0
IsEnd [] = Unit
IsEnd (c ∷ text) = is_digit c ≡ false

-- A number is read back up to the next character that is no digit.
pub scan-decimal : (n : ℕ) (rest : Text) → IsEnd rest → scan (decimal n ++ rest) 0 ≡ (n, rest)
unfolding decimal scan
scan-decimal n rest e = scan-digits (suc n) n [] rest (omega arith) ∙ at_end rest e
  where
    at_end : (text : Text) → IsEnd text → scan text n ≡ (n, text)
    at_end [] e = refl
    at_end (c ∷ text) e = rw e refl

digits-head :
    (fuel n : ℕ) (out : Text)
    → n < fuel
    → (c : ℕ) × (text : Text) × (digits fuel n out ≡ c ∷ text) × (is_digit c ≡ true)
unfolding digits
digits-head zero n out h = absurd (omega arith)
digits-head (suc fuel) n out h = elim (Bool-cases (ltb n 10)) [
  | inl small ↦ (b'0' + n, out, rw small refl, ground (arith, small))
  | inr big ↦
      let (c, text, e, d) =
        digits-head fuel (n / 10) ((b'0' + n % 10) ∷ out) (omega (arith, ltb→le n 10 big)) in
      (c, text, rw big e, d)
]

-- A number begins with a digit.
pub decimal-head : (n : ℕ) → (c : ℕ) × (text : Text) × (decimal n ≡ c ∷ text) × (is_digit c ≡ true)
unfolding decimal
decimal-head n = digits-head (suc n) n [] (omega arith)
