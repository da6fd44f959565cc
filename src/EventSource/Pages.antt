-- ===== src/EventSource/Pages.antt =====
-- Pages of events of src/db/pg.rs: read one after the other, they are one long page.
use rust_bitcoin_indexer.Base.{
  ℕ, zero, suc, ◌+◌, ◌^◌, ltb, ◌≤◌, ◌<◌, ◌≡◌, ◌∙◌, sym, ap, subst, refl, inl, inr, Bool, true,
  false, none, some, List, [], ◌∷◌, ◌++◌, map, arith, Bool-cases, Option-cases, take, drop, All,
  All-map,
}
use mathlib.Core.List.{map-append}
use rust_bitcoin_indexer.Base.Outcome.{Outcome, ok, ◌>>=◌}
use rust_bitcoin_indexer.Types.{WithHeightAndId}
use rust_bitcoin_indexer.Db.{Db, EventRow, BlockRow, find_block}
use rust_bitcoin_indexer.EventSource.{
  JoinedRow, join_blocks, Cursor, is_after, after, insert_by_id, order_by_id, last_id, page, next,
}

-- The ids go up.
abbrev pub Ascending {ℓ} : {A : Type ℓ} → (A → ℕ) → List A → Type 0
Ascending id [] = Unit {0}
Ascending id (x ∷ xs) = All (λ y. id x < id y) xs × Ascending id xs

abbrev pub row_id : JoinedRow → ℕ
row_id row = row.0

abbrev pub event_id : EventRow → ℕ
event_id event = event.id

join_blocks-All :
    (n : ℕ) (events : List EventRow) (rows : List BlockRow)
    → All (λ e. n < e.id) events
    → All (λ row. n < row.0) (join_blocks events rows)
unfolding join_blocks
join_blocks-All n [] rows a = tt
join_blocks-All n (e ∷ events) rows a = elim (Option-cases (find_block e.block_hash_id rows)) [
  | inl missing ↦ rw (join_blocks, missing) (join_blocks-All n events rows a.1)
  | inr (row, found) ↦ rw (join_blocks, found) (a.0, join_blocks-All n events rows a.1)
]

join_blocks-Ascending :
    (events : List EventRow) (rows : List BlockRow)
    → Ascending event_id events
    → Ascending row_id (join_blocks events rows)
unfolding join_blocks
join_blocks-Ascending [] rows a = tt
join_blocks-Ascending (e ∷ events) rows a = elim (Option-cases (find_block e.block_hash_id rows)) [
  | inl missing ↦ rw (join_blocks, missing) (join_blocks-Ascending events rows a.1)
  | inr (row, found) ↦
      rw (join_blocks, found)
        (join_blocks-All e.id events rows a.0, join_blocks-Ascending events rows a.1)
]

after-All :
    (n : ℕ) (cursor : Cursor) (rows : List JoinedRow)
    → All (λ row. n < row.0) rows
    → All (λ row. n < row.0) (after cursor rows)
unfolding after
after-All n cursor [] a = tt
after-All n cursor (row ∷ rows) a = elim (Bool-cases (is_after cursor row.0)) [
  | inl later ↦ rw later (a.0, after-All n cursor rows a.1)
  | inr past ↦ rw past (after-All n cursor rows a.1)
]

after-Ascending :
    (cursor : Cursor) (rows : List JoinedRow)
    → Ascending row_id rows
    → Ascending row_id (after cursor rows)
unfolding after
after-Ascending cursor [] a = tt
after-Ascending cursor (row ∷ rows) a = elim (Bool-cases (is_after cursor row.0)) [
  | inl later ↦ rw later (after-All row.0 cursor rows a.0, after-Ascending cursor rows a.1)
  | inr past ↦ rw past (after-Ascending cursor rows a.1)
]

order_by_id_lem : (rows : List JoinedRow) → Ascending row_id rows → order_by_id rows ≡ rows
unfolding order_by_id insert_by_id
order_by_id_lem [] a = refl
order_by_id_lem (row ∷ []) a = refl
order_by_id_lem (row ∷ other ∷ rows) a =
    let rest = order_by_id_lem (other ∷ rows) a.1 in rw rest (ground (arith, a.0.0))

-- Where every id is greater, all are after the cursor.
after_above :
    (n : ℕ) (rows : List JoinedRow) → All (λ row. n < row.0) rows → after (some n) rows ≡ rows
unfolding after
after_above n [] a = refl
after_above n (row ∷ rows) a = ground (arith, a.0, after_above n rows a.1)

-- The first cursor is not past the second.
abbrev NotPast : Cursor → Cursor → Type 0
NotPast none d = Unit {0}
NotPast (some n) none = ⊥
NotPast (some n) (some m) = n ≤ m

NotPast-is_after :
    (c d : Cursor) (id : ℕ) → NotPast c d → is_after c id ≡ false → is_after d id ≡ false
NotPast-is_after none d id k e = cc
NotPast-is_after (some n) none id k e = absurd k
NotPast-is_after (some n) (some m) id k e = ground arith

is_after-NotPast : (c : Cursor) (id : ℕ) → is_after c id ≡ true → NotPast c (some id)
is_after-NotPast none id e = tt
is_after-NotPast (some n) id e = ground arith

NotPast-trans : (a b c : Cursor) → NotPast a b → NotPast b c → NotPast a c
NotPast-trans none b c j k = tt
NotPast-trans (some n) none c j k = absurd j
NotPast-trans (some n) (some m) none j k = k
NotPast-trans (some n) (some m) (some l) j k = omega arith

-- Reading on moves the cursor forward.
last_id-NotPast :
    (cursor : Cursor) (rows : List JoinedRow)
    → Ascending row_id rows
    → All (λ row. is_after cursor row.0 ≡ true) rows
    → NotPast cursor (last_id cursor rows)
unfolding last_id
last_id-NotPast none [] a b = tt
last_id-NotPast (some n) [] a b = omega arith
last_id-NotPast cursor (row ∷ rows) a b =
    NotPast-trans cursor (some row.0) (last_id (some row.0) rows)
      (is_after-NotPast cursor row.0 b.0)
      (last_id-NotPast (some row.0) rows a.1 (All-map _ (λ r lt. ground arith) rows a.0))

take-All : {A : Type 0} (P : A → Type 0) (n : ℕ) (xs : List A) → All P xs → All P (take n xs)
take-All P zero xs a = tt
take-All P (suc n) [] a = tt
take-All P (suc n) (x ∷ xs) a = (a.0, take-All P n xs a.1)

take-Ascending :
    (n : ℕ) (rows : List JoinedRow) → Ascending row_id rows → Ascending row_id (take n rows)
take-Ascending zero rows a = tt
take-Ascending (suc n) [] a = tt
take-Ascending (suc n) (row ∷ rows) a =
    (take-All (λ r. row.0 < r.0) n rows a.0, take-Ascending n rows a.1)

after_kept :
    (cursor : Cursor) (row : JoinedRow) (rows : List JoinedRow)
    → is_after cursor row.0 ≡ true
    → after cursor (row ∷ rows) ≡ row ∷ after cursor rows
unfolding after
after_kept cursor row rows e = rw e refl

after_dropped :
    (cursor : Cursor) (row : JoinedRow) (rows : List JoinedRow)
    → is_after cursor row.0 ≡ false
    → after cursor (row ∷ rows) ≡ after cursor rows
unfolding after
after_dropped cursor row rows e = rw e refl

after_none : (cursor : Cursor) → after cursor [] ≡ []
unfolding after
after_none cursor = refl

after_rest :
    (cursor : Cursor) (n : ℕ) (rows : List JoinedRow)
    → is_after cursor n ≡ true
    → All (λ row. n < row.0) rows
    → after cursor rows ≡ rows
unfolding after
after_rest cursor n [] e a = refl
after_rest none n (row ∷ rows) e a = ground (arith, after_rest none n rows e a.1)
after_rest (some m) n (row ∷ rows) e a = ground (arith, e, a.0, after_rest (some m) n rows e a.1)

after_own :
    (cursor : Cursor) (rows : List JoinedRow)
    → All (λ row. is_after cursor row.0 ≡ true) (after cursor rows)
unfolding after
after_own cursor [] = tt
after_own cursor (row ∷ rows) = elim (Bool-cases (is_after cursor row.0)) [
  | inl later ↦ rw (after_kept cursor row rows later) (later, after_own cursor rows)
  | inr past ↦ rw (after_dropped cursor row rows past) (after_own cursor rows)
]

-- The rows after the last of a page are those that the page left out.
after-last_id :
    (n : ℕ) (cursor : Cursor) (rows : List JoinedRow)
    → Ascending row_id rows
    → after (last_id cursor (take n (after cursor rows))) rows ≡ drop n (after cursor rows)
unfolding last_id
after-last_id zero cursor rows a = refl
after-last_id (suc n) cursor [] a = after_none _ ∙ sym (ap (drop (suc n)) (after_none cursor))
after-last_id (suc n) cursor (row ∷ rows) a = elim (Bool-cases (is_after cursor row.0)) [
  | inl later ↦
      let all : after (some row.0) rows ≡ rows = after_above row.0 rows a.0 in
      let page : after cursor (row ∷ rows) ≡ row ∷ rows =
        after_kept cursor row rows later
        ∙ ap (λ l. row ∷ l) (after_rest cursor row.0 rows later a.0) in
      let last = last_id (some row.0) (take n rows) in
      let rest : after last rows ≡ drop n rows =
        subst (λ l. after (last_id (some row.0) (take n l)) rows ≡ drop n l) all
          (after-last_id n (some row.0) rows a.1) in
      let passed : is_after last row.0 ≡ false =
        NotPast-is_after (some row.0) last row.0
          (last_id-NotPast (some row.0) (take n rows) (take-Ascending n rows a.1) (
            take-All (λ r. is_after (some row.0) r.0 ≡ true) n rows
              (All-map _ (λ r lt. ground arith) rows a.0)))
          (ground arith) in
      rw page (after_dropped last row rows passed ∙ rest)
  | inr past ↦
      let page = after_dropped cursor row rows past in
      let last = last_id cursor (take (suc n) (after cursor rows)) in
      let passed : is_after last row.0 ≡ false =
        NotPast-is_after cursor last row.0
          (last_id-NotPast cursor (take (suc n) (after cursor rows))
            (take-Ascending (suc n) (after cursor rows) (after-Ascending cursor rows a.1))
            (take-All (λ r. is_after cursor r.0 ≡ true) (suc n) (after cursor rows)
              (after_own cursor rows)))
          past in
      rw page (after_dropped last row rows passed ∙ after-last_id (suc n) cursor rows a.1)
]

take_plus : {A : Type 0} (m n : ℕ) (xs : List A) → take m xs ++ take n (drop m xs) ≡ take (m + n) xs
take_plus zero n xs = ap (λ k. take k xs) (omega arith)
take_plus {A} (suc m) n [] = take_none n ∙ sym (take_none (suc m + n))
  where
    take_none : (k : ℕ) → take {A = A} k [] ≡ []
    take_none zero = refl
    take_none (suc k) = refl
take_plus (suc m) n (x ∷ xs) = ap (λ l. x ∷ l) (take_plus m n xs) ∙ ap (λ k. take k (x ∷ xs)) more
  where
    more : suc (m + n) ≡ suc m + n
    more = omega arith

last_id-append :
    (cursor : Cursor) (xs ys : List JoinedRow)
    → last_id cursor (xs ++ ys) ≡ last_id (last_id cursor xs) ys
unfolding last_id
last_id-append cursor [] ys = refl
last_id-append cursor (x ∷ xs) ys = last_id-append (some x.0) xs ys

-- Pages with the given limits, each from where the last one ended.
unfoldable pub pages : Db → Cursor → List ℕ → List (WithHeightAndId Bool) × Cursor
unfolding page
pages db cursor [] = ([], cursor)
pages db cursor (limit ∷ limits) =
    let (first, last) = page db cursor limit in
    let (rest, end) = pages db last limits in (first ++ rest, end)

abbrev pub sum : List ℕ → ℕ
sum [] = 0
sum (n ∷ ns) = n + sum ns

-- `page` on a table in the order of its ids.
pub page_lem :
    (db : Db) (cursor : Cursor) (limit : ℕ)
    → Ascending event_id db.event
    → page db cursor limit ≡ (
      map (λ row. row.1) (take limit (after cursor (join_blocks db.event db.block))),
      last_id cursor (take limit (after cursor (join_blocks db.event db.block))),
    )
unfolding page
page_lem db cursor limit a =
    rw
      (order_by_id_lem (after cursor (join_blocks db.event db.block)) (
        after-Ascending cursor (join_blocks db.event db.block)
          (join_blocks-Ascending db.event db.block a)))
      refl

pub pages_lem :
    (db : Db) (cursor : Cursor) (limits : List ℕ)
    → Ascending event_id db.event
    → pages db cursor limits ≡ page db cursor (sum limits)
unfolding pages
pages_lem db cursor [] a = sym (page_lem db cursor 0 a)
pages_lem db cursor (limit ∷ limits) a =
    let joined = join_blocks db.event db.block in
    let rows = after cursor joined in
    let first = take limit rows in
    let last = last_id cursor first in
    let more = take (sum limits) (drop limit rows) in
    let left : after last joined ≡ drop limit rows =
      after-last_id limit cursor joined (join_blocks-Ascending db.event db.block a) in
    let rest : pages db last limits ≡ (map (λ row. row.1) more, last_id last more) =
      pages_lem db last limits a
      ∙ page_lem db last (sum limits) a
      ∙ ap (λ l. (map (λ row. row.1) (take (sum limits) l), last_id last (take (sum limits) l)))
          left in
    let whole : first ++ more ≡ take (limit + sum limits) rows =
      take_plus limit (sum limits) rows in
    ap (λ r. (r.0 ++ (pages db r.1 limits).0, (pages db r.1 limits).1)) (page_lem db cursor limit a)
    ∙ ap (λ r. (map (λ row. row.1) first ++ r.0, r.1)) rest
    ∙ ap (λ l. (l, last_id last more)) (sym (map-append (λ row. row.1) first more))
    ∙ ap (λ l. (map (λ row. row.1) (first ++ more), l)) (sym (last_id-append cursor first more))
    ∙ ap (λ l. (map (λ row. row.1) l, last_id cursor l)) whole
    ∙ sym (page_lem db cursor (limit + sum limits) a)

-- Calls of `next`, each with the cursor that the last one gave.
unfoldable pub read_pages : Db → Cursor → List ℕ → Outcome (List (WithHeightAndId Bool) × Cursor)
unfolding next
read_pages db cursor [] = ok ([], cursor)
read_pages db cursor (limit ∷ limits) = do
  first ← next db cursor limit
  rest ← read_pages db first.1 limits
  ok (first.0 ++ rest.0, rest.1)

abbrev pub Fits : ℕ → Type 0
Fits limit = limit < 2 ^ 63

next-page :
    (db : Db) (cursor : Cursor) (limit : ℕ)
    → Fits limit
    → next db cursor limit ≡ ok (page db cursor limit)
unfolding next
next-page db cursor limit h = let low : ltb limit (2 ^ 63) ≡ true = ground arith in rw low refl

-- Calls with limits that fit in 63 bits succeed.
pub read_pages-pages :
    (db : Db) (cursor : Cursor) (limits : List ℕ)
    → All Fits limits
    → read_pages db cursor limits ≡ ok (pages db cursor limits)
unfolding read_pages pages
read_pages-pages db cursor [] a = refl
read_pages-pages db cursor (limit ∷ limits) a =
    rw (next-page db cursor limit a.0, read_pages-pages db (page db cursor limit).1 limits a.1) refl

sum-Fits : (limits : List ℕ) → Fits (sum limits) → All Fits limits
sum-Fits [] h = tt
sum-Fits (limit ∷ limits) h = (omega arith, sum-Fits limits (omega arith))

-- Pages with limits whose sum is below 2^63, each read from where the one before ended, are
-- together the one page with the sum of the limits, and end at its cursor, where the ids of the
-- events go up.
pub read_pages_lem :
    (db : Db) (cursor : Cursor) (limits : List ℕ)
    → Ascending event_id db.event
    → sum limits < 2 ^ 63
    → read_pages db cursor limits ≡ next db cursor (sum limits)
read_pages_lem db cursor limits a small =
    read_pages-pages db cursor limits (sum-Fits limits small)
    ∙ ap (λ r. ok r) (pages_lem db cursor limits a)
    ∙ sym (next-page db cursor (sum limits) small)
