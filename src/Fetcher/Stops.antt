-- ===== src/Fetcher/Stops.antt =====
-- Where `Fetcher` of src/node/fetcher.rs stops.
use rust_bitcoin_indexer.Base.{
  ℕ, zero, suc, ◌<◌, ◌≡◌, ◌∙◌, sym, ap, refl, inl, inr, Bool, true, false, some, List, [], ◌∷◌,
  arith, leb, Bool-cases,
}
use rust_bitcoin_indexer.Base.Outcome.{ok, ◌>>=◌, >>=-eq-ok, subst_ok}
use rust_bitcoin_indexer.Types.{BlockHeight, WithHeightAndId}
use rust_bitcoin_indexer.Prefetcher.{Prefetcher, Deliveries}
use rust_bitcoin_indexer.Prefetcher
use rust_bitcoin_indexer.Fetcher.{Fetcher, decide, next, push_found, fetch}

-- Each block but the last is below the end, and the fetcher has ended when the last is not.
abbrev pub StopsAt : {D : Type 0} → BlockHeight → List (WithHeightAndId D) → Bool → Type 0
StopsAt end [] ended = ended ≡ false
StopsAt end (item ∷ []) ended = ended ≡ leb end item.height
StopsAt end (item ∷ more ∷ items) ended = (item.height < end) × StopsAt end (more ∷ items) ended

module _ {D : Type 0} (workers : Deliveries D) (end : BlockHeight) where
  -- A fetcher that has ended gives no more.
  fetch_ended :
      (counts : ℕ → BlockHeight) (n : ℕ) (f : Fetcher D)
      → f.ended ≡ true
      → fetch workers counts n f ≡ ok ([], f)
  unfolding fetch next
  fetch_ended counts zero f e = refl
  fetch_ended counts (suc n) f e = ground (arith, e)

  next_goes :
      (block_count : BlockHeight) (f : Fetcher D)
      → f.ended ≡ false
      → next workers block_count f ≡ (
          Prefetcher.next workers f.prefetcher >>= λ r.
          ok (some r.0, decide workers block_count r.0.height (record f { prefetcher = r.1 })))
  unfolding next
  next_goes block_count f e = ground (arith, e)

  decide_end :
      (block_count height : BlockHeight) (f : Fetcher D)
      → f.ended ≡ false
      → f.end ≡ some end
      → ((decide workers block_count height f).ended ≡ leb end height)
        × ((decide workers block_count height f).end ≡ some end)
  unfolding decide
  decide_end block_count height f e at = ground (arith, e, at)

  StopsAt-more :
      (item : WithHeightAndId D) (items : List (WithHeightAndId D)) (ended : Bool)
      → leb end item.height ≡ false
      → StopsAt end items ended
      → StopsAt end (item ∷ items) ended
  StopsAt-more item [] ended below k = k ∙ sym below
  StopsAt-more item (more ∷ items) ended below k = (ground (arith, below), k)

  after :
      (counts : ℕ → BlockHeight) (n : ℕ) (g : Fetcher D) (items : List (WithHeightAndId D))
      → ((h g' : Fetcher D) (rest : List (WithHeightAndId D))
          → h.ended ≡ false
          → h.end ≡ some end
          → fetch workers counts n h ≡ ok (rest, g')
          → StopsAt end rest g'.ended)
      → (item : WithHeightAndId D) (h : Fetcher D) → h.ended ≡ false
      → h.end ≡ some end
      → push_found workers
          (some item)
          (decide workers (counts n) item.height h)
          (fetch workers counts n (decide workers (counts n) item.height h))
        ≡ ok (items, g)
      → StopsAt end items g.ended
  after counts n g items again item h e1 e2 k =
      let (decided, kept) = decide_end (counts n) item.height h e1 e2 in
      let h' = decide workers (counts n) item.height h in
      let ((rest, g'), e3, k3) = >>=-eq-ok (fetch workers counts n h') _ k in
      elim (Bool-cases (leb end item.height)) [
        | inl reached ↦
            let none_more = fetch_ended counts n h' (decided ∙ reached) in
            subst_ok (λ r. StopsAt end r.0 r.1.ended)
              (sym (ap (λ r. r >>= λ q. ok (item ∷ q.0, q.1)) none_more) ∙ k) decided
        | inr below ↦
            subst_ok (λ r. StopsAt end r.0 r.1.ended) k3
              (StopsAt-more item rest g'.ended below (again h' g' rest (decided ∙ below) kept e3))
      ]

  -- Of a fetcher with an end, every block but the last that it gives is below the end, and it has
  -- ended exactly when the last one is not, whatever the node's block counts are.
  pub fetch-StopsAt :
      (counts : ℕ → BlockHeight) (n : ℕ) (f g : Fetcher D) (items : List (WithHeightAndId D))
      → f.ended ≡ false
      → f.end ≡ some end
      → fetch workers counts n f ≡ ok (items, g)
      → StopsAt end items g.ended
  unfolding fetch next
  fetch-StopsAt counts zero f g items goes at e = subst_ok (λ r. StopsAt end r.0 r.1.ended) e goes
  fetch-StopsAt counts (suc n) f g items goes at e =
      let ((found, f1), e1, k1) = >>=-eq-ok (next workers (counts n) f) _ e in
      let ((item, p), got, last) =
        >>=-eq-ok (Prefetcher.next workers f.prefetcher) _
          (sym (next_goes (counts n) f goes) ∙ e1) in
      subst_ok
        (λ r.
          push_found workers r.0 r.1 (fetch workers counts n r.1) ≡ ok (items, g)
          → StopsAt end items g.ended)
        last
        (λ k.
          after counts n g items (fetch-StopsAt counts n) item (record f { prefetcher = p }) goes at
            k)
        k1
