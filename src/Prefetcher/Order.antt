-- ===== src/Prefetcher/Order.antt =====
-- A whole run of `Prefetcher` in src/node/prefetcher.rs, read as src/tests.rs reads it.
use rust_bitcoin_indexer.Base.{
  ℕ, zero, suc, ◌+◌, ◌%◌, ◌≤◌, ◌<◌, ◌≡◌, ◌⊎◌, inl, inr, refl, subst, none, some, List, [], ◌∷◌,
  ◌++◌, arith, ◌==◌, length, take, get_elem?, true, false, Bool-cases, eqb→eq, sym,
}
use rust_bitcoin_indexer.Base.Outcome.{Outcome, ok, panic, blocked, ◌>>=◌}
use rust_bitcoin_indexer.BTreeMap.{get}
use rust_bitcoin_indexer.Types.{BlockHeight, BlockHash, u32_size, WithHeightAndId}
use rust_bitcoin_indexer.Prefetcher.{Prefetcher, Deliveries, window_size, new, next}
use rust_bitcoin_indexer.Prefetcher.Window.{next_low}
use rust_bitcoin_indexer.Prefetcher.Session.{AreSessions}
use rust_bitcoin_indexer.Prefetcher.Chain.{chain_insert, IsLinked}
use rust_bitcoin_indexer.Prefetcher.Tracking.{IsTracking}
use rust_bitcoin_indexer.Prefetcher.Next.{next-Yields}

module _ {D : Type 0} (workers : Deliveries D) where
  -- `n` blocks are asked for, and each is inserted into the reader's chain.
  unfoldable pub follow :
      ℕ
      → Prefetcher D
      → List (WithHeightAndId D)
      → Outcome (List (WithHeightAndId D) × Prefetcher D)
  follow zero p chain = ok (chain, p)
  follow (suc n) p chain = do
    (b, q) ← next workers p
    chain' ← chain_insert chain b.height b
    follow n q chain'

module _ {D : Type 0} (prev : D → BlockHash) where
  -- What a run comes to: a wait, a panic on a reorg below the window, or a linked chain.
  abbrev pub FollowsChain :
      BlockHeight → ℕ → Prefetcher D → Outcome (List (WithHeightAndId D) × Prefetcher D) → Type 0
  FollowsChain lo n p r =
      (r ≡ blocked)
      ⊎ ((r ≡ panic) × ((0 < lo) ⊎ (window_size < p.cur_height + n)))
      ⊎ ((chain : List (WithHeightAndId D)) × (q : Prefetcher D) × (r ≡ ok (chain, q))
          × IsLinked prev chain
          × (q.cur_height ≤ length chain))

module _ {D : Type 0} (workers : Deliveries D) (prev : D → BlockHash)
    (sessions : AreSessions prev workers) where
  -- A new prefetcher without a start block tracks the empty chain.
  pub new_at_genesis :
      (cpus : ℕ) (count : BlockHeight)
      → (p : Prefetcher D) × (new workers cpus count none ≡ ok p)
        × IsTracking prev 0 p []
        × (p.rx ≡ some (workers 0 (cpus + cpus) 0))
        × (p.cur_height ≡ 0)
  unfolding new get
  new_at_genesis cpus count = (
    _,
    refl,
    record {
      window = record {
        keys = tt;
        from = omega arith;
        upto = omega arith;
        bounded = omega arith;
        tracked = inl refl;
      };
      ready = record {
        items = workers 0 (cpus + cpus) 0;
        running = refl;
        session = record {
          ahead = (sessions 0 (cpus + cpus) 0).0;
          distinct = (sessions 0 (cpus + cpus) 0).1;
          kept = λ h item g. absurd (ground arith);
        };
      };
      extends = omega arith;
      synced = λ h x lt g. absurd (omega arith);
      linked = record { parent = λ h a b p q. absurd (ground arith) };
    },
    refl,
    refl,
  )

  -- A new prefetcher that starts at a block of a linked chain, below the last height that fits in
  -- 32 bits, is constructed and tracks that chain.
  pub new_at_block :
      (cpus : ℕ) (count height : BlockHeight) (b : WithHeightAndId D)
      (chain : List (WithHeightAndId D))
      → get_elem? chain height ≡ some b
      → height < length chain
      → suc height < u32_size
      → IsLinked prev chain
      → (p : Prefetcher D) × (new workers cpus count (some (height, b.id)) ≡ ok p)
        × IsTracking prev height p chain
  unfolding new get
  new_at_block cpus count height b chain at within small linked =
      let up : (height + 1) % u32_size ≡ suc height = omega arith in
      (
        _,
        refl,
        record {
          window = record {
            keys = (refl, tt);
            from = omega (arith, up);
            upto = omega (arith, up);
            bounded = omega arith;
            tracked = inr (omega arith);
          };
          ready = record {
            items = workers 0 (cpus + cpus) ((height + 1) % u32_size);
            running = refl;
            session = record {
              ahead = (sessions 0 (cpus + cpus) ((height + 1) % u32_size)).0;
              distinct = (sessions 0 (cpus + cpus) ((height + 1) % u32_size)).1;
              kept = λ h item g. absurd (ground arith);
            };
          };
          extends = omega (arith, up);
          synced = λ h x lt g. recorded h x g (Bool-cases (height == h));
          linked = linked;
        },
      )
    where
      recorded :
          (h : ℕ) (x : BlockHash)
          → get h ((height, b.id) ∷ []) ≡ some x
          → ((height == h) ≡ true) ⊎ ((height == h) ≡ false)
          → (a : WithHeightAndId D) × (get_elem? chain h ≡ some a) × (a.id ≡ x)
      recorded h x g (inl same) = (
        b,
        subst (λ j. get_elem? chain j ≡ some b) (eqb→eq height h same) at,
        ground (arith, same),
      )
      recorded h x g (inr other) = absurd (ground (arith, other))

  later :
      (n : ℕ) (lo : BlockHeight) (p : Prefetcher D) (b : WithHeightAndId D) (q : Prefetcher D)
      → b.height ≤ p.cur_height
      → q.cur_height ≡ suc b.height
      → (r : Outcome (List (WithHeightAndId D) × Prefetcher D))
      → FollowsChain prev (next_low lo b.height) n q r
      → FollowsChain prev lo (suc n) p r
  later n lo p b q below up r (inl waits) = inl waits
  later n lo p b q below up r (inr (inl (deep, inl low))) =
      inr (inl (deep, ground (arith, low, below)))
  later n lo p b q below up r (inr (inl (deep, inr far))) =
      inr (inl (deep, inr (omega (arith, far, below, up))))
  later n lo p b q below up r (inr (inr found)) = inr (inr found)

  -- From a prefetcher that tracks a reader's linked chain, reading any number of blocks and
  -- inserting each with `chain_insert` waits for the node, or panics where hashes below the start
  -- point or below the window of 1000 are needed, or gives a chain in which each block's parent
  -- is the block below it, whatever reorgs the node makes; the workers' sessions are as described
  -- by `AreSessions`.
  pub follow-FollowsChain :
      (n : ℕ) (lo : BlockHeight) (p : Prefetcher D) (chain : List (WithHeightAndId D))
      → IsTracking prev lo p chain
      → FollowsChain prev lo n p (follow workers n p chain)
  unfolding follow
  follow-FollowsChain zero lo p chain t = inr (inr (chain, p, refl, t.linked, t.extends))
  follow-FollowsChain (suc n) lo p chain t = elim (next-Yields workers prev sessions lo p chain t) [
    | inl waits ↦ inl (ground (arith, waits))
    | inr (inl (deep, low)) ↦ inr (inl (ground (arith, deep), inl low))
    | inr (inr (b, q, got, below, up, inserted, t')) ↦
        let eq : follow workers (suc n) p chain
            ≡ follow workers n q (take b.height chain ++ b ∷ []) =
          ground (arith, got, inserted) in
        subst (FollowsChain prev lo (suc n) p) (sym eq) (
          later n lo p b q below up _
            (follow-FollowsChain n (next_low lo b.height) q (take b.height chain ++ b ∷ []) t'))
  ]
