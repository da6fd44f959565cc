-- ===== src/Indexer/Follow.antt =====
-- The loop of `run` in src/main.rs: the prefetcher and the store stay in step.
use rust_bitcoin_indexer.Base.{
  ℕ, zero, suc, ◌≤◌, ◌<◌, ◌≡◌, ◌∙◌, sym, ap, refl, inl, inr, Option, List, [], ◌∷◌, ◌++◌, arith,
  length, take, get_elem?-push, All,
}
use rust_bitcoin_indexer.Base.Outcome.{ok, >>=-eq-ok, subst_ok}
use rust_bitcoin_indexer.Types.{BlockHeight, BlockHash, u32_size, RpcBlockWithPrevId}
use rust_bitcoin_indexer.Bitcoin.{Block, BlockData, Network}
use rust_bitcoin_indexer.Db.Current.{at_height, cut}
use rust_bitcoin_indexer.Prefetcher.{Prefetcher, Deliveries, next}
use rust_bitcoin_indexer.Prefetcher.Window.{next_low}
use rust_bitcoin_indexer.Prefetcher.Session.{AreSessions, IsAhead}
use rust_bitcoin_indexer.Prefetcher.Tracking.{IsTracking}
use rust_bitcoin_indexer.Prefetcher.Next.{next-Yields}
use rust_bitcoin_indexer.Prefetcher.Order.{follow}
use rust_bitcoin_indexer.Prefetcher.Origin.{HasOnly, next-HasOnly}
use rust_bitcoin_indexer.Store.Insert.{insert}
use rust_bitcoin_indexer.Store.Genuine.{IsGenuine}
use rust_bitcoin_indexer.Store.Linked.{HasParent}
use rust_bitcoin_indexer.Store.Indexing.{IsIndexing, insert-IsIndexing}
use rust_bitcoin_indexer.Indexer.{Indexer, process_block, process_items}
use rust_bitcoin_indexer.Indexer.Chain.{get_elem?-some, Agrees, put-Agrees, same-Agrees}

abbrev pub parent_id : Block → BlockHash
parent_id b = b.prev_blockhash

-- What the workers send are blocks as their ids say, as sessions that `next` can read.
pub record AreBlocks (block_of : ℕ → BlockData) (workers : Deliveries Block) : Type 0 where
  pub sessions : AreSessions parent_id workers
  pub genuine :
      (session threads : ℕ) (height : BlockHeight)
      → All (λ item. IsGenuine block_of item.block) (workers session threads height)

module _ (block_of : ℕ → BlockData) where
  -- What is known of each block on its way.
  abbrev pub IsSound : BlockData → Type 0
  IsSound b = IsGenuine block_of b × (suc b.height < u32_size)

  -- The reader's chain is linked and tracked by the prefetcher, and it agrees with the chain of the
  -- store.
  pub record IsFollowing (lo : BlockHeight) (p : Prefetcher Block) (x : Indexer)
      (chain : List BlockData) (view : List BlockHash) : Type 0 where
    pub tracking : IsTracking parent_id lo p chain
    pub sound : HasOnly IsSound p
    pub indexing : IsIndexing block_of x.db view
    pub agrees : Agrees chain view

  module _ (workers : Deliveries Block) (blocks : AreBlocks block_of workers) where
    pub workers-IsSound :
        (session threads : ℕ) (height : BlockHeight)
        → All (λ item. IsSound item.block) (workers session threads height)
    workers-IsSound session threads height =
        both (workers session threads height) (blocks.sessions session threads height).0
          (blocks.genuine session threads height)
      where
        both :
            (items : List (RpcBlockWithPrevId Block))
            → All (IsAhead parent_id height) items
            → All (λ item. IsGenuine block_of item.block) items
            → All (λ item. IsSound item.block) items
        both [] a g = tt
        both (item ∷ items) a g = ((g.0, omega (arith, a.0.1.1)), both items a.1 g.1)

    module _ (address : Network → ℕ → Option ℕ) where
      -- The parent of a block that continues the reader's chain is the block below it in the store.
      following-HasParent :
          (lo : BlockHeight) (q : Prefetcher Block) (chain : List BlockData) (view : List BlockHash)
          (b : BlockData)
          → b.height ≤ length chain
          → IsTracking parent_id lo q (take b.height chain ++ b ∷ [])
          → Agrees chain view
          → HasParent block_of b view
      following-HasParent lo q chain view b high t k = go b.height refl
        where
          go : (n : ℕ) → n ≡ b.height → HasParent block_of b view
          go zero e = inl (sym e)
          go (suc h) e =
              let (a, below) = get_elem?-some chain h (omega (arith, e, high)) in
              let under = get_elem?-push b.height h chain b high in
              let top = get_elem?-push b.height (suc h) chain b high in
              let parent : b.payload.prev_blockhash ≡ a.id =
                t.linked.parent h a b (ground (arith, under, below, e)) (ground (arith, top, e)) in
              inr (
                ap (λ j. at_height j view) (omega (arith, e))
                ∙ k.at h a below
                ∙ ap (λ i. i ∷ []) (sym parent))

      -- One round of the loop.
      round :
          (lo : BlockHeight) (p : Prefetcher Block) (x y : Indexer) (chain : List BlockData)
          (view : List BlockHash) (b : BlockData) (q : Prefetcher Block)
          → IsFollowing lo p x chain view
          → next workers p ≡ ok (b, q)
          → b.height ≤ p.cur_height
          → IsTracking parent_id (next_low lo b.height) q (take b.height chain ++ b ∷ [])
          → process_block address x b ≡ ok y
          → (view' : List BlockHash) × IsFollowing
              (next_low lo b.height)
              q
              y
              (take b.height chain ++ b ∷ [])
              view'
      unfolding process_block
      round lo p x y chain view b q k got below t e =
          let sent = next-HasOnly IsSound workers workers-IsSound p q b k.sound got in
          let high : b.height ≤ length chain = omega (arith, below, k.tracking.extends) in
          let parent = following-HasParent (next_low lo b.height) q chain view b high t k.agrees in
          let (db, inserted, done) = >>=-eq-ok (insert address x.db b) _ e in
          let Goal = λ (z : Indexer).
            (view' : List BlockHash) × IsFollowing (next_low lo b.height) q z
              (take b.height chain ++ b ∷ []) view' in
          elim (insert-IsIndexing block_of x.db b view k.indexing sent.0.0 parent
            (omega (arith, high, k.agrees.tall)) address db sent.0.1 inserted) [
              | inl put ↦ subst_ok Goal done (
                b.id ∷ cut b.height view,
                record {
                  tracking = t;
                  sound = sent.1;
                  indexing = put;
                  agrees = put-Agrees chain view b high k.agrees;
                },
              )
              | inr (there, kept) ↦ subst_ok Goal done (
                view,
                record {
                  tracking = t;
                  sound = sent.1;
                  indexing = kept;
                  agrees = same-Agrees chain view b high there k.agrees;
                },
              )
            ]

      -- What a number of rounds comes to: the reader's chain is that of reading the blocks with
      -- `chain_insert`, and the store keeps in step with it.
      abbrev pub Follows :
          ℕ → Prefetcher Block → List BlockData → Prefetcher Block → Indexer → Type 0
      Follows n p chain q y =
          (lo : BlockHeight) × (chain' : List BlockData) × (view : List BlockHash) × (follow workers
              n p chain
            ≡ ok (chain', q))
          × IsFollowing lo q y chain' view

      pub process_items-Follows :
          (n : ℕ) (lo : BlockHeight) (p q : Prefetcher Block) (x y : Indexer)
          (chain : List BlockData) (view : List BlockHash)
          → IsFollowing lo p x chain view
          → process_items address workers n p x ≡ ok (q, y)
          → Follows n p chain q y
      unfolding process_items follow
      process_items-Follows zero lo p q x y chain view k e =
          subst_ok (λ r. Follows zero p chain r.0 r.1) e (lo, chain, view, refl, k)
      process_items-Follows (suc n) lo p q x y chain view k e =
          elim (next-Yields workers parent_id blocks.sessions lo p chain k.tracking) [
            | inl waits ↦ ground (arith, e, waits)
            | inr (inl (deep, low)) ↦ ground (arith, e, deep)
            | inr (inr (b, p', got, below, up, inserted, t)) ↦
                let (x', put, e2) =
                  >>=-eq-ok (process_block address x b) _ (rw (process_items, got) at e) in
                let (view', k') = round lo p x x' chain view b p' k got below t put in
                let (lo', chain', last, read, kept) =
                  process_items-Follows n (next_low lo b.height) p' q x' y
                    (take b.height chain ++ b ∷ []) view' k' e2 in
                (lo', chain', last, rw (got, inserted) read, kept)
          ]
