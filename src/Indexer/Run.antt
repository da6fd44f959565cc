-- ===== src/Indexer/Run.antt =====
-- `run` of src/main.rs from a database: the start below the last indexed block, and the loop.
use rust_bitcoin_indexer.Base.{
  ℕ, suc, ◌+◌, ◌-◌, ◌≤◌, ◌<◌, ◌≡◌, ◌∙◌, sym, ap, subst, refl, inl, Option, none, some, List, [],
  ◌∷◌, map, arith, leb, true, length,
}
use rust_bitcoin_indexer.Base.Outcome.{ok, ◌>>=◌, >>=-eq-ok}
use rust_bitcoin_indexer.BTreeMap.{get}
use rust_bitcoin_indexer.Types.{BlockHeight, BlockHash, u32_size}
use rust_bitcoin_indexer.Bitcoin.{Block, BlockData, Network}
use rust_bitcoin_indexer.Hash.{hash_to_hash_id}
use rust_bitcoin_indexer.Db.{Db}
use rust_bitcoin_indexer.Db.Current.{at_height}
use rust_bitcoin_indexer.Prefetcher.{Prefetcher, Deliveries}
use rust_bitcoin_indexer.Prefetcher
use rust_bitcoin_indexer.Prefetcher.Tracking.{IsTracking}
use rust_bitcoin_indexer.Prefetcher.Order.{new_at_genesis, new_at_block}
use rust_bitcoin_indexer.Prefetcher.Origin.{new-HasOnly}
use rust_bitcoin_indexer.Store.{Pipeline, IndexerStore, flush_workers, flush_batch}
use rust_bitcoin_indexer.Store.Insert.{get_hash_by_height, get_head_height}
use rust_bitcoin_indexer.Store.Coherent.{IsCoherent}
use rust_bitcoin_indexer.Store.Holding.{IsHolding-written}
use rust_bitcoin_indexer.Store.Differs.{read_some}
use rust_bitcoin_indexer.Store.Relabel.{forget}
use rust_bitcoin_indexer.Store.Genuine.{AreGenuine}
use rust_bitcoin_indexer.Store.Linked.{LinkedView, at_height-some}
use rust_bitcoin_indexer.Store.Start
use rust_bitcoin_indexer.Store.Recovery.{HasKeys, Started, new-Started, new-HasKeys}
use rust_bitcoin_indexer.Indexer.{Indexer, new, start, run, process_items}
use rust_bitcoin_indexer.Indexer.Chain.{
  chain_of, length-chain_of, get_elem?-chain_of, chain_of-Agrees, chain_of-IsLinked,
}
use rust_bitcoin_indexer.Indexer.Follow.{
  parent_id, AreBlocks, IsFollowing, IsSound, workers-IsSound, Follows, process_items-Follows,
}

module _ (address : Network → ℕ → Option ℕ) where
  -- There is nothing to wait for.
  flush_workers_idle :
      (s : IndexerStore) (pipeline : Option Pipeline)
      → s.pipeline ≡ pipeline
      → s.batch ≡ []
      → s.in_flight ≡ []
      → flush_workers address s ≡ ok s
  unfolding flush_workers flush_batch
  flush_workers_idle s none e b f = ground (arith, e)
  flush_workers_idle s (some w) e b f = ground (arith, e, b, f)

  get_hash_by_height_held :
      (s : IndexerStore) (db : Db) (c : List BlockHash) (h : BlockHeight) (x : BlockHash)
      → Started db c s
      → h < length c
      → at_height h c ≡ x ∷ []
      → get_hash_by_height address s h ≡ ok (some x, s)
  unfolding get_hash_by_height get
  get_hash_by_height_held s db c h x k below at =
      let coherent = IsHolding-written s db.block c k.holding k.workers in
      let read = read_some s.db h x (coherent.current.at h ∙ at) in
      let idle = flush_workers_idle s s.pipeline refl k.no_batch k.none_in_flight in
      ground (arith, k.holding.counted, k.holding.settled, idle, read)

  module _ (x : Indexer) (db : Db) (c : List BlockHash) (k : Started db c x.db)
      (known : length c ≤ suc x.node_starting_chainhead_height) where
    start_empty : length c ≡ 0 → start address x ≡ ok (none, x)
    unfolding start get_head_height
    start_empty e = ground (arith, e, k.holding.counted)

    start_below :
        (id : BlockHash)
        → 0 < length c
        → at_height (length c - 1 - 100) c ≡ id ∷ []
        → start address x ≡ ok (some (length c - 1 - 100, id), x)
    unfolding get_head_height start
    start_below id some_block at =
        let held = get_hash_by_height_held x.db db c (length c - 1 - 100) id k (omega arith) at in
        let head : get_head_height x.db ≡ some (length c - 1) = ground (arith, k.holding.counted) in
        let fits : leb (length c - 1) x.node_starting_chainhead_height ≡ true = ground arith in
        rw (start, head, fits, held) refl

module _ (block_of : ℕ → BlockData) (workers : Deliveries Block)
    (blocks : AreBlocks block_of workers) (address : Network → ℕ → Option ℕ) (cpus : ℕ)
    (block_count : BlockHeight) (network : Network) (db : Db) (c : List BlockHash)
    (k : IsCoherent (length c) db c) (recorded : db.bulk_mode ≡ none → db.block ≡ [])
    (genuine : AreGenuine block_of (map forget db.block)) (linked : LinkedView block_of c)
    (known : length c ≤ suc block_count) (small : length c + 1 < u32_size) where
  -- Where the prefetcher starts it tracks the chain of the database.
  pub record Ready (x : Indexer) : Type 0 where
    pub from : Option (BlockHeight × BlockHash)
    pub p : Prefetcher Block
    pub lo : BlockHeight
    pub started : start address x ≡ ok (from, x)
    pub made : Prefetcher.new workers cpus block_count from ≡ ok p
    pub following : IsFollowing block_of lo p x (chain_of block_of c) c

  module _ (x : Indexer) (held : Started db c x.db)
      (node : x.node_starting_chainhead_height ≡ block_count) where
    following :
        (lo : BlockHeight) (from : Option (BlockHeight × BlockHash)) (p : Prefetcher Block)
        → Prefetcher.new workers cpus block_count from ≡ ok p
        → IsTracking parent_id lo p (chain_of block_of c)
        → IsFollowing block_of lo p x (chain_of block_of c) c
    following lo from p made t = record {
      tracking = t;
      sound =
          new-HasOnly (IsSound block_of) workers (workers-IsSound block_of workers blocks) cpus
            block_count from p made;
      indexing = record {
        rows = db.block;
        represents = inl held.holding;
        genuine = genuine;
        linked = linked;
      };
      agrees = chain_of-Agrees block_of c linked;
    }

    at_start : (d : List BlockHash) → d ≡ c → Ready x
    at_start [] e =
        let (p, made, t, _, _) =
          new_at_genesis workers parent_id blocks.sessions cpus block_count in
        record {
          from = none;
          p = p;
          lo = 0;
          started =
              start_empty address x db c held (omega (arith, known, node)) (ap length (sym e));
          made = made;
          following =
              following 0 none p made
                (subst (λ l. IsTracking parent_id 0 p (chain_of block_of l)) e t);
        }
    at_start (top ∷ d) e =
        let some_block : 0 < length c = omega (arith, ap length e) in
        let h = length c - 1 - 100 in
        let (id, at) = at_height-some h c (omega arith) in
        let same = (linked.named h id at).0 in
        let (p, made, t) =
          new_at_block workers parent_id blocks.sessions cpus block_count h
            (block_of (hash_to_hash_id id)) (chain_of block_of c)
            (get_elem?-chain_of block_of c h id at) (omega (arith, length-chain_of block_of c))
            (omega (arith, small)) (chain_of-IsLinked block_of c linked) in
        let made' : Prefetcher.new workers cpus block_count (some (h, id)) ≡ ok p =
          subst (λ i. Prefetcher.new workers cpus block_count (some (h, i)) ≡ ok p) same made in
        record {
          from = some (h, id);
          p = p;
          lo = h;
          started = start_below address x db c held (omega (arith, known, node)) id some_block at;
          made = made';
          following = following h (some (h, id)) p made' t;
        }

  -- From a coherent database whose rows are those of their blocks, whose chain is linked, fits in
  -- 32 bits and is no longer than the node's, and whose tables have the keys that the recorded
  -- mode adds where it is not the fresh one, the indexer is made, its start point is found and
  -- the prefetcher is made there, without an error or a panic, and then the store represents the
  -- database's chain, which the prefetcher tracks; the workers send blocks as their ids say, in
  -- sessions as `AreSessions` describes, and the database knows its mode or has no block.
  pub new-Ready : HasKeys db → (x : Indexer) × (new address db block_count network ≡ ok x) × Ready x
  unfolding new
  new-Ready keys =
      let (s, e, held) = new-Started address block_count network db c k recorded keys in
      let x : Indexer = record { node_starting_chainhead_height = block_count; db = s } in
      (x, rw e refl, at_start x held refl c refl)

  -- Where the indexer is made, the rows have had the keys of the recorded mode.
  made-HasKeys : (x : Indexer) → new address db block_count network ≡ ok x → HasKeys db
  unfolding new
  made-HasKeys x e =
      let (s, made, rest) = >>=-eq-ok (Start.new address db block_count network) _ e in
      new-HasKeys address block_count network db c k recorded s made

  -- However many blocks `run` has taken, from a coherent database whose rows are those of their
  -- blocks, whose chain is linked, fits in 32 bits and is no longer than the node's, the reader's
  -- chain is that of inserting what the prefetcher gave into the database's chain, it is linked,
  -- and the store represents a chain with the same block at each of its heights; the workers send
  -- blocks as their ids say, in sessions as `AreSessions` describes, and the database knows its
  -- mode or has no block.
  pub run-Follows :
      (n : ℕ) (q : Prefetcher Block) (y : Indexer)
      → new address db block_count network >>= run address workers n cpus block_count ≡ ok (q, y)
      → (from : Option (BlockHeight × BlockHash)) × (p : Prefetcher Block) × (Prefetcher.new workers
            cpus block_count from
          ≡ ok p)
        × Follows block_of workers blocks address n p (chain_of block_of c) q y
  unfolding run
  run-Follows n q y e =
      let (z, built, _) = >>=-eq-ok (new address db block_count network) _ e in
      let (x, made, r) = new-Ready (made-HasKeys z built) in
      let e1 : process_items address workers n r.p x ≡ ok (q, y) =
        rw (made, run, r.started, r.made) at e in
      (
        r.from,
        r.p,
        r.made,
        process_items-Follows block_of workers blocks address n r.lo r.p q x y (chain_of block_of c)
            c r.following e1,
      )
