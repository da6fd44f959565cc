-- ===== src/Prefetcher/Sends.antt =====
-- What the worker threads of src/node/prefetcher.rs send, whatever the node answers and however the
-- threads take turns: each height at most once, and none below the start.
use rust_bitcoin_indexer.Base.{
  ℕ, ◌+◌, ◌-◌, ◌*◌, ◌≤◌, ◌≡◌, ◌∙◌, ◌⊎◌, sym, ap, subst, refl, inl, inr, true, Option, none, some,
  [], ◌∷◌, ◌++◌, arith, Bool-cases, Option-cases,
}
use rust_bitcoin_indexer.Base.Outcome.{
  Outcome, ok, err, panic, blocked, out_of_fuel, >>=-eq-ok, subst_ok,
}
use rust_bitcoin_indexer.BTreeMap.{BTreeMap, first}
use rust_bitcoin_indexer.Types.{BlockHeight, BlockHash, u32_size, RpcBlockWithPrevId}
use rust_bitcoin_indexer.Prefetcher.Worker.{
  get_min_height_in_progress, Rpc, get_block_by_height, Pc, idle, stopped, fetching, Worker, Shared,
  get_height_to_fetch, error_delay, handle, work, Session, set, IsNode, works, finishes, Reach,
  started, later,
}
use rust_bitcoin_indexer.Prefetcher.Session.{AreSessions}
use rust_bitcoin_indexer.Prefetcher.{Deliveries}
use rust_bitcoin_indexer.Prefetcher.Rounds.{
  PcHolds, WorkerHolds, Holds, begin-Holds, quiet-Holds, take-Holds, send-Holds,
  get_block_by_height-IsGood, mark_height_fetched_lem, work_ends, work_goes,
}

module _ {D : Type 0} (prev : D → BlockHash) (start : BlockHeight) where
  module _ (retry_delay threads : ℕ) where
    -- Every state of a session has counted no further than 2 ^ 32, so that no height wraps.
    abbrev pub StaysBelow : {s : Session D} → Reach prev retry_delay threads start s → Type 0
    StaysBelow started = start ≤ u32_size
    StaysBelow (later {s} {t} r step) = StaysBelow r × (t.shared.next_height ≤ u32_size)

    counted :
        {s : Session D} (r : Reach prev retry_delay threads start s)
        → StaysBelow r
        → s.shared.next_height ≤ u32_size
    counted started b = b
    counted (later r step) b = b.1

    -- A worker at a height, with what the node answers.
    ask-Holds :
        (s : Session D) (i : ℕ) (rpc : Rpc D) (h : BlockHeight) (shared : Shared D) (w : Worker)
        → Holds prev start s
        → IsNode prev rpc
        → (s.worker i).pc ≡ fetching h
        → (answer : Outcome (Option (RpcBlockWithPrevId D))) → get_block_by_height rpc h ≡ answer
        → handle retry_delay h s.shared (s.worker i) answer ≡ ok (shared, w)
        → Holds prev start (record { shared = shared; worker = set s.worker i w })
    unfolding handle
    ask-Holds s i rpc h shared w k node at (ok none) asked e =
        subst_ok (λ r. Holds prev start (record { shared = r.0; worker = set s.worker i r.1 })) e
          (quiet-Holds prev start s i (s.worker i) k (k.every i) (λ g q. q))
    ask-Holds s i rpc h shared w k node at (ok (some item)) asked e =
        let own = subst (PcHolds start s.shared (s.worker i).in_progress) at (k.every i) in
        let good = get_block_by_height-IsGood prev rpc h item node asked in
        subst_ok (λ r. Holds prev start (record { shared = r.0; worker = set s.worker i r.1 }))
          (rw (handle, mark_height_fetched_lem h (s.worker i) own.0) at e)
          (send-Holds prev start s i h item k at good)
    ask-Holds s i rpc h shared w k node at err asked e =
        let (delay, slept, last) = >>=-eq-ok (error_delay retry_delay h (s.worker i)) _ e in
        subst_ok (λ r. Holds prev start (record { shared = r.0; worker = set s.worker i r.1 })) last
          (quiet-Holds prev start s i (s.worker i) k (k.every i) (λ g q. q))
    ask-Holds s i rpc h shared w k node at panic asked e = cc
    ask-Holds s i rpc h shared w k node at blocked asked e = cc
    ask-Holds s i rpc h shared w k node at out_of_fuel asked e = cc

    work-Holds :
        (s : Session D) (i : ℕ) (rpc : Rpc D) (shared : Shared D) (w : Worker)
        → Holds prev start s
        → IsNode prev rpc
        → s.shared.next_height ≤ u32_size
        → shared.next_height ≤ u32_size
        → (pc : Pc) → (s.worker i).pc ≡ pc
        → work retry_delay rpc s.shared (s.worker i) ≡ ok (shared, w)
        → Holds prev start (record { shared = shared; worker = set s.worker i w })
    unfolding work
    work-Holds s i rpc shared w k node now small idle at e =
        let own : (s.worker i).in_progress ≡ [] =
          subst (PcHolds start s.shared (s.worker i).in_progress) at (k.every i) in
        let taken : ok (get_height_to_fetch s.shared (s.worker i)) ≡ ok (shared, w) =
          rw (work, at) at e in
        subst_ok
          (λ r.
            r.0.next_height ≤ u32_size
            → Holds prev start (record { shared = r.0; worker = set s.worker i r.1 }))
          taken (λ few. take-Holds prev start s i k own few now) small
    work-Holds s i rpc shared w k node now small stopped at e =
        subst_ok (λ r. Holds prev start (record { shared = r.0; worker = set s.worker i r.1 }))
          (rw (work, at) at e) (quiet-Holds prev start s i (s.worker i) k (k.every i) (λ g q. q))
    work-Holds s i rpc shared w k node now small (fetching h) at e =
        elim (Bool-cases s.shared.workers_finish) [
          | inl ends ↦
              subst_ok
                (λ r. Holds prev start (record { shared = r.0; worker = set s.worker i r.1 }))
                (sym (work_ends retry_delay rpc s.shared (s.worker i) h at ends) ∙ e)
                (quiet-Holds prev start s i (record (s.worker i) { pc = stopped }) k tt (λ g q. cc))
          | inr goes ↦
              ask-Holds s i rpc h shared w k node at (get_block_by_height rpc h) refl
                (sym (work_goes retry_delay rpc s.shared (s.worker i) h at goes) ∙ e)
        ]

    Reach-Holds :
        {s : Session D} (r : Reach prev retry_delay threads start s)
        → StaysBelow r
        → Holds prev start s
    Reach-Holds started b = begin-Holds prev start
    Reach-Holds (later {s} r (works i rpc shared w lt node e)) b =
        work-Holds s i rpc shared w (Reach-Holds r b.0) node (counted r b.0) b.1 (s.worker i).pc
          refl e
    Reach-Holds (later {s} r finishes) b =
        let k = Reach-Holds r b.0 in
        record {
          from = k.from;
          ahead = k.ahead;
          below = k.below;
          distinct = k.distinct;
          every = λ i. same (s.worker i).in_progress (s.worker i).pc (k.every i);
          apart = k.apart;
        }
      where
        same :
            (in_progress : BTreeMap (Unit {0})) (pc : Pc)
            → PcHolds start s.shared in_progress pc
            → PcHolds start (record s.shared { workers_finish = true }) in_progress pc
        same in_progress idle h = h
        same in_progress stopped h = h
        same in_progress (fetching j) h = h

    no_delay :
        (w : Worker) (h : BlockHeight)
        → w.in_progress ≡ (h, tt) ∷ []
        → error_delay retry_delay h w ≡ ok 0
    unfolding error_delay get_min_height_in_progress first
    no_delay w h e =
        let same : h - h ≡ 0 = omega arith in
        let none_left : (1 + retry_delay) * (h - h) ≡ 0 =
          ap (λ n. (1 + retry_delay) * n) same ∙ omega arith in
        rw (error_delay, e, none_left) refl

    works_at :
        (s : Session D) (i : ℕ) (rpc : Rpc D)
        → ((h : BlockHeight)
            → ((a : Option (RpcBlockWithPrevId D)) × (get_block_by_height rpc h ≡ ok a))
              ⊎ (get_block_by_height rpc h ≡ err))
        → (pc : Pc) → (s.worker i).pc ≡ pc
        → WorkerHolds start s.shared (s.worker i)
        → (t : Shared D × Worker) × (work retry_delay rpc s.shared (s.worker i) ≡ ok t)
    unfolding work handle
    works_at s i rpc answers idle at k =
        (get_height_to_fetch s.shared (s.worker i), rw (work, at) refl)
    works_at s i rpc answers stopped at k = ((s.shared, s.worker i), ground (arith, at))
    works_at s i rpc answers (fetching h) at k = elim (Bool-cases s.shared.workers_finish) [
      | inl ends ↦ (_, work_ends retry_delay rpc s.shared (s.worker i) h at ends)
      | inr goes ↦
          let own = subst (PcHolds start s.shared (s.worker i).in_progress) at k in
          let asks = work_goes retry_delay rpc s.shared (s.worker i) h at goes in
          elim (answers h) [
            | inr failed ↦ (
              (s.shared, s.worker i),
              asks ∙ rw (failed, handle, no_delay (s.worker i) h own.0) refl,
            )
            | inl (answer, got) ↦ elim (Option-cases answer) [
              | inl missing ↦ ((s.shared, s.worker i), asks ∙ rw (got, missing, handle) refl)
              | inr (item, here) ↦ (
                (
                  record s.shared { sent = s.shared.sent ++ item ∷ [] },
                  record { pc = idle; in_progress = [] },
                ),
                asks ∙ rw (got, here, handle, mark_height_fetched_lem h (s.worker i) own.0) refl,
              )
            ]
          ]
    ]

    -- In a session that never counts past 2 ^ 32, a worker that the node answers, be it with an
    -- error, takes its step without a panic, and after an error it sleeps for 0 milliseconds.
    pub Reach-Works :
        {s : Session D} (r : Reach prev retry_delay threads start s)
        → StaysBelow r
        → (i : ℕ) (rpc : Rpc D)
        → ((h : BlockHeight)
            → ((a : Option (RpcBlockWithPrevId D)) × (get_block_by_height rpc h ≡ ok a))
              ⊎ (get_block_by_height rpc h ≡ err))
        → ((t : Shared D × Worker) × (work retry_delay rpc s.shared (s.worker i) ≡ ok t))
          × ((h : BlockHeight)
              → (s.worker i).pc ≡ fetching h
              → error_delay retry_delay h (s.worker i) ≡ ok 0)
    Reach-Works {s} r b i rpc answers =
        let every = (Reach-Holds r b).every i in
        (
          works_at s i rpc answers (s.worker i).pc refl every,
          λ h at.
              no_delay (s.worker i) h
                (subst (PcHolds start s.shared (s.worker i).in_progress) at every).0,
        )

-- What the workers of each session send, whatever the node answers and however they take turns,
-- is as `next` relies on it: each height at most once, none below the start, and each item good;
-- nothing is sent in a session that is not run, and one that is run counts no further than 2 ^
-- 32.
pub Reach-AreSessions :
    {D : Type 0} (prev : D → BlockHash) (retry_delay : ℕ) (workers : Deliveries D)
    → ((session threads : ℕ) (height : BlockHeight)
        → (workers session threads height ≡ [])
          ⊎ ((s : Session D) × (r : Reach prev retry_delay threads height s) × StaysBelow prev
                height retry_delay threads r
              × (workers session threads height ≡ s.shared.sent)))
    → AreSessions prev workers
Reach-AreSessions prev retry_delay workers reached session threads height =
    elim (reached session threads height) [
      | inl nothing ↦ rw nothing (tt, tt)
      | inr (s, r, b, same) ↦
          let k = Reach-Holds prev height retry_delay threads r b in rw same (k.ahead, k.distinct)
    ]
