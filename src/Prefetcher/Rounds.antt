-- ===== src/Prefetcher/Rounds.antt =====
-- One step of a worker thread of src/node/prefetcher.rs, and what it keeps true of a session.
use rust_bitcoin_indexer.Base.{
  ℕ, suc, ◌+◌, ◌%◌, ◌^◌, ◌≤◌, ◌<◌, ◌≡◌, ◌≢◌, ◌∙◌, sym, ap, subst, refl, inl, inr, true, false,
  Option, none, some, List, [], ◌∷◌, ◌++◌, arith, ◌==◌, Bool-cases, Option-cases, All, All-append,
  All-map, eqb→eq, eqb→ne,
}
use rust_bitcoin_indexer.Base.Outcome.{ok, >>=-eq-ok, subst_ok}
use rust_bitcoin_indexer.BTreeMap.{BTreeMap, get, insert, remove}
use rust_bitcoin_indexer.Types.{BlockHeight, BlockHash, u32_size, RpcBlockWithPrevId}
use rust_bitcoin_indexer.Prefetcher.Session.{IsGood, IsAhead, NotAt, Distinct}
use rust_bitcoin_indexer.Prefetcher.Worker.{
  Rpc, get_block_by_height, Pc, idle, stopped, fetching, Worker, Shared, get_height_to_fetch,
  mark_height_fetched, handle, work, Session, begin, set, IsNode,
}

set-every :
    (P : ℕ → Worker → Type 0) (workers : ℕ → Worker) (i : ℕ) (w : Worker)
    → P i w
    → ((j : ℕ) → j ≢ i → P j (workers j))
    → (j : ℕ) → P j (set workers i w j)
set-every P workers i w here there j = elim (Bool-cases (j == i)) [
  | inl same ↦ rw same (subst (λ k. P k w) (sym (eqb→eq j i same)) here)
  | inr other ↦ rw other (there j (eqb→ne j i other))
]

NotAt-below :
    {D : Type 0} (n : BlockHeight) (items : List (RpcBlockWithPrevId D))
    → All (λ item. item.block.height < n) items
    → NotAt n items
NotAt-below n [] a = tt
NotAt-below n (item ∷ items) a = ((λ e. absurd (omega (arith, a.0, e))), NotAt-below n items a.1)

Distinct-push :
    {D : Type 0} (items : List (RpcBlockWithPrevId D)) (item : RpcBlockWithPrevId D)
    → Distinct items
    → NotAt item.block.height items
    → Distinct (items ++ item ∷ [])
Distinct-push [] item d n = (tt, tt)
Distinct-push (x ∷ items) item d n = (
  All-append (λ y. y.block.height ≢ x.block.height) items (item ∷ []) d.0 ((λ e. n.0 (sym e)), tt),
  Distinct-push items item d.1 n.1,
)

-- What the node answers at a height is good, and stands at the height.
pub get_block_by_height-IsGood :
    {D : Type 0} (prev : D → BlockHash) (rpc : Rpc D) (height : BlockHeight)
    (item : RpcBlockWithPrevId D)
    → IsNode prev rpc
    → get_block_by_height rpc height ≡ ok (some item)
    → (item.block.height ≡ height) × IsGood prev item
unfolding get_block_by_height
get_block_by_height-IsGood {D} prev rpc height item k e =
    let (found, at, rest) = >>=-eq-ok (rpc.get_block_id_by_height height) _ e in
    elim (Option-cases found) [
      | inl missing ↦ ground (arith, rest, missing)
      | inr (id, here) ↦
          let (answer, given, last) = >>=-eq-ok (rpc.get_block_by_id id) _ (rw here at rest) in
          elim (Option-cases answer) [
            | inl missing ↦ ground (arith, last, missing)
            | inr ((payload, parent), there) ↦
                let parent_of = k.parent id parent payload (given ∙ ap ok there) in
                let fits = k.fits height id (at ∙ ap ok here) in
                subst_ok (IsAt payload) (rw there at last) (refl, (parent_of, fits))
          ]
    ]
  where
    IsAt : D → Option (RpcBlockWithPrevId D) → Type 0
    IsAt payload none = Unit {0}
    IsAt payload (some i) = (i.block.height ≡ height) × IsGood prev i

-- What is known of one worker: it is at a height that the counter has passed, which nobody has sent.
abbrev pub PcHolds : {D : Type 0} → BlockHeight → Shared D → BTreeMap (Unit {0}) → Pc → Type 0
PcHolds start shared in_progress idle = in_progress ≡ []
PcHolds start shared in_progress stopped = Unit {0}
PcHolds start shared in_progress (fetching h) =
    (in_progress ≡ (h, tt) ∷ []) × (start ≤ h) × (h < shared.next_height) × NotAt h shared.sent

abbrev pub WorkerHolds : {D : Type 0} → BlockHeight → Shared D → Worker → Type 0
WorkerHolds start shared w = PcHolds start shared w.in_progress w.pc

at_fetching : (pc : Pc) (h j : BlockHeight) → pc ≡ fetching h → pc ≡ fetching j → h ≡ j
at_fetching pc h j e f = ap height_of (sym e ∙ f)
  where
    height_of : Pc → BlockHeight
    height_of (fetching i) = i
    height_of _ = 0

pub mark_height_fetched_lem :
    (h : BlockHeight) (w : Worker)
    → w.in_progress ≡ (h, tt) ∷ []
    → mark_height_fetched h w ≡ ok (record w { in_progress = [] })
unfolding mark_height_fetched get remove
mark_height_fetched_lem h w e = ground (arith, e)

pub work_ends :
    {D : Type 0} (retry_delay : ℕ) (rpc : Rpc D) (shared : Shared D) (w : Worker) (h : BlockHeight)
    → w.pc ≡ fetching h
    → shared.workers_finish ≡ true
    → work retry_delay rpc shared w ≡ ok (shared, record w { pc = stopped })
unfolding work
work_ends retry_delay rpc shared w h at ends = ground (arith, at, ends)

pub work_goes :
    {D : Type 0} (retry_delay : ℕ) (rpc : Rpc D) (shared : Shared D) (w : Worker) (h : BlockHeight)
    → w.pc ≡ fetching h
    → shared.workers_finish ≡ false
    → work retry_delay rpc shared w ≡ handle retry_delay h shared w (get_block_by_height rpc h)
unfolding work
work_goes retry_delay rpc shared w h at goes = ground (arith, at, goes)

abbrev pub Apart : (ℕ → Worker) → Type 0
Apart workers =
    (i j : ℕ) (h : BlockHeight) → i ≢ j → (workers i).pc ≡ fetching h → (workers j).pc ≢ fetching h

module _ {D : Type 0} (prev : D → BlockHash) (start : BlockHeight) where
  pub record Holds (s : Session D) : Type 0 where
    pub from : start ≤ s.shared.next_height
    pub ahead : All (IsAhead prev start) s.shared.sent
    pub below : All (λ item. item.block.height < s.shared.next_height) s.shared.sent
    pub distinct : Distinct s.shared.sent
    pub every : (i : ℕ) → WorkerHolds start s.shared (s.worker i)
    pub apart : Apart s.worker

  pub begin-Holds : Holds (begin start)
  begin-Holds = record {
    from = omega arith;
    ahead = tt;
    below = tt;
    distinct = tt;
    every = λ i. refl;
    apart = λ i j h ne e f. cc;
  }

  Apart-set :
      (workers : ℕ → Worker) (i : ℕ) (w : Worker)
      → Apart workers
      → ((j : ℕ) (h : BlockHeight) → j ≢ i → w.pc ≡ fetching h → (workers j).pc ≢ fetching h)
      → Apart (set workers i w)
  Apart-set workers i w k fresh a b h ne e f = elim (Bool-cases (a == i)) [
    | inl left ↦ elim (Bool-cases (b == i)) [
      | inl right ↦ ne (eqb→eq a i left ∙ sym (eqb→eq b i right))
      | inr other ↦ fresh b h (eqb→ne b i other) (rw left at e) (rw other at f)
    ]
    | inr left ↦ elim (Bool-cases (b == i)) [
      | inl right ↦ fresh a h (eqb→ne a i left) (rw right at f) (rw left at e)
      | inr other ↦ k a b h ne (rw left at e) (rw other at f)
    ]
  ]

  -- A worker that stays at its height or leaves it.
  pub quiet-Holds :
      (s : Session D) (i : ℕ) (w : Worker)
      → Holds s
      → WorkerHolds start s.shared w
      → ((h : BlockHeight) → w.pc ≡ fetching h → (s.worker i).pc ≡ fetching h)
      → Holds (record s { worker = set s.worker i w })
  quiet-Holds s i w k here same = record {
    from = k.from;
    ahead = k.ahead;
    below = k.below;
    distinct = k.distinct;
    every = set-every (λ j. WorkerHolds start s.shared) s.worker i w here (λ j ne. k.every j);
    apart = Apart-set s.worker i w k.apart (λ j h ne e. k.apart i j h (λ q. ne (sym q)) (same h e));
  }

  -- A worker that takes the counter's height.
  pub take-Holds :
      (s : Session D) (i : ℕ)
      → Holds s
      → (s.worker i).in_progress ≡ []
      → (get_height_to_fetch s.shared (s.worker i)).0.next_height ≤ u32_size
      → s.shared.next_height ≤ u32_size
      → Holds (record {
        shared = (get_height_to_fetch s.shared (s.worker i)).0;
        worker = set s.worker i (get_height_to_fetch s.shared (s.worker i)).1;
      })
  unfolding get_height_to_fetch insert
  take-Holds s i k none_there small now =
      let n = s.shared.next_height in
      let up : (n + 1) % 2 ^ 64 ≡ suc n = omega (arith, now) in
      let within : n % u32_size ≡ n = omega (arith, up, small) in
      record {
        from = omega (arith, up, k.from);
        ahead = k.ahead;
        below = All-map _ (λ item lt. omega (arith, lt, up)) s.shared.sent k.below;
        distinct = k.distinct;
        every =
            set-every (λ j. WorkerHolds start (get_height_to_fetch s.shared (s.worker i)).0)
              s.worker i _
              (
                rw none_there refl,
                omega (arith, within, k.from),
                omega (arith, within, up),
                subst (λ h. NotAt h s.shared.sent) (sym within)
                    (NotAt-below n s.shared.sent k.below),
              )
              (λ j ne. grow (s.worker j).in_progress (s.worker j).pc (k.every j));
        apart = Apart-set s.worker i _ k.apart (λ j h ne e f. absurd (
            omega (
              arith,
              within,
              at_fetching _ _ h refl e,
              (subst (PcHolds start s.shared (s.worker j).in_progress) f (k.every j)).2,
            )));
      }
    where
      grow :
          (in_progress : BTreeMap (Unit {0})) (pc : Pc)
          → PcHolds start s.shared in_progress pc
          → PcHolds start (get_height_to_fetch s.shared (s.worker i)).0 in_progress pc
      grow in_progress idle h = h
      grow in_progress stopped h = tt
      grow in_progress (fetching j) h = (h.0, h.1, omega (arith, h.2, now), h.3)

  -- A worker that sends what the node has at its height.
  pub send-Holds :
      (s : Session D) (i : ℕ) (h : BlockHeight) (item : RpcBlockWithPrevId D)
      → Holds s
      → (s.worker i).pc ≡ fetching h
      → (item.block.height ≡ h) × IsGood prev item
      → Holds (record {
        shared = record s.shared { sent = s.shared.sent ++ item ∷ [] };
        worker = set s.worker i (record { pc = idle; in_progress = [] });
      })
  send-Holds s i h item k at good =
      let own : PcHolds start s.shared (s.worker i).in_progress (fetching h) =
        subst (PcHolds start s.shared (s.worker i).in_progress) at (k.every i) in
      record {
        from = k.from;
        ahead =
            All-append (IsAhead prev start) s.shared.sent (item ∷ []) k.ahead
              ((omega (arith, own.1, good.0), good.1), tt);
        below =
            All-append (λ x. x.block.height < s.shared.next_height) s.shared.sent (item ∷ [])
              k.below (omega (arith, own.2, good.0), tt);
        distinct =
            Distinct-push s.shared.sent item k.distinct
              (subst (λ j. NotAt j s.shared.sent) (sym good.0) own.3);
        every =
            set-every
              (λ j. WorkerHolds start (record s.shared { sent = s.shared.sent ++ item ∷ [] }))
              s.worker i (record { pc = idle; in_progress = [] }) refl
              (λ j ne. grow j ne (s.worker j).in_progress (s.worker j).pc refl (k.every j));
        apart = Apart-set s.worker i _ k.apart (λ j g ne e f. cc);
      }
    where
      grow :
          (j : ℕ)
          → j ≢ i
          → (in_progress : BTreeMap (Unit {0})) (pc : Pc) → (s.worker j).pc ≡ pc
          → PcHolds start s.shared in_progress pc
          → PcHolds start (record s.shared { sent = s.shared.sent ++ item ∷ [] }) in_progress pc
      grow j ne in_progress idle e w = w
      grow j ne in_progress stopped e w = tt
      grow j ne in_progress (fetching g) e w = (
        w.0,
        w.1,
        w.2,
        All-append (λ x. x.block.height ≢ g) s.shared.sent (item ∷ []) w.3
            (
              (λ q. k.apart i j h (λ same. ne (sym same)) at (e ∙ ap fetching (sym q ∙ good.0))),
              tt,
            ),
      )
