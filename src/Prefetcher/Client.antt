-- ===== src/Prefetcher/Client.antt =====
-- `impl Rpc for bitcoincore_rpc::Client` and `retry` of src/node/prefetcher.rs. The client's own calls are
-- a parameter.
use rust_bitcoin_indexer.Base.{
  ℕ, zero, suc, ◌+◌, ◌%◌, ◌<◌, ◌≡◌, ◌∙◌, ◌⊎◌, subst, refl, inl, inr, Bool, true, false, ◌&&◌, ◌||◌,
  Option, none, some, [], ◌∷◌, ◌==◌, if◌then◌else◌, Bool-cases, Text, codes, arith,
}
use rust_bitcoin_indexer.Base.Outcome.{Outcome, ok, err, out_of_fuel}
use rust_bitcoin_indexer.Types.{BlockHeight, BlockHash, u32_size, RpcBlockWithPrevId}
use rust_bitcoin_indexer.Bitcoin.{Block}
use rust_bitcoin_indexer.Prefetcher.Worker.{Rpc, get_block_by_height, IsNode}

-- What a call of the client gives: a value, or an error with its text.
pub data Answer (A : Type 0) : Type 0 where
  answered : A → Answer A
  failed : Text → Answer A

-- The client's calls.
pub record RpcApi : Type 0 where
  pub get_block_count : Answer ℕ
  pub get_block_hash : BlockHeight → Answer BlockHash
  pub get_by_id : BlockHash → Answer Block

-- `str::contains`
unfoldable pub starts_with : Text → Text → Bool
starts_with [] text = true
starts_with (c ∷ pattern) [] = false
starts_with (c ∷ pattern) (d ∷ text) = c == d && starts_with pattern text

unfoldable pub contains : Text → Text → Bool
unfolding starts_with
contains pattern [] = starts_with pattern []
contains pattern (c ∷ text) = starts_with pattern (c ∷ text) || contains pattern text

abbrev pub out_of_range : Text
out_of_range = codes "Block height out of range"

unfoldable pub get_block_count : RpcApi → Outcome BlockHeight
get_block_count api = elim api.get_block_count [
  | answered n ↦ ok (n % u32_size)
  | failed text ↦ err
]

unfoldable pub get_block_id_by_height : RpcApi → BlockHeight → Outcome (Option BlockHash)
unfolding contains
get_block_id_by_height api height = elim (api.get_block_hash height) [
  | failed text ↦ if contains out_of_range text then ok none else err
  | answered id ↦ ok (some id)
]

unfoldable pub get_block_by_id : RpcApi → BlockHash → Outcome (Option (Block × BlockHash))
unfolding contains
get_block_by_id api hash = elim (api.get_by_id hash) [
  | failed text ↦ if contains out_of_range text then ok none else err
  | answered block ↦ ok (some (block, block.prev_blockhash))
]

abbrev pub client : RpcApi → Rpc Block
client api = record {
  get_block_id_by_height = get_block_id_by_height api;
  get_block_by_id = get_block_by_id api;
}

-- `retry`, for the answers of its calls one after the other. It sleeps and calls again after an error.
unfoldable pub retry : {T : Type 0} → ℕ → (ℕ → Outcome T) → ℕ → Outcome T
retry zero answers n = out_of_fuel
retry (suc fuel) answers n =
    let rest = retry fuel answers (suc n) in
    elim (answers n) [ ok value ↦ ok value | err ↦ rest | other ↦ other ]

-- When a call gives a value after some errors, `retry` returns that value, with more fuel than
-- there are errors.
pub retry_lem :
    {T : Type 0} (fuel k n : ℕ) (answers : ℕ → Outcome T) (value : T)
    → ((i : ℕ) → i < k → answers (n + i) ≡ err)
    → answers (n + k) ≡ ok value
    → k < fuel
    → retry fuel answers n ≡ ok value
unfolding retry
retry_lem zero k n answers value errs last enough = absurd (omega arith)
retry_lem (suc fuel) zero n answers value errs last enough =
    let here : answers n ≡ ok value = subst (λ m. answers m ≡ ok value) (omega arith) last in
    rw (here, retry) refl
retry_lem (suc fuel) (suc k) n answers value errs last enough =
    let here : answers n ≡ err =
      subst (λ m. answers m ≡ err) (omega arith) (errs 0 (omega arith)) in
    rw (here, retry)
      (retry_lem fuel k (suc n) answers value
        (λ i lt. subst (λ m. answers m ≡ err) (omega arith) (errs (suc i) (omega arith)))
        (subst (λ m. answers m ≡ ok value) (omega arith) last) (omega arith))

Answer-cases :
    {A : Type 0} (a : Answer A) → ((x : A) × (a ≡ answered x)) ⊎ ((text : Text) × (a ≡ failed text))
Answer-cases (answered x) = inl (x, refl)
Answer-cases (failed text) = inr (text, refl)

-- The block that the client has at a height, as a worker sends it.
abbrev pub HasBlock : RpcApi → BlockHeight → RpcBlockWithPrevId Block → Type 0
HasBlock api height item =
    (id : BlockHash) × (block : Block) × (api.get_block_hash height ≡ answered id)
    × (api.get_by_id id ≡ answered block)
    × (item ≡ record {
      block = record { height = height; id = id; payload = block };
      prev_block_id = block.prev_blockhash;
    })

-- One of the two calls fails, with a text that says so or not.
abbrev pub Fails : Bool → RpcApi → BlockHeight → Type 0
Fails says_so api height =
    (text : Text) × (contains out_of_range text ≡ says_so)
    × ((api.get_block_hash height ≡ failed text)
        ⊎ ((id : BlockHash) × (api.get_block_hash height ≡ answered id)
            × (api.get_by_id id ≡ failed text)))

-- What a worker gets to know of a height from the client, and when.
abbrev pub Tells : RpcApi → BlockHeight → Type 0
Tells api height =
    ((item : RpcBlockWithPrevId Block) × (get_block_by_height (client api) height ≡ ok (some item))
      × HasBlock api height item)
    ⊎ ((get_block_by_height (client api) height ≡ ok none) × Fails true api height)
    ⊎ ((get_block_by_height (client api) height ≡ err) × Fails false api height)

module _ (api : RpcApi)
    (fits : (height : BlockHeight) (id : BlockHash)
      → api.get_block_hash height ≡ answered id
      → height + 1 < u32_size) where
  client-IsNode : IsNode (λ b. b.prev_blockhash) (client api)
  unfolding get_block_id_by_height get_block_by_id
  client-IsNode = record {
    parent = λ id prev payload e. elim (Answer-cases (api.get_by_id id)) [
      | inl (block, at) ↦ ground (arith, e, at)
      | inr (text, at) ↦ ground (arith, e, at)
    ];
    fits = λ height id e. elim (Answer-cases (api.get_block_hash height)) [
      | inl (found, at) ↦ fits height id (at ∙ ground (arith, e, at))
      | inr (text, at) ↦ ground (arith, e, at)
    ];
  }

  hash_of :
      (height : BlockHeight) (id : BlockHash)
      → api.get_block_hash height ≡ answered id
      → get_block_id_by_height api height ≡ ok (some id)
  unfolding get_block_id_by_height
  hash_of height id at = rw (at, get_block_id_by_height) refl

  hash-Tells :
      (height : BlockHeight) (id : BlockHash)
      → api.get_block_hash height ≡ answered id
      → Tells api height
  unfolding get_block_by_height get_block_by_id
  hash-Tells height id at = elim (Answer-cases (api.get_by_id id)) [
    | inl (block, there) ↦
        inl
          (_, rw (hash_of height id at, there, get_block_by_id) refl, (id, block, at, there, refl))
    | inr (text, there) ↦ elim (Bool-cases (contains out_of_range text)) [
      | inl says ↦ inr (
          inl (
            rw (hash_of height id at, there, says, get_block_by_id) refl,
            (text, says, inr (id, at, there)),
          ))
      | inr other ↦ inr (
          inr (
            rw (hash_of height id at, there, other, get_block_by_id) refl,
            (text, other, inr (id, at, there)),
          ))
    ]
  ]

  client-Tells : (height : BlockHeight) → Tells api height
  unfolding get_block_by_height get_block_id_by_height
  client-Tells height = elim (Answer-cases (api.get_block_hash height)) [
    | inl (id, at) ↦ hash-Tells height id at
    | inr (text, at) ↦ elim (Bool-cases (contains out_of_range text)) [
      | inl says ↦ inr (inl (rw (at, says, get_block_id_by_height) refl, (text, says, inl at)))
      | inr other ↦ inr (inr (rw (at, other, get_block_id_by_height) refl, (text, other, inl at)))
    ]
  ]

  -- The client is a node as the workers rely on it, where a height whose hash it knows is not the
  -- last one that fits in 32 bits; a worker gets the block of a height from it with the parent
  -- that the block names where both calls answer, nothing where one fails with a text that says
  -- that the height is out of range, and an error where one fails with another text.
  pub client-Fills :
      IsNode (λ b. b.prev_blockhash) (client api) × ((height : BlockHeight) → Tells api height)
  client-Fills = (client-IsNode, client-Tells)
