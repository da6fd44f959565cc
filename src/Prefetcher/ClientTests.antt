-- ===== src/Prefetcher/ClientTests.antt =====
-- A client of src/node/prefetcher.rs with a hundred blocks, and two calls that fail before one succeeds.
use rust_bitcoin_indexer.Base.{ℕ, ◌+◌, ◌-◌, ◌≡◌, refl, true, ltb, if◌then◌else◌, [], codes, arith}
use rust_bitcoin_indexer.Base.Outcome.{Outcome, ok, err}
use rust_bitcoin_indexer.Types.{BlockHeight}
use rust_bitcoin_indexer.Bitcoin.{Block}
use rust_bitcoin_indexer.Prefetcher.Worker.{IsNode}
use rust_bitcoin_indexer.Prefetcher.Client.{
  RpcApi, answered, failed, contains, out_of_range, client, retry, retry_lem, Tells, client-Fills,
}

abbrev block_at : ℕ → Block
block_at h = record { prev_blockhash = h - 1; merkle_root = 0; time = 0; txdata = [] }

abbrev api : RpcApi
api = record {
  get_block_count = answered 100;
  get_block_hash = λ h.
      if ltb h 100
      then answered (h + 10)
      else failed (codes "RPC error: Block height out of range");
  get_by_id = λ id. answered (block_at id);
}

says_so : contains out_of_range (codes "RPC error: Block height out of range") ≡ true
unfolding contains
says_so = refl

client-Fills_example :
    IsNode (λ b. b.prev_blockhash) (client api) × ((height : BlockHeight) → Tells api height)
client-Fills_example = client-Fills api (λ height id e. ground arith)

abbrev answers : ℕ → Outcome ℕ
answers n = if ltb n 2 then err else ok 100

retry_lem_example : retry 3 answers 0 ≡ ok 100
retry_lem_example = retry_lem 3 2 0 answers 100 (λ i lt. ground arith) refl (omega arith)
