-- ===== src/Bitcoin.antt =====
-- The data of the `bitcoin` crate that the program reads. What the crate computes of a transaction
-- (`txid()`, `get_weight()`, `is_coin_base()`) stands beside its inputs and outputs.
use rust_bitcoin_indexer.Base.{ℕ, Bool, true, false, List}
use rust_bitcoin_indexer.Types.{BlockHash, WithHeightAndId}

pub record OutPoint : Type 0 where
  pub txid : ℕ
  pub vout : ℕ

pub record TxIn : Type 0 where
  pub previous_output : OutPoint
  pub has_witness : Bool

pub record TxOut : Type 0 where
  pub value : ℕ
  pub script_pubkey : ℕ

pub record Transaction : Type 0 where
  pub txid : ℕ
  pub weight : ℕ
  pub lock_time : ℕ
  pub is_coin_base : Bool
  pub input : List TxIn
  pub output : List TxOut

pub record Block : Type 0 where
  pub prev_blockhash : BlockHash
  pub merkle_root : ℕ
  pub time : ℕ
  pub txdata : List Transaction

-- `BlockData` of src/types.rs.
abbrev pub BlockData : Type 0
BlockData = WithHeightAndId Block

pub data Network : Type 0 where
  bitcoin testnet regtest : Network

abbrev pub is_mainnet : Network → Bool
is_mainnet bitcoin = true
is_mainnet _ = false
