-- ===== src/Types.antt =====
-- src/types.rs and the block types of src/lib.rs. A hash is only compared and cut in two, so a
-- number below 2 ^ 256, its bytes in little-endian order, stands for it.
use rust_bitcoin_indexer.Base.{ℕ, ◌^◌}

abbrev pub BlockHeight : Type 0
BlockHeight = ℕ

abbrev pub BlockHash : Type 0
BlockHash = ℕ

-- The first value that a `u32` does not hold.
abbrev pub u32_size : ℕ
u32_size = 2 ^ 32

pub record WithHeightAndId (D : Type 0) : Type 0 where
  pub height : BlockHeight
  pub id : BlockHash
  pub payload : D

-- A block of the node, with the id of the block before it.
pub record RpcBlockWithPrevId (D : Type 0) : Type 0 where
  pub block : WithHeightAndId D
  pub prev_block_id : BlockHash
