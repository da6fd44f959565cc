-- ===== src/Hash.antt =====
-- The two parts that a hash is stored in: src/db/pg.rs, `hash_to_hash_id`, `write_hash_rest_hex` and
-- `hash_id_and_rest_to_hash`. The first 16 of the 32 bytes are the low 128 bits of the number. The columns are
-- only written with 16 bytes each, which join to the 32 that `from_slice` expects.
use rust_bitcoin_indexer.Base.{ℕ, ◌+◌, ◌*◌, ◌/◌, ◌%◌, ◌^◌, ◌<◌, ◌≡◌, arith}

abbrev pub hash_id_size : ℕ
hash_id_size = 2 ^ 128

abbrev pub hash_size : ℕ
hash_size = 2 ^ 256

unfoldable pub hash_to_hash_id : ℕ → ℕ
hash_to_hash_id hash = hash % hash_id_size

unfoldable pub hash_rest : ℕ → ℕ
hash_rest hash = hash / hash_id_size

unfoldable pub hash_id_and_rest_to_hash : ℕ → ℕ → ℕ
hash_id_and_rest_to_hash id rest = id + rest * hash_id_size

-- Joining the two parts of a hash gives the hash back.
pub join-split :
    (hash : ℕ) → hash_id_and_rest_to_hash (hash_to_hash_id hash) (hash_rest hash) ≡ hash
unfolding hash_to_hash_id hash_rest hash_id_and_rest_to_hash
join-split hash = omega arith

-- The two parts of a hash, the first of which is in range, come back out of the joined hash.
pub split-join :
    (id rest : ℕ)
    → id < hash_id_size
    → (hash_to_hash_id (hash_id_and_rest_to_hash id rest) ≡ id)
      × (hash_rest (hash_id_and_rest_to_hash id rest) ≡ rest)
unfolding hash_to_hash_id hash_rest hash_id_and_rest_to_hash
split-join id rest h = omega arith
