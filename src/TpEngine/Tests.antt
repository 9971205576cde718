-- ===== src/TpEngine/Tests.antt =====
-- Two ranks and weights of four and of five rows.
use vllm_rocm.Common.{
  ℕ, ◌+◌, ◌-◌, ◌%◌, ◌<◌, ◌≡◌, refl, [], ◌∷◌, map, take, length, range, arith, return, raise,
  index_error,
}
use vllm_rocm.TpEngine.{Weight, pick, pick_columns, shard_weights, all_gather}
use vllm_rocm.TpEngine.Shards.{engine_of, shard_of, all_gather-shard_weights}

program : Unit {0}
unfolding range pick pick_columns shard_weights all_gather
program = tt

abbrev five : Weight ℕ
five = record {
  columns = 2;
  rows = (1 ∷ 2 ∷ []) ∷ (3 ∷ 4 ∷ []) ∷ (5 ∷ 6 ∷ []) ∷ (7 ∷ 8 ∷ []) ∷ (9 ∷ 10 ∷ []) ∷ [];
}

main :
    (shard_weights (engine_of 2 1) five 0
      ≡ return (record { columns = 2; rows = (5 ∷ 6 ∷ []) ∷ (7 ∷ 8 ∷ []) ∷ [] }))
    × (shard_weights (engine_of 2 1) five 1
        ≡ return (record {
          columns = 1;
          rows = (2 ∷ []) ∷ (4 ∷ []) ∷ (6 ∷ []) ∷ (8 ∷ []) ∷ (10 ∷ []) ∷ [];
        }))
    × (shard_weights (engine_of 2 0) five 2 ≡ raise index_error)
unfolding program
main = (refl, refl, refl)

all_gather-shard_weights_example :
    let shards = map (shard_of 2 five.rows) (range 0 2) in
    ((r : ℕ)
      → r < 2
      → (shard_weights (engine_of 2 r) five 0
          ≡ return (record { columns = 2; rows = shard_of 2 five.rows r }))
        × (all_gather (engine_of 2 r) (shard_of 2 five.rows r) shards ≡ take (5 - 5 % 2) five.rows))
    × (length (take (5 - 5 % 2) five.rows) + 5 % 2 ≡ 5)
all_gather-shard_weights_example = all_gather-shard_weights 2 five (omega arith)
