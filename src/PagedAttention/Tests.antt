-- ===== src/PagedAttention/Tests.antt =====
-- Runs of a manager of four blocks of two places, two layers and numbers in place of tensors.
use vllm_rocm.Common.{
  ℕ, ◌≡◌, refl, some, [], ◌∷◌, range, pop_last, arith, return, raise, runtime_error,
}
use vllm_rocm.Common.Dict.{get, put, delete}
use vllm_rocm.PagedAttention.{
  Manager, init, pop_block, take_blocks, allocate_sequence, free_sequence, get_kv_cache_for_seq,
  write_to_cache,
}
use vllm_rocm.PagedAttention.Sequences.{IsValid, init-IsValid, allocate_sequence-IsValid}
use vllm_rocm.PagedAttention.Reads.{read_k, Written, write_to_cache-Written}

program : Unit {0}
unfolding get put delete range pop_last init pop_block take_blocks allocate_sequence free_sequence
    get_kv_cache_for_seq write_to_cache
program = tt

abbrev m0 : Manager ℕ
m0 = init 2 4 2 0

-- Sequence 7 holds the blocks 3 and 2, and sequence 8 the block 1.
abbrev m1 : Manager ℕ
m1 = (allocate_sequence 7 3 m0).1

abbrev m2 : Manager ℕ
m2 = (allocate_sequence 8 2 m1).1

main :
    ((allocate_sequence 7 3 m0).0 ≡ return (3 ∷ 2 ∷ []))
    × ((allocate_sequence 8 5 m1).0 ≡ raise runtime_error)
    × ((free_sequence 7 m2).free_blocks ≡ 0 ∷ 3 ∷ 2 ∷ [])
    × (read_k 7 1 2 (write_to_cache 7 1 2 50 60 m2).1 ≡ some 50)
    × (read_k 8 1 0 (write_to_cache 7 1 2 50 60 m2).1 ≡ some 0)
unfolding program
main = (refl, refl, refl, refl, refl)

m0-IsValid : IsValid m0
m0-IsValid = init-IsValid 2 4 2 0

m1-IsValid : IsValid m1
unfolding program
m1-IsValid = allocate_sequence-IsValid m0 7 3 m0-IsValid (omega arith) refl

m2-IsValid : IsValid m2
unfolding program
m2-IsValid = allocate_sequence-IsValid m1 8 2 m1-IsValid (omega arith) refl

write_to_cache-Written_example : Written m2 7 1 2 50 60 (write_to_cache 7 1 2 50 60 m2)
unfolding program
write_to_cache-Written_example =
    write_to_cache-Written m2 7 1 2 (3 ∷ 2 ∷ []) 50 60 m2-IsValid (omega arith) (omega arith) refl
      (omega arith)
