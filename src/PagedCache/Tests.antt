-- ===== src/PagedCache/Tests.antt =====
-- Runs of a manager of three blocks of two places, with numbers in place of tensors.
use vllm_rocm.Common.{
  ℕ, ◌≡◌, refl, sym, subst, [], ◌∷◌, length, range, pop_last, arith, return, raise, index_error,
}
use vllm_rocm.Common.Dict
use vllm_rocm.Common.Dict.{get, put, delete}
use vllm_rocm.PagedCache.{
  Manager, init, change_count, pop_block, allocate_block, free_block, allocate_sequence,
  ensure_sequence, ensure_block, store_token, append_token, get_key_value, table_of, free_all,
  free_sequence,
}
use vllm_rocm.PagedCache.Blocks.{IsConsistent, init-IsConsistent}
use vllm_rocm.PagedCache.Tokens.{append_token-Appended}
use vllm_rocm.PagedCache.Release.{Freed, free_sequence-Freed}

program : Unit {0}
unfolding get put delete range pop_last init change_count pop_block allocate_block free_block
    allocate_sequence ensure_sequence ensure_block store_token append_token get_key_value free_all
    free_sequence
program = tt

abbrev m0 : Manager ℕ
m0 = init 3 2 0

abbrev m1 : Manager ℕ
m1 = (append_token 7 0 10 20 m0).1

abbrev m3 : Manager ℕ
m3 = (append_token 7 2 12 22 (append_token 7 1 11 21 m1).1).1

main :
    (table_of 7 m3 ≡ 2 ∷ 1 ∷ [])
    × (get_key_value 7 3 m3 ≡ return (10 ∷ 11 ∷ 12 ∷ 0 ∷ [], 20 ∷ 21 ∷ 22 ∷ 0 ∷ []))
    × ((append_token 7 4 0 0 m1).0 ≡ raise index_error)
    × ((free_sequence 7 m3).1.free_blocks ≡ 0 ∷ 2 ∷ 1 ∷ [])
unfolding program
main = (refl, refl, refl, refl)

m0-IsConsistent : IsConsistent m0
m0-IsConsistent = init-IsConsistent 3 2 0

m1-IsConsistent : IsConsistent m1
unfolding program
m1-IsConsistent =
    let a =
      append_token-Appended m0 7 0 10 20 m0-IsConsistent (omega arith) (omega arith)
        (omega arith) in
    subst (λ r. IsConsistent r.1) (sym a.returns) a.consistent

free_sequence-Freed_example :
    Freed
      (record m1 { seq_blocks = Dict.delete 7 m1.seq_blocks })
      (length (table_of 7 m1))
      (free_sequence 7 m1)
free_sequence-Freed_example = free_sequence-Freed m1 7 m1-IsConsistent
