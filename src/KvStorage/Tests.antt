-- ===== src/KvStorage/Tests.antt =====
-- Runs of a storage of four blocks of two places, with numbers in place of tensors.
use vllm_rocm.Common.{
  ℕ, ◌≤◌, ◌≡◌, refl, List, [], ◌∷◌, count, range, arith, return, raise, runtime_error,
}
use vllm_rocm.KvStorage.{
  Storage, init, init_cache, write_key, write_value, write_kv, read_loop, read_kv, swap_out_one,
  swap_out, swap_in_one, swap_in, copy_key, copy_value, copy_block,
}
use vllm_rocm.KvStorage.Swapping.{IsStored, IsBack, Untouched, swap_in-swap_out_kv}
use vllm_rocm.KvStorage.Layers.{WritesToken, write_kv-WritesToken}

program : Unit {0}
unfolding range init init_cache write_key write_value write_kv read_loop read_kv swap_out_one
    swap_out swap_in_one swap_in copy_key copy_value copy_block
program = tt

abbrev ids : List ℕ
ids = 3 ∷ 1 ∷ []

abbrev m0 : Storage ℕ
m0 = init_cache 0 (init 2 4)

-- A token in layer 0, and then the same position in layer 1.
abbrev m1 : Storage ℕ
m1 = (write_kv ids 2 0 10 20 m0).1

abbrev m2 : Storage ℕ
m2 = (write_kv ids 2 1 11 21 m1).1

main :
    (read_kv ids 3 0 m1 ≡ return (0 ∷ 0 ∷ 10 ∷ [], 0 ∷ 0 ∷ 20 ∷ []))
    × (read_kv ids 3 0 m2 ≡ return (0 ∷ 0 ∷ 11 ∷ [], 0 ∷ 0 ∷ 21 ∷ []))
    × (read_kv [] 3 0 m2 ≡ raise runtime_error)
    × (read_kv (2 ∷ []) 1 0 (copy_block 1 2 m2).1 ≡ return (11 ∷ [], 21 ∷ []))
    × (read_kv ids 3 0 (swap_in ids 5 (write_kv ids 2 0 99 99 (swap_out ids 5 m2).1).1)
        ≡ return (0 ∷ 0 ∷ 11 ∷ [], 0 ∷ 0 ∷ 21 ∷ []))
unfolding program
main = (refl, refl, refl, refl, refl)

abbrev blank : ℕ → ℕ → ℕ
blank i place = 0

m0-IsStored : IsStored m0 ids blank blank
unfolding program
m0-IsStored = record { keys = λ i h. ground arith; values = λ i h. ground arith }

write_kv-WritesToken_example : WritesToken m0 ids 2 10 20 (write_kv ids 2 0 10 20 m0)
unfolding program
write_kv-WritesToken_example =
    write_kv-WritesToken m0 ids 2 0 10 20 blank blank m0-IsStored (λ i. ground arith) (omega arith)
      (omega arith)

swap_in-swap_out_kv_example :
    ((swap_out ids 5 m0).0 ≡ return tt)
    × ((i : ℕ)
        → 1 ≤ count i ids
        → IsBack (swap_in ids 5 (swap_out ids 5 m0).1) 5 i (blank i) (blank i))
    × ((i : ℕ)
        → count i ids ≡ 0
        → Untouched (swap_out ids 5 m0).1 (swap_in ids 5 (swap_out ids 5 m0).1) i)
swap_in-swap_out_kv_example =
    swap_in-swap_out_kv m0 (swap_out ids 5 m0).1 ids 5 blank blank m0-IsStored refl
