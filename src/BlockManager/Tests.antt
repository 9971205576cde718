-- ===== src/BlockManager/Tests.antt =====
-- Runs of the block manager with four blocks, and its theorems at these.
use vllm_rocm.Common.{
  ℕ, ◌+◌, ◌<◌, ◌≡◌, refl, ap, subst, none, [], ◌∷◌, count, ◌==◌, if◌then◌else◌, return, raise,
  value_error, pop_last, range, remove?, arith,
}
use vllm_rocm.Common.Int.{pos}
use vllm_rocm.Config.{EngineConfig, defaults, recompute}
use vllm_rocm.BlockManager.{
  BlockManager, estimate_num_blocks, init, free_blocks, used_blocks, change_block, pop_free,
  allocate_one, allocate_loop, allocate, free_one, free, swap_out_one, swap_out, take_free, swap_in,
  share_all, allocate_prefix,
}
use vllm_rocm.BlockManager.Accounting.{Accounted, Accounted-same, plus_one}
use vllm_rocm.BlockManager.Allocate.{Granted, allocate-Granted, Granted-Accounted}
use vllm_rocm.BlockManager.Release.{Released, free-Released}
use vllm_rocm.BlockManager.Swap.{swap_out-SwappedOut}
use vllm_rocm.BlockManager.SwapIn.{swap_in-swap_out}
use vllm_rocm.BlockManager.Prefix.{allocate_prefix-Accounted}
use vllm_rocm.BlockManager.Usage.{init-Accounted}

program : Unit {0}
unfolding estimate_num_blocks init used_blocks change_block pop_free allocate_one allocate_loop
    allocate free_one free swap_out_one swap_out take_free swap_in share_all allocate_prefix
    pop_last range remove?
program = tt

abbrev config : EngineConfig
config = record defaults {
  block_size = 2;
  num_kv_cache_blocks = 4;
  max_num_seqs = 0;
  preemption_mode = recompute;
}

four_blocks : BlockManager
unfolding program
four_blocks = init config none

two_taken : BlockManager
unfolding program four_blocks
two_taken = (allocate 2 none four_blocks).1

one_shared : BlockManager
unfolding program four_blocks
one_shared = (allocate_prefix 1 four_blocks).1

-- Blocks 3 and 2 are swapped out, and block 2 then goes to another sequence.
swapped : BlockManager
unfolding program two_taken
swapped = (swap_out (3 ∷ 2 ∷ []) two_taken).1

reused : BlockManager
unfolding program swapped
reused = (allocate 1 none swapped).1

main :
    ((allocate 2 none four_blocks).0 ≡ return (3 ∷ 2 ∷ []))
    × (free_blocks (free (3 ∷ 2 ∷ []) two_taken).1 ≡ 4)
    × ((allocate 5 none four_blocks).0 ≡ raise value_error)
    × (used_blocks two_taken ≡ pos 2)
    × ((swap_in (3 ∷ 2 ∷ []) (swap_out (3 ∷ 2 ∷ []) two_taken).1).0 ≡ return (3 ∷ 2 ∷ []))
    × ((free (3 ∷ []) four_blocks).1.free_block_ids ≡ 0 ∷ 1 ∷ 2 ∷ 3 ∷ 3 ∷ [])
unfolding program four_blocks two_taken
main = (refl, refl, refl, refl, refl, refl)

abbrev nobody : ℕ → ℕ
nobody i = 0

four_blocks-Accounted : Accounted four_blocks nobody
unfolding four_blocks
four_blocks-Accounted = (init-Accounted config none).0

two_taken-Accounted : Accounted two_taken (λ i. count i (3 ∷ 2 ∷ []) + nobody i)
unfolding program four_blocks two_taken
two_taken-Accounted =
    Granted-Accounted four_blocks two_taken nobody none 2 (3 ∷ 2 ∷ [])
      (allocate-Granted four_blocks nobody none 2 four_blocks-Accounted (omega arith)) refl

two_taken_distinct : (i : ℕ) → 0 < count i (3 ∷ 2 ∷ []) → count i (3 ∷ 2 ∷ []) + nobody i ≡ 1
two_taken_distinct i h = ground arith

allocate-Granted_example : Granted four_blocks nobody none 2 (allocate 2 none four_blocks)
unfolding program four_blocks
allocate-Granted_example =
    allocate-Granted four_blocks nobody none 2 four_blocks-Accounted (omega arith)

free-Released_example : Released two_taken nobody (free (3 ∷ 2 ∷ []) two_taken)
free-Released_example = free-Released two_taken nobody (3 ∷ 2 ∷ []) two_taken-Accounted

swap_in-swap_out_example :
    (m₁ m₂ : BlockManager) × (swap_out (3 ∷ 2 ∷ []) two_taken ≡ (return tt, m₁))
    × (swap_in (3 ∷ 2 ∷ []) m₁ ≡ (return (3 ∷ 2 ∷ []), m₂))
    × Accounted m₂ (λ i. count i (3 ∷ 2 ∷ []) + nobody i)
    × (free_blocks m₂ ≡ free_blocks two_taken)
swap_in-swap_out_example =
    swap_in-swap_out two_taken nobody (3 ∷ 2 ∷ []) two_taken-Accounted two_taken_distinct

abbrev one_holder : ℕ → ℕ
one_holder i = (if 3 == i then 1 else 0)

one_shared-Accounted : Accounted one_shared (plus_one 3 one_holder)
unfolding program four_blocks one_shared
one_shared-Accounted =
    let (ids, m', e, _, _, a, _) =
      allocate_prefix-Accounted four_blocks nobody 1 four_blocks-Accounted (omega arith) in
    let e' : allocate_prefix 1 four_blocks ≡ (return (3 ∷ []), one_shared) = refl in
    let same : m' ≡ one_shared = cc (e) in
    let same_ids : ids ≡ 3 ∷ [] = cc (e) in
    subst (λ u. Accounted u (plus_one 3 one_holder)) same
      (Accounted-same m' _ _ (λ i. ground (arith, ap (count i) same_ids)) a)

swapped-Accounted : Accounted swapped nobody
unfolding program two_taken swapped
swapped-Accounted =
    let o =
      swap_out-SwappedOut two_taken nobody (3 ∷ 2 ∷ []) two_taken-Accounted two_taken_distinct in
    let e : swap_out (3 ∷ 2 ∷ []) two_taken ≡ (return tt, swapped) = refl in
    let same : o.after ≡ swapped = cc (o.returns) in
    subst (λ u. Accounted u nobody) same o.accounted

reused-Accounted : Accounted reused (λ i. count i (2 ∷ []) + nobody i)
unfolding program two_taken swapped reused
reused-Accounted =
    Granted-Accounted swapped reused nobody none 1 (2 ∷ [])
      (allocate-Granted swapped nobody none 1 swapped-Accounted (omega arith)) refl
