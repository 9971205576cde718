-- ===== src/TensorParallel/Tests.antt =====
-- Two ranks and a layer of four rows.
use vllm_rocm.Common.{
  ℕ, codes, ◌≡◌, refl, true, false, List, [], ◌∷◌, range, return, raise, runtime_error,
}
use vllm_rocm.TensorParallel.{
  init_distributed, init, split_linear, split_attention, split_module, split_modules, parallelize,
  linear, heads,
}
use vllm_rocm.Scheduler.{is_prefix, is_in}
use vllm_rocm.TensorParallel.Split.{manager_of, layer_of}

program : Unit {0}
unfolding range init_distributed init split_linear split_attention is_prefix is_in split_module
    split_modules parallelize
program = tt

abbrev weight : List ℕ
weight = 1 ∷ 2 ∷ 3 ∷ 4 ∷ []

abbrev bias : List ℕ
bias = 5 ∷ 6 ∷ 7 ∷ 8 ∷ []

-- A process group that is there already leaves the rank 0.
main :
    (split_linear (manager_of 2 1) (layer_of weight bias)
      ≡ return (layer_of (3 ∷ 4 ∷ []) (7 ∷ 8 ∷ [])))
    × (split_attention (manager_of 2 1) 6 ≡ return 3)
    × (split_attention (manager_of 2 1) 5 ≡ return 5)
    × (init false false 0 2 ≡ raise runtime_error)
    × (init true true 1 2 ≡ return (manager_of 2 0))
    × (init true false 1 2 ≡ return (manager_of 2 1))
unfolding program
main = (refl, refl, refl, refl, refl, refl)

-- The first layer gives two numbers on a rank, and the second still takes four.
model_run :
    parallelize {R = List ℕ} {T = ℕ} (manager_of 2 0) (
      (
        codes "fc1",
        linear (layer_of ((1 ∷ 2 ∷ []) ∷ (3 ∷ 4 ∷ []) ∷ (5 ∷ 6 ∷ []) ∷ (7 ∷ 8 ∷ []) ∷ []) bias),
      )
      ∷ (codes "Self_Attention", heads 6)
      ∷ (
        codes "fc2",
        linear (layer_of ((1 ∷ 2 ∷ 3 ∷ 4 ∷ []) ∷ (5 ∷ 6 ∷ 7 ∷ 8 ∷ []) ∷ []) (1 ∷ 2 ∷ [])),
      )
      ∷ [])
    ≡ return (
        (codes "fc1", linear (layer_of ((1 ∷ 2 ∷ []) ∷ (3 ∷ 4 ∷ []) ∷ []) (5 ∷ 6 ∷ [])))
        ∷ (codes "Self_Attention", heads 3)
        ∷ (codes "fc2", linear (layer_of ((1 ∷ 2 ∷ 3 ∷ 4 ∷ []) ∷ []) (1 ∷ [])))
        ∷ [])
unfolding program
model_run = refl
