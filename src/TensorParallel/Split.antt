-- ===== src/TensorParallel/Split.antt =====
-- src/tensor_parallel.py: `_split_linear` and `_split_attention`, the parts of all ranks together.
use vllm_rocm.Common.{
  ℕ, ◌+◌, ◌*◌, ◌-◌, ◌/◌, ◌%◌, ◌<◌, ◌≡◌, refl, ap, ◌∙◌, true, false, some, List, map, length, take,
  drop, range, ◌==◌, arith, return,
}
use native.Mathlib.Nat.{div-add-mod}
use vllm_rocm.Common.Slices.{slice, concat, concat-slices, take_all}
use vllm_rocm.TensorParallel.{TensorParallelManager, Linear, split_linear}

abbrev pub manager_of : ℕ → ℕ → TensorParallelManager
manager_of world_size rank = record { world_size = world_size; rank = rank; initialized = true }

-- A rank's part of a list.
abbrev pub part_of : {A : Type 0} → ℕ → ℕ → List A → ℕ → List A
part_of world_size size xs rank = take (size / world_size) (drop (rank * (size / world_size)) xs)

module _ {A : Type 0} where
  pub parts-whole :
      (ws size : ℕ) (xs : List A)
      → length xs ≡ size
      → size % ws ≡ 0
      → concat (map (part_of ws size xs) (range 0 ws)) ≡ xs
  parts-whole ws size xs e d =
      let first : 0 * (size / ws) ≡ 0 = omega arith in
      let whole : ws * (size / ws) ≡ size = omega (arith, div-add-mod size ws) in
      concat-slices (size / ws) 0 ws xs
      ∙ ap (λ n. take (ws * (size / ws)) (drop n xs)) first
      ∙ ap (λ n. take n xs) whole
      ∙ take_all size xs (omega (arith, e))

  slice-part : (c r : ℕ) (xs : List A) → slice (r * c) (r * c + c) xs ≡ take c (drop (r * c) xs)
  slice-part c r xs =
      let e : r * c + c - r * c ≡ c = omega arith in ap (λ n. take n (drop (r * c) xs)) e

module _ {R T : Type 0} where
  -- A layer with a bias.
  abbrev pub layer_of : List R → List T → Linear R T
  layer_of weight bias = record { weight = weight; bias = some bias }

  -- Where the ranks divide the rows of a linear layer, `_split_linear` gives each rank its part of
  -- the weight and of the bias, and the parts of all ranks, in order, are the whole weight and the
  -- whole bias.
  pub split_linear-whole :
      (world_size : ℕ) (weight : List R) (bias : List T)
      → 0 < world_size
      → length bias ≡ length weight
      → length weight % world_size ≡ 0
      → let part = λ (r : ℕ). part_of world_size (length weight) weight r in
        let bias_part = λ (r : ℕ). part_of world_size (length weight) bias r in
        ((rank : ℕ)
          → split_linear (manager_of world_size rank) (layer_of weight bias)
            ≡ return (layer_of (part rank) (bias_part rank)))
        × (concat (map part (range 0 world_size)) ≡ weight)
        × (concat (map bias_part (range 0 world_size)) ≡ bias)
  unfolding split_linear
  split_linear-whole ws weight bias p e d = (
    λ r.
        let t : (ws == 0) ≡ false = ground arith in
        let u : (length weight % ws == 0) ≡ true = ground arith in
        rw t (
          rw u (
            ap
              (λ b. return (record {
                weight = b;
                bias = some (
                    slice (r * (length weight / ws)) (r * (length weight / ws) + length weight / ws)
                      bias);
              }))
              (slice-part (length weight / ws) r weight)
            ∙ ap (λ b. return (layer_of (part_of ws (length weight) weight r) b))
                (slice-part (length weight / ws) r bias))),
    parts-whole ws (length weight) weight refl d,
    parts-whole ws (length weight) bias e d,
  )

  -- Where they do not, every rank keeps the whole layer.
  pub split_linear_keeps :
      (world_size rank : ℕ) (l : Linear R T)
      → 0 < world_size
      → 0 < length l.weight % world_size
      → split_linear (manager_of world_size rank) l ≡ return l
  unfolding split_linear
  split_linear_keeps ws r l p d = ground arith
