-- ===== src/Quantization/Tests.antt =====
-- A weight on the grid of its scales, in an arithmetic of natural numbers.
use vllm_rocm.Common.{
  ℕ, ◌*◌, ◌/◌, ◌≡◌, refl, none, some, List, [], ◌∷◌, map, take, leb, if◌then◌else◌, min, return,
  raise, value_error, arith,
}
use vllm_rocm.Quantization.{
  Arithmetic, Weight, Scales, QuantizationEngine, int4_gptq, groups, abs_max, group_max, row_scales,
  own_scales, quantize_row, quantize_rows, weight_grouped, quantize_int4_awq, quantize_int4_gptq,
  dequant_row, dequant_int4, quantize_fp8, get_dequant_fn,
}
use vllm_rocm.Quantization.Groups.{dequant_int4-quantize_int4_gptq}

program : Unit {0}
unfolding groups abs_max group_max row_scales own_scales quantize_row quantize_rows weight_grouped
    quantize_int4_awq quantize_int4_gptq dequant_row dequant_int4 quantize_fp8 get_dequant_fn
program = tt

abbrev torch : Arithmetic ℕ ℕ ℕ
torch = record {
  abs = λ x. x;
  max = λ x y. if leb x y then y else x;
  div = λ x y. x / y;
  mul = λ x y. x * y;
  neg = λ x. 0;
  limit = λ n. n;
  round = λ x. x;
  clamp = λ x low high. min x high;
  to_int8 = λ x. x;
  of_int8 = λ q. q;
  to_fp8 = λ m x. x;
  of_fp8 = λ x. x;
}

-- Five columns, in groups of two.
abbrev weight : Weight ℕ
weight = record { columns = 5; rows = (7 ∷ 3 ∷ 70 ∷ 20 ∷ 9 ∷ []) ∷ (14 ∷ 4 ∷ 0 ∷ 7 ∷ 1 ∷ []) ∷ [] }

abbrev engine : QuantizationEngine ℕ
engine = record { config = record { method = int4_gptq; group_size = 2 }; gptq_scales = none }

fp8_run : quantize_fp8 torch int4_gptq (1 ∷ []) ≡ raise value_error
unfolding program
fp8_run = refl

-- The last column is lost.
back_run :
    dequant_int4 torch
      (quantize_rows torch
        (own_scales torch (map (groups 2 2) weight.rows))
        (map (groups 2 2) weight.rows))
      (own_scales torch (map (groups 2 2) weight.rows))
    ≡ (7 ∷ 3 ∷ 70 ∷ 20 ∷ []) ∷ (14 ∷ 4 ∷ 0 ∷ 7 ∷ []) ∷ []
unfolding program
back_run = refl

dequant_int4-quantize_int4_gptq_example :
    (q : List (List (List ℕ))) × (s : Scales ℕ) × (quantize_int4_gptq torch weight engine
      ≡ (return q, record engine { gptq_scales = some s }))
    × (dequant_int4 torch q s ≡ map (take (5 / 2 * 2)) weight.rows)
unfolding groups abs_max group_max
dequant_int4-quantize_int4_gptq_example =
    dequant_int4-quantize_int4_gptq torch weight engine (omega arith) (
      ((refl, (refl, tt)), ((refl, (refl, tt)), tt)),
      (((refl, (refl, tt)), ((refl, (refl, tt)), tt)), tt),
    )
