-- ===== src/Quantization.antt =====
-- src/vllm_rocm/quantization.py. `T` is the type of the elements of a tensor, `Q` that of the int8
-- numbers; torch's arithmetic on them is a parameter, the record `Arithmetic`. A weight is a matrix,
-- and a grouped one has groups in each row.
pub mod Groups
mod Tests
use vllm_rocm.Common.{
  ℕ, zero, suc, ◌+◌, ◌*◌, ◌/◌, Bool, true, false, Option, none, some, List, [], ◌∷◌, ◌++◌, map,
  take, drop, length, ◌==◌, if◌then◌else◌, Result, return, raise, value_error, zero_division_error,
  Action, pure, update,
}

pub data QuantMethod : Type 0 where
  fp8_e4m3 fp8_e5m2 int4_awq int4_gptq : QuantMethod

pub record QuantConfig : Type 0 where
  pub method : QuantMethod
  pub group_size : ℕ

-- torch's operations on an element; `limit n` is the number n, `to_fp8` the cast to a format, `to_int8`
-- that to int8, and `of_int8` and `of_fp8` are `float()`.
pub record Arithmetic (T Q F : Type 0) : Type 0 where
  pub abs : T → T
  pub max : T → T → T
  pub div : T → T → T
  pub mul : T → T → T
  pub neg : T → T
  pub limit : ℕ → T
  pub round : T → T
  pub clamp : T → T → T → T
  pub to_int8 : T → Q
  pub of_int8 : Q → T
  pub to_fp8 : QuantMethod → T → F
  pub of_fp8 : F → T

-- The scale of a group, by the row and the group in it.
abbrev pub Scales : Type 0 → Type 0
Scales T = ℕ → ℕ → T

-- `gptq_scales` is the entry "gptq" of `scales`, the only one that is written.
pub record QuantizationEngine (T : Type 0) : Type 0 where
  pub config : QuantConfig
  pub gptq_scales : Option (Scales T)

pub record Weight (T : Type 0) : Type 0 where
  pub columns : ℕ
  pub rows : List (List T)

-- A row as `n` groups of `gs`; what follows them is dropped.
unfoldable pub groups : {A : Type 0} → ℕ → ℕ → List A → List (List A)
groups zero gs xs = []
groups (suc n) gs xs = take gs xs ∷ groups n gs (drop gs xs)

module _ {T Q F : Type 0} (torch : Arithmetic T Q F) where
  -- `tensor.abs().max()` of a list that is not empty, from its first element on
  unfoldable pub abs_max : T → List T → T
  abs_max m [] = m
  abs_max m (x ∷ xs) = abs_max (torch.max m (torch.abs x)) xs

  -- `abs_max` of a group; torch raises for an empty one, which a group size that is not 0 excludes.
  unfoldable pub group_max : List T → T
  group_max [] = torch.limit 0
  group_max (x ∷ xs) = abs_max (torch.abs x) xs

  abbrev pub scale_of : List T → T
  scale_of g = torch.div (group_max g) (torch.limit 7)

  abbrev pub quantize : T → T → Q
  quantize scale w =
      torch.to_int8
        (torch.clamp (torch.round (torch.div w scale)) (torch.neg (torch.limit 8)) (torch.limit 7))

  -- The scales of the groups of a row, from their own elements.
  unfoldable pub row_scales : List (List T) → ℕ → T
  row_scales [] j = torch.limit 0
  row_scales (g ∷ gs) zero = scale_of g
  row_scales (g ∷ gs) (suc j) = row_scales gs j

  unfoldable pub own_scales : List (List (List T)) → Scales T
  own_scales [] i = λ j. torch.limit 0
  own_scales (r ∷ rows) zero = row_scales r
  own_scales (r ∷ rows) (suc i) = own_scales rows i

  -- The division of the groups of a row by their scales, with rounding and clamping.
  unfoldable pub quantize_row : (ℕ → T) → List (List T) → List (List Q)
  quantize_row scales [] = []
  quantize_row scales (g ∷ gs) = map (quantize (scales 0)) g ∷ quantize_row (λ j. scales (suc j)) gs

  unfoldable pub quantize_rows : Scales T → List (List (List T)) → List (List (List Q))
  quantize_rows scales [] = []
  quantize_rows scales (r ∷ rows) =
      quantize_row (scales 0) r ∷ quantize_rows (λ i. scales (suc i)) rows

  -- `weight[:, : num_groups * gs].reshape(rows, num_groups, gs)`, or the error of `cols // gs`
  unfoldable pub weight_grouped : ℕ → Weight T → Result (List (List (List T)))
  weight_grouped gs w =
      if gs == 0
      then raise zero_division_error
      else return (map (groups (w.columns / gs) gs) w.rows)

  abbrev pub or_own : Option (Scales T) → List (List (List T)) → Scales T
  or_own none grouped = own_scales grouped
  or_own (some scales) grouped = scales

  unfoldable pub quantize_int4_awq :
      Weight T → Option (Scales T) → Action (QuantizationEngine T) (List (List (List Q)) × Scales T)
  quantize_int4_awq w scales e = elim (weight_grouped e.config.group_size w) [
    | raise x ↦ (raise x, e)
    | return grouped ↦
        (return (quantize_rows (or_own scales grouped) grouped, or_own scales grouped), e)
  ]

  unfoldable pub quantize_int4_gptq :
      Weight T → Action (QuantizationEngine T) (List (List (List Q)))
  quantize_int4_gptq w e = elim (weight_grouped e.config.group_size w) [
    | raise x ↦ (raise x, e)
    | return grouped ↦ (
      return (quantize_rows (own_scales grouped) grouped),
      record e { gptq_scales = some (own_scales grouped) },
    )
  ]

  -- `(quantized.float() * scales).reshape(rows, groups * gs)`, for a row and for all.
  unfoldable pub dequant_row : (ℕ → T) → List (List Q) → List T
  dequant_row scales [] = []
  dequant_row scales (g ∷ gs) =
      map (λ q. torch.mul (torch.of_int8 q) (scales 0)) g ++ dequant_row (λ j. scales (suc j)) gs

  unfoldable pub dequant_int4 : List (List (List Q)) → Scales T → List (List T)
  dequant_int4 [] scales = []
  dequant_int4 (r ∷ rows) scales =
      dequant_row (scales 0) r ∷ dequant_int4 rows (λ i. scales (suc i))

  abbrev pub dequant_fp8 : List F → T → List T
  dequant_fp8 tensor scale = map (λ q. torch.mul (torch.of_fp8 q) scale) tensor

  -- The cast of a tensor, which is listed, to FP8 with the greatest number `limit` of the format.
  abbrev pub to_fp8_with : QuantMethod → ℕ → List T → List F × T
  to_fp8_with method limit tensor =
      let scale = torch.div (group_max tensor) (torch.limit limit) in
      (
        map
            (λ x.
              torch.to_fp8 method (
                torch.clamp (torch.div x scale) (torch.neg (torch.limit limit))
                  (torch.limit limit)))
            tensor,
        scale,
      )

  abbrev pub to_fp8_e4m3 : List T → List F × T
  to_fp8_e4m3 = to_fp8_with fp8_e4m3 448

  abbrev pub to_fp8_e5m2 : List T → List F × T
  to_fp8_e5m2 = to_fp8_with fp8_e5m2 57344

  -- `quantize_fp8` by the method; the tensor is not empty.
  unfoldable pub quantize_fp8 : QuantMethod → List T → Result (List F × T)
  quantize_fp8 fp8_e4m3 tensor = return (to_fp8_e4m3 tensor)
  quantize_fp8 fp8_e5m2 tensor = return (to_fp8_e5m2 tensor)
  quantize_fp8 int4_awq tensor = raise value_error
  quantize_fp8 int4_gptq tensor = raise value_error

  -- The function that `get_dequant_fn` returns.
  pub data Dequant : Type 0 where
    of_int4 : (List (List (List Q)) → Scales T → List (List T)) → Dequant
    of_fp8_tensor : (List F → T → List T) → Dequant

  unfoldable pub get_dequant_fn : QuantMethod → Dequant
  get_dequant_fn int4_awq = of_int4 dequant_int4
  get_dequant_fn int4_gptq = of_int4 dequant_int4
  get_dequant_fn fp8_e4m3 = of_fp8_tensor dequant_fp8
  get_dequant_fn fp8_e5m2 = of_fp8_tensor dequant_fp8
