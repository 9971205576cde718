-- ===== src/Quantization/Groups.antt =====
-- src/vllm_rocm/quantization.py: what quantizing to int4 and back leaves of a weight.
use vllm_rocm.Common.{
  ℕ, zero, suc, ◌+◌, ◌*◌, ◌/◌, ◌<◌, ◌≡◌, refl, sym, ap, ◌∙◌, ◌⊎◌, inl, inr, none, some, List, [],
  ◌∷◌, ◌++◌, map, take, drop, Result-cases, Exception, return, raise, arith,
}
use vllm_rocm.Common.Slices.{take-add}
use vllm_rocm.Quantization.{
  Arithmetic, Weight, Scales, QuantizationEngine, groups, scale_of, quantize, row_scales,
  own_scales, quantize_row, quantize_rows, weight_grouped, quantize_int4_awq, quantize_int4_gptq,
  dequant_row, dequant_int4,
}

-- A predicate of every element.
abbrev pub Each : {A : Type 0} → (A → Type 0) → List A → Type 0
Each P [] = Unit {0}
Each P (x ∷ xs) = P x × Each P xs

module _ {T Q F : Type 0} (torch : Arithmetic T Q F) where
  -- Quantizing the elements of the group and back gives them again.
  abbrev pub IsExact : List T → Type 0
  IsExact g =
      Each
        (λ x.
          torch.mul (torch.of_int8 (quantize torch (scale_of torch g) x)) (scale_of torch g) ≡ x)
        g

  back :
      (s : T) (g : List T)
      → Each (λ x. torch.mul (torch.of_int8 (quantize torch s x)) s ≡ x) g
      → map (λ q. torch.mul (torch.of_int8 q) s) (map (quantize torch s) g) ≡ g
  back s [] h = refl
  back s (x ∷ g) h = cc (h.0, back s g h.1)

  unfoldable pub flat : List (List T) → List T
  flat [] = []
  flat (g ∷ gs) = g ++ flat gs

  flat-groups : (n gs : ℕ) (xs : List T) → flat (groups n gs xs) ≡ take (n * gs) xs
  unfolding flat groups
  flat-groups zero gs xs = let e : 0 ≡ zero * gs = omega arith in ap (λ k. take k xs) e
  flat-groups (suc n) gs xs =
      let e : gs + n * gs ≡ suc n * gs = omega arith in
      ap (λ t. take gs xs ++ t) (flat-groups n gs (drop gs xs))
      ∙ sym (take-add gs (n * gs) xs)
      ∙ ap (λ k. take k xs) e

  row_back :
      (gs : List (List T))
      → Each IsExact gs
      → dequant_row torch (row_scales torch gs) (quantize_row torch (row_scales torch gs) gs)
        ≡ flat gs
  unfolding dequant_row row_scales quantize_row flat
  row_back [] h = refl
  row_back (g ∷ gs) h = cc (back (scale_of torch g) g h.0, row_back gs h.1)

  rows_back :
      (rows : List (List (List T)))
      → Each (Each IsExact) rows
      → dequant_int4 torch
          (quantize_rows torch (own_scales torch rows) rows)
          (own_scales torch rows)
        ≡ map flat rows
  unfolding dequant_int4 quantize_rows own_scales
  rows_back [] h = refl
  rows_back (r ∷ rows) h = cc (row_back r h.0, rows_back rows h.1)

  flat_rows :
      (n gs : ℕ) (rows : List (List T))
      → map flat (map (groups n gs) rows) ≡ map (take (n * gs)) rows
  flat_rows n gs [] = refl
  flat_rows n gs (r ∷ rows) = cc (flat-groups n gs r, flat_rows n gs rows)

  grouped_positive :
      (gs : ℕ) (w : Weight T)
      → 0 < gs
      → weight_grouped torch gs w ≡ return (map (groups (w.columns / gs) gs) w.rows)
  unfolding weight_grouped
  grouped_positive gs w h = ground arith

  -- Without scales of the caller's, `quantize_int4_gptq` computes what `quantize_int4_awq` does, and
  -- keeps the scales that this returns; a group size of 0 is an error of both.
  pub quantize_int4_gptq-awq :
      (w : Weight T) (e : QuantizationEngine T)
      → ((x : Exception) × (quantize_int4_awq torch w none e ≡ (raise x, e))
          × (quantize_int4_gptq torch w e ≡ (raise x, e)))
        ⊎ ((q : List (List (List Q))) × (s : Scales T) × (quantize_int4_awq torch w none e
              ≡ (return (q, s), e))
            × (quantize_int4_gptq torch w e ≡ (return q, record e { gptq_scales = some s })))
  unfolding quantize_int4_awq quantize_int4_gptq
  quantize_int4_gptq-awq w e = elim (Result-cases (weight_grouped torch e.config.group_size w)) [
    | inr (x, p) ↦ inl (x, rw (quantize_int4_awq, p) refl, rw (quantize_int4_gptq, p) refl)
    | inl (g, p) ↦ inr (
      quantize_rows torch (own_scales torch g) g,
      own_scales torch g,
      rw (quantize_int4_awq, p) refl,
      rw (quantize_int4_gptq, p) refl,
    )
  ]

  -- With a group size that is not 0, where torch's arithmetic gives every element of every group back
  -- from its quantization, dequantizing what `quantize_int4_gptq` returns, with the scales that it
  -- keeps, gives the weight back but for the columns behind the last whole group: they are lost.
  pub dequant_int4-quantize_int4_gptq :
      (w : Weight T) (e : QuantizationEngine T)
      → 0 < e.config.group_size
      → Each
          (Each IsExact)
          (map (groups (w.columns / e.config.group_size) e.config.group_size) w.rows)
      → (q : List (List (List Q))) × (s : Scales T) × (quantize_int4_gptq torch w e
          ≡ (return q, record e { gptq_scales = some s }))
        × (dequant_int4 torch q s
            ≡ map (take (w.columns / e.config.group_size * e.config.group_size)) w.rows)
  unfolding quantize_int4_gptq
  dequant_int4-quantize_int4_gptq w e h x =
      let gs = e.config.group_size in
      let grouped = map (groups (w.columns / gs) gs) w.rows in
      (
        quantize_rows torch (own_scales torch grouped) grouped,
        own_scales torch grouped,
        rw (quantize_int4_gptq, grouped_positive gs w h) refl,
        rows_back grouped x ∙ flat_rows (w.columns / gs) gs w.rows,
      )
