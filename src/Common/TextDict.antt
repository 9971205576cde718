-- ===== src/Common/TextDict.antt =====
-- Python's dictionaries keyed by texts, as association lists.
use Prim.Native.String.{String}
use text.Mathlib.Text.{◌==◌ as same_text}
use text.Mathlib.TextEquality.{eq_iff}
use vllm_rocm.Common.{◌≡◌, refl, List, [], ◌∷◌, Option, none, some, if◌then◌else◌, arith}

module _ {ℓ} {V : Type ℓ} where
  -- `d.get(k)`
  unfoldable pub lookup : String → List (String × V) → Option V
  lookup k [] = none
  lookup k ((j, v) ∷ d) = if same_text j k then some v else lookup k d

  -- `d[k] = v`
  unfoldable pub put : String → V → List (String × V) → List (String × V)
  put k v [] = (k, v) ∷ []
  put k v ((j, w) ∷ d) = if same_text j k then (j, v) ∷ d else (j, w) ∷ put k v d

  pub lookup-put :
      (k j : String) (v : V) (d : List (String × V))
      → lookup j (put k v d) ≡ (if same_text k j then some v else lookup j d)
  unfolding lookup put
  lookup-put k j v [] = refl
  lookup-put k j v ((i, w) ∷ d) =
      ground (arith, eq_iff k j, eq_iff i k, eq_iff i j, lookup-put k j v d)
