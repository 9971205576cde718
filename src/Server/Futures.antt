-- ===== src/Server/Futures.antt =====
-- The futures of a batch whose groups all come to the same result.
use Prim.Native.String.{String}
use package.text.Mathlib.Text.{◌==◌ as same_text}
use package.text.Mathlib.TextPositions.{eq_refl}
use vllm_rocm.Common.{ℕ, ◌≡◌, refl, ◌⊎◌, inl, inr, none, some, List, [], ◌∷◌, Bool-cases}
use vllm_rocm.Scheduler.{SequenceGroup}
use vllm_rocm.Scheduler.Ownership.{All}
use vllm_rocm.Engine.{future_of}

-- A group of the id is in the list.
abbrev pub IsNamed : String → List SequenceGroup → Type 0
IsNamed a [] = ⊥
IsNamed a (g ∷ gs) = (g.request_id ≡ a) ⊎ IsNamed a gs

abbrev pub HasResult : List ℕ → SequenceGroup → Type 0
HasResult result g = g.completion_future ≡ some result

future_of-cases :
    (a : String) (result : List ℕ) (gs : List SequenceGroup)
    → All (HasResult result) gs
    → (future_of a gs ≡ none) ⊎ (future_of a gs ≡ some result)
unfolding future_of
future_of-cases a result [] h = inl refl
future_of-cases a result (g ∷ gs) h = elim (future_of-cases a result gs h.1) [
  | inr e ↦ inr (rw e refl)
  | inl e ↦ elim (Bool-cases (same_text g.request_id a)) [
    | inl same ↦ inr (rw (e, same) h.0)
    | inr differ ↦ inl (rw (e, differ) refl)
  ]
]

pub future_of-IsNamed :
    (a : String) (result : List ℕ) (gs : List SequenceGroup)
    → All (HasResult result) gs
    → IsNamed a gs
    → future_of a gs ≡ some result
unfolding future_of
future_of-IsNamed a result [] h n = absurd n
future_of-IsNamed a result (g ∷ gs) h (inr n) = rw (future_of-IsNamed a result gs h.1 n) refl
future_of-IsNamed a result (g ∷ gs) h (inl n) = elim (future_of-cases a result gs h.1) [
  | inr e ↦ rw e refl
  | inl e ↦ rw (e, n) (rw (eq_refl a) h.0)
]
