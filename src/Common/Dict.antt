-- ===== src/Common/Dict.antt =====
-- Python's dictionaries with integer keys, as association lists in the order of insertion. A key
-- stands in one at most once: every operation keeps that.
use vllm_rocm.Common.Tests.{◌==◌, if◌then◌else◌, Bool-cases}
use vllm_rocm.Common.Lists.{length, snoc, count, has}
use Prim.Native.Nat.{ℕ, suc, ◌≤◌}
use mathlib.Core.Path.{◌≡◌, refl, ap}
use mathlib.Core.Bool.{true, false}
use mathlib.Core.Logic.{◌⊎◌, inl, inr}
use mathlib.Core.List.{List, [], ◌∷◌, map}
use mathlib.Core.Option.{Option, none, some}
use native.Mathlib.Omega.{arith}

-- `[x for x in xs if x != k]`
unfoldable pub without : ℕ → List ℕ → List ℕ
without k [] = []
without k (x ∷ xs) = if x == k then without k xs else x ∷ without k xs

pub count-without :
    (i k : ℕ) (xs : List ℕ) → count i (without k xs) ≡ (if k == i then 0 else count i xs)
unfolding without
count-without i k [] = ground arith
count-without i k (x ∷ xs) = ground (arith, count-without i k xs)

pub without_absent : (k : ℕ) (xs : List ℕ) → count k xs ≡ 0 → without k xs ≡ xs
unfolding without
without_absent k [] h = refl
without_absent k (x ∷ xs) h = ground (arith, without_absent k xs)

pub length-without_le : (k : ℕ) (xs : List ℕ) → length (without k xs) ≤ length xs
unfolding without
length-without_le k [] = omega arith
length-without_le k (x ∷ xs) = ground (arith, length-without_le k xs)

module _ {ℓ} {V : Type ℓ} where
  abbrev pub keys : List (ℕ × V) → List ℕ
  keys = map (λ e. e.0)

  -- `d.get(k)`
  unfoldable pub get : ℕ → List (ℕ × V) → Option V
  get k [] = none
  get k ((j, v) ∷ d) = if j == k then some v else get k d

  -- `d[k] = v`
  unfoldable pub put : ℕ → V → List (ℕ × V) → List (ℕ × V)
  put k v [] = (k, v) ∷ []
  put k v ((j, w) ∷ d) = if j == k then (j, v) ∷ d else (j, w) ∷ put k v d

  -- `d.pop(k, None)`, without the value
  unfoldable pub delete : ℕ → List (ℕ × V) → List (ℕ × V)
  delete k [] = []
  delete k ((j, w) ∷ d) = if j == k then delete k d else (j, w) ∷ delete k d

  pub get-put :
      (k j : ℕ) (v : V) (d : List (ℕ × V))
      → get j (put k v d) ≡ (if k == j then some v else get j d)
  unfolding get put
  get-put k j v [] = refl
  get-put k j v ((i, w) ∷ d) = ground (arith, get-put k j v d)

  pub get-delete :
      (k j : ℕ) (d : List (ℕ × V)) → get j (delete k d) ≡ (if k == j then none else get j d)
  unfolding get delete
  get-delete k j [] = ground arith
  get-delete k j ((i, w) ∷ d) = ground (arith, get-delete k j d)

  pub keys-put :
      (k : ℕ) (v : V) (d : List (ℕ × V))
      → keys (put k v d) ≡ (if has k (keys d) then keys d else snoc (keys d) k)
  unfolding put
  keys-put k v [] = refl
  keys-put k v ((i, w) ∷ d) = ground (arith, keys-put k v d)

  pub keys-delete : (k : ℕ) (d : List (ℕ × V)) → keys (delete k d) ≡ without k (keys d)
  unfolding delete without
  keys-delete k [] = refl
  keys-delete k ((i, w) ∷ d) = ground (arith, keys-delete k d)

  -- A key is there exactly where `get` finds a value.
  pub get-cases :
      (k : ℕ) (d : List (ℕ × V))
      → ((has k (keys d) ≡ false) × (get k d ≡ none))
        ⊎ ((v : V) × (has k (keys d) ≡ true) × (get k d ≡ some v))
  unfolding get
  get-cases k [] = inl (refl, refl)
  get-cases k ((i, w) ∷ d) = elim (Bool-cases (i == k)) [
    | inl e ↦ inr (w, ground arith, ground arith)
    | inr e ↦ elim (get-cases k d) [
      | inl (h, g) ↦ inl (ground arith, ground arith)
      | inr (v, h, g) ↦ inr (v, ground arith, ground arith)
    ]
  ]

  pub length-keys : (d : List (ℕ × V)) → length (keys d) ≡ length d
  length-keys [] = refl
  length-keys (e ∷ d) = ap suc (length-keys d)
