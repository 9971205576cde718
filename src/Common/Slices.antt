-- ===== src/Common/Slices.antt =====
-- Slices of lists, and lists put together from equal slices.
use Prim.Native.Nat.{ℕ, zero, suc, ◌+◌, ◌*◌, ◌-◌, ◌≤◌, min}
use mathlib.Core.Path.{◌≡◌, refl, ap, ◌∙◌, sym}
use mathlib.Core.List.{List, [], ◌∷◌, ◌++◌, map}
use native.Mathlib.Omega.{arith}
use native.Mathlib.Nat.{suc-mul}
use vllm_rocm.Common.Lists.{length, take, drop, range}

-- `xs[start:stop]`
abbrev pub slice {ℓ} : {A : Type ℓ} → ℕ → ℕ → List A → List A
slice start stop xs = take (stop - start) (drop start xs)

-- Lists one after the other.
abbrev pub concat {ℓ} : {A : Type ℓ} → List (List A) → List A
concat [] = []
concat (xs ∷ xss) = xs ++ concat xss

module _ {ℓ} {A : Type ℓ} where
  take-nil : (n : ℕ) → take {A = A} n [] ≡ []
  take-nil zero = refl
  take-nil (suc n) = refl

  drop-nil : (n : ℕ) → drop {A = A} n [] ≡ []
  drop-nil zero = refl
  drop-nil (suc n) = refl

  pub take-add : (m n : ℕ) (xs : List A) → take (m + n) xs ≡ take m xs ++ take n (drop m xs)
  take-add zero n xs = let e : zero + n ≡ n = omega arith in ap (λ k. take k xs) e
  take-add (suc m) n [] =
      let e : suc m + n ≡ suc (m + n) = omega arith in ap (λ k. take k []) e ∙ sym (take-nil n)
  take-add (suc m) n (x ∷ xs) =
      let e : suc m + n ≡ suc (m + n) = omega arith in
      ap (λ k. take k (x ∷ xs)) e ∙ ap (◌∷◌ x) (take-add m n xs)

  pub drop-drop : (m n : ℕ) (xs : List A) → drop n (drop m xs) ≡ drop (m + n) xs
  drop-drop zero n xs = let e : n ≡ zero + n = omega arith in ap (λ k. drop k xs) e
  drop-drop (suc m) n [] = drop-nil n ∙ sym (drop-nil (suc m + n))
  drop-drop (suc m) n (x ∷ xs) =
      let e : suc (m + n) ≡ suc m + n = omega arith in
      drop-drop m n xs ∙ ap (λ k. drop k (x ∷ xs)) e

  pub length-take : (n : ℕ) (xs : List A) → length (take n xs) ≡ min n (length xs)
  length-take zero xs = omega arith
  length-take (suc n) [] = omega arith
  length-take (suc n) (x ∷ xs) = omega (arith, length-take n xs)

  pub take_all : (n : ℕ) (xs : List A) → length xs ≤ n → take n xs ≡ xs
  take_all zero [] h = refl
  take_all zero (x ∷ xs) h = absurd (omega arith)
  take_all (suc n) [] h = refl
  take_all (suc n) (x ∷ xs) h = ap (◌∷◌ x) (take_all n xs (omega arith))

  pub drop-append : (xs ys : List A) → drop (length xs) (xs ++ ys) ≡ ys
  drop-append [] ys = refl
  drop-append (x ∷ xs) ys = drop-append xs ys

  -- The slices of `c` elements from the `s`th on, one after the other.
  pub concat-slices :
      (c s k : ℕ) (xs : List A)
      → concat (map (λ r. take c (drop (r * c) xs)) (range s k)) ≡ take (k * c) (drop (s * c) xs)
  unfolding range
  concat-slices c s zero xs =
      let e : zero ≡ zero * c = omega arith in ap (λ n. take n (drop (s * c) xs)) e
  concat-slices c s (suc k) xs =
      let next : suc s * c ≡ s * c + c = omega (arith, suc-mul s c) in
      let all : c + k * c ≡ suc k * c = omega (arith, suc-mul k c) in
      ap (λ ys. take c (drop (s * c) xs) ++ ys)
        (concat-slices c (suc s) k xs
          ∙ ap (λ n. take (k * c) (drop n xs)) next
          ∙ ap (take (k * c)) (sym (drop-drop (s * c) c xs)))
      ∙ sym (take-add c (k * c) (drop (s * c) xs))
      ∙ ap (λ n. take n (drop (s * c) xs)) all
