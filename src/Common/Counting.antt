-- ===== src/Common/Counting.antt =====
-- A list in which each number below a bound stands once, and no other, has as many elements.
use vllm_rocm.Common.{
  ℕ, zero, suc, ◌≤◌, ◌≡◌, refl, List, [], ◌∷◌, length, count, remove?-cases, ltb, if◌then◌else◌,
  inl, inr, arith,
}

count-head : (x : ℕ) (xs : List ℕ) → 1 ≤ count x (x ∷ xs)
count-head x xs = ground arith

pub length-count :
    (n : ℕ) (xs : List ℕ) → ((i : ℕ) → count i xs ≡ (if ltb i n then 1 else 0)) → length xs ≡ n
length-count zero [] h = refl
length-count zero (x ∷ xs) h = absurd (ground (arith, h x, count-head x xs))
length-count (suc n) xs h = elim (remove?-cases n xs) [
  | inl (z, _) ↦ absurd (ground (arith, h n))
  | inr (ys, _, longer, counts) ↦
      omega (arith, longer, length-count n ys (λ i. ground (arith, h i, counts i)))
]
