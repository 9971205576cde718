-- ===== src/ContinuousBatch/Sorting.antt =====
-- src/vllm_rocm/scheduler.py: the order of what `sort` returns.
use vllm_rocm.Common.{◌≡◌, Bool, true, false, List, [], ◌∷◌, ◌++◌, inl, inr, Bool-cases}
use vllm_rocm.ContinuousBatch.{Sequence, insert_by, sort_by}

module _ (le : Sequence → Sequence → Bool) where
  -- `x` goes before every sequence of a list.
  abbrev pub IsFirst : Sequence → List Sequence → Type 0
  IsFirst x [] = Unit {0}
  IsFirst x (y ∷ ys) = (le x y ≡ true) × IsFirst x ys

  abbrev pub IsSorted : List Sequence → Type 0
  IsSorted [] = Unit {0}
  IsSorted (x ∷ xs) = IsFirst x xs × IsSorted xs

  -- Every sequence of the first list goes before every one of the second.
  abbrev pub AllBefore : List Sequence → List Sequence → Type 0
  AllBefore [] ys = Unit {0}
  AllBefore (x ∷ xs) ys = IsFirst x ys × AllBefore xs ys

  IsFirst-append : (x : Sequence) (ys zs : List Sequence) → IsFirst x (ys ++ zs) → IsFirst x zs
  IsFirst-append x [] zs a = a
  IsFirst-append x (y ∷ ys) zs a = IsFirst-append x ys zs a.1

  pub IsSorted-append : (xs ys : List Sequence) → IsSorted (xs ++ ys) → AllBefore xs ys
  IsSorted-append [] ys s = tt
  IsSorted-append (x ∷ xs) ys s = (IsFirst-append x xs ys s.0, IsSorted-append xs ys s.1)

  module _ (total : (x y : Sequence) → le x y ≡ false → le y x ≡ true)
      (trans : (x y z : Sequence) → le x y ≡ true → le y z ≡ true → le x z ≡ true) where
    IsFirst-trans :
        (x y : Sequence) (zs : List Sequence) → le x y ≡ true → IsFirst y zs → IsFirst x zs
    IsFirst-trans x y [] h a = tt
    IsFirst-trans x y (z ∷ zs) h a = (trans x y z h a.0, IsFirst-trans x y zs h a.1)

    IsFirst-insert_by :
        (x z : Sequence) (ys : List Sequence)
        → le x z ≡ true
        → IsFirst x ys
        → IsFirst x (insert_by le z ys)
    unfolding insert_by
    IsFirst-insert_by x z [] h a = (h, tt)
    IsFirst-insert_by x z (y ∷ ys) h a = elim (Bool-cases (le z y)) [
      | inl e ↦ rw e (h, a)
      | inr e ↦ rw e (a.0, IsFirst-insert_by x z ys h a.1)
    ]

    insert_by-IsSorted :
        (z : Sequence) (ys : List Sequence) → IsSorted ys → IsSorted (insert_by le z ys)
    unfolding insert_by
    insert_by-IsSorted z [] s = (tt, tt)
    insert_by-IsSorted z (y ∷ ys) s = elim (Bool-cases (le z y)) [
      | inl e ↦ rw e ((e, IsFirst-trans z y ys e s.0), s)
      | inr e ↦ rw e (IsFirst-insert_by y z ys (total z y e) s.0, insert_by-IsSorted z ys s.1)
    ]

    pub sort_by-IsSorted : (xs : List Sequence) → IsSorted (sort_by le xs)
    unfolding sort_by
    sort_by-IsSorted [] = tt
    sort_by-IsSorted (x ∷ xs) = insert_by-IsSorted x (sort_by le xs) (sort_by-IsSorted xs)
