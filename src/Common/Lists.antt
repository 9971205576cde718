-- ===== src/Common/Lists.antt =====
-- Python's lists: measured, indexed and counted by native numbers, under the library's names.
use Prim.Native.Nat.{ℕ, zero, suc, ◌+◌, ◌-◌, ◌≤◌, ◌<◌}
use mathlib.Core.Path.{◌≡◌, refl, ap, ◌∙◌}
use mathlib.Core.Logic.{◌⊎◌, inl, inr}
use mathlib.Core.List.{List, [], ◌∷◌, ◌++◌, map}
use mathlib.Core.Option
use mathlib.Core.Option.{Option, none, some}
use mathlib.Core.Bool.{Bool}
use native.Mathlib.Omega.{arith}
use vllm_rocm.Common.Tests.{◌==◌, if◌then◌else◌, ltb, Bool-cases}

module _ {ℓ} {A : Type ℓ} where
  abbrev pub length : List A → ℕ
  length [] = 0
  length (x ∷ xs) = suc (length xs)

  abbrev pub get_elem? : List A → ℕ → Option A
  get_elem? [] i = none
  get_elem? (x ∷ xs) zero = some x
  get_elem? (x ∷ xs) (suc i) = get_elem? xs i

  -- A write out of bounds changes nothing.
  abbrev pub set : List A → ℕ → A → List A
  set [] i v = []
  set (x ∷ xs) zero v = v ∷ xs
  set (x ∷ xs) (suc i) v = x ∷ set xs i v

  abbrev pub replicate : ℕ → A → List A
  replicate zero a = []
  replicate (suc n) a = a ∷ replicate n a

  -- `xs[:n]` and `xs[n:]`
  abbrev pub take : ℕ → List A → List A
  take zero xs = []
  take (suc n) [] = []
  take (suc n) (x ∷ xs) = x ∷ take n xs

  abbrev pub drop : ℕ → List A → List A
  drop zero xs = xs
  drop (suc n) [] = []
  drop (suc n) (x ∷ xs) = drop n xs

  -- `xs.append(x)`
  abbrev pub snoc : List A → A → List A
  snoc xs x = xs ++ x ∷ []

  -- `xs.pop()`: the list without its last element, and that element.
  unfoldable pub pop_last : List A → Option (List A × A)
  pop_last [] = none
  pop_last (x ∷ xs) = elim (pop_last xs) [ none ↦ some ([], x) | some (ys, y) ↦ some (x ∷ ys, y) ]

  pub take-length : (xs : List A) → take (length xs) xs ≡ xs
  take-length [] = refl
  take-length (x ∷ xs) = ap (◌∷◌ x) (take-length xs)

  pub length-append : (xs ys : List A) → length (xs ++ ys) ≡ length xs + length ys
  length-append [] ys = omega arith
  length-append (x ∷ xs) ys = omega (arith, length-append xs ys)

  pub length-set : (xs : List A) (i : ℕ) (v : A) → length (set xs i v) ≡ length xs
  length-set [] i v = refl
  length-set (x ∷ xs) zero v = refl
  length-set (x ∷ xs) (suc i) v = ap suc (length-set xs i v)

  pub length-replicate : (n : ℕ) (a : A) → length (replicate n a) ≡ n
  length-replicate zero a = refl
  length-replicate (suc n) a = ap suc (length-replicate n a)

  -- What an index reads after a write.
  pub get_elem?-set :
      (xs : List A) (i j : ℕ) (v : A)
      → i < length xs
      → get_elem? (set xs i v) j ≡ (if i == j then some v else get_elem? xs j)
  get_elem?-set [] i j v h = elim h [ ]
  get_elem?-set (x ∷ xs) zero zero v h = refl
  get_elem?-set (x ∷ xs) zero (suc j) v h = ground arith
  get_elem?-set (x ∷ xs) (suc i) zero v h = ground arith
  get_elem?-set (x ∷ xs) (suc i) (suc j) v h = ground (arith, get_elem?-set xs i j v)

  pub set-set : (xs : List A) (i : ℕ) (v w : A) → set (set xs i v) i w ≡ set xs i w
  set-set [] i v w = refl
  set-set (x ∷ xs) zero v w = refl
  set-set (x ∷ xs) (suc i) v w = ap (◌∷◌ x) (set-set xs i v w)

  pub get_elem?-lt : (xs : List A) (i : ℕ) (v : A) → get_elem? xs i ≡ some v → i < length xs
  get_elem?-lt [] i v h = absurd (ground arith)
  get_elem?-lt (x ∷ xs) zero v h = omega arith
  get_elem?-lt (x ∷ xs) (suc i) v h = omega (arith, get_elem?-lt xs i v h)

  pub get_elem?-none : (xs : List A) (i : ℕ) → get_elem? xs i ≡ none → length xs ≤ i
  get_elem?-none [] i h = omega arith
  get_elem?-none (x ∷ xs) zero h = absurd (cc)
  get_elem?-none (x ∷ xs) (suc i) h = omega (arith, get_elem?-none xs i h)

  pub get_elem?-some : (xs : List A) (i : ℕ) → i < length xs → (v : A) × (get_elem? xs i ≡ some v)
  get_elem?-some [] i h = elim h [ ]
  get_elem?-some (x ∷ xs) zero h = (x, refl)
  get_elem?-some (x ∷ xs) (suc i) h = get_elem?-some xs i (omega arith)

  pub get_elem?-append_lt :
      (xs ys : List A) (i : ℕ) → i < length xs → get_elem? (xs ++ ys) i ≡ get_elem? xs i
  get_elem?-append_lt [] ys i h = elim h [ ]
  get_elem?-append_lt (x ∷ xs) ys zero h = refl
  get_elem?-append_lt (x ∷ xs) ys (suc i) h = get_elem?-append_lt xs ys i (omega arith)

  pub get_elem?-append_ge :
      (xs ys : List A) (i : ℕ)
      → length xs ≤ i
      → get_elem? (xs ++ ys) i ≡ get_elem? ys (i - length xs)
  get_elem?-append_ge [] ys i h = ap (get_elem? ys) (omega arith)
  get_elem?-append_ge (x ∷ xs) ys zero h = absurd (omega arith)
  get_elem?-append_ge (x ∷ xs) ys (suc i) h =
      get_elem?-append_ge xs ys i (omega arith) ∙ ap (get_elem? ys) (omega arith)

  -- `pop` fails on the empty list only, and takes the last element off any other.
  pub pop_last-cases :
      (xs : List A)
      → ((xs ≡ []) × (pop_last xs ≡ none))
        ⊎ ((ys : List A) × (y : A) × (xs ≡ snoc ys y) × (pop_last xs ≡ some (ys, y)))
  unfolding pop_last
  pop_last-cases [] = inl (refl, refl)
  pop_last-cases (x ∷ xs) = elim (pop_last-cases xs) [
    | inl (e, p) ↦ inr ([], x, ground arith, ground arith)
    | inr (ys, y, e, p) ↦ inr (x ∷ ys, y, ground arith, ground arith)
  ]

-- How often a number stands in a list.
abbrev pub count : ℕ → List ℕ → ℕ
count i [] = 0
count i (x ∷ xs) = (if x == i then 1 else 0) + count i xs

pub count-append : (i : ℕ) (xs ys : List ℕ) → count i (xs ++ ys) ≡ count i xs + count i ys
count-append i [] ys = omega arith
count-append i (x ∷ xs) ys = omega (arith, count-append i xs ys)

-- `list(range(start, start + n))`
unfoldable pub range : ℕ → ℕ → List ℕ
range start zero = []
range start (suc n) = start ∷ range (suc start) n

pub length-range : (start n : ℕ) → length (range start n) ≡ n
unfolding range
length-range start zero = refl
length-range start (suc n) = ap suc (length-range (suc start) n)

pub count-range_below : (i start n : ℕ) → i < start → count i (range start n) ≡ 0
unfolding range
count-range_below i start zero h = refl
count-range_below i start (suc n) h = ground (arith, count-range_below i (suc start) n)

pub count-range :
    (i start n : ℕ) → start ≤ i → count i (range start n) ≡ (if ltb i (start + n) then 1 else 0)
unfolding range
count-range i start zero h = ground arith
count-range i start (suc n) h =
    ground (arith, count-range i (suc start) n, count-range_below i (suc start) n)

pub get_elem?-range : (start n i : ℕ) → i < n → get_elem? (range start n) i ≡ some (start + i)
unfolding range
get_elem?-range start zero i h = elim h [ ]
get_elem?-range start (suc n) zero h = ap some (omega arith)
get_elem?-range start (suc n) (suc i) h =
    get_elem?-range (suc start) n i (omega arith) ∙ ap some (omega arith)

-- A number that stands in a list is counted, and one that is counted once has one place.
pub get_elem?-count : (b : ℕ) (xs : List ℕ) (i : ℕ) → get_elem? xs i ≡ some b → 1 ≤ count b xs
get_elem?-count b [] i h = absurd (cc)
get_elem?-count b (x ∷ xs) zero h = ground arith
get_elem?-count b (x ∷ xs) (suc i) h = omega (arith, get_elem?-count b xs i h)

pub get_elem?-one_place :
    (b : ℕ) (xs : List ℕ) (i j : ℕ)
    → count b xs ≤ 1
    → get_elem? xs i ≡ some b
    → get_elem? xs j ≡ some b
    → i ≡ j
get_elem?-one_place b [] i j u h g = absurd (cc)
get_elem?-one_place b (x ∷ xs) zero zero u h g = refl
get_elem?-one_place b (x ∷ xs) zero (suc j) u h g =
    absurd (ground (arith, get_elem?-count b xs j g))
get_elem?-one_place b (x ∷ xs) (suc i) zero u h g =
    absurd (ground (arith, get_elem?-count b xs i h))
get_elem?-one_place b (x ∷ xs) (suc i) (suc j) u h g =
    ap suc (get_elem?-one_place b xs i j (omega arith) h g)

pub length-map : {A : Type 0} {B : Type 0} (f : A → B) (xs : List A) → length (map f xs) ≡ length xs
length-map f [] = refl
length-map f (x ∷ xs) = ap suc (length-map f xs)

pub get_elem?-map :
    {A : Type 0} {B : Type 0} (f : A → B) (xs : List A) (i : ℕ) (a : A)
    → get_elem? xs i ≡ some a
    → get_elem? (map f xs) i ≡ some (f a)
get_elem?-map f [] i a h = absurd (cc)
get_elem?-map f (x ∷ xs) zero a h = ground arith
get_elem?-map f (x ∷ xs) (suc i) a h = get_elem?-map f xs i a h

pub get_elem?-map-none :
    {A : Type 0} {B : Type 0} (f : A → B) (xs : List A) (i : ℕ)
    → get_elem? xs i ≡ none
    → get_elem? (map f xs) i ≡ none
get_elem?-map-none f [] i h = refl
get_elem?-map-none f (x ∷ xs) zero h = absurd (cc)
get_elem?-map-none f (x ∷ xs) (suc i) h = get_elem?-map-none f xs i h

-- `i in xs`
abbrev pub has : ℕ → List ℕ → Bool
has i xs = ltb 0 (count i xs)

-- `xs.remove(a)`: the list without the first `a`, or a ValueError.
unfoldable pub remove? : ℕ → List ℕ → Option (List ℕ)
remove? a [] = none
remove? a (x ∷ xs) = if x == a then some xs else Option.map (λ ys. x ∷ ys) (remove? a xs)

-- `remove` fails exactly on a list without the number, and otherwise takes one occurrence out.
pub remove?-cases :
    (a : ℕ) (xs : List ℕ)
    → ((count a xs ≡ 0) × (remove? a xs ≡ none))
      ⊎ ((ys : List ℕ) × (remove? a xs ≡ some ys)
          × (length xs ≡ suc (length ys))
          × ((i : ℕ) → count i xs ≡ (if a == i then 1 else 0) + count i ys))
unfolding remove?
remove?-cases a [] = inl (refl, refl)
remove?-cases a (x ∷ xs) = elim (Bool-cases (x == a)) [
  | inl e ↦ inr (xs, ground arith, refl, λ i. ground arith)
  | inr e ↦ elim (remove?-cases a xs) [
    | inl (c, r) ↦ inl (ground arith, ground arith)
    | inr (ys, r, n, c) ↦ inr (x ∷ ys, ground arith, omega (arith, n), λ i. ground (arith, c i))
  ]
]
