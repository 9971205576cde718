-- ===== src/PagedCache/Reading.antt =====
-- `get_key_value`: which value of the cache stands at a position of what it returns.
use vllm_rocm.Common.{
  ℕ, zero, suc, ◌+◌, ◌-◌, ◌/◌, ◌%◌, ◌<◌, ◌≡◌, refl, ap, ◌∙◌, false, Option, none, some, List, [],
  ◌∷◌, map, length, length-range, take, range, get_elem?, get_elem?-map, length-map,
  get_elem?-append_lt, get_elem?-append_ge, get_elem?-range, ltb→lt, ltb→le, ltb, ◌==◌, arith,
  Bool-cases, inl, inr, return, raise,
}
use vllm_rocm.PagedCache.{Manager, concat, row, table_of, get_key_value}
use native.Mathlib.Nat.{div-eq_of_lt, div-eq-sub-div, mod-eq_of_lt, mod-eq-sub-mod}

-- The key and the value of a sequence at a position, in the order of the tokens.
abbrev pub read_key : {T : Type 0} → ℕ → ℕ → Manager T → Option T
read_key seq_id p m = elim (get_key_value seq_id (suc p) m) [
  | return (ks, vs) ↦ get_elem? ks p
  | raise e ↦ none
]

abbrev pub read_value : {T : Type 0} → ℕ → ℕ → Manager T → Option T
read_value seq_id p m = elim (get_key_value seq_id (suc p) m) [
  | return (ks, vs) ↦ get_elem? vs p
  | raise e ↦ none
]

-- The place in the cache that a position of some blocks is kept in.
abbrev pub entry : {T : Type 0} → (ℕ → ℕ → T) → ℕ → List ℕ → ℕ → Option T
entry cache block_size blocks p = elim (get_elem? blocks (p / block_size)) [
  | none ↦ none
  | some b ↦ some (cache b (p % block_size))
]

module _ {T : Type 0} where
  length-row : (cache : ℕ → ℕ → T) (bs b : ℕ) → length (row cache bs b) ≡ bs
  length-row cache bs b = length-map (cache b) (range 0 bs) ∙ length-range 0 bs

  get_elem?-row :
      (cache : ℕ → ℕ → T) (bs b i : ℕ) → i < bs → get_elem? (row cache bs b) i ≡ some (cache b i)
  get_elem?-row cache bs b i h =
      get_elem?-map (cache b) (range 0 bs) i i (get_elem?-range 0 bs i h ∙ ap some (omega arith))

  get_elem?-concat :
      (cache : ℕ → ℕ → T) (bs : ℕ) (blocks : List ℕ) (p : ℕ)
      → 0 < bs
      → get_elem? (concat (map (row cache bs) blocks)) p ≡ entry cache bs blocks p
  get_elem?-concat cache bs [] p h = refl
  get_elem?-concat cache bs (b ∷ blocks) p h =
      let rest = concat (map (row cache bs) blocks) in
      elim (Bool-cases (ltb p bs)) [
        | inl t ↦
            get_elem?-append_lt (row cache bs b) rest p
              (omega (arith, length-row cache bs b, ltb→lt p bs t))
            ∙ get_elem?-row cache bs b p (ltb→lt p bs t)
            ∙ ground (arith, div-eq_of_lt (ltb→lt p bs t), mod-eq_of_lt (ltb→lt p bs t))
        | inr t ↦
            let le = ltb→le p bs t in
            get_elem?-append_ge (row cache bs b) rest p (omega (arith, length-row cache bs b, le))
            ∙ ap (λ n. get_elem? rest (p - n)) (length-row cache bs b)
            ∙ get_elem?-concat cache bs blocks (p - bs) h
            ∙ ground (arith, div-eq-sub-div h le, mod-eq-sub-mod le)
      ]

get_elem?-take : (xs : List ℕ) (n i : ℕ) → i < n → get_elem? (take n xs) i ≡ get_elem? xs i
get_elem?-take xs zero i h = absurd (omega arith)
get_elem?-take [] (suc n) i h = refl
get_elem?-take (x ∷ xs) (suc n) zero h = refl
get_elem?-take (x ∷ xs) (suc n) (suc i) h = get_elem?-take xs n i (omega arith)

enough_blocks : (p bs : ℕ) → 0 < bs → p / bs < (suc p + bs - 1) / bs
enough_blocks p bs h =
    let e : (suc p + bs - 1 - bs) / bs ≡ p / bs = ap (λ n. n / bs) (omega arith) in
    omega (arith, div-eq-sub-div {m = bs} {n = suc p + bs - 1} h (omega arith), e)

module _ {T : Type 0} where
  entry-take :
      (cache : ℕ → ℕ → T) (bs : ℕ) (blocks : List ℕ) (p : ℕ)
      → 0 < bs
      → entry cache bs (take ((suc p + bs - 1) / bs) blocks) p ≡ entry cache bs blocks p
  entry-take cache bs blocks p h =
      ground (arith, get_elem?-take blocks ((suc p + bs - 1) / bs) (p / bs) (enough_blocks p bs h))

  pub read_key-entry :
      (m : Manager T) (s p : ℕ)
      → 0 < m.block_size
      → read_key s p m ≡ entry m.key_cache m.block_size (table_of s m) p
  unfolding get_key_value
  read_key-entry m s p h =
      let bs = m.block_size in
      let blocks = take ((suc p + bs - 1) / bs) (table_of s m) in
      let e =
        get_elem?-concat m.key_cache bs blocks p h ∙ entry-take m.key_cache bs (table_of s m) p h in
      let t : (bs == 0) ≡ false = ground arith in rw (t, read_key) e

  pub read_value-entry :
      (m : Manager T) (s p : ℕ)
      → 0 < m.block_size
      → read_value s p m ≡ entry m.value_cache m.block_size (table_of s m) p
  unfolding get_key_value
  read_value-entry m s p h =
      let bs = m.block_size in
      let blocks = take ((suc p + bs - 1) / bs) (table_of s m) in
      let e =
        get_elem?-concat m.value_cache bs blocks p h
        ∙ entry-take m.value_cache bs (table_of s m) p h in
      let t : (bs == 0) ≡ false = ground arith in rw (t, read_value) e
