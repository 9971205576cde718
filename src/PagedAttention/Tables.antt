-- ===== src/PagedAttention/Tables.antt =====
-- The blocks of all the tables together.
use vllm_rocm.Common.{
  get_elem?, get_elem?-count, get_elem?-one_place, ◌&&◌, Bool-cases, inl, inr, ℕ, ◌+◌, ◌≤◌, ◌≡◌,
  refl, false, none, some, List, [], ◌∷◌, length, count, ◌==◌, arith,
}
use vllm_rocm.Common.Dict
use vllm_rocm.Common.Dict.{keys}

-- How often block `i` stands in the tables.
abbrev pub held : ℕ → List (ℕ × List ℕ) → ℕ
held i [] = 0
held i ((k, blocks) ∷ d) = count i blocks + held i d

-- How many places the tables have together.
abbrev pub num_held : List (ℕ × List ℕ) → ℕ
num_held [] = 0
num_held ((k, blocks) ∷ d) = length blocks + num_held d

pub held-put_new :
    (i k : ℕ) (v : List ℕ) (d : List (ℕ × List ℕ))
    → Dict.get k d ≡ none
    → held i (Dict.put k v d) ≡ count i v + held i d
unfolding Dict.get Dict.put
held-put_new i k v [] h = refl
held-put_new i k v ((j, w) ∷ d) h = ground (arith, held-put_new i k v d)

pub held-put_old :
    (i k : ℕ) (v w : List ℕ) (d : List (ℕ × List ℕ))
    → Dict.get k d ≡ some w
    → count i w + held i (Dict.put k v d) ≡ count i v + held i d
unfolding Dict.get Dict.put
held-put_old i k v w [] h = absurd (cc)
held-put_old i k v w ((j, x) ∷ d) h = ground (arith, held-put_old i k v w d)

pub delete_absent : (k : ℕ) (d : List (ℕ × List ℕ)) → count k (keys d) ≡ 0 → Dict.delete k d ≡ d
unfolding Dict.delete
delete_absent k [] h = refl
delete_absent k ((j, w) ∷ d) h = ground (arith, delete_absent k d)

pub held-delete :
    (i k : ℕ) (v : List ℕ) (d : List (ℕ × List ℕ))
    → count k (keys d) ≤ 1
    → Dict.get k d ≡ some v
    → held i d ≡ count i v + held i (Dict.delete k d)
unfolding Dict.get Dict.delete
held-delete i k v [] u h = cc
held-delete i k v ((j, w) ∷ d) u h = ground (arith, held-delete i k v d, delete_absent k d)

pub num_held-delete :
    (k : ℕ) (v : List ℕ) (d : List (ℕ × List ℕ))
    → count k (keys d) ≤ 1
    → Dict.get k d ≡ some v
    → num_held d ≡ length v + num_held (Dict.delete k d)
unfolding Dict.get Dict.delete
num_held-delete k v [] u h = absurd (cc)
num_held-delete k v ((j, w) ∷ d) u h = ground (arith, num_held-delete k v d, delete_absent k d)

pub held-ge :
    (i k : ℕ) (v : List ℕ) (d : List (ℕ × List ℕ)) → Dict.get k d ≡ some v → count i v ≤ held i d
unfolding Dict.get
held-ge i k v [] h = absurd (cc)
held-ge i k v ((j, w) ∷ d) h = ground (arith, held-ge i k v d)

-- The tables of two sequences count both.
pub held-ge_two :
    (i k l : ℕ) (v w : List ℕ) (d : List (ℕ × List ℕ))
    → (k == l) ≡ false
    → Dict.get k d ≡ some v
    → Dict.get l d ≡ some w
    → count i v + count i w ≤ held i d
unfolding Dict.get
held-ge_two i k l v w [] n h g = absurd (cc)
held-ge_two i k l v w ((j, x) ∷ d) n h g =
    ground (arith, held-ge_two i k l v w d, held-ge i k v d, held-ge i l w d)

-- Where no block stands twice, two places of tables have the same block exactly if they are the
-- same place of one sequence.
pub same_place :
    (s s' j j' b b' : ℕ) (blocks blocks' : List ℕ) (d : List (ℕ × List ℕ))
    → held b d ≤ 1
    → Dict.get s d ≡ some blocks
    → Dict.get s' d ≡ some blocks'
    → get_elem? blocks j ≡ some b
    → get_elem? blocks' j' ≡ some b'
    → (b == b') ≡ ((s == s') && (j == j'))
same_place s s' j j' b b' blocks blocks' d v g g' e e' = elim (Bool-cases (s == s')) [
  | inl t ↦
      let q : blocks ≡ blocks' = ground (arith, g, g') in
      let u : count b blocks ≤ 1 = omega (arith, held-ge b s blocks d g) in
      ground (arith, get_elem?-one_place b blocks j j' u e, q)
  | inr n ↦ ground (
    arith,
    held-ge_two b s s' blocks blocks' d n g g',
    get_elem?-count b blocks j e,
    get_elem?-count b' blocks' j' e',
  )
]
