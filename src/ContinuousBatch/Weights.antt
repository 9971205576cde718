-- ===== src/ContinuousBatch/Weights.antt =====
-- Lists of sequences, compared by sums: of the tokens, of the sequences with an id, of any weight.
use vllm_rocm.Common.{
  ℕ, ◌+◌, ◌≤◌, ◌≡◌, refl, ap, Bool, none, some, List, [], ◌∷◌, ◌++◌, map, snoc, ◌==◌, if◌then◌else◌,
  arith, Bool-cases, ◌⊎◌, inl, inr,
}
use vllm_rocm.Common.Dict
use vllm_rocm.ContinuousBatch.{
  Sequence, weigh, has_status_finished, remove_seq, insert_by, sort_by, values,
}

abbrev pub has_id : ℕ → Sequence → ℕ
has_id i q = if q.seq_id == i then 1 else 0

abbrev pub has_left : Sequence → ℕ
has_left q = if has_status_finished q.status then 1 else 0

-- The dictionary that has each sequence at its id.
abbrev pub table : List Sequence → List (ℕ × Sequence)
table = map (λ q. (q.seq_id, q))

pub values-table : (xs : List Sequence) → values (table xs) ≡ xs
values-table [] = refl
values-table (x ∷ xs) = ap (◌∷◌ x) (values-table xs)

pub weigh-append :
    (f : Sequence → ℕ) (xs ys : List Sequence) → weigh f (xs ++ ys) ≡ weigh f xs + weigh f ys
weigh-append f [] ys = omega arith
weigh-append f (x ∷ xs) ys = omega (arith, weigh-append f xs ys)

pub weigh-insert_by :
    (le : Sequence → Sequence → Bool) (f : Sequence → ℕ) (x : Sequence) (xs : List Sequence)
    → weigh f (insert_by le x xs) ≡ f x + weigh f xs
unfolding insert_by
weigh-insert_by le f x [] = refl
weigh-insert_by le f x (y ∷ ys) = ground (arith, weigh-insert_by le f x ys)

-- Sorting keeps every sum.
pub weigh-sort_by :
    (le : Sequence → Sequence → Bool) (f : Sequence → ℕ) (xs : List Sequence)
    → weigh f (sort_by le xs) ≡ weigh f xs
unfolding sort_by
weigh-sort_by le f [] = refl
weigh-sort_by le f (x ∷ xs) =
    omega (arith, weigh-insert_by le f x (sort_by le xs), weigh-sort_by le f xs)

-- Writing at an id that is not there adds at the end.
pub put-table :
    (q : Sequence) (xs : List Sequence)
    → weigh (has_id q.seq_id) xs ≡ 0
    → Dict.put q.seq_id q (table xs) ≡ table (snoc xs q)
unfolding Dict.put
put-table q [] h = refl
put-table q (x ∷ xs) h = ground (arith, put-table q xs)

pub delete-table_absent :
    (k : ℕ) (xs : List Sequence) → weigh (has_id k) xs ≡ 0 → Dict.delete k (table xs) ≡ table xs
unfolding Dict.delete
delete-table_absent k [] h = refl
delete-table_absent k (x ∷ xs) h = ground (arith, delete-table_absent k xs)

-- What `remove` takes out: the first sequence with the id.
pub record Removed (k : ℕ) (xs : List Sequence) : Type 0 where
  pub found : Sequence
  pub rest : List Sequence
  pub removes : remove_seq k xs ≡ some rest
  pub same_id : found.seq_id ≡ k
  pub splits : (f : Sequence → ℕ) → weigh f xs ≡ f found + weigh f rest
  pub deletes : weigh (has_id k) xs ≤ 1 → Dict.delete k (table xs) ≡ table rest

pub remove_seq-Removed : (k : ℕ) (xs : List Sequence) → 1 ≤ weigh (has_id k) xs → Removed k xs
unfolding remove_seq Dict.delete
remove_seq-Removed k [] h = absurd (omega arith)
remove_seq-Removed k (x ∷ xs) h = elim (Bool-cases (x.seq_id == k)) [
  | inl e ↦ record {
    found = x;
    rest = xs;
    removes = ground arith;
    same_id = ground arith;
    splits = λ f. refl;
    deletes = λ u. ground (arith, delete-table_absent k xs);
  }
  | inr e ↦
      let r = remove_seq-Removed k xs (ground arith) in
      record {
        found = r.found;
        rest = x ∷ r.rest;
        removes = ground (arith, r.removes);
        same_id = r.same_id;
        splits = λ f. omega (arith, r.splits f);
        deletes = λ u. ground (arith, r.deletes);
      }
]

-- Reading at an id finds the sequence with it, which can be written or deleted there.
pub record Found (k : ℕ) (xs : List Sequence) : Type 0 where
  pub found : Sequence
  pub gets : Dict.get k (table xs) ≡ some found
  pub same_id : found.seq_id ≡ k
  pub counted : (f : Sequence → ℕ) → f found ≤ weigh f xs
  pub others : List Sequence
  pub deletes : Dict.delete k (table xs) ≡ table others
  pub splits : (f : Sequence → ℕ) → weigh f xs ≡ f found + weigh f others
  pub puts :
      (q : Sequence)
      → q.seq_id ≡ k
      → (ys : List Sequence) × (Dict.put k q (table xs) ≡ table ys)
        × ((f : Sequence → ℕ) → weigh f ys ≡ f q + weigh f others)

pub table-Found :
    (k : ℕ) (xs : List Sequence)
    → weigh (has_id k) xs ≤ 1
    → (weigh (has_id k) xs ≡ 0) × (Dict.get k (table xs) ≡ none) ⊎ Found k xs
unfolding Dict.get Dict.put Dict.delete
table-Found k [] u = inl (refl, refl)
table-Found k (x ∷ xs) u = elim (Bool-cases (x.seq_id == k)) [
  | inl e ↦ inr (record {
    found = x;
    gets = ground arith;
    same_id = ground arith;
    counted = λ f. omega arith;
    others = xs;
    deletes = ground (arith, delete-table_absent k xs);
    splits = λ f. refl;
    puts = λ q h. (q ∷ xs, ground arith, λ f. refl);
  })
  | inr e ↦ elim (table-Found k xs (ground arith)) [
    | inl (n, g) ↦ inl (ground arith, ground arith)
    | inr r ↦ inr (record {
      found = r.found;
      gets = ground (arith, r.gets);
      same_id = r.same_id;
      counted = λ f. omega (arith, r.counted f);
      others = x ∷ r.others;
      deletes = ground (arith, r.deletes);
      splits = λ f. omega (arith, r.splits f);
      puts = λ q h.
          let (ys, e', w) = r.puts q h in (x ∷ ys, ground (arith, e'), λ f. omega (arith, w f));
    })
  ]
]

-- The sum over the sequences with one id alone.
abbrev only : ℕ → (Sequence → ℕ) → Sequence → ℕ
only k f q = if q.seq_id == k then f q else 0

weigh-only_absent :
    (k : ℕ) (f : Sequence → ℕ) (xs : List Sequence)
    → weigh (has_id k) xs ≡ 0
    → weigh (only k f) xs ≡ 0
weigh-only_absent k f [] h = refl
weigh-only_absent k f (x ∷ xs) h = ground (arith, weigh-only_absent k f xs)

-- Where ids differ, what `remove` leaves of a list is what is left of any rearrangement of it.
pub splits_same :
    (v : Sequence) (xs vs : List Sequence) (r : Removed v.seq_id xs)
    → ((f : Sequence → ℕ) → weigh f (v ∷ vs) ≡ weigh f xs)
    → weigh (has_id v.seq_id) xs ≤ 1
    → (f : Sequence → ℕ) → weigh f vs ≡ weigh f r.rest
splits_same v xs vs r same u f =
    let k = v.seq_id in
    let e : weigh (only k f) (v ∷ vs) ≡ weigh (only k f) xs = same (only k f) in
    let none_left : weigh (has_id k) r.rest ≡ 0 = ground (arith, r.splits (has_id k), r.same_id) in
    let none_else : weigh (has_id k) vs ≡ 0 = ground (arith, same (has_id k)) in
    let f_same : f v ≡ f r.found = ground (
      arith,
      e,
      r.splits (only k f),
      r.same_id,
      weigh-only_absent k f r.rest none_left,
      weigh-only_absent k f vs none_else,
    ) in
    omega (arith, same f, r.splits f, f_same)
