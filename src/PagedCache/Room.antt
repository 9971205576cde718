-- ===== src/PagedCache/Room.antt =====
-- src/vllm_rocm/paged_attention.py: `append_token` before it stores, the block for the position.
use vllm_rocm.Common.{
  ℕ, zero, suc, ◌/◌, ◌%◌, ◌≤◌, ◌<◌, ◌≡◌, refl, ap, ◌∙◌, sym, true, false, some, List, [], ◌∷◌,
  length, snoc, length-append, get_elem?, set, ltb, leb, ◌==◌, arith, Bool-cases, Option-cases, ◌⊎◌,
  inl, inr, Result, return,
}
use vllm_rocm.Common.Int.{pos}
use vllm_rocm.Common.Dict
use vllm_rocm.Common.Dict.{
  keys, keys-put, keys-delete, count-without, get-put, get-delete, get-cases,
}
use vllm_rocm.PagedCache.{
  Manager, allocate_sequence, ensure_sequence, ensure_block, store_token, append_token, table_of,
}
use vllm_rocm.PagedCache.Blocks.{
  IsConsistent, New, extended, allocate_block-New, extended-IsConsistent,
}

-- What `append_token` has before it stores: the table reaches the position, and no reading of
-- another place has changed.
pub record Ready {T : Type 0} (m : Manager T) (k j place : ℕ) (key value : T)
    (result : Result (Unit {0}) × Manager T) : Type 0 where
  pub after : Manager T
  pub blocks : List ℕ
  pub stores : result ≡ store_token blocks j place key value after
  pub table : Dict.get k after.seq_blocks ≡ some blocks
  pub reaches : j < length blocks
  pub consistent : IsConsistent after
  pub same_keys : after.key_cache ≡ m.key_cache
  pub same_values : after.value_cache ≡ m.value_cache
  pub same_size : after.block_size ≡ m.block_size
  pub kept :
      (s i b : ℕ) → get_elem? (table_of s m) i ≡ some b → get_elem? (table_of s after) i ≡ some b
  pub free_left : length m.free_blocks ≤ suc (length after.free_blocks)

pub List-cases : (xs : List ℕ) → (xs ≡ []) ⊎ ((y : ℕ) × (ys : List ℕ) × (xs ≡ y ∷ ys))
List-cases [] = inl refl
List-cases (y ∷ ys) = inr (y, ys, refl)

get_elem?-snoc_lt :
    (xs : List ℕ) (x i b : ℕ) → get_elem? xs i ≡ some b → get_elem? (snoc xs x) i ≡ some b
get_elem?-snoc_lt [] x i b h = absurd (cc)
get_elem?-snoc_lt (y ∷ xs) x zero b h = h
get_elem?-snoc_lt (y ∷ xs) x (suc i) b h = get_elem?-snoc_lt xs x i b h

module _ {T : Type 0} where
  extended_keeps :
      (m : Manager T) (k b : ℕ) (rest : List ℕ) (s i c : ℕ)
      → get_elem? (table_of s m) i ≡ some c
      → get_elem? (table_of s (extended m k b rest)) i ≡ some c
  extended_keeps m k b rest s i c h = ground (
    arith,
    get-put k s (snoc (table_of k m) b) m.seq_blocks,
    get_elem?-snoc_lt (table_of k m) b i c,
  )

  pub ensure_sequence_has :
      (m : Manager T) (k b : ℕ) (bs : List ℕ)
      → table_of k m ≡ b ∷ bs
      → ensure_sequence k m ≡ (return (b ∷ bs), m)
  unfolding ensure_sequence
  ensure_sequence_has m k b bs g = elim (Option-cases (Dict.get k m.seq_blocks)) [
    | inl e ↦ ground (arith, g)
    | inr (ws, e) ↦ let q : ws ≡ b ∷ bs = ground (arith, g) in rw (e, ensure_sequence) (rw q refl)
  ]

  allocate_sequence_runs :
      (m : Manager T) (k : ℕ) (n : New m)
      → table_of k m ≡ []
      → allocate_sequence k m ≡ (return n.b, extended m k n.b n.rest)
  unfolding allocate_sequence
  allocate_sequence_runs m k n g = rw n.runs (
      ap
        (λ bs. (
          return n.b,
          record m {
            free_blocks = n.rest;
            block_ref_count = set m.block_ref_count n.b (pos 1);
            seq_blocks = Dict.put k (snoc bs n.b) m.seq_blocks;
          },
        ))
        (sym g))

  ensure_sequence_makes :
      (m : Manager T) (k : ℕ) (n : New m)
      → table_of k m ≡ []
      → ensure_sequence k m ≡ (return (n.b ∷ []), extended m k n.b n.rest)
  unfolding ensure_sequence
  ensure_sequence_makes m k n g = elim (Option-cases (Dict.get k m.seq_blocks)) [
    | inl e ↦ rw (e, ensure_sequence) (rw (allocate_sequence_runs m k n g) refl)
    | inr (ws, e) ↦
        let q : ws ≡ [] = ground (arith, g) in
        rw (e, ensure_sequence) (rw q (rw (allocate_sequence_runs m k n g) refl))
  ]

  ensure_block_has :
      (m : Manager T) (k j : ℕ) (blocks : List ℕ)
      → j < length blocks
      → ensure_block k j blocks m ≡ (return blocks, m)
  unfolding ensure_block
  ensure_block_has m k j blocks h = ground arith

  pub ensure_block_makes :
      (m : Manager T) (k j : ℕ) (n : New m)
      → length (table_of k m) ≤ j
      → ensure_block k j (table_of k m) m
        ≡ (return (snoc (table_of k m) n.b), extended m k n.b n.rest)
  unfolding ensure_block
  ensure_block_makes m k j n h =
      let t : leb (length (table_of k m)) j ≡ true = ground arith in rw t (rw n.runs refl)

  pub append_runs :
      (m m₁ m₂ : Manager T) (k p : ℕ) (key value : T) (bs₁ bs₂ : List ℕ)
      → 0 < m₁.block_size
      → ensure_sequence k m ≡ (return bs₁, m₁)
      → ensure_block k (p / m₁.block_size) bs₁ m₁ ≡ (return bs₂, m₂)
      → append_token k p key value m
        ≡ store_token bs₂ (p / m₁.block_size) (p % m₁.block_size) key value m₂
  unfolding append_token
  append_runs m m₁ m₂ k p key value bs₁ bs₂ h e f =
      let t : (m₁.block_size == 0) ≡ false = ground arith in rw e (rw t (rw f refl))

  pub get-table_of :
      (m : Manager T) (k : ℕ)
      → 0 < length (table_of k m)
      → Dict.get k m.seq_blocks ≡ some (table_of k m)
  get-table_of m k h = elim (Option-cases (Dict.get k m.seq_blocks)) [
    | inl e ↦ absurd (ground arith)
    | inr (ws, e) ↦ ground arith
  ]

  stays-Ready :
      (m : Manager T) (k p : ℕ) (key value : T)
      → IsConsistent m
      → 0 < m.block_size
      → p / m.block_size < length (table_of k m)
      → ensure_sequence k m ≡ (return (table_of k m), m)
      → Ready m k (p / m.block_size) (p % m.block_size) key value (append_token k p key value m)
  stays-Ready m k p key value v h lt e = record {
    after = m;
    blocks = table_of k m;
    stores =
        append_runs m m m k p key value (table_of k m) (table_of k m) h e
          (ensure_block_has m k (p / m.block_size) (table_of k m) lt);
    table = get-table_of m k (omega arith);
    reaches = lt;
    consistent = v;
    same_keys = refl;
    same_values = refl;
    same_size = refl;
    kept = λ s i b g. g;
    free_left = omega arith;
  }

  extended-Ready :
      (m : Manager T) (k p : ℕ) (key value : T) (n : New m)
      → IsConsistent m
      → p / m.block_size ≡ length (table_of k m)
      → append_token k p key value m
        ≡ store_token
            (snoc (table_of k m) n.b)
            (p / m.block_size)
            (p % m.block_size)
            key
            value
            (extended m k n.b n.rest)
      → Ready m k (p / m.block_size) (p % m.block_size) key value (append_token k p key value m)
  extended-Ready m k p key value n v e runs = record {
    after = extended m k n.b n.rest;
    blocks = snoc (table_of k m) n.b;
    stores = runs;
    table = ground (arith, get-put k k (snoc (table_of k m) n.b) m.seq_blocks);
    reaches = omega (arith, e, length-append (table_of k m) (n.b ∷ []));
    consistent = extended-IsConsistent m k v n;
    same_keys = refl;
    same_values = refl;
    same_size = refl;
    kept = extended_keeps m k n.b n.rest;
    free_left = omega (arith, n.fewer);
  }

  -- `append_token` finds or makes a block for a position that is at most one block behind.
  pub append_token-Ready :
      (m : Manager T) (k p : ℕ) (key value : T)
      → IsConsistent m
      → 0 < m.block_size
      → p / m.block_size ≤ length (table_of k m)
      → 0 < length m.free_blocks
      → Ready m k (p / m.block_size) (p % m.block_size) key value (append_token k p key value m)
  append_token-Ready m k p key value v h le free =
      let n = allocate_block-New m v free in
      elim (List-cases (table_of k m)) [
        | inl e ↦ extended-Ready m k p key value n v (ground arith) (
            append_runs m (extended m k n.b n.rest) (extended m k n.b n.rest) k p key value
              (n.b ∷ []) (n.b ∷ []) h (ensure_sequence_makes m k n e)
              (ensure_block_has (extended m k n.b n.rest) k (p / m.block_size) (n.b ∷ [])
                (ground arith))
            ∙ ap
                (λ bs.
                  store_token (snoc bs n.b) (p / m.block_size) (p % m.block_size) key value
                    (extended m k n.b n.rest))
                (sym e))
        | inr (b, bs, e) ↦
            let has = ensure_sequence_has m k b bs e ∙ ap (λ ws. (return ws, m)) (sym e) in
            elim (Bool-cases (ltb (p / m.block_size) (length (table_of k m)))) [
              | inl t ↦ stays-Ready m k p key value v h (ground arith) has
              | inr t ↦ extended-Ready m k p key value n v (ground arith) (
                  append_runs m m (extended m k n.b n.rest) k p key value (table_of k m)
                    (snoc (table_of k m) n.b) h has
                    (ensure_block_makes m k (p / m.block_size) n (ground arith)))
            ]
      ]
