-- ===== src/PagedCache/Blocks.antt =====
-- The blocks of the sequences: which are free, `allocate_block`, and a block added to a sequence.
use vllm_rocm.Common.{
  ℕ, suc, ◌+◌, ◌≤◌, ◌<◌, ◌≡◌, refl, ap, ◌∙◌, some, List, [], ◌∷◌, length, snoc, count, count-append,
  length-append, get_elem?, get_elem?-set, get_elem?-some, set, length-set, length-replicate,
  count-range, ltb, ◌==◌, if◌then◌else◌, arith, Option-cases, inl, inr, return, pop_last-cases,
}
use vllm_rocm.Common.Int.{ℤ, pos}
use vllm_rocm.Common.Dict
use vllm_rocm.Common.Dict.{
  keys, keys-put, keys-delete, count-without, get-put, get-delete, get-cases,
}
use vllm_rocm.PagedCache.{Manager, init, change_count, pop_block, allocate_block, table_of}
use vllm_rocm.PagedAttention.Tables.{held, held-put_new, held-put_old}

-- Each block is free or in one table, at one place; no sequence has two tables; and a block in a
-- table has one reference.
pub record IsConsistent {T : Type 0} (m : Manager T) : Type 0 where
  pub partition :
      (i : ℕ) → count i m.free_blocks + held i m.seq_blocks ≡ (if ltb i m.num_blocks then 1 else 0)
  pub one_table : (k : ℕ) → count k (keys m.seq_blocks) ≤ 1
  pub all_counted : length m.block_ref_count ≡ m.num_blocks
  pub counted :
      (i : ℕ) (n : ℤ) → get_elem? m.block_ref_count i ≡ some n → 1 ≤ held i m.seq_blocks → n ≡ pos 1

module _ {T : Type 0} where
  pub init-IsConsistent :
      (num_blocks block_size : ℕ) (blank : T) → IsConsistent (init num_blocks block_size blank)
  unfolding init
  init-IsConsistent num_blocks block_size blank = record {
    partition = λ i. ground (arith, count-range i 0 num_blocks);
    one_table = λ k. omega arith;
    all_counted = length-replicate num_blocks (pos 0);
    counted = λ i n e h. absurd (omega arith);
  }

  held-put_table :
      (m : Manager T) (i k : ℕ) (v : List ℕ)
      → count i (table_of k m) + held i (Dict.put k v m.seq_blocks)
        ≡ count i v + held i m.seq_blocks
  held-put_table m i k v = elim (Option-cases (Dict.get k m.seq_blocks)) [
    | inl e ↦ ground (arith, held-put_new i k v m.seq_blocks e)
    | inr (w, e) ↦ ground (arith, held-put_old i k v w m.seq_blocks e)
  ]

  -- The manager with the block `b` taken off the free list, which leaves `rest`, and added to the
  -- blocks of a sequence.
  abbrev pub extended : Manager T → ℕ → ℕ → List ℕ → Manager T
  extended m k b rest = record m {
    free_blocks = rest;
    block_ref_count = set m.block_ref_count b (pos 1);
    seq_blocks = Dict.put k (snoc (table_of k m) b) m.seq_blocks;
  }

  -- What `allocate_block` gives where a block is free.
  pub record New (m : Manager T) : Type 0 where
    pub b : ℕ
    pub rest : List ℕ
    pub runs : allocate_block m ≡ (
      return b,
      record m { free_blocks = rest; block_ref_count = set m.block_ref_count b (pos 1) },
    )
    pub splits : (i : ℕ) → count i m.free_blocks ≡ (if b == i then 1 else 0) + count i rest
    pub fewer : length m.free_blocks ≡ suc (length rest)

  pub allocate_block-New : (m : Manager T) → IsConsistent m → 0 < length m.free_blocks → New m
  unfolding allocate_block pop_block change_count
  allocate_block-New m v h = elim (pop_last-cases m.free_blocks) [
    | inl (e, _) ↦ absurd (omega (arith, ap length e))
    | inr (rest, b, e, p) ↦
        let splits : (i : ℕ) → count i m.free_blocks ≡ (if b == i then 1 else 0) + count i rest =
          λ i. omega (arith, ap (count i) e, count-append i rest (b ∷ [])) in
        let (n, g) =
          get_elem?-some m.block_ref_count b
            (ground (arith, splits b, v.partition b, v.all_counted)) in
        record {
          b = b;
          rest = rest;
          runs = rw (p, pop_block) (rw (g, change_count) refl);
          splits = splits;
          fewer = omega (arith, ap length e, length-append rest (b ∷ []));
        }
  ]

  pub extended-IsConsistent :
      (m : Manager T) (k : ℕ)
      → IsConsistent m
      → (n : New m) → IsConsistent (extended m k n.b n.rest)
  extended-IsConsistent m k v n =
      let held_after : (i : ℕ)
          → held i (extended m k n.b n.rest).seq_blocks
            ≡ (if n.b == i then 1 else 0) + held i m.seq_blocks =
        λ i. omega (
          arith,
          held-put_table m i k (snoc (table_of k m) n.b),
          count-append i (table_of k m) (n.b ∷ []),
        ) in
      let b_lt : n.b < length m.block_ref_count =
        ground (arith, n.splits n.b, v.partition n.b, v.all_counted) in
      record {
        partition = λ i. omega (arith, held_after i, n.splits i, v.partition i);
        one_table = λ j. rw (keys-put k (snoc (table_of k m) n.b) m.seq_blocks) (
            ground (
              arith,
              get-cases k m.seq_blocks,
              v.one_table j,
              count-append j (keys m.seq_blocks) (k ∷ []),
            ));
        all_counted = length-set m.block_ref_count n.b (pos 1) ∙ v.all_counted;
        counted = λ i c e h. ground (
          arith,
          get_elem?-set m.block_ref_count n.b i (pos 1) b_lt,
          v.counted i c,
          held_after i,
        );
      }
