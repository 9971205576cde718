-- ===== src/PagedCache/Release.antt =====
-- src/vllm_rocm/paged_attention.py: `free_sequence` and the books while it frees.
use vllm_rocm.Common.{
  ℕ, ◌+◌, ◌≤◌, ◌<◌, ◌≡◌, refl, ap, ◌∙◌, some, List, [], ◌∷◌, length, length-append, snoc, count,
  count-append, get_elem?, get_elem?-some, get_elem?-set, set, length-set, ltb, if◌then◌else◌,
  arith, inl, inr, Result, return,
}
use vllm_rocm.Common.Int.{ℤ, pos}
use vllm_rocm.Common.Dict
use vllm_rocm.Common.Dict.{keys, keys-delete, count-without, get-cases}
use vllm_rocm.PagedCache.{Manager, change_count, free_block, free_all, free_sequence, table_of}
use vllm_rocm.PagedAttention.Tables.{held, held-delete, delete_absent}
use vllm_rocm.PagedCache.Blocks.{IsConsistent}

-- The books while the blocks of a list are still to be freed.
record IsDraining {T : Type 0} (m : Manager T) (blocks : List ℕ) : Type 0 where
  partition :
      (i : ℕ)
      → count i m.free_blocks + held i m.seq_blocks + count i blocks
        ≡ (if ltb i m.num_blocks then 1 else 0)
  one_table : (k : ℕ) → count k (keys m.seq_blocks) ≤ 1
  all_counted : length m.block_ref_count ≡ m.num_blocks
  counted :
      (i : ℕ) (n : ℤ)
      → get_elem? m.block_ref_count i ≡ some n
      → 1 ≤ held i m.seq_blocks + count i blocks
      → n ≡ pos 1

-- What freeing leaves.
pub record Freed {T : Type 0} (m : Manager T) (num : ℕ) (result : Result (Unit {0}) × Manager T)
    : Type 0 where
  pub after : Manager T
  pub returns : result ≡ (return tt, after)
  pub consistent : IsConsistent after
  pub same_tables : after.seq_blocks ≡ m.seq_blocks
  pub more_free : length after.free_blocks ≡ length m.free_blocks + num
  pub same_keys : after.key_cache ≡ m.key_cache
  pub same_values : after.value_cache ≡ m.value_cache
  pub same_size : after.block_size ≡ m.block_size

module _ {T : Type 0} where
  abbrev released : Manager T → ℕ → Manager T
  released m b = record m {
    free_blocks = snoc m.free_blocks b;
    block_ref_count = set m.block_ref_count b (pos 0);
  }

  free_block_runs :
      (m : Manager T) (b : ℕ)
      → get_elem? m.block_ref_count b ≡ some (pos 1)
      → free_block b m ≡ (return tt, released m b)
  unfolding free_block change_count
  free_block_runs m b g = rw (g, change_count) refl

  released-IsDraining :
      (m : Manager T) (b : ℕ) (bs : List ℕ)
      → IsDraining m (b ∷ bs)
      → b < length m.block_ref_count
      → IsDraining (released m b) bs
  released-IsDraining m b bs v h = record {
    partition = λ i. omega (arith, v.partition i, count-append i m.free_blocks (b ∷ []));
    one_table = v.one_table;
    all_counted = length-set m.block_ref_count b (pos 0) ∙ v.all_counted;
    counted = λ i n e p.
        ground (arith, get_elem?-set m.block_ref_count b i (pos 0) h, v.counted i n, v.partition i);
  }

  free_all-Freed :
      (m : Manager T) (blocks : List ℕ)
      → IsDraining m blocks
      → Freed m (length blocks) (free_all blocks m)
  unfolding free_all
  free_all-Freed m [] v = record {
    after = m;
    returns = refl;
    consistent = record {
      partition = λ i. omega (arith, v.partition i);
      one_table = v.one_table;
      all_counted = v.all_counted;
      counted = λ i n e h. v.counted i n e (omega arith);
    };
    same_tables = refl;
    more_free = omega arith;
    same_keys = refl;
    same_values = refl;
    same_size = refl;
  }
  free_all-Freed m (b ∷ bs) v =
      let lt : b < length m.block_ref_count = ground (arith, v.partition b, v.all_counted) in
      let (n, g) = get_elem?-some m.block_ref_count b lt in
      let one : n ≡ pos 1 = v.counted b n g (ground arith) in
      let g' = g ∙ ap some one in
      let f = free_all-Freed (released m b) bs (released-IsDraining m b bs v lt) in
      rw (free_block_runs m b g') (record {
        after = f.after;
        returns = f.returns;
        consistent = f.consistent;
        same_tables = f.same_tables;
        more_free = omega (arith, f.more_free, length-append m.free_blocks (b ∷ []));
        same_keys = f.same_keys;
        same_values = f.same_values;
        same_size = f.same_size;
      })

  held-delete_table :
      (m : Manager T) (k : ℕ)
      → IsConsistent m
      → (i : ℕ) → held i m.seq_blocks ≡ count i (table_of k m) + held i (Dict.delete k m.seq_blocks)
  held-delete_table m k v i = elim (get-cases k m.seq_blocks) [
    | inl (h, g) ↦ ground (arith, g, delete_absent k m.seq_blocks)
    | inr (w, h, g) ↦ ground (arith, g, held-delete i k w m.seq_blocks (v.one_table k) g)
  ]

  deleted-IsDraining :
      (m : Manager T) (k : ℕ)
      → IsConsistent m
      → IsDraining (record m { seq_blocks = Dict.delete k m.seq_blocks }) (table_of k m)
  deleted-IsDraining m k v =
      let held_after = held-delete_table m k v in
      record {
        partition = λ i. omega (arith, v.partition i, held_after i);
        one_table = λ j.
            rw (keys-delete k m.seq_blocks)
              (ground (arith, count-without j k (keys m.seq_blocks), v.one_table j));
        all_counted = v.all_counted;
        counted = λ i n e h. v.counted i n e (omega (arith, held_after i));
      }

  -- While the books are right, `free_sequence` returns. The sequence has no blocks afterwards,
  -- exactly as many more are free as it had, the books are right, and what the cache holds does
  -- not change.
  pub free_sequence-Freed :
      (m : Manager T) (seq_id : ℕ)
      → IsConsistent m
      → Freed
          (record m { seq_blocks = Dict.delete seq_id m.seq_blocks })
          (length (table_of seq_id m))
          (free_sequence seq_id m)
  unfolding free_sequence
  free_sequence-Freed m k v =
      free_all-Freed (record m { seq_blocks = Dict.delete k m.seq_blocks }) (table_of k m)
        (deleted-IsDraining m k v)
