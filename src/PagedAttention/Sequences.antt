-- ===== src/PagedAttention/Sequences.antt =====
-- src/paged_attention.py: `allocate_sequence` and `free_sequence`, and the invariant of the tables.
use vllm_rocm.Common.{
  ℕ, zero, suc, ◌+◌, ◌*◌, ◌≤◌, ◌<◌, ◌≡◌, refl, ap, subst, sym, none, some, List, [], ◌∷◌, length,
  snoc, count, count-append, length-append, ltb, ◌==◌, if◌then◌else◌, arith, Bool-cases, inl, inr,
  Result, return, raise, runtime_error, pop_last, pop_last-cases, count-range, ltb→le, ltb→lt,
}
use vllm_rocm.Common.Arith.{ceil_div-covers}
use vllm_rocm.Common.Dict
use vllm_rocm.Common.Dict.{
  keys, keys-put, keys-delete, count-without, get-put, get-delete, get-cases,
}
use vllm_rocm.PagedAttention.{
  Manager, init, pop_block, take_blocks, blocks_needed, allocate_sequence, free_sequence,
}
use vllm_rocm.PagedAttention.Tables.{
  held, num_held, held-put_new, held-put_old, held-delete, num_held-delete,
}

-- Each block stands once in the free list or in one table, and no sequence has two tables.
pub record IsValid {T : Type 0} (m : Manager T) : Type 0 where
  pub partition :
      (i : ℕ)
      → count i m.free_blocks + held i m.block_tables ≡ (if ltb i m.max_num_blocks then 1 else 0)
  pub one_table : (k : ℕ) → count k (keys m.block_tables) ≤ 1

-- What taking `n` blocks leaves: only the free list changes.
record Took {T : Type 0} (m : Manager T) (n : ℕ) (result : Result (List ℕ) × Manager T)
    : Type 0 where
  ids : List ℕ
  rest : List ℕ
  returns : result ≡ (return ids, record m { free_blocks = rest })
  length_ids : length ids ≡ n
  fewer : length rest + n ≡ length m.free_blocks
  splits : (i : ℕ) → count i m.free_blocks ≡ count i ids + count i rest

module _ {T : Type 0} where
  pub init-IsValid :
      (block_size n layers : ℕ) (blank : T) → IsValid (init block_size n layers blank)
  unfolding init
  init-IsValid block_size n layers blank = record {
    partition = λ i. ground (arith, count-range i 0 n);
    one_table = λ k. omega arith;
  }

  Took-cons :
      (m : Manager T) (n b : ℕ) (rest : List ℕ)
      → m.free_blocks ≡ snoc rest b
      → pop_last m.free_blocks ≡ some (rest, b)
      → Took (record m { free_blocks = rest }) n (take_blocks n (record m { free_blocks = rest }))
      → Took m (suc n) (take_blocks (suc n) m)
  unfolding take_blocks pop_block
  Took-cons m n b rest e p t = record {
    ids = b ∷ t.ids;
    rest = t.rest;
    returns = rw (p, pop_block) (rw t.returns refl);
    length_ids = omega (arith, t.length_ids);
    fewer = omega (arith, t.fewer, ap length e, length-append rest (b ∷ []));
    splits = λ i. omega (arith, t.splits i, ap (count i) e, count-append i rest (b ∷ []));
  }

  take_blocks-Took : (m : Manager T) (n : ℕ) → n ≤ length m.free_blocks → Took m n (take_blocks n m)
  unfolding take_blocks
  take_blocks-Took m zero h = record {
    ids = [];
    rest = m.free_blocks;
    returns = refl;
    length_ids = refl;
    fewer = omega arith;
    splits = λ i. omega arith;
  }
  take_blocks-Took m (suc n) h = elim (pop_last-cases m.free_blocks) [
    | inl (e, _) ↦ absurd (omega (arith, ap length e))
    | inr (rest, b, e, p) ↦ Took-cons m n b rest e p (
        take_blocks-Took (record m { free_blocks = rest }) n
          (omega (arith, ap length e, length-append rest (b ∷ []))))
  ]

-- What a successful `allocate_sequence` leaves.
pub record Allocated {T : Type 0} (m : Manager T) (seq_id num_tokens : ℕ)
    (result : Result (List ℕ) × Manager T) : Type 0 where
  pub ids : List ℕ
  pub after : Manager T
  pub returns : result ≡ (return ids, after)
  pub table :
      (k : ℕ)
      → Dict.get k after.block_tables
        ≡ (if seq_id == k then some ids else Dict.get k m.block_tables)
  pub length_ids : length ids ≡ blocks_needed m.block_size num_tokens
  pub covers : num_tokens ≤ length ids * m.block_size
  pub distinct : (i : ℕ) → count i ids ≤ 1
  pub fewer : length after.free_blocks + length ids ≡ length m.free_blocks
  pub same_k : after.k_cache ≡ m.k_cache
  pub same_v : after.v_cache ≡ m.v_cache
  pub taken : (i : ℕ) → count i m.free_blocks ≡ count i ids + count i after.free_blocks
  pub tables : after.block_tables ≡ Dict.put seq_id ids m.block_tables
  pub same_max : after.max_num_blocks ≡ m.max_num_blocks
  pub same_size : after.block_size ≡ m.block_size
  pub same_layers : after.num_layers ≡ m.num_layers

module _ {T : Type 0} where
  -- While the manager's invariant holds, for a positive block size and with enough free blocks,
  -- `allocate_sequence` gives the sequence distinct free blocks with room for the tokens; the
  -- other tables and the cached values stay.
  pub allocate_sequence-Allocated :
      (m : Manager T) (seq_id num_tokens : ℕ)
      → IsValid m
      → 0 < m.block_size
      → blocks_needed m.block_size num_tokens ≤ length m.free_blocks
      → Allocated m seq_id num_tokens (allocate_sequence seq_id num_tokens m)
  unfolding allocate_sequence
  allocate_sequence-Allocated m seq_id num_tokens v p h =
      let n = blocks_needed m.block_size num_tokens in
      let t = take_blocks-Took m n h in
      record {
        ids = t.ids;
        after = record m {
          free_blocks = t.rest;
          block_tables = Dict.put seq_id t.ids m.block_tables;
        };
        returns = ground (arith, t.returns);
        table = λ k. get-put seq_id k t.ids m.block_tables;
        length_ids = t.length_ids;
        covers = rw t.length_ids (ceil_div-covers num_tokens m.block_size p);
        distinct = λ i. ground (arith, t.splits i, v.partition i);
        fewer = omega (arith, t.fewer, t.length_ids);
        same_k = refl;
        same_v = refl;
        taken = t.splits;
        tables = refl;
        same_max = refl;
        same_size = refl;
        same_layers = refl;
      }

  -- Too few free blocks: RuntimeError, and nothing has changed.
  pub allocate_sequence_refuses :
      (m : Manager T) (seq_id num_tokens : ℕ)
      → 0 < m.block_size
      → length m.free_blocks < blocks_needed m.block_size num_tokens
      → allocate_sequence seq_id num_tokens m ≡ (raise runtime_error, m)
  unfolding allocate_sequence
  allocate_sequence_refuses m seq_id num_tokens p h = ground arith

  pub Allocated-IsValid :
      (m : Manager T) (seq_id num_tokens : ℕ) {r : Result (List ℕ) × Manager T}
      → IsValid m
      → Dict.get seq_id m.block_tables ≡ none
      → (a : Allocated m seq_id num_tokens r) → IsValid a.after
  Allocated-IsValid m seq_id num_tokens v h a = record {
    partition = λ i.
        rw (a.tables, a.same_max, held-put_new i seq_id a.ids m.block_tables h)
          (omega (arith, a.taken i, v.partition i));
    one_table = λ k.
        rw (a.tables, keys-put seq_id a.ids m.block_tables)
          (ground (
            arith,
            get-cases seq_id m.block_tables,
            v.one_table k,
            count-append k (keys m.block_tables) (seq_id ∷ []),
          ));
  }

  -- For a positive block size and a sequence without a table, `allocate_sequence` keeps the
  -- invariant, whether it gives blocks or raises: every block is free or in one table, at one
  -- place, and a sequence has one table.
  pub allocate_sequence-IsValid :
      (m : Manager T) (seq_id num_tokens : ℕ)
      → IsValid m
      → 0 < m.block_size
      → Dict.get seq_id m.block_tables ≡ none
      → IsValid (allocate_sequence seq_id num_tokens m).1
  allocate_sequence-IsValid m seq_id num_tokens v p h =
      elim (Bool-cases (ltb (length m.free_blocks) (blocks_needed m.block_size num_tokens))) [
        | inl t ↦
            subst (λ r. IsValid r.1)
              (sym (allocate_sequence_refuses m seq_id num_tokens p (ltb→lt _ _ t))) v
        | inr t ↦
            let a = allocate_sequence-Allocated m seq_id num_tokens v p (ltb→le _ _ t) in
            subst (λ r. IsValid r.1) (sym a.returns) (Allocated-IsValid m seq_id num_tokens v h a)
      ]

  -- While the invariant holds and enough blocks are free, a sequence that has a table already and
  -- is allocated again loses the old one: its blocks are then neither free nor in a table.
  pub allocate_again_loses :
      (m : Manager T) (seq_id num_tokens i : ℕ) (old : List ℕ)
      → IsValid m
      → 0 < m.block_size
      → blocks_needed m.block_size num_tokens ≤ length m.free_blocks
      → Dict.get seq_id m.block_tables ≡ some old
      → 1 ≤ count i old
      → let m' = (allocate_sequence seq_id num_tokens m).1 in
        count i m'.free_blocks + held i m'.block_tables ≡ 0
  allocate_again_loses m seq_id num_tokens i old v p h g c =
      let a = allocate_sequence-Allocated m seq_id num_tokens v p h in
      subst (λ r. count i r.1.free_blocks + held i r.1.block_tables ≡ 0) (sym a.returns)
        (rw a.tables (
          ground
            (arith, a.taken i, v.partition i, held-put_old i seq_id a.ids old m.block_tables g)))

  -- `free_sequence` keeps the invariant; the sequence's table is gone, and no block is lost: the
  -- free ones and those in tables are as many as before.
  pub free_sequence-IsValid :
      (m : Manager T) (seq_id : ℕ)
      → IsValid m
      → let m' = free_sequence seq_id m in
        IsValid m'
        × (Dict.get seq_id m'.block_tables ≡ none)
        × (num_held m'.block_tables + length m'.free_blocks
            ≡ num_held m.block_tables + length m.free_blocks)
  unfolding free_sequence
  free_sequence-IsValid m seq_id v = elim (get-cases seq_id m.block_tables) [
    | inl (_, h) ↦ rw (h, free_sequence) (v, h, refl)
    | inr (blocks, _, h) ↦
        rw (h, free_sequence)
          (
            record {
              partition = λ i. omega (
                arith,
                v.partition i,
                count-append i m.free_blocks blocks,
                held-delete i seq_id blocks m.block_tables (v.one_table seq_id) h,
              );
              one_table = λ k.
                  rw (keys-delete seq_id m.block_tables)
                    (ground (arith, count-without k seq_id (keys m.block_tables), v.one_table k));
            },
            ground (arith, get-delete seq_id seq_id m.block_tables),
            omega (
              arith,
              length-append m.free_blocks blocks,
              num_held-delete seq_id blocks m.block_tables (v.one_table seq_id) h,
            ),
          )
  ]
