-- ===== src/PagedAttention/Locality.antt =====
-- src/paged_attention.py: what a reading depends on, and what `free_sequence` leaves of it.
use vllm_rocm.Common.{
  ℕ, ◌≡◌, refl, sym, ap, ◌∙◌, ◌==◌, none, if◌then◌else◌, arith, Bool-cases, Option-cases, inl, inr,
}
use vllm_rocm.Common.Dict
use vllm_rocm.Common.Dict.{get-delete}
use vllm_rocm.PagedAttention.{Manager, free_sequence, get_kv_cache_for_seq}
use vllm_rocm.PagedAttention.Reads.{read_k, read_v}

module _ {T : Type 0} where
  -- A reading looks at one table only.
  pub read_k_same :
      (m m' : Manager T) (s l p : ℕ)
      → Dict.get s m'.block_tables ≡ Dict.get s m.block_tables
      → m'.k_cache ≡ m.k_cache
      → m'.block_size ≡ m.block_size
      → m'.num_layers ≡ m.num_layers
      → read_k s l p m' ≡ read_k s l p m
  unfolding get_kv_cache_for_seq
  read_k_same m m' s l p e f g h = elim (Option-cases (Dict.get s m.block_tables)) [
    | inl n ↦ ground (arith, e, n)
    | inr (bs, n) ↦ ground (arith, e, n, f, g, h)
  ]

  pub read_v_same :
      (m m' : Manager T) (s l p : ℕ)
      → Dict.get s m'.block_tables ≡ Dict.get s m.block_tables
      → m'.v_cache ≡ m.v_cache
      → m'.block_size ≡ m.block_size
      → m'.num_layers ≡ m.num_layers
      → read_v s l p m' ≡ read_v s l p m
  unfolding get_kv_cache_for_seq
  read_v_same m m' s l p e f g h = elim (Option-cases (Dict.get s m.block_tables)) [
    | inl n ↦ ground (arith, e, n)
    | inr (bs, n) ↦ ground (arith, e, n, f, g, h)
  ]

  -- What `free_sequence` leaves alone.
  pub record Forgets (m : Manager T) (s : ℕ) (m' : Manager T) : Type 0 where
    pub same_k : m'.k_cache ≡ m.k_cache
    pub same_v : m'.v_cache ≡ m.v_cache
    pub same_size : m'.block_size ≡ m.block_size
    pub same_layers : m'.num_layers ≡ m.num_layers
    pub table :
        (t : ℕ) → Dict.get t m'.block_tables ≡ (if s == t then none else Dict.get t m.block_tables)

  pub free_sequence-Forgets : (m : Manager T) (s : ℕ) → Forgets m s (free_sequence s m)
  unfolding free_sequence
  free_sequence-Forgets m s = elim (Option-cases (Dict.get s m.block_tables)) [
    | inl h ↦
        rw (h, free_sequence)
          (record {
            same_k = refl;
            same_v = refl;
            same_size = refl;
            same_layers = refl;
            table = λ t. elim (Bool-cases (s == t)) [
              | inl e ↦
                  let same_id : s ≡ t = ground (arith, e) in
                  rw e (ap (λ i. Dict.get i m.block_tables) (sym same_id) ∙ h)
              | inr e ↦ rw e refl
            ];
          })
    | inr (blocks, h) ↦
        rw (h, free_sequence)
          (record {
            same_k = refl;
            same_v = refl;
            same_size = refl;
            same_layers = refl;
            table = λ t. get-delete s t m.block_tables;
          })
  ]
