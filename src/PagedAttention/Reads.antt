-- ===== src/PagedAttention/Reads.antt =====
-- `write_to_cache` and `get_kv_cache_for_seq`: what a sequence reads after a write.
use vllm_rocm.Common.{
  ltb→lt, ltb→le, ℕ, ◌/◌, ◌%◌, ◌≤◌, ◌<◌, ◌≡◌, refl, ap, subst, ◌∙◌, sym, true, ◌&&◌, Option, none,
  some, List, length, get_elem?, get_elem?-lt, get_elem?-some, get_elem?-map, get_elem?-map-none,
  get_elem?-range, get_elem?-count, range, ltb, ◌==◌, if◌then◌else◌, arith, Bool-cases, inl, inr,
  Result, return, raise, Option-cases,
}
use vllm_rocm.Common.Arith.{same_position}
use vllm_rocm.Common.Dict
use vllm_rocm.PagedAttention.{Manager, row, rows, write_at, get_kv_cache_for_seq, write_to_cache}
use vllm_rocm.PagedAttention.Tables.{held-ge, same_place}
use vllm_rocm.PagedAttention.Sequences.{IsValid}
use native.Mathlib.Nat.{mod-lt}

-- The value at a position, in the order of the tokens, of the rows that the code returns.
abbrev pub at_position : {T : Type 0} → ℕ → List (List T) → ℕ → Option T
at_position block_size rs position = elim (get_elem? rs (position / block_size)) [
  | none ↦ none
  | some row ↦ get_elem? row (position % block_size)
]

-- The keys and the values that a sequence reads in a layer at a position.
abbrev pub read_k : {T : Type 0} → ℕ → ℕ → ℕ → Manager T → Option T
read_k seq_id layer position m = elim (get_kv_cache_for_seq seq_id layer m) [
  | return (ks, vs) ↦ at_position m.block_size ks position
  | raise e ↦ none
]

abbrev pub read_v : {T : Type 0} → ℕ → ℕ → ℕ → Manager T → Option T
read_v seq_id layer position m = elim (get_kv_cache_for_seq seq_id layer m) [
  | return (ks, vs) ↦ at_position m.block_size vs position
  | raise e ↦ none
]

-- The place in the cache that a position of some blocks is kept in.
abbrev entry : {T : Type 0} → (ℕ → ℕ → ℕ → T) → ℕ → ℕ → List ℕ → ℕ → Option T
entry cache block_size layer blocks position = elim (get_elem? blocks (position / block_size)) [
  | none ↦ none
  | some b ↦ some (cache layer b (position % block_size))
]

module _ {T : Type 0} where
  at_position-rows :
      (cache : ℕ → ℕ → ℕ → T) (bs layer : ℕ) (blocks : List ℕ) (p : ℕ)
      → 0 < bs
      → at_position bs (rows cache bs layer blocks) p ≡ entry cache bs layer blocks p
  at_position-rows cache bs layer blocks p h = elim (Option-cases (get_elem? blocks (p / bs))) [
    | inl e ↦ ground (arith, get_elem?-map-none (row cache bs layer) blocks (p / bs) e)
    | inr (b, e) ↦ ground (
      arith,
      get_elem?-map (row cache bs layer) blocks (p / bs) b e,
      get_elem?-map (cache layer b) (range 0 bs) (p % bs) (p % bs)
          (get_elem?-range 0 bs (p % bs) (mod-lt p h) ∙ ap some (omega arith)),
    )
  ]

  read_k-entry :
      (m : Manager T) (seq_id layer p : ℕ) (blocks : List ℕ)
      → 0 < m.block_size
      → layer < m.num_layers
      → Dict.get seq_id m.block_tables ≡ some blocks
      → read_k seq_id layer p m ≡ entry m.k_cache m.block_size layer blocks p
  unfolding get_kv_cache_for_seq
  read_k-entry m seq_id layer p blocks h l g =
      ground (arith, at_position-rows m.k_cache m.block_size layer blocks p h)

  read_v-entry :
      (m : Manager T) (seq_id layer p : ℕ) (blocks : List ℕ)
      → 0 < m.block_size
      → layer < m.num_layers
      → Dict.get seq_id m.block_tables ≡ some blocks
      → read_v seq_id layer p m ≡ entry m.v_cache m.block_size layer blocks p
  unfolding get_kv_cache_for_seq
  read_v-entry m seq_id layer p blocks h l g =
      ground (arith, at_position-rows m.v_cache m.block_size layer blocks p h)

  entry-write_at :
      (m : Manager T) (cache : ℕ → ℕ → ℕ → T) (x : T) (s s' l l' p p' b : ℕ)
      (blocks blocks' : List ℕ)
      → IsValid m
      → 0 < m.block_size
      → Dict.get s m.block_tables ≡ some blocks
      → Dict.get s' m.block_tables ≡ some blocks'
      → get_elem? blocks (p / m.block_size) ≡ some b
      → entry (write_at cache l b (p % m.block_size) x) m.block_size l' blocks' p' ≡ (
          if (s == s') && ((l == l') && (p == p'))
          then some x
          else entry cache m.block_size l' blocks' p')
  entry-write_at m cache x s s' l l' p p' b blocks blocks' v h g g' e =
      elim (Option-cases (get_elem? blocks' (p' / m.block_size))) [
        | inl e' ↦ ground (arith, e', e, g, g')
        | inr (b', e') ↦
            let same =
              same_place s s' (p / m.block_size) (p' / m.block_size) b b' blocks blocks'
                m.block_tables (ground (arith, v.partition b)) g g' e e' in
            ground (arith, same, same_position p p' m.block_size, e, e')
      ]

-- What a write of `k` and `v` at a position inside a sequence's blocks leaves.
pub record Written {T : Type 0} (m : Manager T) (seq_id layer position : ℕ) (k v : T)
    (result : Result (Unit {0}) × Manager T) : Type 0 where
  pub after : Manager T
  pub returns : result ≡ (return tt, after)
  pub keys :
      (s l p : ℕ)
      → read_k s l p after
        ≡ (if (seq_id == s) && ((layer == l) && (position == p)) then some k else read_k s l p m)
  pub values :
      (s l p : ℕ)
      → read_v s l p after
        ≡ (if (seq_id == s) && ((layer == l) && (position == p)) then some v else read_v s l p m)
  pub same_tables : after.block_tables ≡ m.block_tables
  pub same_free : after.free_blocks ≡ m.free_blocks
  pub same_max : after.max_num_blocks ≡ m.max_num_blocks
  pub same_size : after.block_size ≡ m.block_size

module _ {T : Type 0} where
  pub read_k_missing :
      (m : Manager T) (s l p : ℕ) → Dict.get s m.block_tables ≡ none → read_k s l p m ≡ none
  unfolding get_kv_cache_for_seq
  read_k_missing m s l p h = ground arith

  read_v_missing :
      (m : Manager T) (s l p : ℕ) → Dict.get s m.block_tables ≡ none → read_v s l p m ≡ none
  unfolding get_kv_cache_for_seq
  read_v_missing m s l p h = ground arith

  read_k_no_layer : (m : Manager T) (s l p : ℕ) → m.num_layers ≤ l → read_k s l p m ≡ none
  unfolding get_kv_cache_for_seq
  read_k_no_layer m s l p h = elim (Option-cases (Dict.get s m.block_tables)) [
    | inl e ↦ ground arith
    | inr (bs, e) ↦ ground arith
  ]

  read_v_no_layer : (m : Manager T) (s l p : ℕ) → m.num_layers ≤ l → read_v s l p m ≡ none
  unfolding get_kv_cache_for_seq
  read_v_no_layer m s l p h = elim (Option-cases (Dict.get s m.block_tables)) [
    | inl e ↦ ground arith
    | inr (bs, e) ↦ ground arith
  ]

  -- The manager after the two assignments.
  abbrev written : Manager T → ℕ → ℕ → ℕ → T → T → Manager T
  written m layer b offset k v = record m {
    k_cache = write_at m.k_cache layer b offset k;
    v_cache = write_at m.v_cache layer b offset v;
  }

  written-Written :
      (m : Manager T) (seq_id layer position b : ℕ) (blocks : List ℕ) (k v : T)
      → IsValid m
      → 0 < m.block_size
      → layer < m.num_layers
      → Dict.get seq_id m.block_tables ≡ some blocks
      → get_elem? blocks (position / m.block_size) ≡ some b
      → Written m seq_id layer position k v
          (return tt, written m layer b (position % m.block_size) k v)
  written-Written m seq_id layer position b blocks k v i h hl g e =
      let m' = written m layer b (position % m.block_size) k v in
      record {
        after = m';
        returns = refl;
        keys = λ s l p. elim (Option-cases (Dict.get s m.block_tables)) [
          | inl n ↦ ground (arith, read_k_missing m s l p, read_k_missing m' s l p, g)
          | inr (bs, g') ↦ elim (Bool-cases (ltb l m.num_layers)) [
            | inl t ↦ ground (
              arith,
              read_k-entry m s l p bs h (ltb→lt l m.num_layers t) g',
              read_k-entry m' s l p bs h (ltb→lt l m.num_layers t) g',
              entry-write_at m m.k_cache k seq_id s layer l position p b blocks bs i h g g' e,
            )
            | inr t ↦ ground (
              arith,
              read_k_no_layer m s l p (ltb→le l m.num_layers t),
              read_k_no_layer m' s l p (ltb→le l m.num_layers t),
            )
          ]
        ];
        values = λ s l p. elim (Option-cases (Dict.get s m.block_tables)) [
          | inl n ↦ ground (arith, read_v_missing m s l p, read_v_missing m' s l p, g)
          | inr (bs, g') ↦ elim (Bool-cases (ltb l m.num_layers)) [
            | inl t ↦ ground (
              arith,
              read_v-entry m s l p bs h (ltb→lt l m.num_layers t) g',
              read_v-entry m' s l p bs h (ltb→lt l m.num_layers t) g',
              entry-write_at m m.v_cache v seq_id s layer l position p b blocks bs i h g g' e,
            )
            | inr t ↦ ground (
              arith,
              read_v_no_layer m s l p (ltb→le l m.num_layers t),
              read_v_no_layer m' s l p (ltb→le l m.num_layers t),
            )
          ]
        ];
        same_tables = refl;
        same_free = refl;
        same_max = refl;
        same_size = refl;
      }

  write_to_cache_runs :
      (m : Manager T) (seq_id layer position b : ℕ) (blocks : List ℕ) (k v : T)
      → IsValid m
      → 0 < m.block_size
      → layer < m.num_layers
      → Dict.get seq_id m.block_tables ≡ some blocks
      → get_elem? blocks (position / m.block_size) ≡ some b
      → write_to_cache seq_id layer position k v m
        ≡ (return tt, written m layer b (position % m.block_size) k v)
  unfolding write_to_cache
  write_to_cache_runs m seq_id layer position b blocks k v i h hl g e =
      let b_lt : ltb b m.max_num_blocks ≡ true = ground (
        arith,
        i.partition b,
        held-ge b seq_id blocks m.block_tables g,
        get_elem?-count b blocks (position / m.block_size) e,
      ) in
      ground arith

  -- While the invariant holds, a write at a layer of the model and a position inside the
  -- sequence's blocks returns; afterwards this sequence reads the new key and value at that layer
  -- and position, and every other reading, of this or another sequence, is what it was.
  pub write_to_cache-Written :
      (m : Manager T) (seq_id layer position : ℕ) (blocks : List ℕ) (k v : T)
      → IsValid m
      → 0 < m.block_size
      → layer < m.num_layers
      → Dict.get seq_id m.block_tables ≡ some blocks
      → position / m.block_size < length blocks
      → Written m seq_id layer position k v (write_to_cache seq_id layer position k v m)
  unfolding write_to_cache
  write_to_cache-Written m seq_id layer position blocks k v i h hl g lt =
      let (b, e) = get_elem?-some blocks (position / m.block_size) lt in
      subst (Written m seq_id layer position k v)
        (sym (write_to_cache_runs m seq_id layer position b blocks k v i h hl g e))
        (written-Written m seq_id layer position b blocks k v i h hl g e)

  -- Behind the sequence's blocks a write returns as well, and changes nothing.
  pub write_to_cache_dropped :
      (m : Manager T) (seq_id layer position : ℕ) (blocks : List ℕ) (k v : T)
      → 0 < m.block_size
      → Dict.get seq_id m.block_tables ≡ some blocks
      → length blocks ≤ position / m.block_size
      → write_to_cache seq_id layer position k v m ≡ (return tt, m)
  unfolding write_to_cache
  write_to_cache_dropped m seq_id layer position blocks k v h g le =
      elim (Option-cases (get_elem? blocks (position / m.block_size))) [
        | inl e ↦ ground arith
        | inr (b, e) ↦ ground (arith, get_elem?-lt blocks (position / m.block_size) b e)
      ]
