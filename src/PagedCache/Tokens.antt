-- ===== src/PagedCache/Tokens.antt =====
-- `append_token`: what a sequence reads after a token was added, and the gaps that it refuses.
use vllm_rocm.Common.{
  ℕ, zero, suc, ◌/◌, ◌%◌, ◌≤◌, ◌<◌, ◌≡◌, refl, ap, ◌∙◌, sym, ◌&&◌, none, some, List, [], ◌∷◌,
  length, get_elem?, get_elem?-some, get_elem?-lt, get_elem?-count, ◌==◌, if◌then◌else◌, arith,
  Option-cases, inl, inr, Result, return, raise, index_error, snoc, length-append,
}
use vllm_rocm.Common.Dict
use vllm_rocm.PagedCache.{Manager, write_at, store_token, append_token, table_of}
use vllm_rocm.PagedAttention.Tables.{held-ge, same_place}
use vllm_rocm.Common.Arith.{same_position}
use vllm_rocm.PagedCache.Blocks.{IsConsistent, extended, allocate_block-New}
use vllm_rocm.PagedCache.Room.{
  Ready, append_token-Ready, get-table_of, List-cases, ensure_sequence_has, ensure_block_makes,
  append_runs,
}
use vllm_rocm.Common.Dict.{get-put}
use vllm_rocm.PagedCache.Reading.{entry, read_key, read_value, read_key-entry, read_value-entry}

-- What adding a token leaves.
pub record Appended {T : Type 0} (m : Manager T) (seq_id position : ℕ) (key value : T)
    (result : Result (Unit {0}) × Manager T) : Type 0 where
  pub after : Manager T
  pub returns : result ≡ (return tt, after)
  pub consistent : IsConsistent after
  pub same_size : after.block_size ≡ m.block_size
  pub key_written : read_key seq_id position after ≡ some key
  pub value_written : read_value seq_id position after ≡ some value
  pub keys_kept :
      (s p : ℕ) (x : T)
      → read_key s p m ≡ some x
      → read_key s p after ≡ some (if (seq_id == s) && (position == p) then key else x)
  pub values_kept :
      (s p : ℕ) (x : T)
      → read_value s p m ≡ some x
      → read_value s p after ≡ some (if (seq_id == s) && (position == p) then value else x)

get_elem?-beyond : (xs : List ℕ) (i : ℕ) → length xs ≤ i → get_elem? xs i ≡ none
get_elem?-beyond [] i h = refl
get_elem?-beyond (x ∷ xs) zero h = absurd (omega arith)
get_elem?-beyond (x ∷ xs) (suc i) h = get_elem?-beyond xs i (omega arith)

module _ {T : Type 0} where
  abbrev stored : Manager T → ℕ → ℕ → T → T → Manager T
  stored m b place key value = record m {
    key_cache = write_at m.key_cache b place key;
    value_cache = write_at m.value_cache b place value;
  }

  store_token_runs :
      (m : Manager T) (blocks : List ℕ) (j place b : ℕ) (key value : T)
      → get_elem? blocks j ≡ some b
      → b < m.num_blocks
      → store_token blocks j place key value m ≡ (return tt, stored m b place key value)
  unfolding store_token
  store_token_runs m blocks j place b key value g h = ground arith

  entry_at :
      (cache : ℕ → ℕ → T) (bs p : ℕ) (blocks : List ℕ) (x : T)
      → entry cache bs blocks p ≡ some x
      → (b : ℕ) × (get_elem? blocks (p / bs) ≡ some b) × (cache b (p % bs) ≡ x)
  entry_at cache bs p blocks x h = elim (Option-cases (get_elem? blocks (p / bs))) [
    | inl e ↦ absurd (ground arith)
    | inr (b, e) ↦ (b, e, ground arith)
  ]

  -- An entry that could be read before the write reads the same, but at the place written.
  entry_kept :
      (m m₁ : Manager T) (cache : ℕ → ℕ → T) (s p t q b : ℕ) (y x : T) (blocks : List ℕ)
      → IsConsistent m₁
      → Dict.get s m₁.seq_blocks ≡ some blocks
      → get_elem? blocks (p / m.block_size) ≡ some b
      → ((i c : ℕ) → get_elem? (table_of t m) i ≡ some c → get_elem? (table_of t m₁) i ≡ some c)
      → entry cache m.block_size (table_of t m) q ≡ some x
      → entry (write_at cache b (p % m.block_size) y) m.block_size (table_of t m₁) q
        ≡ some (if (s == t) && (p == q) then y else x)
  entry_kept m m₁ cache s p t q b y x blocks v g e kept h =
      let bs = m.block_size in
      let (c, e', z) = entry_at cache bs q (table_of t m) x h in
      let e₁ = kept (q / bs) c e' in
      let g' = get-table_of m₁ t (omega (arith, get_elem?-lt (table_of t m₁) (q / bs) c e₁)) in
      let same =
        same_place s t (p / bs) (q / bs) b c blocks (table_of t m₁) m₁.seq_blocks
          (ground (arith, v.partition b)) g g' e e₁ in
      ground (arith, same, same_position p q bs, e₁, z)

  entry_written :
      (m₁ : Manager T) (cache : ℕ → ℕ → T) (bs s p b : ℕ) (y : T) (blocks : List ℕ)
      → Dict.get s m₁.seq_blocks ≡ some blocks
      → get_elem? blocks (p / bs) ≡ some b
      → entry (write_at cache b (p % bs) y) bs (table_of s m₁) p ≡ some y
  entry_written m₁ cache bs s p b y blocks g e = ground (arith, g, e)

  stored-Appended :
      (m : Manager T) (s p b : ℕ) (key value : T) {r : Result (Unit {0}) × Manager T}
      → 0 < m.block_size
      → (a : Ready m s (p / m.block_size) (p % m.block_size) key value r)
      → get_elem? a.blocks (p / m.block_size) ≡ some b
      → r ≡ (return tt, stored a.after b (p % m.block_size) key value)
      → Appended m s p key value r
  stored-Appended m s p b key value h a e runs =
      let bs = m.block_size in
      let m₁ = a.after in
      let m₂ = stored m₁ b (p % bs) key value in
      let h₂ : 0 < m₂.block_size = omega (arith, a.same_size) in
      record {
        after = m₂;
        returns = runs;
        consistent = record {
          partition = a.consistent.partition;
          one_table = a.consistent.one_table;
          all_counted = a.consistent.all_counted;
          counted = a.consistent.counted;
        };
        same_size = a.same_size;
        key_written =
            read_key-entry m₂ s p h₂
            ∙ ap (λ n. entry m₂.key_cache n (table_of s m₁) p) a.same_size
            ∙ entry_written m₁ m₁.key_cache bs s p b key a.blocks a.table e;
        value_written =
            read_value-entry m₂ s p h₂
            ∙ ap (λ n. entry m₂.value_cache n (table_of s m₁) p) a.same_size
            ∙ entry_written m₁ m₁.value_cache bs s p b value a.blocks a.table e;
        keys_kept = λ t q x g.
            read_key-entry m₂ t q h₂
            ∙ ap (λ n. entry m₂.key_cache n (table_of t m₁) q) a.same_size
            ∙ entry_kept m m₁ m₁.key_cache s p t q b key x a.blocks a.consistent a.table e
                (a.kept t)
                (ap (λ c. entry c bs (table_of t m) q) a.same_keys
                  ∙ sym (read_key-entry m t q h)
                  ∙ g);
        values_kept = λ t q x g.
            read_value-entry m₂ t q h₂
            ∙ ap (λ n. entry m₂.value_cache n (table_of t m₁) q) a.same_size
            ∙ entry_kept m m₁ m₁.value_cache s p t q b value x a.blocks a.consistent a.table e
                (a.kept t)
                (ap (λ c. entry c bs (table_of t m) q) a.same_values
                  ∙ sym (read_value-entry m t q h)
                  ∙ g);
      }

  -- While the books are right and a block is free, `append_token` at a position in or right behind
  -- the sequence's blocks returns. `get_key_value` then reads the new key and value there, and
  -- whatever any sequence could read at another position is still what it reads.
  pub append_token-Appended :
      (m : Manager T) (seq_id position : ℕ) (key value : T)
      → IsConsistent m
      → 0 < m.block_size
      → 0 < length m.free_blocks
      → position / m.block_size ≤ length (table_of seq_id m)
      → Appended m seq_id position key value (append_token seq_id position key value m)
  append_token-Appended m s p key value v h free le =
      let a = append_token-Ready m s p key value v h le free in
      let (b, e) = get_elem?-some a.blocks (p / m.block_size) a.reaches in
      let b_lt : b < a.after.num_blocks = ground (
        arith,
        a.consistent.partition b,
        held-ge b s a.blocks a.after.seq_blocks a.table,
        get_elem?-count b a.blocks (p / m.block_size) e,
      ) in
      stored-Appended m s p b key value h a e (
        a.stores
        ∙ store_token_runs a.after a.blocks (p / m.block_size) (p % m.block_size) b key value e
            b_lt)

  -- While the books are right and a block is free, a position further behind the blocks of a
  -- sequence raises IndexError: one block is allocated for it, whatever the distance, and stays in
  -- the sequence's table.
  pub append_token_gap :
      (m : Manager T) (seq_id position : ℕ) (key value : T)
      → IsConsistent m
      → 0 < m.block_size
      → 0 < length m.free_blocks
      → 0 < length (table_of seq_id m)
      → length (table_of seq_id m) < position / m.block_size
      → (m' : Manager T) × (append_token seq_id position key value m ≡ (raise index_error, m'))
        × (length (table_of seq_id m') ≡ suc (length (table_of seq_id m)))
  unfolding store_token
  append_token_gap m s p key value v h free some_block far =
      let n = allocate_block-New m v free in
      let m' = extended m s n.b n.rest in
      let blocks = snoc (table_of s m) n.b in
      let long = length-append (table_of s m) (n.b ∷ []) in
      elim (List-cases (table_of s m)) [
        | inl e ↦ absurd (omega (arith, ap length e))
        | inr (b, bs, e) ↦
            let has = ensure_sequence_has m s b bs e ∙ ap (λ ws. (return ws, m)) (sym e) in
            let runs =
              append_runs m m m' s p key value (table_of s m) blocks h has
                (ensure_block_makes m s (p / m.block_size) n (omega arith)) in
            let out : get_elem? blocks (p / m.block_size) ≡ none =
              get_elem?-beyond blocks (p / m.block_size) (omega (arith, long)) in
            (m', runs ∙ ground (arith, out), ground (arith, get-put s s blocks m.seq_blocks, long))
      ]
