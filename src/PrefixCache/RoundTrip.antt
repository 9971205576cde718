-- ===== src/PrefixCache/RoundTrip.antt =====
-- src/vllm_rocm/prefix_cache.py: what `lookup` finds after `insert` and after `invalidate`.
use vllm_rocm.Common.{
  ℕ, ◌+◌, ◌≤◌, ◌<◌, ◌≡◌, refl, ap, ◌∙◌, sym, true, none, some, List, ◌∷◌, length, take, take-length,
  count, ltb, ◌==◌, if◌then◌else◌, has, arith, Bool-cases, inl, inr,
}
use vllm_rocm.Common.Dict
use vllm_rocm.Common.Dict.{
  without, keys, get-put, get-delete, keys-put, keys-delete, get-cases, count-without,
  without_absent, length-without_le, length-keys,
}
use vllm_rocm.PrefixCache.{
  CacheEntry, PrefixCache, Search, hit, lookup, new_entry, insert, invalidate,
}
use vllm_rocm.PrefixCache.Lookup.{
  Longest, missed, found, result, lookup-Longest, lookup_undisturbed,
}
use vllm_rocm.PrefixCache.Insert.{IsValid, get-insert, insert_old, dropped}

module _ (hash_prefix : List ℕ → ℕ) (tokens : List ℕ) where
  all_stored :
      (d : List (ℕ × CacheEntry)) (e : CacheEntry) (s : Search)
      → 0 < length tokens
      → Dict.get (hash_prefix tokens) d ≡ some e
      → Longest hash_prefix tokens d (length tokens) s
      → (s.best_len ≡ length tokens) × (s.best_blocks ≡ e.block_ids)
  all_stored d e s p h (missed a b c n) = absurd (cc (n (length tokens) p (omega arith), whole, h))
    where
      whole :
          Dict.get (hash_prefix (take (length tokens) tokens)) d ≡ Dict.get (hash_prefix tokens) d
      whole = ap (λ t. Dict.get (hash_prefix t) d) (take-length tokens)
  all_stored d e s p h (found x a b c f g n) = elim (Bool-cases (ltb s.best_len (length tokens))) [
    | inl less ↦ absurd (cc (n (length tokens) (ground arith) (omega arith), whole, h))
    | inr same ↦
        let eq : s.best_len ≡ length tokens = ground arith in
        let at : Dict.get (hash_prefix tokens) d ≡ some x =
          sym whole ∙ ap (λ n. Dict.get (hash_prefix (take n tokens)) d) (sym eq) ∙ c in
        (eq, f ∙ ground (arith, at))
  ]
    where
      whole :
          Dict.get (hash_prefix (take (length tokens) tokens)) d ≡ Dict.get (hash_prefix tokens) d
      whole = ap (λ t. Dict.get (hash_prefix t) d) (take-length tokens)

  -- In a cache that keeps its invariant, after `insert` of some tokens whose digest was not
  -- stored, `lookup` of them finds them all, with the blocks that were given.
  pub lookup-insert :
      (block_ids : List ℕ) (c : PrefixCache)
      → IsValid c
      → 0 < length tokens
      → Dict.get (hash_prefix tokens) c.cache ≡ none
      → (lookup hash_prefix tokens (insert hash_prefix tokens block_ids c)).0
        ≡ (length tokens, block_ids)
  lookup-insert block_ids c v p h =
      let c' = insert hash_prefix tokens block_ids c in
      let stored : Dict.get (hash_prefix tokens) c'.cache
          ≡ some (new_entry (hash_prefix tokens) block_ids) =
        ground (arith, get-insert hash_prefix tokens block_ids c (hash_prefix tokens) v h) in
      let (len, blocks) =
        all_stored c'.cache (new_entry (hash_prefix tokens) block_ids)
          (result hash_prefix tokens c') p stored (lookup-Longest hash_prefix tokens c') in
      λ i. (len i, blocks i)

  -- `insert` of tokens whose digest is stored counts one reference more, and keeps the old blocks.
  pub insert_again :
      (block_ids : List ℕ) (c : PrefixCache) (e : CacheEntry) (j : ℕ)
      → Dict.get (hash_prefix tokens) c.cache ≡ some e
      → let c' = insert hash_prefix tokens block_ids c in
        (Dict.get j c'.cache ≡ (
          if hash_prefix tokens == j
          then some (record e { ref_count = e.ref_count + 1 })
          else Dict.get j c.cache))
        × (c'.lru ≡ c.lru)
  insert_again block_ids c e j h =
      rw (insert_old hash_prefix tokens block_ids c e h)
        (get-put (hash_prefix tokens) j (record e { ref_count = e.ref_count + 1 }) c.cache, refl)

  -- In a cache that keeps its invariant, `invalidate` drops the entry of the tokens, whatever its
  -- reference count, and no other, and keeps the invariant.
  pub invalidate-IsValid :
      (c : PrefixCache)
      → IsValid c
      → let c' = invalidate hash_prefix tokens c in
        IsValid c'
        × ((j : ℕ)
            → Dict.get j c'.cache ≡ (if hash_prefix tokens == j then none else Dict.get j c.cache))
  unfolding invalidate
  invalidate-IsValid c v = elim (get-cases (hash_prefix tokens) c.cache) [
    | inl (_, h) ↦ rw (h, invalidate) (v, λ j. ground (arith, h))
    | inr (e, _, h) ↦
        let k = hash_prefix tokens in
        rw (h, invalidate)
          (
            record {
              order = ap (without k) v.order ∙ sym (keys-delete k c.cache);
              distinct = λ i. ground (arith, count-without i k c.lru, v.distinct i);
              bounded = omega (arith, v.bounded, length-without_le k c.lru);
              named = λ i x g. ground (arith, get-delete k i c.cache, v.named i x);
            },
            λ j. get-delete k j c.cache,
          )
  ]

  -- `lookup` keeps the invariant.
  pub lookup-IsValid : (c : PrefixCache) → IsValid c → IsValid (lookup hash_prefix tokens c).1
  lookup-IsValid c v =
      let u = lookup_undisturbed hash_prefix tokens c in
      record {
        order = u.0 ∙ v.order ∙ sym u.1;
        distinct = λ i. rw u.0 (v.distinct i);
        bounded = rw (u.0, u.2) v.bounded;
        named = λ i e g.
            names c (result hash_prefix tokens c) i e v (lookup-Longest hash_prefix tokens c) g;
      }
    where
      names :
          (c : PrefixCache) (s : Search) (i : ℕ) (e : CacheEntry)
          → IsValid c
          → Longest hash_prefix tokens c.cache (length tokens) s
          → Dict.get i s.entries ≡ some e
          → e.prefix_hash ≡ i
      names c s i e v (missed a b d n) g = v.named i e (ap (Dict.get i) (sym a) ∙ g)
      names c s i e v (found x a b d f r n) g =
          let k = hash_prefix (take s.best_len tokens) in
          ground (arith, ap (Dict.get i) r, get-put k i (hit x) c.cache, v.named i e, v.named k x d)

-- The eviction order takes no notice of hits: in a full cache the entry that was inserted first goes,
-- also if the last call before was a `lookup` that found it.
pub insert_evicts_hit :
    (hash_prefix : List ℕ → ℕ) (used tokens block_ids : List ℕ) (c : PrefixCache) (k : ℕ)
    (rest : List ℕ)
    → IsValid c
    → c.max_entries ≤ length c.cache
    → c.lru ≡ k ∷ rest
    → Dict.get (hash_prefix tokens) c.cache ≡ none
    → Dict.get k (insert hash_prefix tokens block_ids (lookup hash_prefix used c).1).cache ≡ none
insert_evicts_hit hash_prefix used tokens block_ids c k rest v full e h =
    let c' = (lookup hash_prefix used c).1 in
    let (same_lru, same_keys, same_max, _) = lookup_undisturbed hash_prefix used c in
    let t = hash_prefix tokens in
    let same_has = ap (has t) same_keys in
    let h' : Dict.get t c'.cache ≡ none =
      ground (arith, get-cases t c.cache, get-cases t c'.cache, same_has) in
    let same_length : length c'.cache ≡ length c.cache =
      sym (length-keys c'.cache) ∙ ap length same_keys ∙ length-keys c.cache in
    let k_stored : has k (keys c.cache) ≡ true =
      ground (arith, ap (count k) v.order, ap (count k) e) in
    let drops : dropped c' ≡ some k = ground (arith, same_lru, e, same_length, same_max) in
    ground (
      arith,
      get-insert hash_prefix tokens block_ids c' k (lookup-IsValid hash_prefix used c v) h',
      drops,
      get-cases t c.cache,
      k_stored,
    )
