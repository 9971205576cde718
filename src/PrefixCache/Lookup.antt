-- ===== src/PrefixCache/Lookup.antt =====
-- src/vllm_rocm/prefix_cache.py: `lookup`, against the prefixes whose digests are stored.
use vllm_rocm.Common.{
  ℕ, zero, suc, ◌+◌, ◌≤◌, ◌<◌, ◌≡◌, refl, ap, ◌∙◌, Option, none, some, List, [], ◌∷◌, length, take,
  ltb, ◌==◌, if◌then◌else◌, arith, Bool-cases, inl, inr,
}
use vllm_rocm.Common.Dict
use vllm_rocm.Common.Dict.{keys, get-put, keys-put, get-cases}
use vllm_rocm.PrefixCache.{
  CacheEntry, PrefixCache, Search, hit, probe, search_down, lookup, total_hits,
}

module _ (hash_prefix : List ℕ → ℕ) (tokens : List ℕ) where
  -- Whether the prefix of a length is stored.
  abbrev pub entry_at : ℕ → List (ℕ × CacheEntry) → Option CacheEntry
  entry_at len d = Dict.get (hash_prefix (take len tokens)) d

  -- The result of a search among the prefixes of at most `top` tokens: none of them is stored; or
  -- the longest that is stored has `best_len` tokens and the blocks of the result.
  pub data Longest (d : List (ℕ × CacheEntry)) (top : ℕ) (s : Search) : Type 0 where
    missed :
        s.entries ≡ d
        → s.best_len ≡ 0
        → s.best_blocks ≡ []
        → ((n : ℕ) → 0 < n → n ≤ top → entry_at n d ≡ none)
        → Longest d top s
    found :
        (e : CacheEntry)
        → 0 < s.best_len
        → s.best_len ≤ top
        → entry_at s.best_len d ≡ some e
        → s.best_blocks ≡ e.block_ids
        → s.entries ≡ Dict.put (hash_prefix (take s.best_len tokens)) (hit e) d
        → ((n : ℕ) → s.best_len < n → n ≤ top → entry_at n d ≡ none)
        → Longest d top s

  -- After a hit the shorter prefixes change nothing.
  probe_done : (len : ℕ) (s : Search) → len ≤ s.best_len → probe hash_prefix tokens len s ≡ s
  unfolding probe
  probe_done len s h = ground arith

  search_done : (len : ℕ) (s : Search) → len ≤ s.best_len → search_down hash_prefix tokens len s ≡ s
  unfolding search_down
  search_done zero s h = refl
  search_done (suc len) s h =
      ap (search_down hash_prefix tokens len) (probe_done (suc len) s h)
      ∙ search_done len s (omega arith)

  abbrev fresh : List (ℕ × CacheEntry) → Search
  fresh d = record { entries = d; best_len = 0; best_blocks = [] }

  probe_miss :
      (len : ℕ) (d : List (ℕ × CacheEntry))
      → entry_at len d ≡ none
      → probe hash_prefix tokens len (fresh d) ≡ fresh d
  unfolding probe
  probe_miss len d h = ground arith

  abbrev hit_at : ℕ → CacheEntry → List (ℕ × CacheEntry) → Search
  hit_at len e d = record {
    entries = Dict.put (hash_prefix (take len tokens)) (hit e) d;
    best_len = len;
    best_blocks = e.block_ids;
  }

  probe_hit :
      (len : ℕ) (d : List (ℕ × CacheEntry)) (e : CacheEntry)
      → 0 < len
      → entry_at len d ≡ some e
      → probe hash_prefix tokens len (fresh d) ≡ hit_at len e d
  unfolding probe
  probe_hit len d e p h = ground arith

  Longest-suc :
      (d : List (ℕ × CacheEntry)) (top : ℕ) (s : Search)
      → entry_at (suc top) d ≡ none
      → Longest d top s
      → Longest d (suc top) s
  Longest-suc d top s h (missed a b c n) = missed a b c (λ i p q. extend i (n i p) q)
    where
      extend : (i : ℕ) → (i ≤ top → entry_at i d ≡ none) → i ≤ suc top → entry_at i d ≡ none
      extend i f q = elim (Bool-cases (i == suc top)) [
        | inl e ↦ let same : i ≡ suc top = ground arith in rw same h
        | inr e ↦ f (ground arith)
      ]
  Longest-suc d top s h (found e a b c f g n) =
      found e a (omega arith) c f g (λ i p q. extend i (n i p) q)
    where
      extend : (i : ℕ) → (i ≤ top → entry_at i d ≡ none) → i ≤ suc top → entry_at i d ≡ none
      extend i f q = elim (Bool-cases (i == suc top)) [
        | inl e ↦ let same : i ≡ suc top = ground arith in rw same h
        | inr e ↦ f (ground arith)
      ]

  search_down-Longest :
      (top : ℕ) (d : List (ℕ × CacheEntry))
      → Longest d top (search_down hash_prefix tokens top (fresh d))
  unfolding search_down
  search_down-Longest zero d = missed refl refl refl (λ n p q. absurd (omega arith))
  search_down-Longest (suc top) d = elim (get-cases (hash_prefix (take (suc top) tokens)) d) [
    | inl (_, h) ↦ rw (probe_miss (suc top) d h) (
        Longest-suc d top (search_down hash_prefix tokens top (fresh d)) h
          (search_down-Longest top d))
    | inr (e, _, h) ↦ rw (probe_hit (suc top) d e (omega arith) h) (
        rw (search_done top (hit_at (suc top) e d) (omega arith))
          (found e (omega arith) (omega arith) h refl refl (λ n p q. absurd (omega arith))))
  ]

total_hits-put :
    (k : ℕ) (e : CacheEntry) (d : List (ℕ × CacheEntry))
    → Dict.get k d ≡ some e
    → total_hits (Dict.put k (hit e) d) ≡ total_hits d + 1
unfolding total_hits Dict.get Dict.put
total_hits-put k e [] h = cc
total_hits-put k e ((j, w) ∷ d) h = ground (arith, total_hits-put k e d)

pub keys-put_old :
    (k : ℕ) (v e : CacheEntry) (d : List (ℕ × CacheEntry))
    → Dict.get k d ≡ some e
    → keys (Dict.put k v d) ≡ keys d
keys-put_old k v e d h = ground (arith, keys-put k v d, get-cases k d)

-- What a search leaves besides its result.
record Undisturbed (d : List (ℕ × CacheEntry)) (s : Search) : Type 0 where
  same_keys : keys s.entries ≡ keys d
  hits : total_hits s.entries ≡ total_hits d + (if ltb 0 s.best_len then 1 else 0)

module _ (hash_prefix : List ℕ → ℕ) (tokens : List ℕ) where
  Longest-Undisturbed :
      (d : List (ℕ × CacheEntry)) (top : ℕ) (s : Search)
      → Longest hash_prefix tokens d top s
      → Undisturbed d s
  Longest-Undisturbed d top s (missed a b c n) = record {
    same_keys = ap keys a;
    hits = ground (arith, ap total_hits a);
  }
  Longest-Undisturbed d top s (found e p q f g r n) =
      let k = hash_prefix (take s.best_len tokens) in
      record {
        same_keys = ap keys r ∙ keys-put_old k (hit e) e d f;
        hits = ground (arith, ap total_hits r, total_hits-put k e d f);
      }

  -- The result of `lookup` as a search over all the tokens.
  abbrev pub result : PrefixCache → Search
  result c =
      let r = lookup hash_prefix tokens c in
      record { entries = r.1.cache; best_len = r.0.0; best_blocks = r.0.1 }

  -- `lookup` returns the length and the blocks of the longest prefix of the tokens that is stored, or
  -- 0 and no block where none is.
  pub lookup-Longest :
      (c : PrefixCache) → Longest hash_prefix tokens c.cache (length tokens) (result c)
  unfolding lookup
  lookup-Longest c = search_down-Longest hash_prefix tokens (length tokens) c.cache

  -- `lookup` counts one hit if it finds something, and changes neither the keys nor the eviction order.
  pub lookup_undisturbed :
      (c : PrefixCache)
      → let r = lookup hash_prefix tokens c in
        (r.1.lru ≡ c.lru)
        × (keys r.1.cache ≡ keys c.cache)
        × (r.1.max_entries ≡ c.max_entries)
        × (total_hits r.1.cache ≡ total_hits c.cache + (if ltb 0 r.0.0 then 1 else 0))
  unfolding lookup
  lookup_undisturbed c =
      let u = Longest-Undisturbed c.cache (length tokens) _ (lookup-Longest c) in
      (refl, u.same_keys, refl, u.hits)
