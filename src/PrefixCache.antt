-- ===== src/PrefixCache.antt =====
-- src/vllm_rocm/prefix_cache.py. `hash_prefix` stands for the first 16 hexadecimal digits of the
-- SHA-256 of the printed tokens, read as a number: hashlib is not part of the program, and nothing is
-- assumed of it. What the cache can tell apart are these digests.
mod Tests
pub mod Lookup
pub mod Insert
pub mod RoundTrip
use vllm_rocm.Common.{
  ℕ, zero, suc, ◌+◌, Bool, Option, none, some, List, [], ◌∷◌, length, take, snoc, ltb, leb,
  if◌then◌else◌,
}
use vllm_rocm.Common.Dict
use vllm_rocm.Common.Dict.{without, keys}

pub record CacheEntry : Type 0 where
  pub prefix_hash : ℕ
  pub block_ids : List ℕ
  pub ref_count : ℕ
  pub hit_count : ℕ

pub record PrefixCache : Type 0 where
  pub max_entries : ℕ
  pub cache : List (ℕ × CacheEntry)
  pub lru : List ℕ

abbrev pub init : ℕ → PrefixCache
init max_entries = record { max_entries = max_entries; cache = []; lru = [] }

-- What the loop of `lookup` changes.
pub record Search : Type 0 where
  pub entries : List (ℕ × CacheEntry)
  pub best_len : ℕ
  pub best_blocks : List ℕ

abbrev pub hit : CacheEntry → CacheEntry
hit e = record e { hit_count = e.hit_count + 1 }

-- `_evict`
unfoldable pub evict : PrefixCache → PrefixCache
evict c = elim c.lru [
  | [] ↦ c
  | key ∷ rest ↦ record c { cache = Dict.delete key c.cache; lru = rest }
]

-- The eviction of `insert`.
abbrev pub make_room : PrefixCache → PrefixCache
make_room c = if leb c.max_entries (length c.cache) then evict c else c

abbrev pub new_entry : ℕ → List ℕ → CacheEntry
new_entry h block_ids = record {
  prefix_hash = h;
  block_ids = block_ids;
  ref_count = 1;
  hit_count = 0;
}

abbrev pub add_entry : ℕ → List ℕ → PrefixCache → PrefixCache
add_entry h block_ids c = record c {
  cache = Dict.put h (new_entry h block_ids) c.cache;
  lru = snoc c.lru h;
}

module _ (hash_prefix : List ℕ → ℕ) where
  -- One round of the loop of `lookup`, at a prefix length.
  unfoldable pub probe : List ℕ → ℕ → Search → Search
  probe tokens len s =
      let h = hash_prefix (take len tokens) in
      elim (Dict.get h s.entries) [
        | none ↦ s
        | some e ↦
            if ltb s.best_len len
            then record {
              entries = Dict.put h (hit e) s.entries;
              best_len = len;
              best_blocks = e.block_ids;
            }
            else s
      ]

  -- The loop of `lookup`: `range(len, 0, -1)`.
  unfoldable pub search_down : List ℕ → ℕ → Search → Search
  search_down tokens zero s = s
  search_down tokens (suc len) s = search_down tokens len (probe tokens (suc len) s)

  unfoldable pub lookup : List ℕ → PrefixCache → (ℕ × List ℕ) × PrefixCache
  lookup tokens c =
      let s =
        search_down tokens (length tokens)
          (record { entries = c.cache; best_len = 0; best_blocks = [] }) in
      ((s.best_len, s.best_blocks), record c { cache = s.entries })

  unfoldable pub insert : List ℕ → List ℕ → PrefixCache → PrefixCache
  insert tokens block_ids c =
      let h = hash_prefix tokens in
      elim (Dict.get h c.cache) [
        | some e ↦ record c {
          cache = Dict.put h (record e { ref_count = e.ref_count + 1 }) c.cache;
        }
        | none ↦ add_entry h block_ids (make_room c)
      ]

  unfoldable pub invalidate : List ℕ → PrefixCache → PrefixCache
  invalidate tokens c =
      let h = hash_prefix tokens in
      elim (Dict.get h c.cache) [
        | some e ↦ record c { cache = Dict.delete h c.cache; lru = without h c.lru }
        | none ↦ c
      ]

-- `total_hits` of `get_stats`
unfoldable pub total_hits : List (ℕ × CacheEntry) → ℕ
total_hits [] = 0
total_hits ((h, e) ∷ d) = e.hit_count + total_hits d
