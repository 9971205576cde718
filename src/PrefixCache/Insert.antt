-- ===== src/PrefixCache/Insert.antt =====
-- `insert`, `_evict` and `invalidate`: the invariant, and what a later `lookup` finds.
use vllm_rocm.Common.{
  ℕ, ◌+◌, ◌≤◌, ◌≡◌, refl, ap, ◌∙◌, sym, Bool, true, false, Option, none, some, List, [], ◌∷◌,
  length, snoc, count, count-append, length-append, leb, ◌==◌, if◌then◌else◌, arith, Bool-cases,
  inl, inr,
}
use Prim.Native.Nat.{max}
use vllm_rocm.Common.Dict
use vllm_rocm.Common.Dict.{
  without, keys, get-put, get-delete, keys-put, keys-delete, get-cases, count-without,
  without_absent, length-without_le, length-keys,
}
use vllm_rocm.PrefixCache.{
  CacheEntry, PrefixCache, init, evict, make_room, new_entry, add_entry, insert,
}
use vllm_rocm.PrefixCache.Lookup.{keys-put_old}

-- The eviction list holds the dictionary's keys, in its order; there are not more entries than
-- allowed (but one where none is); and every entry knows its key.
pub record IsValid (c : PrefixCache) : Type 0 where
  pub order : c.lru ≡ keys c.cache
  pub distinct : (i : ℕ) → count i c.lru ≤ 1
  pub bounded : length c.lru ≤ max 1 c.max_entries
  pub named : (i : ℕ) (e : CacheEntry) → Dict.get i c.cache ≡ some e → e.prefix_hash ≡ i

pub init-IsValid : (n : ℕ) → IsValid (init n)
unfolding Dict.get
init-IsValid n = record {
  order = refl;
  distinct = λ i. omega arith;
  bounded = omega arith;
  named = λ i e h. cc;
}

-- What `_evict` leaves: the first key of the list is gone, with its entry.
evict_lem :
    (c : PrefixCache) (k : ℕ) (rest : List ℕ)
    → c.lru ≡ k ∷ rest
    → evict c ≡ record c { cache = Dict.delete k c.cache; lru = rest }
unfolding evict
evict_lem c k rest e = ground arith

evicted-IsValid :
    (c : PrefixCache) (k : ℕ) (rest : List ℕ)
    → IsValid c
    → c.lru ≡ k ∷ rest
    → IsValid (record c { cache = Dict.delete k c.cache; lru = rest })
unfolding without
evicted-IsValid c k rest v e =
    let absent : count k rest ≡ 0 = ground (arith, v.distinct k, ap (count k) e) in
    record {
      order = sym (
          keys-delete k c.cache
          ∙ ap (without k) (sym v.order ∙ e)
          ∙ ground (arith, without_absent k rest absent));
      distinct = λ i. ground (arith, v.distinct i, ap (count i) e);
      bounded = omega (arith, v.bounded, ap length e);
      named = λ i x h. ground (arith, get-delete k i c.cache, v.named i x);
    }

-- The key that makes room for a new one: the first of the list, in a full cache.
abbrev pub oldest : List ℕ → Option ℕ
oldest [] = none
oldest (k ∷ _) = some k

abbrev pub dropped : PrefixCache → Option ℕ
dropped c = if leb c.max_entries (length c.cache) then oldest c.lru else none

abbrev pub is_key : Option ℕ → ℕ → Bool
is_key none j = false
is_key (some k) j = k == j

record Roomy (c c' : PrefixCache) : Type 0 where
  valid : IsValid c'
  room : length c'.lru + 1 ≤ max 1 c.max_entries
  same_max : c'.max_entries ≡ c.max_entries
  reads :
      (j : ℕ) → Dict.get j c'.cache ≡ (if is_key (dropped c) j then none else Dict.get j c.cache)

Roomy-evict :
    (c : PrefixCache) (gs : List ℕ)
    → IsValid c
    → c.lru ≡ gs
    → leb c.max_entries (length c.cache) ≡ true
    → Roomy c (evict c)
unfolding evict
Roomy-evict c [] v e full =
    rw (e, evict)
      (record {
        valid = v;
        room = omega (arith, ap length e);
        same_max = refl;
        reads = λ j. ground (arith, full);
      })
Roomy-evict c (k ∷ rest) v e full = rw (evict_lem c k rest e) (record {
  valid = evicted-IsValid c k rest v e;
  room = omega (arith, v.bounded, ap length e);
  same_max = refl;
  reads = λ j. ground (arith, get-delete k j c.cache, full, e);
})

make_room-Roomy : (c : PrefixCache) → IsValid c → Roomy c (make_room c)
make_room-Roomy c v = elim (Bool-cases (leb c.max_entries (length c.cache))) [
  | inl full ↦ rw full (Roomy-evict c c.lru v refl full)
  | inr free ↦ rw free (record {
    valid = v;
    room = ground (arith, ap length v.order, length-keys c.cache);
    same_max = refl;
    reads = λ j. ground (arith, free);
  })
]

module _ (hash_prefix : List ℕ → ℕ) (tokens : List ℕ) where
  abbrev pub digest : ℕ
  digest = hash_prefix tokens

  pub insert_old :
      (block_ids : List ℕ) (c : PrefixCache) (e : CacheEntry)
      → Dict.get digest c.cache ≡ some e
      → insert hash_prefix tokens block_ids c
        ≡ record c { cache = Dict.put digest (record e { ref_count = e.ref_count + 1 }) c.cache }
  unfolding insert
  insert_old block_ids c e h = ground arith

  pub insert_new :
      (block_ids : List ℕ) (c : PrefixCache)
      → Dict.get digest c.cache ≡ none
      → insert hash_prefix tokens block_ids c ≡ add_entry digest block_ids (make_room c)
  unfolding insert
  insert_new block_ids c h = ground arith

  absent_key :
      (c : PrefixCache) → IsValid c → Dict.get digest c.cache ≡ none → count digest c.lru ≡ 0
  absent_key c v h = ground (arith, get-cases digest c.cache, ap (count digest) v.order)

  add_entry-IsValid :
      (block_ids : List ℕ) (c : PrefixCache)
      → IsValid c
      → Dict.get digest c.cache ≡ none
      → length c.lru + 1 ≤ max 1 c.max_entries
      → IsValid (add_entry digest block_ids c)
  add_entry-IsValid block_ids c v h room =
      let absent = absent_key c v h in
      let new = new_entry digest block_ids in
      record {
        order =
            ap (λ ks. snoc ks digest) v.order
            ∙ ground (arith, keys-put digest new c.cache, get-cases digest c.cache);
        distinct = λ i. ground (arith, v.distinct i, count-append i c.lru (digest ∷ []), absent);
        bounded = omega (arith, room, length-append c.lru (digest ∷ []));
        named = λ i e g. ground (arith, get-put digest i new c.cache, v.named i e);
      }

  -- `insert` keeps the invariant: the limit on the entries, and one place in the list for each.
  pub insert-IsValid :
      (block_ids : List ℕ) (c : PrefixCache)
      → IsValid c
      → IsValid (insert hash_prefix tokens block_ids c)
  insert-IsValid block_ids c v = elim (get-cases digest c.cache) [
    | inl (_, h) ↦
        let r = make_room-Roomy c v in
        rw (insert_new block_ids c h) (
          add_entry-IsValid block_ids (make_room c) r.valid (ground (arith, r.reads digest))
            (rw r.same_max r.room))
    | inr (e, _, h) ↦
        let e' = record e { ref_count = e.ref_count + 1 } in
        rw (insert_old block_ids c e h) (record {
          order = v.order ∙ sym (keys-put_old digest e' e c.cache h);
          distinct = v.distinct;
          bounded = v.bounded;
          named = λ i x g. ground (arith, get-put digest i e' c.cache, v.named i x, v.named i e);
        })
  ]

  -- In a cache that keeps its invariant, after `insert` of tokens whose digest is not stored there
  -- is an entry with the blocks, one reference and no hit; of the other entries only the oldest is
  -- dropped, and only in a full cache.
  pub get-insert :
      (block_ids : List ℕ) (c : PrefixCache) (j : ℕ)
      → IsValid c
      → Dict.get digest c.cache ≡ none
      → Dict.get j (insert hash_prefix tokens block_ids c).cache ≡ (
          if digest == j
          then some (new_entry digest block_ids)
          else if is_key (dropped c) j
          then none
          else Dict.get j c.cache)
  get-insert block_ids c j v h =
      let r = make_room-Roomy c v in
      rw (insert_new block_ids c h)
        (get-put digest j _ (make_room c).cache ∙ ground (arith, r.reads j))
