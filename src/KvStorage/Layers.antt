-- ===== src/KvStorage/Layers.antt =====
-- src/cache/paged_attention.py: what `read_kv` gives after `write_kv`, and the layers.
use vllm_rocm.Common.{
  ℕ, suc, ◌/◌, ◌%◌, ◌≤◌, ◌<◌, ◌≡◌, refl, ap, ◌∙◌, sym, false, some, List, length, count, get_elem?,
  get_elem?-some, get_elem?-count, get_elem?-one_place, ◌==◌, if◌then◌else◌, arith, Result, return,
}
use vllm_rocm.KvStorage.{Storage, put_block, write_place, write_key, write_value, write_kv, read_kv}
use vllm_rocm.KvStorage.Swapping.{IsStored}
use vllm_rocm.Common.Arith.{same_position}
use vllm_rocm.KvStorage.Reading.{key_at, value_at, entry_of, read_kv-Reads}

-- What writing a token leaves: whichever layer is read, the position has the new key and value,
-- and every other position of the blocks has what it had.
pub record WritesToken {T : Type 0} (m : Storage T) (ids : List ℕ) (p : ℕ) (k v : T)
    (result : Result (Unit {0}) × Storage T) : Type 0 where
  pub after : Storage T
  pub returns : result ≡ (return tt, after)
  pub keys :
      (layer q : ℕ)
      → q / m.block_size < length ids
      → key_at q (read_kv ids (suc q) layer after)
        ≡ (if p == q then some k else key_at q (read_kv ids (suc q) layer m))
  pub values :
      (layer q : ℕ)
      → q / m.block_size < length ids
      → value_at q (read_kv ids (suc q) layer after)
        ≡ (if p == q then some v else value_at q (read_kv ids (suc q) layer m))

module _ {T : Type 0} where
  -- The blocks after a write of `x` into the block `b`.
  abbrev changed : (ℕ → ℕ → T) → ℕ → ℕ → T → ℕ → ℕ → T
  changed block b place x i = if b == i then write_place place x (block b) else block i

  abbrev token_written : Storage T → (ℕ → ℕ → T) → (ℕ → ℕ → T) → ℕ → ℕ → T → T → Storage T
  token_written m key value b place k v = record m {
    key_blocks = put_block b (write_place place k (key b)) m.key_blocks;
    value_blocks = put_block b (write_place place v (value b)) m.value_blocks;
  }

  write_kv_runs :
      (m : Storage T) (ids : List ℕ) (p layer b : ℕ) (k v : T) (key value : ℕ → ℕ → T)
      → IsStored m ids key value
      → 0 < m.block_size
      → get_elem? ids (p / m.block_size) ≡ some b
      → write_kv ids p layer k v m ≡ (return tt, token_written m key value b (p % m.block_size) k v)
  unfolding write_kv write_key write_value
  write_kv_runs m ids p layer b k v key value g h e =
      let here = get_elem?-count b ids (p / m.block_size) e in
      let t : (m.block_size == 0) ≡ false = ground arith in
      rw t
        (rw (e, write_kv) (rw (g.keys b here, write_key) (rw (g.values b here, write_value) refl)))

  token_written-IsStored :
      (m : Storage T) (ids : List ℕ) (b place : ℕ) (k v : T) (key value : ℕ → ℕ → T)
      → IsStored m ids key value
      → IsStored
          (token_written m key value b place k v)
          ids
          (changed key b place k)
          (changed value b place v)
  token_written-IsStored m ids b place k v key value g = record {
    keys = λ i h. ground (arith, g.keys i h);
    values = λ i h. ground (arith, g.values i h);
  }

  entry_of-changed :
      (block : ℕ → ℕ → T) (bs : ℕ) (ids : List ℕ) (p q b : ℕ) (x : T)
      → ((i : ℕ) → count i ids ≤ 1)
      → get_elem? ids (p / bs) ≡ some b
      → q / bs < length ids
      → entry_of (changed block b (p % bs) x) bs ids q
        ≡ (if p == q then some x else entry_of block bs ids q)
  entry_of-changed block bs ids p q b x u e lt =
      let (c, e') = get_elem?-some ids (q / bs) lt in
      let same : (b == c) ≡ (p / bs == q / bs) =
        ground (arith, get_elem?-one_place b ids (p / bs) (q / bs) (u b) e) in
      ground (arith, same, same_position p q bs)

  key_at-entry :
      (m : Storage T) (ids : List ℕ) (q layer : ℕ) (key value : ℕ → ℕ → T)
      → IsStored m ids key value
      → 0 < m.block_size
      → q / m.block_size < length ids
      → key_at q (read_kv ids (suc q) layer m) ≡ entry_of key m.block_size ids q
  key_at-entry m ids q layer key value g h lt =
      let r = read_kv-Reads m ids q layer key value g h lt in ap (key_at q) r.returns ∙ r.key_read

  value_at-entry :
      (m : Storage T) (ids : List ℕ) (q layer : ℕ) (key value : ℕ → ℕ → T)
      → IsStored m ids key value
      → 0 < m.block_size
      → q / m.block_size < length ids
      → value_at q (read_kv ids (suc q) layer m) ≡ entry_of value m.block_size ids q
  value_at-entry m ids q layer key value g h lt =
      let r = read_kv-Reads m ids q layer key value g h lt in
      ap (value_at q) r.returns ∙ r.value_read

  -- `write_kv` at a position of distinct blocks that are there returns. Afterwards `read_kv` has the
  -- new key and value at this position and the old ones at every other, and that in every layer: a
  -- write for one layer replaces what was written for any other.
  pub write_kv-WritesToken :
      (m : Storage T) (ids : List ℕ) (position layer_idx : ℕ) (k v : T) (key value : ℕ → ℕ → T)
      → IsStored m ids key value
      → ((i : ℕ) → count i ids ≤ 1)
      → 0 < m.block_size
      → position / m.block_size < length ids
      → WritesToken m ids position k v (write_kv ids position layer_idx k v m)
  write_kv-WritesToken m ids p layer k v key value g u h lt =
      let bs = m.block_size in
      let (b, e) = get_elem?-some ids (p / bs) lt in
      let m₁ = token_written m key value b (p % bs) k v in
      let g₁ = token_written-IsStored m ids b (p % bs) k v key value g in
      let key₁ = changed key b (p % bs) k in
      let value₁ = changed value b (p % bs) v in
      record {
        after = m₁;
        returns = write_kv_runs m ids p layer b k v key value g h e;
        keys = λ l q r.
            key_at-entry m₁ ids q l key₁ value₁ g₁ h r
            ∙ entry_of-changed key bs ids p q b k u e r
            ∙ ap (λ o. if p == q then some k else o) (sym (key_at-entry m ids q l key value g h r));
        values = λ l q r.
            value_at-entry m₁ ids q l key₁ value₁ g₁ h r
            ∙ entry_of-changed value bs ids p q b v u e r
            ∙ ap (λ o. if p == q then some v else o)
                (sym (value_at-entry m ids q l key value g h r));
      }
