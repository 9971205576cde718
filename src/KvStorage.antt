-- ===== src/KvStorage.antt =====
-- src/cache/paged_attention.py. `T` is the type of one token's keys or values, for all heads; a block
-- is a function of the place in it. A dictionary of blocks is a function, with none for a missing
-- key; the keys of the swap buffer, texts of a sequence and a block, are those two numbers.
mod Tests
pub mod Swapping
pub mod Reading
pub mod Layers
use vllm_rocm.Common.{
  ℕ, zero, suc, ◌+◌, ◌-◌, ◌/◌, ◌%◌, min, Bool, true, false, ◌&&◌, ◌||◌, Option, none, some, List,
  [], ◌∷◌, ◌++◌, map, length, get_elem?, range, ltb, leb, ◌==◌, if◌then◌else◌, Result, return,
  raise, index_error, key_error, runtime_error, zero_division_error, Action, pure, update, ◌>>=◌,
  ◌>>◌,
}

pub record Storage (T : Type 0) : Type 0 where
  pub block_size : ℕ
  pub total_blocks : ℕ
  pub key_blocks : ℕ → Option (ℕ → T)
  pub value_blocks : ℕ → Option (ℕ → T)
  pub swap_buffer : ℕ → ℕ → Option ((ℕ → T) × (ℕ → T))

-- `d[bid] = block`
abbrev pub put_block : {T : Type 0} → ℕ → (ℕ → T) → (ℕ → Option (ℕ → T)) → ℕ → Option (ℕ → T)
put_block bid block d i = if bid == i then some block else d i

-- `block[:, place, :] = x`
abbrev pub write_place : {T : Type 0} → ℕ → T → (ℕ → T) → ℕ → T
write_place place x block i = if place == i then x else block i

-- `buffer[key] = entry`, and `del buffer[key]` with none.
abbrev pub put_swap :
    {T : Type 0}
    → ℕ
    → ℕ
    → Option ((ℕ → T) × (ℕ → T))
    → (ℕ → ℕ → Option ((ℕ → T) × (ℕ → T)))
    → ℕ
    → ℕ
    → Option ((ℕ → T) × (ℕ → T))
put_swap seq_id bid entry buffer s i = if (seq_id == s) && (bid == i) then entry else buffer s i

module _ {T : Type 0} where
  unfoldable pub init : ℕ → ℕ → Storage T
  init block_size total_blocks = record {
    block_size = block_size;
    total_blocks = total_blocks;
    key_blocks = λ i. none;
    value_blocks = λ i. none;
    swap_buffer = λ s i. none;
  }

  -- `blank` is the zero of `torch.zeros`.
  unfoldable pub init_cache : T → Storage T → Storage T
  init_cache blank m = record m {
    key_blocks = λ i. if ltb i m.total_blocks then some (λ place. blank) else m.key_blocks i;
    value_blocks = λ i. if ltb i m.total_blocks then some (λ place. blank) else m.value_blocks i;
  }

  -- The two assignments of `write_kv`.
  unfoldable pub write_key : ℕ → ℕ → T → Action (Storage T) (Unit {0})
  write_key bid place x m = elim (m.key_blocks bid) [
    | none ↦ (raise key_error, m)
    | some block ↦ (
      return tt,
      record m { key_blocks = put_block bid (write_place place x block) m.key_blocks },
    )
  ]

  unfoldable pub write_value : ℕ → ℕ → T → Action (Storage T) (Unit {0})
  write_value bid place x m = elim (m.value_blocks bid) [
    | none ↦ (raise key_error, m)
    | some block ↦ (
      return tt,
      record m { value_blocks = put_block bid (write_place place x block) m.value_blocks },
    )
  ]

  -- The layer is an argument that the code does not use.
  unfoldable pub write_kv : List ℕ → ℕ → ℕ → T → T → Action (Storage T) (Unit {0})
  write_kv block_ids position layer_idx key value m =
      if m.block_size == 0
      then (raise zero_division_error, m)
      else elim (get_elem? block_ids (position / m.block_size)) [
        | none ↦ (raise index_error, m)
        | some bid ↦
            (do
              write_key bid (position % m.block_size) key
              write_value bid (position % m.block_size) value)
              m
      ]

  -- `block[:, :n, :]`
  abbrev pub slice : ℕ → ℕ → (ℕ → T) → List T
  slice block_size n block = map block (range 0 (min n block_size))

  abbrev pub join : List T → List T → Result (List T × List T) → Result (List T × List T)
  join ks vs (return (ks', vs')) = return (ks ++ ks', vs ++ vs')
  join ks vs (raise e) = raise e

  -- The loop of `read_kv`, with the tokens that remain.
  unfoldable pub read_loop : List ℕ → ℕ → Storage T → Result (List T × List T)
  read_loop [] remaining m = return ([], [])
  read_loop (bid ∷ bids) remaining m =
      let n = min remaining m.block_size in
      let rest = read_loop bids (remaining - n) m in
      elim (m.key_blocks bid) [
        | none ↦ raise key_error
        | some key ↦ elim (m.value_blocks bid) [
          | none ↦ raise key_error
          | some value ↦
              join (slice m.block_size n key) (slice m.block_size n value)
                (if leb (remaining - n) 0 then return ([], []) else rest)
        ]
      ]

  -- `torch.cat` of no tensors raises.
  unfoldable pub read_kv : List ℕ → ℕ → ℕ → Storage T → Result (List T × List T)
  read_kv [] seq_len layer_idx m = raise runtime_error
  read_kv (bid ∷ bids) seq_len layer_idx m = read_loop (bid ∷ bids) seq_len m

  unfoldable pub swap_out_one : ℕ → ℕ → Action (Storage T) (Unit {0})
  swap_out_one bid seq_id m = elim (m.key_blocks bid) [
    | none ↦ (raise key_error, m)
    | some key ↦ elim (m.value_blocks bid) [
      | none ↦ (raise key_error, m)
      | some value ↦ (
        return tt,
        record m { swap_buffer = put_swap seq_id bid (some (key, value)) m.swap_buffer },
      )
    ]
  ]

  unfoldable pub swap_out : List ℕ → ℕ → Action (Storage T) (Unit {0})
  swap_out [] seq_id = pure tt
  swap_out (bid ∷ bids) seq_id = do swap_out_one bid seq_id; swap_out bids seq_id

  unfoldable pub swap_in_one : ℕ → ℕ → Storage T → Storage T
  swap_in_one bid seq_id m = elim (m.swap_buffer seq_id bid) [
    | none ↦ m
    | some (key, value) ↦ record m {
      key_blocks = put_block bid key m.key_blocks;
      value_blocks = put_block bid value m.value_blocks;
      swap_buffer = put_swap seq_id bid none m.swap_buffer;
    }
  ]

  unfoldable pub swap_in : List ℕ → ℕ → Storage T → Storage T
  swap_in [] seq_id m = m
  swap_in (bid ∷ bids) seq_id m = swap_in bids seq_id (swap_in_one bid seq_id m)

  -- `dst.copy_(src)`, for the keys and then for the values.
  unfoldable pub copy_key : ℕ → ℕ → Action (Storage T) (Unit {0})
  copy_key src dst m = elim (m.key_blocks dst) [
    | none ↦ (raise key_error, m)
    | some _ ↦ elim (m.key_blocks src) [
      | none ↦ (raise key_error, m)
      | some key ↦ (return tt, record m { key_blocks = put_block dst key m.key_blocks })
    ]
  ]

  unfoldable pub copy_value : ℕ → ℕ → Action (Storage T) (Unit {0})
  copy_value src dst m = elim (m.value_blocks dst) [
    | none ↦ (raise key_error, m)
    | some _ ↦ elim (m.value_blocks src) [
      | none ↦ (raise key_error, m)
      | some value ↦ (return tt, record m { value_blocks = put_block dst value m.value_blocks })
    ]
  ]

  unfoldable pub copy_block : ℕ → ℕ → Action (Storage T) (Unit {0})
  copy_block src dst = do copy_key src dst; copy_value src dst
