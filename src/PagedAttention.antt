-- ===== src/PagedAttention.antt =====
-- src/paged_attention.py. The identifiers of sequences, texts in the code, are numbers here: only
-- their equality is used. `T` is the type of one token's keys or values in one layer, a tensor of
-- torch; the cache is a function of the layer, the block and the place in the block.
mod Tests
pub mod Tables
pub mod Sequences
pub mod Reads
pub mod Locality
pub mod Contents
use vllm_rocm.Common.{
  ℕ, zero, suc, ◌+◌, ◌-◌, ◌/◌, ◌%◌, Bool, ◌||◌, ◌&&◌, Option, none, some, List, [], ◌∷◌, ◌++◌, map,
  length, get_elem?, pop_last, range, ltb, leb, ◌==◌, if◌then◌else◌, Result, return, raise,
  index_error, key_error, runtime_error, zero_division_error, Action, pure, update, ◌>>=◌, ◌>>◌,
}
use vllm_rocm.Common.Int.{ℤ, sub_ℕ}
use vllm_rocm.Common.Dict

pub record Manager (T : Type 0) : Type 0 where
  pub block_size : ℕ
  pub max_num_blocks : ℕ
  pub num_layers : ℕ
  pub free_blocks : List ℕ
  pub block_tables : List (ℕ × List ℕ)
  pub k_cache : ℕ → ℕ → ℕ → T
  pub v_cache : ℕ → ℕ → ℕ → T

-- `n[i, j, l] = x`, on the function.
abbrev pub write_at : {T : Type 0} → (ℕ → ℕ → ℕ → T) → ℕ → ℕ → ℕ → T → ℕ → ℕ → ℕ → T
write_at cache layer block offset x i j l =
    if (layer == i) && ((block == j) && (offset == l)) then x else cache i j l

abbrev pub blocks_needed : ℕ → ℕ → ℕ
blocks_needed block_size num_tokens = (num_tokens + block_size - 1) / block_size

module _ {T : Type 0} where
  -- `blank` is the zero that `torch.zeros` fills the cache with.
  unfoldable pub init : ℕ → ℕ → ℕ → T → Manager T
  init block_size max_num_blocks num_layers blank = record {
    block_size = block_size;
    max_num_blocks = max_num_blocks;
    num_layers = num_layers;
    free_blocks = range 0 max_num_blocks;
    block_tables = [];
    k_cache = λ i j l. blank;
    v_cache = λ i j l. blank;
  }

  -- `self.free_blocks.pop()`
  unfoldable pub pop_block : Action (Manager T) ℕ
  pop_block m = elim (pop_last m.free_blocks) [
    | none ↦ (raise index_error, m)
    | some (rest, b) ↦ (return b, record m { free_blocks = rest })
  ]

  -- The loop of `allocate_sequence`, with the rounds that are left.
  unfoldable pub take_blocks : ℕ → Action (Manager T) (List ℕ)
  take_blocks zero = pure []
  take_blocks (suc n) = do b ← pop_block; rest ← take_blocks n; pure (b ∷ rest)

  unfoldable pub allocate_sequence : ℕ → ℕ → Action (Manager T) (List ℕ)
  allocate_sequence seq_id num_tokens m =
      if m.block_size == 0
      then (raise zero_division_error, m)
      else if ltb (length m.free_blocks) (blocks_needed m.block_size num_tokens)
      then (raise runtime_error, m)
      else (do
        allocated ← take_blocks (blocks_needed m.block_size num_tokens)
        update (λ m. record m { block_tables = Dict.put seq_id allocated m.block_tables })
        pure allocated)
          m

  unfoldable pub free_sequence : ℕ → Manager T → Manager T
  free_sequence seq_id m = elim (Dict.get seq_id m.block_tables) [
    | none ↦ m
    | some blocks ↦ record m {
      block_tables = Dict.delete seq_id m.block_tables;
      free_blocks = m.free_blocks ++ blocks;
    }
  ]

  -- A block's places in one layer, in order, and those of some blocks.
  abbrev pub row : (ℕ → ℕ → ℕ → T) → ℕ → ℕ → ℕ → List T
  row cache block_size layer b = map (cache layer b) (range 0 block_size)

  abbrev pub rows : (ℕ → ℕ → ℕ → T) → ℕ → ℕ → List ℕ → List (List T)
  rows cache block_size layer blocks = map (row cache block_size layer) blocks

  unfoldable pub get_kv_cache_for_seq : ℕ → ℕ → Manager T → Result (List (List T) × List (List T))
  get_kv_cache_for_seq seq_id layer_idx m = elim (Dict.get seq_id m.block_tables) [
    | none ↦ raise key_error
    | some blocks ↦
        if leb m.num_layers layer_idx
        then raise index_error
        else return (
          rows m.k_cache m.block_size layer_idx blocks,
          rows m.v_cache m.block_size layer_idx blocks,
        )
  ]

  -- The two assignments of `write_to_cache`, at a block and a place in it.
  abbrev pub store : ℕ → ℕ → ℕ → T → T → Action (Manager T) (Unit {0})
  store layer_idx block_id offset k v m =
      if leb m.num_layers layer_idx || leb m.max_num_blocks block_id
      then (raise index_error, m)
      else (
        return tt,
        record m {
          k_cache = write_at m.k_cache layer_idx block_id offset k;
          v_cache = write_at m.v_cache layer_idx block_id offset v;
        },
      )

  -- Behind the sequence's blocks nothing is written, and nothing is raised.
  unfoldable pub write_to_cache : ℕ → ℕ → ℕ → T → T → Action (Manager T) (Unit {0})
  write_to_cache seq_id layer_idx position k v m = elim (Dict.get seq_id m.block_tables) [
    | none ↦ (raise key_error, m)
    | some blocks ↦
        if m.block_size == 0
        then (raise zero_division_error, m)
        else elim (get_elem? blocks (position / m.block_size)) [
          | none ↦ (return tt, m)
          | some block_id ↦ store layer_idx block_id (position % m.block_size) k v m
        ]
  ]

-- The whole numbers of `get_block_usage`.
pub record Usage : Type 0 where
  pub total_blocks : ℕ
  pub used_blocks : ℤ
  pub free_blocks : ℕ
  pub active_sequences : ℕ

abbrev pub get_block_usage : {T : Type 0} → Manager T → Usage
get_block_usage m = record {
  total_blocks = m.max_num_blocks;
  used_blocks = sub_ℕ m.max_num_blocks (length m.free_blocks);
  free_blocks = length m.free_blocks;
  active_sequences = length m.block_tables;
}
