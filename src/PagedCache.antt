-- ===== src/PagedCache.antt =====
-- src/vllm_rocm/paged_attention.py. `T` is the type of one token's keys or values, for all heads, a
-- tensor of torch; a cache is a function of the block and the place in it.
mod Tests
pub mod Blocks
pub mod Room
pub mod Reading
pub mod Tokens
pub mod Release
pub mod Contents
use vllm_rocm.Common.{
  ℕ, zero, suc, ◌+◌, ◌-◌, ◌/◌, ◌%◌, min, Bool, true, false, ◌&&◌, Option, none, some, List, [], ◌∷◌,
  ◌++◌, map, length, snoc, get_elem?, set, replicate, take, range, pop_last, ltb, leb, ◌==◌,
  if◌then◌else◌, Result, return, raise, index_error, runtime_error, zero_division_error, Action,
  pure, update, ◌>>=◌, ◌>>◌,
}
use vllm_rocm.Common.Int.{ℤ, pos, pred_ℤ, is_nonpositive}
use vllm_rocm.Common.Dict

pub record Manager (T : Type 0) : Type 0 where
  pub num_blocks : ℕ
  pub block_size : ℕ
  pub key_cache : ℕ → ℕ → T
  pub value_cache : ℕ → ℕ → T
  pub free_blocks : List ℕ
  pub seq_blocks : List (ℕ × List ℕ)
  pub block_ref_count : List ℤ

-- `cache[block, :, place, :] = x`
abbrev pub write_at : {T : Type 0} → (ℕ → ℕ → T) → ℕ → ℕ → T → ℕ → ℕ → T
write_at cache block place x i j = if (block == i) && (place == j) then x else cache i j

-- `torch.cat` of blocks along the tokens.
abbrev pub concat : {T : Type 0} → List (List T) → List T
concat [] = []
concat (xs ∷ xss) = xs ++ concat xss

module _ {T : Type 0} where
  unfoldable pub init : ℕ → ℕ → T → Manager T
  init num_blocks block_size blank = record {
    num_blocks = num_blocks;
    block_size = block_size;
    key_cache = λ i j. blank;
    value_cache = λ i j. blank;
    free_blocks = range 0 num_blocks;
    seq_blocks = [];
    block_ref_count = replicate num_blocks (pos 0);
  }

  -- `self.block_ref_count[block_id] = f(self.block_ref_count[block_id])`
  unfoldable pub change_count : ℕ → (ℤ → ℤ) → Action (Manager T) ℤ
  change_count block_id f m = elim (get_elem? m.block_ref_count block_id) [
    | none ↦ (raise index_error, m)
    | some n ↦ (return (f n), record m { block_ref_count = set m.block_ref_count block_id (f n) })
  ]

  unfoldable pub pop_block : Action (Manager T) ℕ
  pop_block m = elim (pop_last m.free_blocks) [
    | none ↦ (raise runtime_error, m)
    | some (rest, b) ↦ (return b, record m { free_blocks = rest })
  ]

  unfoldable pub allocate_block : Action (Manager T) ℕ
  allocate_block = do b ← pop_block; change_count b (λ n. pos 1); pure b

  unfoldable pub free_block : ℕ → Action (Manager T) (Unit {0})
  free_block block_id = do
    n ← change_count block_id pred_ℤ
    if is_nonpositive n
        then update (λ m. record m { free_blocks = snoc m.free_blocks block_id })
        else pure tt

  unfoldable pub allocate_sequence : ℕ → Action (Manager T) ℕ
  allocate_sequence seq_id = do
    b ← allocate_block
    update (λ m. record m { seq_blocks = Dict.put seq_id (b ∷ []) m.seq_blocks })
    pure b

  -- The blocks of a sequence, its first one allocated if it has none.
  unfoldable pub ensure_sequence : ℕ → Action (Manager T) (List ℕ)
  ensure_sequence seq_id m = elim (Dict.get seq_id m.seq_blocks) [
    | some (b ∷ bs) ↦ (return (b ∷ bs), m)
    | _ ↦ (do b ← allocate_sequence seq_id; pure (b ∷ [])) m
  ]

  -- One block more for a place behind the last.
  unfoldable pub ensure_block : ℕ → ℕ → List ℕ → Action (Manager T) (List ℕ)
  ensure_block seq_id block_idx blocks =
      if leb (length blocks) block_idx
      then (do
        b ← allocate_block
        update (λ m. record m { seq_blocks = Dict.put seq_id (snoc blocks b) m.seq_blocks })
        pure (snoc blocks b))
      else pure blocks

  unfoldable pub store_token : List ℕ → ℕ → ℕ → T → T → Action (Manager T) (Unit {0})
  store_token blocks block_idx place key value m = elim (get_elem? blocks block_idx) [
    | none ↦ (raise index_error, m)
    | some b ↦ if leb m.num_blocks b then (raise index_error, m) else (
      return tt,
      record m {
        key_cache = write_at m.key_cache b place key;
        value_cache = write_at m.value_cache b place value;
      },
    )
  ]

  unfoldable pub append_token : ℕ → ℕ → T → T → Action (Manager T) (Unit {0})
  append_token seq_id position key value = do
    blocks ← ensure_sequence seq_id
    λ m.
        if m.block_size == 0
        then (raise zero_division_error, m)
        else (do
          blocks ← ensure_block seq_id (position / m.block_size) blocks
          store_token blocks (position / m.block_size) (position % m.block_size) key value)
            m

  abbrev pub row : (ℕ → ℕ → T) → ℕ → ℕ → List T
  row cache block_size b = map (cache b) (range 0 block_size)

  abbrev pub table_of : ℕ → Manager T → List ℕ
  table_of seq_id m = elim (Dict.get seq_id m.seq_blocks) [ none ↦ [] | some blocks ↦ blocks ]

  -- The empty tensors of a sequence without blocks are the empty lists.
  unfoldable pub get_key_value : ℕ → ℕ → Manager T → Result (List T × List T)
  get_key_value seq_id num_tokens m =
      if m.block_size == 0
      then raise zero_division_error
      else (let blocks =
            take ((num_tokens + m.block_size - 1) / m.block_size) (table_of seq_id m) in
          return (
            concat (map (row m.key_cache m.block_size) blocks),
            concat (map (row m.value_cache m.block_size) blocks),
          ))

  unfoldable pub free_all : List ℕ → Action (Manager T) (Unit {0})
  free_all [] = pure tt
  free_all (b ∷ bs) = do free_block b; free_all bs

  unfoldable pub free_sequence : ℕ → Action (Manager T) (Unit {0})
  free_sequence seq_id m =
      free_all (table_of seq_id m) (record m { seq_blocks = Dict.delete seq_id m.seq_blocks })
