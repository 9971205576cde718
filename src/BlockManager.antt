-- ===== src/BlockManager.antt =====
-- src/cache/block_manager.py. A method is an action on the manager's record; the order of the lists
-- is Python's. Block ids are natural numbers. Of `_swap_blocks` the keys are kept: every value is
-- the same placeholder.
pub mod Accounting
pub mod Allocate
pub mod Release
pub mod Swap
pub mod SwapIn
pub mod Prefix
pub mod Usage
mod Tests
use Prim.Native.Nat.{max}
use Prim.Native.String.{String}
use vllm_rocm.Common.{
  ℕ, zero, suc, ◌*◌, ◌/◌, Bool, true, false, ◌||◌, Option, none, some, List, [], ◌∷◌, length,
  get_elem?, set, snoc, pop_last, range, has, remove?, ltb, leb, ◌==◌, if◌then◌else◌, return, raise,
  value_error, index_error, Action, pure, update, ◌>>=◌, ◌>>◌, map,
}
use vllm_rocm.Common.Int.{ℤ, pos, pred_ℤ, suc_ℤ, is_nonpositive, sub_ℕ}
use vllm_rocm.Config.{EngineConfig}

pub record Block : Type 0 where
  pub block_id : ℕ
  pub is_free : Bool
  pub ref_count : ℤ
  pub seq_id : Option String

pub record BlockManager : Type 0 where
  pub block_size : ℕ
  pub total_blocks : ℕ
  pub blocks : List Block
  pub free_block_ids : List ℕ
  pub swap_blocks : List ℕ

-- `available` is `int(total_mem * gpu_memory_utilization)`, or `none` where torch is missing, has no
-- GPU or raises. A division by zero is caught and gives the fallback too.
unfoldable pub estimate_num_blocks : Option ℕ → ℕ → ℕ
estimate_num_blocks none block_size = 1024
estimate_num_blocks (some available) block_size =
    let block_element_size = block_size * 2 * 2 * 80 in
    if block_element_size == 0 then 1024 else max (available / block_element_size) 64

abbrev pub fresh_block : ℕ → Block
fresh_block i = record { block_id = i; is_free = true; ref_count = pos 0; seq_id = none }

unfoldable pub init : EngineConfig → Option ℕ → BlockManager
init config available =
    let total =
      if ltb 0 config.num_kv_cache_blocks
      then config.num_kv_cache_blocks
      else estimate_num_blocks available config.block_size in
    record {
      block_size = config.block_size;
      total_blocks = total;
      blocks = map fresh_block (range 0 total);
      free_block_ids = range 0 total;
      swap_blocks = [];
    }

abbrev pub free_blocks : BlockManager → ℕ
free_blocks m = length m.free_block_ids

unfoldable pub used_blocks : BlockManager → ℤ
used_blocks m = sub_ℕ m.total_blocks (free_blocks m)

-- `self._blocks[bid]`, changed by `f`.
unfoldable pub change_block : ℕ → (Block → Block) → Action BlockManager (Unit {0})
change_block bid f m = elim (get_elem? m.blocks bid) [
  | none ↦ (raise index_error, m)
  | some b ↦ (return tt, record m { blocks = set m.blocks bid (f b) })
]

-- `self._free_block_ids.pop()`
unfoldable pub pop_free : Action BlockManager ℕ
pop_free m = elim (pop_last m.free_block_ids) [
  | none ↦ (raise index_error, m)
  | some (rest, bid) ↦ (return bid, record m { free_block_ids = rest })
]

abbrev pub take_block : Option String → Block → Block
take_block owner b = record b { is_free = false; ref_count = pos 1; seq_id = owner }

-- One round of the loop of `allocate`.
unfoldable pub allocate_one : Option String → Action BlockManager ℕ
allocate_one owner = do bid ← pop_free; change_block bid (take_block owner); pure bid

-- The loop of `allocate`, with the rounds that are left.
unfoldable pub allocate_loop : ℕ → Option String → Action BlockManager (List ℕ)
allocate_loop zero owner = pure []
allocate_loop (suc n) owner = do
  bid ← allocate_one owner
  rest ← allocate_loop n owner
  pure (bid ∷ rest)

unfoldable pub allocate : ℕ → Option String → Action BlockManager (List ℕ)
allocate num_blocks owner m =
    if ltb (free_blocks m) num_blocks
    then (raise value_error, m)
    else allocate_loop num_blocks owner m

abbrev pub release_ref : Block → Block
release_ref b = record b { ref_count = pred_ℤ b.ref_count }

abbrev pub clear_block : Block → Block
clear_block b = record b { is_free = true; seq_id = none }

abbrev pub push_free : ℕ → Action BlockManager (Unit {0})
push_free bid = update (λ m. record m { free_block_ids = snoc m.free_block_ids bid })

-- `self._blocks[bid].ref_count`
abbrev pub ref_count_at : ℕ → Action BlockManager ℤ
ref_count_at bid m = elim (get_elem? m.blocks bid) [
  | none ↦ (raise index_error, m)
  | some b ↦ (return b.ref_count, m)
]

-- One round of the loop of `free`.
unfoldable pub free_one : ℕ → Action BlockManager (Unit {0})
free_one bid m =
    if ltb bid 0 || leb m.total_blocks bid
    then (return tt, m)
    else (do
      change_block bid release_ref
      refs ← ref_count_at bid
      if is_nonpositive refs then (change_block bid clear_block >> push_free bid) else pure tt)
        m

unfoldable pub free : List ℕ → Action BlockManager (Unit {0})
free [] = pure tt
free (bid ∷ ids) = do free_one bid; free ids

abbrev pub add_key : ℕ → List ℕ → List ℕ
add_key k ks = if has k ks then ks else snoc ks k

unfoldable pub swap_out_one : ℕ → Action BlockManager (Unit {0})
swap_out_one bid = do
  update (λ m. record m { swap_blocks = add_key bid m.swap_blocks })
  change_block bid (λ b. record b { is_free = true })
  push_free bid

unfoldable pub swap_out : List ℕ → Action BlockManager (Unit {0})
swap_out [] = pure tt
swap_out (bid ∷ ids) = do swap_out_one bid; swap_out ids

-- `del self._swap_blocks[bid]`, at a key that is there.
abbrev pub remove_key : ℕ → List ℕ → List ℕ
remove_key k [] = []
remove_key k (x ∷ xs) = if x == k then xs else x ∷ remove_key k xs

-- `self._free_block_ids.remove(bid)`
unfoldable pub take_free : ℕ → Action BlockManager (Unit {0})
take_free bid m = elim (remove? bid m.free_block_ids) [
  | none ↦ (raise value_error, m)
  | some rest ↦ (return tt, record m { free_block_ids = rest })
]

unfoldable pub swap_in : List ℕ → Action BlockManager (List ℕ)
swap_in [] = pure []
swap_in (bid ∷ ids) = λ m. elim (has bid m.swap_blocks) [
  | true ↦
      (do
        update (λ m. record m { swap_blocks = remove_key bid m.swap_blocks })
        change_block bid (λ b. record b { is_free = false })
        take_free bid
        new_ids ← swap_in ids
        pure (bid ∷ new_ids))
        m
  | false ↦ swap_in ids m
]

abbrev pub share_block : Block → Block
share_block b = record b { ref_count = suc_ℤ b.ref_count }

-- The loop of `allocate_prefix`.
unfoldable pub share_all : List ℕ → Action BlockManager (Unit {0})
share_all [] = pure tt
share_all (bid ∷ ids) = do change_block bid share_block; share_all ids

unfoldable pub allocate_prefix : ℕ → Action BlockManager (List ℕ)
allocate_prefix num_blocks = do blocks ← allocate num_blocks none; share_all blocks; pure blocks

abbrev pub can_allocate : BlockManager → ℕ → Bool
can_allocate m num_blocks = leb num_blocks (free_blocks m)
