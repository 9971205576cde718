-- ===== src/PagedCache/Contents.antt =====
-- src/vllm_rocm/paged_attention.py: runs of calls, against a map that knows no blocks.
use mathlib.Core.Option
use vllm_rocm.Common.{
  ℕ, ◌/◌, ◌<◌, ◌≤◌, ◌≡◌, ◌&&◌, ◌==◌, Option, none, some, length, if◌then◌else◌, Result, return,
}
use vllm_rocm.Common.Dict
use vllm_rocm.PagedCache.{Manager, init, append_token, free_sequence, table_of}
use vllm_rocm.PagedCache.Blocks.{IsConsistent}
use vllm_rocm.PagedCache.Reading.{read_key, read_value}

-- The abstract view: the key and the value of each token, by its sequence and position. It knows no
-- blocks.
abbrev pub Contents : Type 0 → Type 0
Contents T = ℕ → ℕ → Option (T × T)

module _ {T : Type 0} where
  abbrev pub empty : Contents T
  empty s p = none

  abbrev pub store : ℕ → ℕ → T × T → Contents T → Contents T
  store seq_id position x c s p = if (seq_id == s) && (position == p) then some x else c s p

  abbrev pub forget : ℕ → Contents T → Contents T
  forget seq_id c s p = if seq_id == s then none else c s p

-- A run of calls on a new manager, with what the last one makes, and what the calls mean for the
-- abstract view. A token is appended while a block is free, in or right behind the blocks of its
-- sequence.
pub data Runs {T : Type 0} (num_blocks block_size : ℕ) (blank : T)
    : Result (Unit {0}) × Manager T → Contents T → Type 0 where
  made : Runs num_blocks block_size blank (return tt, init num_blocks block_size blank) empty
  appended :
      {r : Result (Unit {0}) × Manager T} {c : Contents T} (seq_id position : ℕ) (key value : T)
      → Runs num_blocks block_size blank r c
      → 0 < length r.1.free_blocks
      → position / r.1.block_size ≤ length (table_of seq_id r.1)
      → Runs num_blocks block_size blank
          (append_token seq_id position key value r.1)
          (store seq_id position (key, value) c)
  freed :
      {r : Result (Unit {0}) × Manager T} {c : Contents T} (seq_id : ℕ)
      → Runs num_blocks block_size blank r c
      → Runs num_blocks block_size blank (free_sequence seq_id r.1) (forget seq_id c)

-- The call returned, and every token of the abstract view is read.
pub record Agrees {T : Type 0} (r : Result (Unit {0}) × Manager T) (c : Contents T) : Type 0 where
  pub after : Manager T
  pub returns : r ≡ (return tt, after)
  pub consistent : IsConsistent after
  pub some_size : 0 < after.block_size
  pub reads :
      (s p : ℕ) (x : T × T)
      → c s p ≡ some x
      → (read_key s p after ≡ some x.0) × (read_value s p after ≡ some x.1)
