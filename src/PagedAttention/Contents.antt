-- ===== src/PagedAttention/Contents.antt =====
-- src/paged_attention.py: runs of calls, against a map that knows no blocks.
use mathlib.Core.Option
use vllm_rocm.Common.{ℕ, ◌/◌, ◌<◌, ◌≡◌, ◌&&◌, ◌==◌, Option, none, some, length, List, if◌then◌else◌}
use vllm_rocm.Common.Dict
use vllm_rocm.Common.Dict.{get-delete}
use vllm_rocm.PagedAttention.{Manager, init, allocate_sequence, free_sequence, write_to_cache}
use vllm_rocm.PagedAttention.Sequences.{IsValid}
use vllm_rocm.PagedAttention.Reads.{read_k, read_v}

-- The abstract view: the key and the value of each token, by its sequence, layer and position.
abbrev pub Contents : Type 0 → Type 0
Contents T = ℕ → ℕ → ℕ → Option (T × T)

module _ {T : Type 0} where
  abbrev pub empty : Contents T
  empty s l p = none

  abbrev pub put_token : ℕ → ℕ → ℕ → T × T → Contents T → Contents T
  put_token seq_id layer position x c s l p =
      if (seq_id == s) && ((layer == l) && (position == p)) then some x else c s l p

  abbrev pub forget : ℕ → Contents T → Contents T
  forget seq_id c s l p = if seq_id == s then none else c s l p

-- A run of calls on a new manager, and what the calls mean for the abstract view. A sequence is
-- allocated while it has no table, whether there are blocks for it or not; a token is written inside
-- the blocks of its sequence, at a layer of the model.
pub data Reach {T : Type 0} (block_size max_num_blocks num_layers : ℕ) (blank : T)
    : Manager T → Contents T → Type 0 where
  made :
      Reach block_size max_num_blocks num_layers blank
        (init block_size max_num_blocks num_layers blank)
        empty
  allocated :
      {m : Manager T} {c : Contents T} (seq_id num_tokens : ℕ)
      → Reach block_size max_num_blocks num_layers blank m c
      → Dict.get seq_id m.block_tables ≡ none
      → Reach block_size max_num_blocks num_layers blank (allocate_sequence seq_id num_tokens m).1 c
  written :
      {m : Manager T} {c : Contents T} (seq_id layer position : ℕ) (blocks : List ℕ) (k v : T)
      → Reach block_size max_num_blocks num_layers blank m c
      → layer < m.num_layers
      → Dict.get seq_id m.block_tables ≡ some blocks
      → position / m.block_size < length blocks
      → Reach block_size max_num_blocks num_layers blank
          (write_to_cache seq_id layer position k v m).1
          (put_token seq_id layer position (k, v) c)
  freed :
      {m : Manager T} {c : Contents T} (seq_id : ℕ)
      → Reach block_size max_num_blocks num_layers blank m c
      → Reach block_size max_num_blocks num_layers blank (free_sequence seq_id m) (forget seq_id c)

-- The books are right, and every token of the abstract view is read.
pub record Agrees {T : Type 0} (m : Manager T) (c : Contents T) : Type 0 where
  pub valid : IsValid m
  pub some_size : 0 < m.block_size
  pub reads :
      (s l p : ℕ) (x : T × T)
      → c s l p ≡ some x
      → (read_k s l p m ≡ some x.0) × (read_v s l p m ≡ some x.1)
