-- ===== src/Memory/Sizes.antt =====
-- src/vllm_rocm/memory_manager.py: the sizes that `get_optimal_config` answers with.
use vllm_rocm.Common.{ℕ, ◌+◌, ◌≤◌, ◌<◌, ◌≡◌, Result, return}
use vllm_rocm.Memory.{OptimalConfig, kv_per_block, estimate_kv_cache_size}

-- What `get_optimal_config` answers with, of a device with `total` bytes.
pub record Optimal (total usable model_bytes bits : ℕ) (result : Result OptimalConfig)
    : Type 0 where
  pub answer : OptimalConfig
  pub returns : result ≡ return answer
  pub of_total : answer.total_memory ≡ total
  pub fits : model_bytes ≤ usable → model_bytes + answer.kv_cache_memory ≤ usable
  pub none_fits : usable ≤ model_bytes → answer.num_blocks ≡ 0
  pub no_more : usable < model_bytes + answer.kv_cache_memory + kv_per_block bits
  pub estimated :
      (num_layers : ℕ)
      → estimate_kv_cache_size num_layers 32 128 answer.num_blocks answer.block_size bits
        ≡ answer.kv_cache_memory
