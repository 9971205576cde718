-- ===== src/Memory/Tests.antt =====
-- A device of 64 GB, and its pools.
use vllm_rocm.Common.{ℕ, ◌*◌, ◌/◌, ◌≡◌, refl, true, return, raise, attribute_error}
use vllm_rocm.Common.TextDict.{lookup, put}
use vllm_rocm.Common.Int.{sub_ℕ}
use vllm_rocm.Memory.{
  Torch, MemoryInfo, GpuResourceManager, get_gpu_memory_info, estimate_kv_cache_size, optimal_from,
  get_optimal_config, create_memory_pool, allocate_tensor, init,
}

program : Unit {0}
unfolding lookup put get_gpu_memory_info estimate_kv_cache_size optimal_from get_optimal_config
    create_memory_pool allocate_tensor
program = tt

abbrev gb : ℕ
gb = 1024 * 1024 * 1024

abbrev device : Torch
device = record { is_available = true; total_mem = return (64 * gb); mem_get_info = 60 * gb }

abbrev info : MemoryInfo
info = record { total = 64 * gb; free = 60 * gb; used = sub_ℕ (64 * gb) (60 * gb) }

-- torch has no `total_mem`, and without it nothing is answered.
missing_run :
    get_optimal_config
      (record device { total_mem = raise attribute_error })
      (λ t. t * 92 / 100)
      gb
      16
    ≡ raise attribute_error
unfolding program
missing_run = refl

abbrev pooled : GpuResourceManager ℕ
unfolding program
pooled = (create_memory_pool "kv" 100 (init "cuda:0")).1

abbrev used : GpuResourceManager ℕ
unfolding program
used = (allocate_tensor "cache" (return 7) pooled).1
