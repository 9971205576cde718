-- ===== src/Memory.antt =====
-- src/vllm_rocm/memory_manager.py. What torch says of the device, an empty tensor and the bits of a
-- type are arguments, and so is the product of a number of bytes and a float, rounded down.
pub mod Sizes
pub mod Pools
mod Tests
use Prim.Native.String.{String}
use vllm_rocm.Common.{
  ℕ, zero, suc, ◌+◌, ◌-◌, ◌*◌, ◌/◌, Bool, true, false, Option, none, some, List, [], ◌∷◌, length,
  ltb, ◌==◌, if◌then◌else◌, Result, return, raise, zero_division_error, Action, pure, update, ◌>>=◌,
}
use vllm_rocm.Common.TextDict.{put}
use vllm_rocm.Common.Int.{ℤ, sub_ℕ}

pub record MemoryPool : Type 0 where
  pub name : String
  pub total_bytes : ℕ
  pub allocated_bytes : ℕ
  pub device : String

abbrev pub free_bytes : MemoryPool → ℤ
free_bytes p = sub_ℕ p.total_bytes p.allocated_bytes

-- Of tensors of the type `T`.
pub record GpuResourceManager (T : Type 0) : Type 0 where
  pub device : String
  pub pools : List (String × MemoryPool)
  pub allocated_tensors : List (String × T)

pub record MemoryInfo : Type 0 where
  pub total : ℕ
  pub free : ℕ
  pub used : ℤ

pub record OptimalConfig : Type 0 where
  pub total_memory : ℕ
  pub model_memory : ℕ
  pub kv_cache_memory : ℕ
  pub num_blocks : ℕ
  pub block_size : ℕ
  pub usable_memory : ℕ

-- What torch says: whether there is a device, its properties' `total_mem`, and its free bytes.
pub record Torch : Type 0 where
  pub is_available : Bool
  pub total_mem : Result ℕ
  pub mem_get_info : ℕ

-- The bytes of an element, `torch.finfo(dtype).bits // 8`
abbrev pub bytes_per_element : ℕ → ℕ
bytes_per_element bits = bits / 8

unfoldable pub get_gpu_memory_info : Torch → Result MemoryInfo
get_gpu_memory_info torch =
    if torch.is_available
    then elim torch.total_mem [
      | raise x ↦ raise x
      | return total ↦ return (record {
        total = total;
        free = torch.mem_get_info;
        used = sub_ℕ total torch.mem_get_info;
      })
    ]
    else return (record { total = 0; free = 0; used = sub_ℕ 0 0 })

unfoldable pub estimate_kv_cache_size : ℕ → ℕ → ℕ → ℕ → ℕ → ℕ → ℕ
estimate_kv_cache_size num_layers num_heads head_dim num_blocks block_size bits =
    let kv_per_block = 2 * num_heads * block_size * head_dim * bytes_per_element bits in
    kv_per_block * num_blocks

-- The bytes of a block in `get_optimal_config`.
abbrev pub kv_per_block : ℕ → ℕ
kv_per_block bits = 2 * 32 * 16 * 128 * bytes_per_element bits

-- From what torch says of the device. `max(usable - model_bytes, 0)` is the subtraction of ℕ.
unfoldable pub optimal_from : ℕ → ℕ → ℕ → ℕ → Result OptimalConfig
optimal_from total usable model_bytes bits =
    if kv_per_block bits == 0
    then raise zero_division_error
    else return (record {
      total_memory = total;
      model_memory = model_bytes;
      kv_cache_memory = (usable - model_bytes) / kv_per_block bits * kv_per_block bits;
      num_blocks = (usable - model_bytes) / kv_per_block bits;
      block_size = 16;
      usable_memory = usable;
    })

-- `usable_of` is the product with `max_memory_fraction`, `model_bytes` that of the model's size in GB.
unfoldable pub get_optimal_config : Torch → (ℕ → ℕ) → ℕ → ℕ → Result OptimalConfig
get_optimal_config torch usable_of model_bytes bits = elim (get_gpu_memory_info torch) [
  | raise x ↦ raise x
  | return info ↦ optimal_from info.total (usable_of info.total) model_bytes bits
]

module _ {T : Type 0} where
  abbrev pub init : String → GpuResourceManager T
  init device = record { device = device; pools = []; allocated_tensors = [] }

  unfoldable pub create_memory_pool : String → ℕ → Action (GpuResourceManager T) MemoryPool
  create_memory_pool name num_bytes m =
      let pool : MemoryPool = record {
        name = name;
        total_bytes = num_bytes;
        allocated_bytes = 0;
        device = m.device;
      } in
      (return pool, record m { pools = put name pool m.pools })

  -- `empty` is what `torch.empty` returns or raises.
  unfoldable pub allocate_tensor : String → Result T → Action (GpuResourceManager T) T
  allocate_tensor name empty m = elim empty [
    | raise x ↦ (raise x, m)
    | return tensor ↦
        (return tensor, record m { allocated_tensors = put name tensor m.allocated_tensors })
  ]
