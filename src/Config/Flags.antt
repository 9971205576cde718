-- ===== src/Config/Flags.antt =====
-- src/config.py: the options of the command lines, as `argparse` takes them. An option is a `Flag`
-- with its typed value, so the abbreviations of options and malformed numbers are left out.
use vllm_rocm.Common.{
  ℕ, Bool, true, false, ◌||◌, Option, none, some, List, [], ◌∷◌, Chars, codes, same, if◌then◌else◌,
}
use vllm_rocm.Config.{
  Decimal, text, EngineConfig, defaults, ServerConfig, PreemptionMode, recompute, swap,
}

pub data ServerFlag : Type 0 where
  host : Chars → ServerFlag
  port : ℕ → ServerFlag
  log_level : Chars → ServerFlag

pub data Flag : Type 0 where
  model : Chars → Flag
  tensor_parallel_size : ℕ → Flag
  pipeline_parallel_size : ℕ → Flag
  max_model_len : ℕ → Flag
  gpu_memory_utilization : Decimal → Flag
  quantization : Chars → Flag
  dtype : Chars → Flag
  block_size : ℕ → Flag
  num_kv_cache_blocks : ℕ → Flag
  swap_space_gb : Decimal → Flag
  enforce_eager : Flag
  trust_remote_code : Flag
  seed : ℕ → Flag
  max_num_batched_tokens : ℕ → Flag
  max_num_seqs : ℕ → Flag
  preemption_mode : Chars → Flag
  scheduler_policy : Chars → Flag
  hf_token : Chars → Flag
  config : Chars → Flag
  server : ServerFlag → Flag

-- What `parse_args` returns: the attributes of the configuration, with `hf_token` as
-- `huggingface_hub_token`, and the attribute `config`.
pub record Namespace : Type 0 where
  pub options : EngineConfig
  pub config_file : Option Chars

-- `choices` of `--quantization`
unfoldable pub is_choice : Chars → Bool
is_choice t =
    same t (codes "fp8")
    || same t (codes "int8")
    || same t (codes "int4")
    || same t (codes "awq")
    || same t (codes "gptq")

abbrev pub mode_of : Chars → PreemptionMode
mode_of t = if same t (codes "swap") then swap else recompute

-- What an option of the engine sets.
unfoldable pub set_option : Flag → EngineConfig → EngineConfig
set_option (Flag.model t) c = record c { model = t }
set_option (Flag.tensor_parallel_size i) c = record c { tensor_parallel_size = i }
set_option (Flag.pipeline_parallel_size i) c = record c { pipeline_parallel_size = i }
set_option (Flag.max_model_len i) c = record c { max_model_len = i }
set_option (Flag.gpu_memory_utilization d) c = record c { gpu_memory_utilization = d }
set_option (Flag.quantization t) c = record c { quantization = some (text t) }
set_option (Flag.dtype t) c = record c { dtype = t }
set_option (Flag.block_size i) c = record c { block_size = i }
set_option (Flag.num_kv_cache_blocks i) c = record c { num_kv_cache_blocks = i }
set_option (Flag.swap_space_gb d) c = record c { swap_space_gb = d }
set_option Flag.enforce_eager c = record c { enforce_eager = true }
set_option Flag.trust_remote_code c = record c { trust_remote_code = true }
set_option (Flag.seed i) c = record c { seed = i }
set_option (Flag.max_num_batched_tokens i) c = record c { max_num_batched_tokens = i }
set_option (Flag.max_num_seqs i) c = record c { max_num_seqs = i }
set_option (Flag.preemption_mode t) c = record c { preemption_mode = mode_of t }
set_option (Flag.scheduler_policy t) c = record c { scheduler_policy = t }
set_option (Flag.hf_token t) c = record c { huggingface_hub_token = some (text t) }
set_option (Flag.config t) c = c
set_option (Flag.server f) c = c

unfoldable pub set_file : Flag → Option Chars → Option Chars
set_file (Flag.config t) _ = some t
set_file _ path = path

-- A wrong choice is an error, and so is an option that only the server has.
unfoldable pub accepts : Flag → Bool
accepts (Flag.quantization t) = is_choice t
accepts (Flag.server f) = false
accepts _ = true

abbrev pub initial : Namespace
initial = record { options = defaults; config_file = none }

unfoldable pub parse_args : List Flag → Namespace → Option Namespace
parse_args [] n = some n
parse_args (f ∷ fs) n =
    let rest =
      parse_args fs
        (record { options = set_option f n.options; config_file = set_file f n.config_file }) in
    if accepts f then rest else none

-- `parse_known_args` passes over what is no option of the server.
unfoldable pub set_server : ServerFlag → ServerConfig → ServerConfig
set_server (host t) c = record c { host = t }
set_server (port i) c = record c { port = i }
set_server (log_level t) c = record c { log_level = t }

unfoldable pub server_part : Flag → ServerConfig → ServerConfig
server_part (Flag.server f) c = set_server f c
server_part _ c = c

unfoldable pub parse_known_args : List Flag → ServerConfig → ServerConfig
parse_known_args [] c = c
parse_known_args (f ∷ fs) c = parse_known_args fs (server_part f c)
