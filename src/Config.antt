-- ===== src/Config.antt =====
-- src/config.py: the configuration of the engine and of the server, and their command lines.
pub mod Flags
pub mod Cli
pub mod Overrides
pub mod Names
mod Tests
use vllm_rocm.Common.{ℕ, Bool, Option, none, true, false, Chars, codes, []}

-- `preemption_mode`: the code tests for "swap" and takes every other text as "recompute".
pub data PreemptionMode : Type 0 where
  recompute swap : PreemptionMode

-- A float that is written as a decimal, 0.90 as `decimal 90 2`; nothing computes with it.
pub data Decimal : Type 0 where
  decimal : ℕ → ℕ → Decimal

-- A value that is not None of an attribute which a YAML file can set: a text, or what else
-- `yaml.safe_load` brings, of a list or a map the number of its entries.
pub data Value : Type 0 where
  text : Chars → Value
  number : ℕ → Value
  truth : Bool → Value
  entries : ℕ → Value

pub record EngineConfig : Type 0 where
  pub model : Chars
  pub tensor_parallel_size : ℕ
  pub pipeline_parallel_size : ℕ
  pub max_model_len : ℕ
  pub gpu_memory_utilization : Decimal
  pub quantization : Option Value
  pub dtype : Chars
  pub block_size : ℕ
  pub num_kv_cache_blocks : ℕ
  pub swap_space_gb : Decimal
  pub enforce_eager : Bool
  pub trust_remote_code : Bool
  pub seed : ℕ
  pub max_num_batched_tokens : ℕ
  pub max_num_seqs : ℕ
  pub preemption_mode : PreemptionMode
  pub scheduler_policy : Chars
  pub model_name : Chars
  pub huggingface_hub_token : Option Value

-- The class's defaults.
abbrev pub defaults : EngineConfig
defaults = record {
  model = codes "meta-llama/Meta-Llama-3-8B-Instruct";
  tensor_parallel_size = 1;
  pipeline_parallel_size = 1;
  max_model_len = 4096;
  gpu_memory_utilization = decimal 90 2;
  quantization = none;
  dtype = codes "auto";
  block_size = 16;
  num_kv_cache_blocks = 0;
  swap_space_gb = decimal 40 1;
  enforce_eager = false;
  trust_remote_code = false;
  seed = 0;
  max_num_batched_tokens = 8192;
  max_num_seqs = 256;
  preemption_mode = recompute;
  scheduler_policy = codes "fcfs";
  model_name = [];
  huggingface_hub_token = none;
}

pub record ServerConfig : Type 0 where
  pub host : Chars
  pub port : ℕ
  pub log_level : Chars
  pub ssl_certfile : Option Chars
  pub ssl_keyfile : Option Chars

abbrev pub server_defaults : ServerConfig
server_defaults = record {
  host = codes "0.0.0.0";
  port = 8000;
  log_level = codes "info";
  ssl_certfile = none;
  ssl_keyfile = none;
}
