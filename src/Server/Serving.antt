-- ===== src/Server/Serving.antt =====
-- src/vllm_rocm/serve.py: the serving engine of the package, which answers with a fixed text.
use vllm_rocm.Common.{ℕ, ◌+◌, Option, [], ◌∷◌, ◌++◌, take, Chars, codes, List}
use Prim.Native.String.{String}
use vllm_rocm.Server.{Choice, Usage, num_words}
use vllm_rocm.Config.{Decimal}

-- `model` is None until a model is loaded, which no method does.
pub record ServingEngine : Type 0 where
  pub model_path : Chars
  pub tp_size : ℕ
  pub quantization : Option Chars
  pub gpu_memory_utilization : Decimal

pub record ServingRequest : Type 0 where
  pub model : Chars
  pub prompt : Chars
  pub max_tokens : ℕ

-- `load_model` and the rest of `serve` print only.
abbrev pub serve : Chars → ℕ → Option Chars → Decimal → ServingEngine
serve model tensor_parallel_size quantization gpu_memory_utilization = record {
  model_path = model;
  tp_size = tensor_parallel_size;
  quantization = quantization;
  gpu_memory_utilization = gpu_memory_utilization;
}

-- `CompletionResponse`
pub record ServingResponse : Type 0 where
  pub id : String
  pub model : Chars
  pub choices : List Choice
  pub usage : Usage

unfoldable pub complete : ServingRequest → ServingEngine → ServingResponse
complete request e = record {
  id = "cmpl-001";
  model = request.model;
  choices =
      record {
        index = 0;
        text = codes "Generated text for: " ++ take 50 request.prompt ++ codes "...";
        finish_reason = codes "stop";
      }
      ∷ [];
  usage = record {
    prompt_tokens = num_words request.prompt;
    completion_tokens = 10;
    total_tokens = num_words request.prompt + 10;
  };
}

-- `status` and `model`
abbrev pub health : ServingEngine → Chars × Chars
health e = (codes "ok", e.model_path)
