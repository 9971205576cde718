-- ===== src/Engine/Lifecycle.antt =====
-- src/engine.py: `start` and `shutdown`, and what the engine refuses outside them.
use Prim.Native.String.{String}
use vllm_rocm.Common.{
  ℕ, ◌≡◌, refl, false, some, Chars, Result, return, raise, Exception, runtime_error,
  attribute_error, arith,
}
use vllm_rocm.Scheduler.History.{start as new_scheduler}
use vllm_rocm.Engine.{
  InferenceEngine, Tokenizer, Platform, Stop, holds, deleted, load_tokenizer, load_model, start,
  shutdown, submit, generate_text,
}
use vllm_rocm.Engine.Answers.{Idle}

module _ {Model : Type 0} (platform : Platform Model) where
  -- What `start` comes to: the tokenizer or the model is not to be had, or the engine is idle.
  pub data Starts (e : InferenceEngine Model) (result : Result (Unit {0}) × InferenceEngine Model)
      : Type 0 where
    no_tokenizer :
        (x : Exception)
        → load_tokenizer platform e.config ≡ raise x
        → result ≡ (raise x, e)
        → Starts e result
    no_model :
        (tok : Tokenizer) (x : Exception)
        → load_tokenizer platform e.config ≡ return tok
        → load_model platform e.config ≡ raise x
        → result ≡ (raise x, record e { tokenizer = some tok })
        → Starts e result
    ready :
        (tok : Tokenizer) (after : InferenceEngine Model)
        → load_tokenizer platform e.config ≡ return tok
        → result ≡ (return tt, after)
        → Idle after tok (new_scheduler e.config platform.available)
        → Starts e result

module _ {Model : Type 0} where
  submit_refused :
      (request_id : String) (prompt : Chars) (max_tokens : ℕ) (stop : Stop)
      (e : InferenceEngine Model)
      → e.started ≡ false
      → submit request_id prompt max_tokens stop e ≡ (raise runtime_error, e)
  unfolding submit
  submit_refused request_id prompt max_tokens stop e h = ground (arith, h)

  generate_text_refused :
      (n : ℕ) (request_id : String) (prompt : Chars) (max_tokens : ℕ) (stop : Stop)
      (e : InferenceEngine Model)
      → e.started ≡ false
      → generate_text n request_id prompt max_tokens stop e ≡ (raise runtime_error, e)
  unfolding generate_text
  generate_text_refused n request_id prompt max_tokens stop e h =
      rw (submit_refused request_id prompt max_tokens stop e h) refl

  -- After the shutdown of an engine that holds a model, a request raises a RuntimeError and changes
  -- nothing, and a second shutdown raises an AttributeError: the attribute is gone.
  pub shutdown-Refuses :
      (e : InferenceEngine Model) (model : Model)
      → e.model ≡ holds model
      → (after : InferenceEngine Model) × (shutdown e ≡ (return tt, after))
        × ((n : ℕ) (request_id : String) (prompt : Chars) (max_tokens : ℕ) (stop : Stop)
            → generate_text n request_id prompt max_tokens stop after
              ≡ (raise runtime_error, after))
        × (shutdown after ≡ (raise attribute_error, after))
  unfolding shutdown
  shutdown-Refuses e model h = (
    record e { started = false; model = deleted },
    ground (arith, h),
    λ n request_id prompt max_tokens stop.
        generate_text_refused n request_id prompt max_tokens stop _ refl,
    refl,
  )
