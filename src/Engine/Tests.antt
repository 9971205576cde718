-- ===== src/Engine/Tests.antt =====
-- An engine with a toy tokenizer and four blocks of two tokens, from its start to its shutdown.
use Prim.Native.String.{String}
use vllm_rocm.Common.{
  ℕ, ◌+◌, ◌≡◌, refl, true, none, some, [], ◌∷◌, map, arith, Chars, codes, starts_with, is_space,
  strip_left, strip_right, split_at, last_of, same, pop_last, range, remove?, return, raise,
  runtime_error, attribute_error,
}
use vllm_rocm.Config.{EngineConfig, defaults}
use vllm_rocm.Config.Cli.{base_name}
use vllm_rocm.BlockManager.{
  estimate_num_blocks, change_block, pop_free, allocate_one, allocate_loop, allocate, free_one,
  free,
}
use vllm_rocm.BlockManager
use vllm_rocm.Scheduler.{
  add_request, can_add, pick_longest, evict, preempt_loop, preempt, admit, schedule_loop, schedule,
  finish, is_prefix, is_in, stop_hit, visit, run_loop, run_step, schedule_tick,
}
use vllm_rocm.Scheduler.History.{start as new_scheduler, start-Inv}
use vllm_rocm.Engine.{
  InferenceEngine, Tokenizer, Platform, Stop, stop_text, no_stop, holds, load_tokenizer, load_model,
  start, shutdown, with_scheduler, submit, submit_chat, collect, future_of, run_due, generate_text,
  init,
}
use vllm_rocm.Engine.Answers.{Idle}
use vllm_rocm.Engine.Lifecycle.{shutdown-Refuses}

program : Unit {0}
unfolding starts_with is_space strip_left strip_right split_at last_of same pop_last range remove?
    base_name estimate_num_blocks change_block pop_free allocate_one allocate_loop allocate free_one
    free BlockManager.init add_request can_add pick_longest evict preempt_loop preempt admit
    schedule_loop schedule finish is_prefix is_in stop_hit visit run_loop run_step schedule_tick
    load_tokenizer load_model start shutdown with_scheduler submit submit_chat collect future_of
    run_due generate_text
program = tt

abbrev config : EngineConfig
config = record defaults { block_size = 2; num_kv_cache_blocks = 4 }

-- Token 0 is the letter `a`.
abbrev tok : Tokenizer
tok = record {
  encode = λ s. s;
  decode = λ ts. b' ' ∷ map (λ t. t + b'a') ts;
  apply_chat_template = λ ms. [];
  pad_token = none;
  eos_token = some (codes "</s>");
}

abbrev platform : Platform ℕ
platform = record {
  from_pretrained = λ path trust token. return tok;
  load = λ c. return 7;
  quantize_model = λ m v. return (m + 1);
  available = none;
}

abbrev padded_tok : Tokenizer
padded_tok = record tok { pad_token = some (codes "</s>") }

abbrev fresh : InferenceEngine ℕ
fresh = init config

abbrev ready : InferenceEngine ℕ
ready = record fresh {
  tokenizer = some padded_tok;
  model = holds 7;
  scheduler = some (new_scheduler config none);
  started = true;
}

start_run : start platform fresh ≡ (return tt, ready)
unfolding program
start_run = refl

-- Three tokens, whatever the prompt and the stop text.
answer_run :
    (generate_text 4 "gen-1" (codes "hello") 3 (stop_text (codes "aa")) ready).0
    ≡ return (some (codes "aaa"))
unfolding program
answer_run = refl

-- A tick fewer, and the request waits.
pending_run : (generate_text 3 "gen-1" (codes "hello") 3 no_stop ready).0 ≡ return none
unfolding program
pending_run = refl

-- A prompt that decoding repeats is taken off.
strip_run : (generate_text 3 "gen-1" (codes " a") 2 no_stop ready).0 ≡ return (some (codes "a"))
unfolding program
strip_run = refl

-- A chat on an engine that was never started does not get to the check.
chat_run : submit_chat "gen-1" [] 3 no_stop fresh ≡ (raise attribute_error, fresh)
unfolding program
chat_run = refl

ready-Idle : Idle ready padded_tok (new_scheduler config none)
ready-Idle = record {
  is_started = refl;
  has_tokenizer = refl;
  has_scheduler = refl;
  inv = start-Inv config none (omega arith);
  no_waiting = refl;
  no_running = refl;
}

four_blocks : (new_scheduler config none).block_manager.total_blocks ≡ 4
unfolding program
four_blocks = refl

shutdown-Refuses_example :
    (after : InferenceEngine ℕ) × (shutdown ready ≡ (return tt, after))
    × ((n : ℕ) (request_id : String) (prompt : Chars) (max_tokens : ℕ) (stop : Stop)
        → generate_text n request_id prompt max_tokens stop after ≡ (raise runtime_error, after))
    × (shutdown after ≡ (raise attribute_error, after))
shutdown-Refuses_example = shutdown-Refuses ready 7 refl
