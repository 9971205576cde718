-- ===== src/Server/Tests.antt =====
-- A chat and a completion on a server with a toy tokenizer.
use vllm_rocm.Common.{
  ℕ, suc, inr, ◌≡◌, refl, true, false, Option, none, some, List, [], ◌∷◌, length, get_elem?,
  replicate, arith, Chars, codes, starts_with, is_space, strip_left, strip_right, split, scan,
  split_at, last_of, same, pop_last, range, remove?, Result, return, raise, http_exception,
}
use vllm_rocm.Config.{EngineConfig, defaults, decimal}
use vllm_rocm.Config.Flags.{Flag, parse_args, set_option, set_file, accepts}
use vllm_rocm.Config.Cli.{Yaml, base_name, from_namespace, from_parsed, from_cli}
use vllm_rocm.BlockManager.{
  estimate_num_blocks, change_block, pop_free, allocate_one, allocate_loop, allocate, free_one,
  free,
}
use vllm_rocm.BlockManager
use vllm_rocm.Scheduler.{
  add_request, can_add, pick_longest, evict, preempt_loop, preempt, admit, schedule_loop, schedule,
  finish, is_prefix, is_in, stop_hit, visit, run_loop, run_step, schedule_tick,
}
use vllm_rocm.Scheduler.History.{start as new_scheduler, start-Inv}
use vllm_rocm.Engine.{
  InferenceEngine, Tokenizer, Platform, load_tokenizer, load_model, no_stop, holds, with_scheduler,
  submit, submit_chat, collect, future_of, run_due, init,
}
use vllm_rocm.Engine.Answers.{Idle}
use vllm_rocm.Server.{
  ChatCompletionRequest, CompletionRequest, many, whole, make_choice, stream_words, stream_chat,
  chat_reply, choices_from, completion_response, zip, with_engine, generate_chat, chat_completions,
  submit_all, answers, wait_all, generate_all, completions,
}
use vllm_rocm.Server.Streaming.{client_text, contents, stream_chat-Streams, last_yield}
use vllm_rocm.Server.Chats.{Serves, chat_completions-Serves}
use vllm_rocm.Engine.Loop.{total_needed}
use vllm_rocm.Server.Batches.{texts}
use vllm_rocm.Server.Completions.{Completes, completions-Completes}
use vllm_rocm.Server.Sessions.{Incoming, Refines}
use vllm_rocm.Server.Lifespan.{run_server, run_server-Refines}
use vllm_rocm.Server.Serving.{serve, complete}

program : Unit {0}
unfolding starts_with is_space strip_left strip_right split scan split_at last_of same pop_last
    range remove? base_name estimate_num_blocks change_block pop_free allocate_one allocate_loop
    allocate free_one free BlockManager.init add_request can_add pick_longest evict preempt_loop
    preempt admit schedule_loop schedule finish is_prefix is_in stop_hit visit run_loop run_step
    schedule_tick with_scheduler submit submit_chat collect future_of run_due stream_words
    stream_chat chat_reply choices_from completion_response zip with_engine generate_chat
    chat_completions submit_all answers wait_all generate_all completions client_text contents
    complete
program = tt

abbrev config : EngineConfig
config = record defaults { block_size = 2; num_kv_cache_blocks = 8 }

-- A token is the text `ab `.
abbrev letters : List ℕ → Chars
letters [] = []
letters (t ∷ ts) = b'a' ∷ b'b' ∷ b' ' ∷ letters ts

abbrev tok : Tokenizer
tok = record {
  encode = λ s. s;
  decode = letters;
  apply_chat_template = λ ms. codes "hi";
  pad_token = none;
  eos_token = none;
}

abbrev engine : InferenceEngine ℕ
engine = record (init config) {
  tokenizer = some tok;
  model = holds 7;
  scheduler = some (new_scheduler config none);
  started = true;
}

abbrev asked : ChatCompletionRequest
asked = record {
  model = codes "m";
  messages = record { role = codes "user"; content = codes "say  it" } ∷ [];
  max_tokens = 2;
  stream = false;
  stop = no_stop;
}

-- Before the engine is there, a 503.
early_run :
    (chat_completions {Model = ℕ} 3 "chatcmpl-1" "gen-1" asked none).0 ≡ raise http_exception
unfolding program
early_run = refl

chat_run :
    (chat_completions 3 "chatcmpl-1" "gen-1" asked (some engine)).0
    ≡ return (
        some (
          whole (record {
            id = "chatcmpl-1";
            object = codes "chat.completion";
            model = codes "m";
            choices = make_choice 0 (codes "ab ab") ∷ [];
            usage = record { prompt_tokens = 2; completion_tokens = 2; total_tokens = 4 };
          })))
unfolding program
chat_run = refl

abbrev batch : CompletionRequest
batch = record {
  model = codes "m";
  prompt = many (codes "one" ∷ codes "t w o" ∷ []);
  max_tokens = 2;
  stop = no_stop;
}

-- Two prompts, answered in their order.
completion_run :
    (completions 3 "cmpl-1" ("gen-1" ∷ "gen-2" ∷ []) batch (some engine)).0
    ≡ return (
        some (record {
          id = "cmpl-1";
          object = codes "text_completion";
          model = codes "m";
          choices = make_choice 0 (codes "ab ab") ∷ make_choice 1 (codes "ab ab") ∷ [];
          usage = record { prompt_tokens = 4; completion_tokens = 4; total_tokens = 8 };
        }))
unfolding program
completion_run = refl

-- A stream loses the line break of the answer.
stream_run : client_text (stream_chat "chatcmpl-1" (codes "m") (codes "a b\nc")) ≡ codes "a b c "
unfolding program
stream_run = refl

serving_run :
    (complete
      (record { model = codes "m"; prompt = codes "a b"; max_tokens = 3 })
      (serve (codes "m") 1 none (decimal 9 1))).usage
    ≡ record { prompt_tokens = 2; completion_tokens = 10; total_tokens = 12 }
unfolding program
serving_run = refl

stream_chat-Streams_example :
    (split (client_text (stream_chat "chatcmpl-1" (codes "m") (codes "a b\nc")))
      ≡ split (codes "a b\nc"))
    × (length (stream_chat "chatcmpl-1" (codes "m") (codes "a b\nc"))
        ≡ suc (length (split (codes "a b\nc"))))
    × (get_elem?
          (stream_chat "chatcmpl-1" (codes "m") (codes "a b\nc"))
          (length (split (codes "a b\nc")))
        ≡ some (last_yield "chatcmpl-1" (codes "m")))
stream_chat-Streams_example = stream_chat-Streams "chatcmpl-1" (codes "m") (codes "a b\nc")

engine-Idle : Idle engine tok (new_scheduler config none)
engine-Idle = record {
  is_started = refl;
  has_tokenizer = refl;
  has_scheduler = refl;
  inv = start-Inv config none (omega arith);
  no_waiting = refl;
  no_running = refl;
}

eight_blocks : (new_scheduler config none).block_manager.total_blocks ≡ 8
unfolding program
eight_blocks = refl

chat_completions-Serves_example :
    Serves
      (new_scheduler config none)
      tok
      (chat_reply "chatcmpl-1" asked (collect tok (codes "hi") (replicate 2 0)))
      (chat_completions 3 "chatcmpl-1" "gen-1" asked (some engine))
chat_completions-Serves_example =
    chat_completions-Serves engine tok (new_scheduler config none) "chatcmpl-1" "gen-1" asked
      engine-Idle (omega (arith, eight_blocks))

completions-Completes_example :
    Completes
      (new_scheduler config none)
      tok
      (completion_response "cmpl-1" batch (texts tok 2 no_stop (codes "one" ∷ codes "t w o" ∷ [])))
      (completions 3 "cmpl-1" ("gen-1" ∷ "gen-2" ∷ []) batch (some engine))
unfolding zip total_needed
completions-Completes_example =
    completions-Completes engine tok (new_scheduler config none) "cmpl-1" ("gen-1" ∷ "gen-2" ∷ [])
      batch engine-Idle refl (inr (omega arith)) (omega (arith, eight_blocks))

abbrev incoming : List Incoming
incoming =
    record { request_id = "chatcmpl-1"; address = "gen-1"; asked = asked }
    ∷ record {
      request_id = "chatcmpl-2";
      address = "gen-1";
      asked = record asked { stream = true };
    }
    ∷ []

abbrev disk : Chars → Result (Option Yaml)
disk path = raise http_exception

abbrev platform : Platform ℕ
platform = record {
  from_pretrained = λ path trust token. return tok;
  load = λ c. return 7;
  quantize_model = λ m v. return m;
  available = none;
}

abbrev flags : List Flag
flags = Flag.block_size 2 ∷ Flag.num_kv_cache_blocks 8 ∷ []

abbrev parsed_config : EngineConfig
parsed_config = record config { model_name = codes "Meta-Llama-3-8B-Instruct" }

flags_run : from_cli disk flags ≡ return parsed_config
unfolding program parse_args set_option set_file accepts from_namespace from_parsed from_cli
flags_run = refl

tokenizer_run : load_tokenizer platform parsed_config ≡ return tok
unfolding load_tokenizer
tokenizer_run = refl

model_run : load_model platform parsed_config ≡ return 7
unfolding load_model
model_run = refl

parsed_blocks : (new_scheduler parsed_config none).block_manager.total_blocks ≡ 8
unfolding program
parsed_blocks = refl

run_server-Refines_example : Refines tok incoming (run_server disk platform flags incoming none)
run_server-Refines_example =
    run_server-Refines disk platform flags incoming parsed_config tok 7 flags_run tokenizer_run
      model_run (omega arith) (omega (arith, parsed_blocks), (omega (arith, parsed_blocks), tt))
