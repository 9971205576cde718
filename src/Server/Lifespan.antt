-- ===== src/Server/Lifespan.antt =====
-- src/api_server.py: `lifespan`, from the command line to the engine that the handlers use, and the
-- two handlers that only read it.
use vllm_rocm.Common.{
  ℕ, ◌<◌, ◌≡◌, refl, true, Option, none, some, List, Chars, codes, Result, return, raise,
  attribute_error, Action, ◌>>◌,
}
use vllm_rocm.Config.{EngineConfig}
use vllm_rocm.Config.Flags.{Flag}
use vllm_rocm.Config.Cli.{Yaml, from_cli}
use vllm_rocm.Scheduler.History.{start as new_scheduler, start-Inv}
use vllm_rocm.Engine.{
  InferenceEngine, Tokenizer, Platform, holds, init, start, shutdown, load_tokenizer, load_model,
}
use vllm_rocm.Engine.Answers.{Idle}
use vllm_rocm.Server.{Reply, with_engine}
use vllm_rocm.Server.Sessions.{Incoming, serve_chats, AllFit, Refines, serve_chats-Refines}

module _ {Model : Type 0} where
  -- `engine.model_name` of a server without an engine raises.
  unfoldable pub list_models : Option (InferenceEngine Model) → Result Chars
  list_models none = raise attribute_error
  list_models (some e) = return e.model_name

  -- `gpu_memory_usage` is what the engine answers, 0 without an engine.
  unfoldable pub health : Option (InferenceEngine Model) → ℕ → Chars × ℕ
  health none gpu_memory_usage = (codes "ok", 0)
  health (some e) gpu_memory_usage = (codes "ok", gpu_memory_usage)

  -- `lifespan` behind its `yield`.
  abbrev pub close_engine : Action (Option (InferenceEngine Model)) (Unit {0})
  close_engine = with_engine shutdown

  module _ (read_yaml : Chars → Result (Option Yaml)) (platform : Platform Model) where
    -- `lifespan` up to its `yield`: the global is set before the engine is started.
    unfoldable pub open_engine :
        Result EngineConfig → Action (Option (InferenceEngine Model)) (Unit {0})
    open_engine (raise x) engine = (raise x, engine)
    open_engine (return cfg) engine = with_engine (start platform) (some (init cfg))

    unfoldable pub lifespan : List Flag → Action (Option (InferenceEngine Model)) (Unit {0})
    lifespan flags = open_engine (from_cli read_yaml flags)

    -- The process: it starts, and answers one chat after another.
    unfoldable pub run_server :
        List Flag → List Incoming → Action (Option (InferenceEngine Model)) (List (Option Reply))
    run_server flags rs = lifespan flags >> serve_chats rs

    start_lem :
        (c : EngineConfig) (tok : Tokenizer) (model : Model)
        → load_tokenizer platform c ≡ return tok
        → load_model platform c ≡ return model
        → start platform (init c) ≡ (
          return tt,
          record (init c) {
            tokenizer = some tok;
            model = holds model;
            scheduler = some (new_scheduler c platform.available);
            started = true;
          },
        )
    unfolding start
    start_lem c tok model p q = rw p (rw q refl)

    -- Where the command line gives a configuration whose block size is not 0, and the tokenizer and
    -- the model are to be had, the server started from it answers chats one after another, each of
    -- which its blocks are enough for, as the service without a state does.
    pub run_server-Refines :
        (flags : List Flag) (rs : List Incoming) (c : EngineConfig) (tok : Tokenizer)
        (model : Model)
        → from_cli read_yaml flags ≡ return c
        → load_tokenizer platform c ≡ return tok
        → load_model platform c ≡ return model
        → 0 < c.block_size
        → AllFit tok c.block_size (new_scheduler c platform.available).block_manager.total_blocks rs
        → Refines tok rs (run_server flags rs none)
    unfolding run_server lifespan open_engine with_engine
    run_server-Refines flags rs c tok model f p q h fit =
        let e : InferenceEngine Model = record (init c) {
          tokenizer = some tok;
          model = holds model;
          scheduler = some (new_scheduler c platform.available);
          started = true;
        } in
        let i : Idle e tok (new_scheduler c platform.available) = record {
          is_started = refl;
          has_tokenizer = refl;
          has_scheduler = refl;
          inv = start-Inv c platform.available h;
          no_waiting = refl;
          no_running = refl;
        } in
        let r = serve_chats-Refines e tok (new_scheduler c platform.available) rs i fit in
        record {
          after = r.after;
          returns = rw f (rw (start_lem c tok model p q) r.returns);
          left = r.left;
          idle = r.idle;
        }
