-- ===== src/Server/Sessions.antt =====
-- src/api_server.py: a server that is asked one chat after another, against the service that it is
-- meant to be, which has no state.
use Prim.Native.String.{String}
use vllm_rocm.Common.{
  ℕ, suc, ◌≤◌, ◌≡◌, refl, Option, some, List, [], ◌∷◌, map, replicate, Result, return, Action, pure,
  ◌>>=◌,
}
use vllm_rocm.Scheduler.{Scheduler, needed_blocks}
use vllm_rocm.Engine.{InferenceEngine, Tokenizer, request, collect}
use vllm_rocm.Engine.Answers.{Idle}
use vllm_rocm.Server.{ChatCompletionRequest, Reply, chat_reply, chat_completions}
use vllm_rocm.Server.Chats.{chat_completions-Serves}

-- A chat as it comes in: its id, the address of its prompt, and the request.
pub record Incoming : Type 0 where
  pub request_id : String
  pub address : String
  pub asked : ChatCompletionRequest

-- The service: what each request is answered with, by itself.
unfoldable pub service : Tokenizer → Incoming → Option Reply
service tok r = some (
    chat_reply r.request_id r.asked
      (collect tok (tok.apply_chat_template r.asked.messages) (replicate r.asked.max_tokens 0)))

module _ {Model : Type 0} where
  -- The server with its engine: each chat is waited for before the next comes.
  unfoldable pub serve_chats :
      List Incoming → Action (Option (InferenceEngine Model)) (List (Option Reply))
  serve_chats [] = pure []
  serve_chats (r ∷ rs) = do
    reply ← chat_completions (suc r.asked.max_tokens) r.request_id r.address r.asked
    replies ← serve_chats rs
    pure (reply ∷ replies)

-- The prompt of each request, with a token more, fits into `total` blocks.
abbrev pub AllFit : Tokenizer → ℕ → ℕ → List Incoming → Type 0
AllFit tok block_size total [] = Unit {0}
AllFit tok block_size total (r ∷ rs) =
    (needed_blocks block_size (
        request tok r.address (tok.apply_chat_template r.asked.messages) r.asked.max_tokens
          r.asked.stop)
      ≤ total)
    × AllFit tok block_size total rs

-- What a session leaves: the replies of the service, and the engine idle.
pub record Refines {Model : Type 0} (tok : Tokenizer) (rs : List Incoming)
    (result : Result (List (Option Reply)) × Option (InferenceEngine Model)) : Type 0 where
  pub after : InferenceEngine Model
  pub returns : result ≡ (return (map (service tok) rs), some after)
  pub left : Scheduler
  pub idle : Idle after tok left

-- On an engine that is started and has nothing to do, chats that come one after another, each of
-- which all blocks are enough for, are answered as the service answers them: the scheduler, the block
-- manager and the earlier requests do not show.
pub serve_chats-Refines :
    {Model : Type 0} (e : InferenceEngine Model) (tok : Tokenizer) (s : Scheduler)
    (rs : List Incoming)
    → Idle e tok s
    → AllFit tok s.config.block_size s.block_manager.total_blocks rs
    → Refines tok rs (serve_chats rs (some e))
unfolding serve_chats service
serve_chats-Refines e tok s [] i h = record { after = e; returns = refl; left = s; idle = i }
serve_chats-Refines e tok s (r ∷ rs) i h =
    let k = chat_completions-Serves e tok s r.request_id r.address r.asked i h.0 in
    let fit : AllFit tok k.left.config.block_size k.left.block_manager.total_blocks rs =
      rw (k.same_config, k.same_total) h.1 in
    let rest = serve_chats-Refines k.after tok k.left rs k.idle fit in
    record {
      after = rest.after;
      returns = rw k.returns (rw rest.returns refl);
      left = rest.left;
      idle = rest.idle;
    }
