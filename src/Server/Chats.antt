-- ===== src/Server/Chats.antt =====
-- src/api_server.py: the answers of `chat_completions`, and how it refuses.
use Prim.Native.String.{String}
use vllm_rocm.Common.{ℕ, suc, ◌≤◌, ◌≡◌, refl, ◌∙◌, Option, some, List, replicate, Result, return}
use vllm_rocm.Scheduler.{Scheduler, needed_blocks}
use vllm_rocm.Engine.{
  InferenceEngine, Tokenizer, ChatMessage, Stop, request, collect, submit_chat, generate_text,
}
use vllm_rocm.Engine.Answers.{Idle, generate_text-Replies}
use vllm_rocm.Server.{
  ChatCompletionRequest, Reply, chat_reply, generate_chat, chat_completions, with_engine,
}

-- With a tokenizer, a chat is the text that the tokenizer writes of it.
generate_chat_text :
    {Model : Type 0} (n : ℕ) (address : String) (messages : List ChatMessage) (max_tokens : ℕ)
    (stop : Stop) (e : InferenceEngine Model) (tok : Tokenizer)
    → e.tokenizer ≡ some tok
    → generate_chat n address messages max_tokens stop e
      ≡ generate_text n address (tok.apply_chat_template messages) max_tokens stop e
unfolding generate_chat generate_text submit_chat
generate_chat_text n address messages max_tokens stop e tok h = rw h refl

module _ {Model : Type 0} where
  -- What a chat on an idle engine leaves: the client's reply, and the engine idle again.
  pub record Serves (s : Scheduler) (tok : Tokenizer) (reply : Reply)
      (result : Result (Option Reply) × Option (InferenceEngine Model)) : Type 0 where
    pub after : InferenceEngine Model
    pub returns : result ≡ (return (some reply), some after)
    pub left : Scheduler
    pub idle : Idle after tok left
    pub same_config : left.config ≡ s.config
    pub same_total : left.block_manager.total_blocks ≡ s.block_manager.total_blocks

  with_engine_lem :
      {A : Type 0} (act : InferenceEngine Model → Result A × InferenceEngine Model)
      (e e' : InferenceEngine Model) (r : Result A)
      → act e ≡ (r, e')
      → with_engine act (some e) ≡ (r, some e')
  unfolding with_engine
  with_engine_lem act e e' r h = rw h refl

  -- On an engine that is started and has nothing to do, a chat whose prompt and first token all blocks
  -- are enough for is answered after `max_tokens` ticks and one more, as a stream or as a whole as the
  -- request asks. The text is what the tokenizer decodes of `max_tokens` placeholders, and the engine
  -- is idle again, with the same configuration and as many blocks.
  pub chat_completions-Serves :
      (e : InferenceEngine Model) (tok : Tokenizer) (s : Scheduler) (request_id address : String)
      (asked : ChatCompletionRequest)
      → Idle e tok s
      → needed_blocks s.config.block_size
          (request tok address (tok.apply_chat_template asked.messages) asked.max_tokens asked.stop)
        ≤ s.block_manager.total_blocks
      → Serves s tok
          (chat_reply request_id asked
            (collect tok (tok.apply_chat_template asked.messages) (replicate asked.max_tokens 0)))
          (chat_completions (suc asked.max_tokens) request_id address asked (some e))
  unfolding chat_completions
  chat_completions-Serves e tok s request_id address asked i h =
      let r =
        generate_text-Replies e tok s address (tok.apply_chat_template asked.messages)
          asked.max_tokens asked.stop i h in
      let runs =
        generate_chat_text (suc asked.max_tokens) address asked.messages asked.max_tokens asked.stop
          e tok i.has_tokenizer
        ∙ r.returns in
      record {
        after = r.after;
        returns =
            rw
              (with_engine_lem
                (generate_chat (suc asked.max_tokens) address asked.messages asked.max_tokens
                  asked.stop)
                e r.after _ runs)
              refl;
        left = r.left;
        idle = r.idle;
        same_config = r.same_config;
        same_total = r.same_total;
      }
