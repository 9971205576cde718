-- ===== src/Server/Completions.antt =====
-- src/api_server.py: the answers of `completions` to a batch of prompts.
use Prim.Native.String.{String}
use vllm_rocm.Common.{
  ℕ, suc, ◌≤◌, ◌≡◌, refl, sym, ap, ◌∙◌, true, inl, inr, length-map, Option, some, List, [], ◌∷◌,
  ◌++◌, map, length, drop, Chars, Result, return, arith, append-nil,
}
use vllm_rocm.Common.Slices.{drop-append}
use vllm_rocm.Scheduler.{Scheduler}
use vllm_rocm.Engine.{InferenceEngine, Tokenizer, Stop, request, run_due, num_done}
use vllm_rocm.Engine.Loop.{HasSeats, total_needed}
use vllm_rocm.Engine.Batch.{batch-Answered}
use vllm_rocm.Engine.Answers.{Idle, with_scheduler_lem}
use vllm_rocm.Server.{
  CompletionRequest, Response, prompts_of, zip, answers, wait_all, generate_all, completions,
  completion_response, with_engine,
}
use vllm_rocm.Server.Queueing.{Prompts, requests, Queued, submit_all-Queued}
use vllm_rocm.Server.Batches.{
  last_of_batch, have_results, requests-IsShort, are_named, texts, answers_lem,
}

map-zip :
    (addresses : List String) (prompts : List Chars)
    → length addresses ≡ length prompts
    → map (λ p. p.1) (zip addresses prompts) ≡ prompts
unfolding zip
map-zip [] [] h = refl
map-zip [] (p ∷ prompts) h = absurd (omega (arith, h))
map-zip (a ∷ addresses) [] h = absurd (omega (arith, h))
map-zip (a ∷ addresses) (p ∷ prompts) h = ap (◌∷◌ p) (map-zip addresses prompts (omega (arith, h)))

seats_same :
    (s t : Scheduler) (n k : ℕ)
    → t.config ≡ s.config
    → t.running ≡ s.running
    → k ≡ n
    → HasSeats s n
    → HasSeats t k
seats_same s t n k c r e (inl free) = inl (ap (λ c. c.max_num_seqs) c ∙ free)
seats_same s t n k c r e (inr limited) =
    inr (omega (arith, ap (λ c. c.max_num_seqs) c, ap length r, limited))

module _ {Model : Type 0} where
  -- What a batch on an idle engine leaves: the client's response, and the engine idle again.
  pub record Completes (s : Scheduler) (tok : Tokenizer) (response : Response)
      (out : Result (Option Response) × Option (InferenceEngine Model)) : Type 0 where
    pub after : InferenceEngine Model
    pub returns : out ≡ (return (some response), some after)
    pub left : Scheduler
    pub idle : Idle after tok left
    pub same_config : left.config ≡ s.config
    pub same_total : left.block_manager.total_blocks ≡ s.block_manager.total_blocks

  -- What `wait_all` leaves of a queue.
  record Waited (s : Scheduler) (tok : Tokenizer) (ps : Prompts) (max_tokens : ℕ) (stop : Stop)
      (out : Result (Unit {0}) × InferenceEngine Model) : Type 0 where
    after : InferenceEngine Model
    returns : out ≡ (return tt, after)
    left : Scheduler
    idle : Idle after tok left
    same_config : left.config ≡ s.config
    same_total : left.block_manager.total_blocks ≡ s.block_manager.total_blocks
    new_done : left.done ≡ s.done ++ last_of_batch tok max_tokens stop ps

  wait_all-Waited :
      (ps : Prompts) (e : InferenceEngine Model) (tok : Tokenizer) (s t : Scheduler)
      (max_tokens : ℕ) (stop : Stop)
      → Queued s t (requests tok max_tokens stop ps)
      → s.waiting ≡ []
      → s.running ≡ []
      → e.started ≡ true
      → e.tokenizer ≡ some tok
      → e.scheduler ≡ some t
      → HasSeats s (length ps)
      → total_needed s.config.block_size (requests tok max_tokens stop ps)
        ≤ s.block_manager.total_blocks
      → Waited s tok ps max_tokens stop (wait_all (suc max_tokens) ps e)
  unfolding wait_all
  wait_all-Waited [] e tok s t max_tokens stop q w r st tk sc c h = record {
    after = e;
    returns = refl;
    left = t;
    idle = record {
      is_started = st;
      has_tokenizer = tk;
      has_scheduler = sc;
      inv = q.inv;
      no_waiting = q.waiting ∙ append-nil s.waiting ∙ w;
      no_running = q.same_running ∙ r;
    };
    same_config = q.same_config;
    same_total = ap (λ m. m.total_blocks) q.same_blocks;
    new_done = q.same_done ∙ sym (append-nil s.done);
  }
  wait_all-Waited (p ∷ ps) e tok s t max_tokens stop q w r st tk sc c h =
      let gs = requests tok max_tokens stop ps in
      let g = request tok p.0 p.1 max_tokens stop in
      let needed : total_needed t.config.block_size (g ∷ gs) ≤ t.block_manager.total_blocks =
        rw (q.same_config, q.same_blocks) h in
      let a =
        batch-Answered max_tokens t g gs q.inv (q.same_running ∙ r)
          (q.waiting ∙ ap (λ hs. hs ++ g ∷ gs) w) (omega (arith, q.due))
          (seats_same s t (suc (length ps)) (suc (length gs)) q.same_config q.same_running
            (ap suc (length-map (λ p. request tok p.0 p.1 max_tokens stop) ps)) c)
          needed (requests-IsShort tok max_tokens stop (p ∷ ps)) in
      record {
        after = record e { scheduler = some a.after };
        returns =
            with_scheduler_lem (run_due (suc max_tokens)) e t a.after (return tt) sc a.returns;
        left = a.after;
        idle = record {
          is_started = st;
          has_tokenizer = tk;
          has_scheduler = refl;
          inv = a.inv;
          no_waiting = a.no_waiting;
          no_running = a.no_running;
        };
        same_config = a.same_config ∙ q.same_config;
        same_total = a.same_total ∙ ap (λ m. m.total_blocks) q.same_blocks;
        new_done =
            a.new_done ∙ ap (λ gs. gs ++ last_of_batch tok max_tokens stop (p ∷ ps)) q.same_done;
      }

  -- On an engine that is started and has nothing to do, a batch of prompts that all blocks and the
  -- limit on sequences are enough for together, each with an address, is answered as a whole after
  -- `max_tokens` ticks and one more: one choice for each prompt, in their order and numbered from 0,
  -- whatever the addresses. The engine is idle again, with the same configuration and as many blocks.
  pub completions-Completes :
      (e : InferenceEngine Model) (tok : Tokenizer) (s : Scheduler) (request_id : String)
      (addresses : List String) (asked : CompletionRequest)
      → Idle e tok s
      → length addresses ≡ length (prompts_of asked.prompt)
      → HasSeats s (length (zip addresses (prompts_of asked.prompt)))
      → total_needed s.config.block_size
          (requests tok asked.max_tokens asked.stop (zip addresses (prompts_of asked.prompt)))
        ≤ s.block_manager.total_blocks
      → Completes s tok
          (completion_response request_id asked
            (texts tok asked.max_tokens asked.stop (prompts_of asked.prompt)))
          (completions (suc asked.max_tokens) request_id addresses asked (some e))
  unfolding completions generate_all with_engine
  completions-Completes e tok s request_id addresses asked i same_length c h =
      let prompts = prompts_of asked.prompt in
      let ps = zip addresses prompts in
      let (t, queued, q, runs, st, tk, sc) =
        submit_all-Queued tok asked.max_tokens asked.stop ps e s i.is_started i.has_tokenizer
          i.has_scheduler i.inv in
      let a =
        wait_all-Waited ps queued tok s t asked.max_tokens asked.stop q i.no_waiting i.no_running st
          tk sc c h in
      let new : drop (num_done e) a.left.done ≡ last_of_batch tok asked.max_tokens asked.stop ps =
        rw (i.has_scheduler, a.new_done) (drop-append s.done _) in
      let all_there : answers (num_done e) ps a.after
          ≡ some (texts tok asked.max_tokens asked.stop prompts) =
        answers_lem tok asked.max_tokens asked.stop (num_done e)
          (last_of_batch tok asked.max_tokens asked.stop ps) ps a.after a.left a.idle.has_tokenizer
          a.idle.has_scheduler new (have_results tok asked.max_tokens asked.stop ps)
          (are_named tok asked.max_tokens asked.stop ps)
        ∙ ap (λ qs. some (texts tok asked.max_tokens asked.stop qs))
            (map-zip addresses prompts same_length) in
      record {
        after = a.after;
        returns = rw runs (rw a.returns (rw all_there refl));
        left = a.left;
        idle = a.idle;
        same_config = a.same_config;
        same_total = a.same_total;
      }
