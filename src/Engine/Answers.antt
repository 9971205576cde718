-- ===== src/Engine/Answers.antt =====
-- src/engine.py: `generate_text` on an engine that has nothing else to do.
use Prim.Native.String.{String}
use package.text.Mathlib.TextPositions.{eq_refl}
use vllm_rocm.Common.{
  ℕ, suc, ◌≤◌, ◌≡◌, refl, ap, ◌∙◌, true, Option, some, List, [], ◌∷◌, length, snoc, replicate, drop,
  Chars, Result, return, arith, inl, inr, Bool-cases, ltb,
}
use vllm_rocm.Common.Slices.{drop-append}
use vllm_rocm.Scheduler.{SequenceGroup, Scheduler, add_request, needed_blocks, completed}
use vllm_rocm.Scheduler.Ownership.{Inv}
use vllm_rocm.Scheduler.Tick.{add_request-Inv}
use vllm_rocm.Engine.{
  InferenceEngine, Tokenizer, Stop, request, with_scheduler, submit, collect, future_of, num_done,
  run_due, generate_text,
}
use vllm_rocm.Engine.Loop.{grown, HasSeats, total_needed}
use vllm_rocm.Engine.Batch.{batch-Answered, generated-grown, future-grown}

future_of-one :
    (request_id : String) (g : SequenceGroup) (result : List ℕ)
    → g.request_id ≡ request_id
    → g.completion_future ≡ some result
    → future_of request_id (g ∷ []) ≡ some result
unfolding future_of
future_of-one request_id g result e f = rw (e, f) (rw (eq_refl request_id) refl)

-- An engine that is started and has nothing to do.
pub record Idle {Model : Type 0} (e : InferenceEngine Model) (tok : Tokenizer) (s : Scheduler)
    : Type 0 where
  pub is_started : e.started ≡ true
  pub has_tokenizer : e.tokenizer ≡ some tok
  pub has_scheduler : e.scheduler ≡ some s
  pub inv : Inv s
  pub no_waiting : s.waiting ≡ []
  pub no_running : s.running ≡ []

-- What a request with the scheduler `s` leaves: the caller has its answer, and the engine is idle again,
-- with as many blocks.
pub record Replies {Model : Type 0} (s : Scheduler) (tok : Tokenizer) (answer : Chars)
    (result : Result (Option Chars) × InferenceEngine Model) : Type 0 where
  pub after : InferenceEngine Model
  pub returns : result ≡ (return (some answer), after)
  pub left : Scheduler
  pub idle : Idle after tok left
  pub same_config : left.config ≡ s.config
  pub same_total : left.block_manager.total_blocks ≡ s.block_manager.total_blocks

-- With nobody running, one group more is within the limit.
one_seat : (s : Scheduler) → s.running ≡ [] → HasSeats s 1
one_seat s e = elim (Bool-cases (ltb 0 s.config.max_num_seqs)) [
  | inl limited ↦ inr (ground (arith, ap length e))
  | inr free ↦ inl (ground arith)
]

module _ {Model : Type 0} where
  pub with_scheduler_lem :
      {A : Type 0} (act : Scheduler → Result A × Scheduler) (e : InferenceEngine Model)
      (s t : Scheduler) (r : Result A)
      → e.scheduler ≡ some s
      → act s ≡ (r, t)
      → with_scheduler act e ≡ (r, record e { scheduler = some t })
  unfolding with_scheduler
  with_scheduler_lem act e s t r h k = rw h (rw k refl)

  pub submit_calls :
      (e : InferenceEngine Model) (tok : Tokenizer) (request_id : String) (prompt : Chars)
      (max_tokens : ℕ) (stop : Stop)
      → e.started ≡ true
      → e.tokenizer ≡ some tok
      → submit request_id prompt max_tokens stop e
        ≡ with_scheduler (add_request (request tok request_id prompt max_tokens stop)) e
  unfolding submit
  submit_calls e tok request_id prompt max_tokens stop h t = ground (arith, h, t)

  pub submit_lem :
      (e : InferenceEngine Model) (tok : Tokenizer) (s : Scheduler) (request_id : String)
      (prompt : Chars) (max_tokens : ℕ) (stop : Stop)
      → Idle e tok s
      → submit request_id prompt max_tokens stop e ≡ (
        return tt,
        record e {
          scheduler = some (add_request (request tok request_id prompt max_tokens stop) s).1;
        },
      )
  unfolding add_request
  submit_lem e tok s request_id prompt max_tokens stop i =
      submit_calls e tok request_id prompt max_tokens stop i.is_started i.has_tokenizer
      ∙ with_scheduler_lem (add_request (request tok request_id prompt max_tokens stop)) e s _ _
          i.has_scheduler refl

  -- On an engine that is started and has nothing to do, a request whose prompt and first token all
  -- blocks of the manager are enough for is answered after `max_tokens` ticks and one more: with the
  -- text that the tokenizer decodes of `max_tokens` placeholders 0, less the prompt, stripped. The
  -- prompt and the stop texts decide nothing else of it. The engine is idle again, with the same
  -- configuration and as many blocks.
  pub generate_text-Replies :
      (e : InferenceEngine Model) (tok : Tokenizer) (s : Scheduler) (request_id : String)
      (prompt : Chars) (max_tokens : ℕ) (stop : Stop)
      → Idle e tok s
      → needed_blocks s.config.block_size (request tok request_id prompt max_tokens stop)
        ≤ s.block_manager.total_blocks
      → Replies s tok
          (collect tok prompt (replicate max_tokens 0))
          (generate_text (suc max_tokens) request_id prompt max_tokens stop e)
  unfolding generate_text add_request total_needed
  generate_text-Replies e tok s request_id prompt max_tokens stop i h =
      let g = request tok request_id prompt max_tokens stop in
      let s₁ = (add_request g s).1 in
      let v = add_request-Inv s g (refl, (omega arith, refl)) i.inv in
      let a =
        batch-Answered max_tokens s₁ g [] v i.no_running (ap (λ gs. snoc gs g) i.no_waiting)
          (omega arith) (one_seat s i.no_running) (omega (arith, h)) (omega arith, tt) in
      let last = grown max_tokens g in
      let tokens : last.generated_tokens ≡ replicate max_tokens 0 = generated-grown max_tokens g in
      let same = future-grown max_tokens g in
      let future : (completed last).completion_future ≡ some (replicate max_tokens 0) =
        rw (same.0, tokens) refl in
      let new : drop (num_done e) a.after.done ≡ completed last ∷ [] =
        rw (i.has_scheduler, a.new_done) (drop-append s.done (completed last ∷ [])) in
      let found : future_of request_id (drop (num_done e) a.after.done)
          ≡ some (replicate max_tokens 0) =
        ap (future_of request_id) new ∙ future_of-one request_id (completed last) _ same.1 future in
      record {
        after = record e { scheduler = some a.after };
        returns = rw (submit_lem e tok s request_id prompt max_tokens stop i) (
            rw
              (with_scheduler_lem (run_due (suc max_tokens)) (record e { scheduler = some s₁ }) s₁
                a.after (return tt) refl a.returns)
              (rw (i.has_tokenizer, found) refl));
        left = a.after;
        idle = record {
          is_started = i.is_started;
          has_tokenizer = i.has_tokenizer;
          has_scheduler = refl;
          inv = a.inv;
          no_waiting = a.no_waiting;
          no_running = a.no_running;
        };
        same_config = a.same_config;
        same_total = a.same_total;
      }
