-- ===== src/Server/Queueing.antt =====
-- src/api_server.py: the requests of a batch of prompts go into the queue together.
use Prim.Native.String.{String}
use vllm_rocm.Common.{
  ℕ, ◌+◌, ◌≡◌, refl, sym, ◌∙◌, true, some, List, [], ◌∷◌, ◌++◌, map, length, Chars, return, arith,
  append-nil, append_assoc,
}
use vllm_rocm.Scheduler.{SequenceGroup, Scheduler, add_request}
use vllm_rocm.Scheduler.Ownership.{Inv}
use vllm_rocm.Scheduler.Tick.{add_request-Inv}
use vllm_rocm.Engine.{InferenceEngine, Tokenizer, Stop, request}
use vllm_rocm.Engine.Answers.{with_scheduler_lem, submit_calls}
use vllm_rocm.Server.{submit_all}

-- Prompts with their addresses.
abbrev pub Prompts : Type 0
Prompts = List (String × Chars)

-- The groups that the coroutines make.
abbrev pub requests : Tokenizer → ℕ → Stop → Prompts → List SequenceGroup
requests tok max_tokens stop = map (λ p. request tok p.0 p.1 max_tokens stop)

-- Scheduler `t` has the groups `gs` more in its queue than `s`, and as many calls to make.
pub record Queued (s t : Scheduler) (gs : List SequenceGroup) : Type 0 where
  pub inv : Inv t
  pub waiting : t.waiting ≡ s.waiting ++ gs
  pub same_running : t.running ≡ s.running
  pub same_done : t.done ≡ s.done
  pub same_config : t.config ≡ s.config
  pub same_blocks : t.block_manager ≡ s.block_manager
  pub due : t.ticks ≡ s.ticks + length gs

module _ {Model : Type 0} (tok : Tokenizer) (max_tokens : ℕ) (stop : Stop) where
  pub submit_all-Queued :
      (ps : Prompts) (e : InferenceEngine Model) (s : Scheduler)
      → e.started ≡ true
      → e.tokenizer ≡ some tok
      → e.scheduler ≡ some s
      → Inv s
      → (t : Scheduler) × (after : InferenceEngine Model) × Queued s t
          (requests tok max_tokens stop ps)
        × (submit_all ps max_tokens stop e ≡ (return tt, after))
        × (after.started ≡ true)
        × (after.tokenizer ≡ some tok)
        × (after.scheduler ≡ some t)
  unfolding submit_all add_request
  submit_all-Queued [] e s st tk sc v = (
    s,
    e,
    record {
      inv = v;
      waiting = sym (append-nil s.waiting);
      same_running = refl;
      same_done = refl;
      same_config = refl;
      same_blocks = refl;
      due = omega arith;
    },
    refl,
    st,
    tk,
    sc,
  )
  submit_all-Queued ((a, p) ∷ ps) e s st tk sc v =
      let g = request tok a p max_tokens stop in
      let s₁ = (add_request g s).1 in
      let (t, after, q, runs, st', tk', sc') =
        submit_all-Queued ps (record e { scheduler = some s₁ }) s₁ st tk refl
          (add_request-Inv s g (refl, (omega arith, refl)) v) in
      let first =
        submit_calls e tok a p max_tokens stop st tk
        ∙ with_scheduler_lem (add_request g) e s s₁ (return tt) sc refl in
      (
        t,
        after,
        record {
          inv = q.inv;
          waiting = q.waiting ∙ append_assoc s.waiting (g ∷ []) _;
          same_running = q.same_running;
          same_done = q.same_done;
          same_config = q.same_config;
          same_blocks = q.same_blocks;
          due = omega (arith, q.due);
        },
        rw first runs,
        st',
        tk',
        sc',
      )
