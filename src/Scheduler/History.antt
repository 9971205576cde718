-- ===== src/Scheduler/History.antt =====
-- Every history: requests come in and the event loop makes its calls, in any order.
use Prim.Native.String.{String}
use vllm_rocm.Common.{ℕ, ◌<◌, ◌≡◌, refl, ap, ◌∙◌, sym, subst, Option, List, Result, arith}
use vllm_rocm.Config.{EngineConfig}
use vllm_rocm.BlockManager
use vllm_rocm.BlockManager.Usage.{init-Accounted}
use vllm_rocm.Scheduler.{Scheduler, add_request, new_group, init, schedule_tick, take_tick}
use vllm_rocm.Scheduler.Ownership.{Inv}
use vllm_rocm.Scheduler.Tick.{Ticks, schedule_tick-Ticks, take_tick-Inv, add_request-Inv}

-- A request arrives, or the event loop makes a call that it was handed; the call may raise.
pub data Step (s t : Scheduler) : Type 0 where
  request :
      (request_id : String) (prompt_len max_tokens : ℕ) (stop : List (List ℕ))
      → t ≡ (add_request (new_group request_id prompt_len max_tokens stop) s).1
      → Step s t
  tick : (r : Result (Unit {0})) → 0 < s.ticks → schedule_tick (take_tick s) ≡ (r, t) → Step s t

pub data Reach (s : Scheduler) : Scheduler → Type 0 where
  here : Reach s s
  next : {t u : Scheduler} → Reach s t → Step t u → Reach s u

-- The scheduler that the engine starts with.
abbrev pub start : EngineConfig → Option ℕ → Scheduler
start config available = init config (BlockManager.init config available)

pub start-Inv :
    (config : EngineConfig) (available : Option ℕ)
    → 0 < config.block_size
    → Inv (start config available)
start-Inv config available h = record {
  positive = h;
  accounted = (init-Accounted config available).0;
  exclusive = λ i. omega arith;
  all_waiting = tt;
  all_running = tt;
  all_preempted = tt;
  all_done = tt;
}

-- The state that a tick leaves is the one that `Ticks` speaks of.
pub tick_after :
    (s t : Scheduler) (r : Result (Unit {0})) (k : Ticks s (schedule_tick s))
    → schedule_tick s ≡ (r, t)
    → k.steps.after ≡ t
tick_after s t r k e = ap (λ p. p.1) (sym k.keeps.returns ∙ e)

Step-Inv : {s t : Scheduler} → Step s t → Inv s → Inv t
Step-Inv {s} {t} (request request_id prompt_len max_tokens stop e) v = rw e (
    add_request-Inv s (new_group request_id prompt_len max_tokens stop) (refl, (omega arith, refl))
      v)
Step-Inv {s} {t} (tick r h e) v =
    let k = schedule_tick-Ticks (take_tick s) (take_tick-Inv s v) in
    subst Inv (tick_after (take_tick s) t r k e) k.keeps.inv

pub Reach-Inv : {s t : Scheduler} → Reach s t → Inv s → Inv t
Reach-Inv here v = v
Reach-Inv (next r st) v = Step-Inv st (Reach-Inv r v)
