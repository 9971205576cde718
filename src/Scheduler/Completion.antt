-- ===== src/Scheduler/Completion.antt =====
-- src/scheduler.py: the ticks until the running groups are done.
use vllm_rocm.Common.{
  ℕ, ◌+◌, ◌<◌, ◌≡◌, refl, ap, List, [], ◌∷◌, length, ltb, if◌then◌else◌, return, arith,
}
use vllm_rocm.Scheduler.{SequenceGroup, Scheduler, run_step, schedule_tick}
use vllm_rocm.Scheduler.Ownership.{Inv}
use vllm_rocm.Scheduler.PreemptLoop.{first_answer, preempt_idle}
use vllm_rocm.Scheduler.Admit.{schedule_empty}
use vllm_rocm.Scheduler.Visits.{survivors, leaving}
use vllm_rocm.Scheduler.Tick.{schedule_tick-Ticks}
use vllm_rocm.Scheduler.History.{tick_after}

survivors-busy :
    (gs : List SequenceGroup) (m : ℕ)
    → 0 < length (survivors gs)
    → 0 < (if ltb 0 (length gs) then m + 1 else m)
unfolding survivors
survivors-busy [] m h = absurd (omega arith)
survivors-busy (g ∷ gs) m h = ground arith

-- After a tick, whoever still runs has a tick to come.
pub tick_goes_on :
    (s t : Scheduler)
    → Inv s
    → schedule_tick s ≡ (return tt, t)
    → 0 < length t.running
    → 0 < t.ticks
tick_goes_on s t v e h =
    let k = schedule_tick-Ticks s v in
    let same = tick_after s t (return tt) k e in
    let runs : 0 < length k.steps.after.running = rw same h in
    let busy =
      survivors-busy k.schedules.after.running k.schedules.after.ticks (rw k.steps.stay at runs) in
    let due : 0 < k.steps.after.ticks = rw k.steps.next_tick busy in rw same at due

-- The group has its tokens within `n` more steps.
abbrev IsWithin : ℕ → SequenceGroup → Type 0
IsWithin n g = g.max_tokens < length g.generated_tokens + n

pub length-survivors :
    (gs : List SequenceGroup) → length (leaving gs) + length (survivors gs) ≡ length gs
unfolding survivors leaving
length-survivors [] = refl
length-survivors (g ∷ gs) = ground (arith, length-survivors gs)

-- With nobody waiting a tick is one step.
pub tick_alone : (s : Scheduler) → Inv s → s.waiting ≡ [] → schedule_tick s ≡ run_step s
unfolding schedule_tick
tick_alone s v e =
    rw (preempt_idle s v (ap (λ gs. first_answer gs s) e)) (rw (schedule_empty s e) refl)
