-- ===== src/Scheduler/RunStep.antt =====
-- src/scheduler.py: `_run_step`, which groups leave, and which go on.
use vllm_rocm.Common.{
  ◌+◌, ◌≡◌, refl, ap, ◌∙◌, sym, List, [], ◌∷◌, ◌++◌, length, ltb, if◌then◌else◌, Result, return,
  arith, ◌>>◌, append-nil,
}
use vllm_rocm.Scheduler.{SequenceGroup, Scheduler, run_loop, run_step, call_tick}
use vllm_rocm.Scheduler.Ownership.{Inv, Keeps}
use vllm_rocm.Scheduler.Preempt.{Keeps-refl, Keeps-then}
use vllm_rocm.Scheduler.Visits.{survivors, leaving, run_loop-Runs}

-- What a step leaves.
pub record Steps (s : Scheduler) (result : Result (Unit {0}) × Scheduler) : Type 0 where
  pub after : Scheduler
  pub keeps : Keeps s result after
  pub same_waiting : after.waiting ≡ s.waiting
  pub same_preempted : after.preempted ≡ s.preempted
  pub stay : after.running ≡ survivors s.running
  pub left : after.done ≡ s.done ++ leaving s.running
  pub next_tick : after.ticks ≡ (if ltb 0 (length s.running) then s.ticks + 1 else s.ticks)

pub run_step_empty : (s : Scheduler) → s.running ≡ [] → run_step s ≡ (return tt, s)
unfolding run_step
run_step_empty s e = ground arith

run_step_busy :
    (s : Scheduler) (g : SequenceGroup) (gs : List SequenceGroup)
    → s.running ≡ g ∷ gs
    → run_step s ≡ (run_loop [] s.running >> call_tick) s
unfolding run_step
run_step_busy s g gs e = ground arith

call_tick-Keeps : (s : Scheduler) → Inv s → Keeps s (call_tick s) (record s { ticks = s.ticks + 1 })
call_tick-Keeps s v = record {
  returns = refl;
  inv = record {
    positive = v.positive;
    accounted = v.accounted;
    exclusive = v.exclusive;
    all_waiting = v.all_waiting;
    all_running = v.all_running;
    all_preempted = v.all_preempted;
    all_done = v.all_done;
  };
  same_config = refl;
  same_total = refl;
  victims = [];
  preempted_grows = sym (append-nil s.preempted);
  leavers = [];
  done_grows = sym (append-nil s.done);
}

run_step_cases :
    (s : Scheduler) (gs : List SequenceGroup) → Inv s → s.running ≡ gs → Steps s (run_step s)
unfolding survivors leaving
run_step_cases s [] v e = rw (run_step_empty s e) (record {
  after = s;
  keeps = Keeps-refl s v;
  same_waiting = refl;
  same_preempted = refl;
  stay = e ∙ ap survivors (sym e);
  left = sym (append-nil s.done) ∙ ap (λ gs. s.done ++ leaving gs) (sym e);
  next_tick = ground arith;
})
run_step_cases s (g ∷ gs) v e = rw (run_step_busy s g gs e) (
    let r = run_loop-Runs s [] s.running v refl in
    record {
      after = record r.after { ticks = r.after.ticks + 1 };
      keeps =
          Keeps-then (run_loop [] s.running) call_tick s r.after _ r.keeps
            (call_tick-Keeps r.after r.keeps.inv);
      same_waiting = r.same_waiting;
      same_preempted = r.same_preempted;
      stay = r.stay;
      left = r.left;
      next_tick = ground (arith, r.same_ticks);
    })

pub run_step-Steps : (s : Scheduler) → Inv s → Steps s (run_step s)
run_step-Steps s v = run_step_cases s s.running v refl
