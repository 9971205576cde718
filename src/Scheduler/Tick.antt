-- ===== src/Scheduler/Tick.antt =====
-- `_schedule_tick` and `add_request` as wholes.
use vllm_rocm.Common.{Result, ◌>>◌}
use vllm_rocm.Scheduler.{
  SequenceGroup, Scheduler, add_request, preempt, schedule, run_step, schedule_tick, take_tick,
}
use vllm_rocm.Scheduler.Ownership.{All-append, IsQueued, Inv, Keeps}
use vllm_rocm.Scheduler.Preempt.{Keeps-then}
use vllm_rocm.Scheduler.PreemptLoop.{Preempts, preempt-Preempts}
use vllm_rocm.Scheduler.Admit.{Schedules, schedule-Schedules}
use vllm_rocm.Scheduler.RunStep.{Steps, run_step-Steps}

-- A tick is the three passes, each of which returns.
pub record Ticks (s : Scheduler) (result : Result (Unit {0}) × Scheduler) : Type 0 where
  pub preempts : Preempts s (preempt s)
  pub schedules : Schedules preempts.after (schedule preempts.after)
  pub steps : Steps schedules.after (run_step schedules.after)
  pub keeps : Keeps s result steps.after

-- A tick never raises and keeps the invariant, whatever the requests, the block size (not zero), the
-- limits and the preemption mode.
pub schedule_tick-Ticks : (s : Scheduler) → Inv s → Ticks s (schedule_tick s)
unfolding schedule_tick
schedule_tick-Ticks s v =
    let p = preempt-Preempts s v in
    let c = schedule-Schedules p.after p.keeps.inv in
    let r = run_step-Steps c.after c.keeps.inv in
    record {
      preempts = p;
      schedules = c;
      steps = r;
      keeps =
          Keeps-then preempt (schedule >> run_step) s p.after r.after p.keeps
            (Keeps-then schedule run_step p.after c.after r.after c.keeps r.keeps);
    }

pub take_tick-Inv : (s : Scheduler) → Inv s → Inv (take_tick s)
take_tick-Inv s v = record {
  positive = v.positive;
  accounted = v.accounted;
  exclusive = v.exclusive;
  all_waiting = v.all_waiting;
  all_running = v.all_running;
  all_preempted = v.all_preempted;
  all_done = v.all_done;
}

pub add_request-Inv :
    (s : Scheduler) (g : SequenceGroup) → IsQueued g → Inv s → Inv (add_request g s).1
unfolding add_request
add_request-Inv s g q v = record {
  positive = v.positive;
  accounted = v.accounted;
  exclusive = v.exclusive;
  all_waiting = All-append IsQueued s.waiting _ v.all_waiting (q, tt);
  all_running = v.all_running;
  all_preempted = v.all_preempted;
  all_done = v.all_done;
}
