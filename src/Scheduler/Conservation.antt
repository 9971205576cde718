-- ===== src/Scheduler/Conservation.antt =====
-- src/scheduler.py: the numbers of groups that wait, run, are preempted or are done.
use vllm_rocm.Common.{
  ℕ, suc, ◌+◌, ◌≡◌, refl, ap, ◌∙◌, [], ◌∷◌, length, length-map, length-append, arith,
}
use vllm_rocm.Scheduler.{
  SequenceGroup, Scheduler, num_waiting, num_running, num_preempted, add_request, new_group,
  preempt, schedule, run_step, schedule_tick, take_tick,
}
use vllm_rocm.Scheduler.Ownership.{Inv}
use vllm_rocm.Scheduler.PreemptLoop.{Preempts}
use vllm_rocm.Scheduler.Admit.{Schedules, bare}
use vllm_rocm.Scheduler.Visits.{leaving}
use vllm_rocm.Scheduler.RunStep.{Steps}
use vllm_rocm.Scheduler.Tick.{Ticks, schedule_tick-Ticks, take_tick-Inv}
use vllm_rocm.Scheduler.History.{request, tick, Reach, here, next, tick_after, Reach-Inv}
use vllm_rocm.Scheduler.Completion.{length-survivors}

-- All groups that the scheduler was given.
unfoldable pub num_groups : Scheduler → ℕ
num_groups s = num_waiting s + num_running s + num_preempted s + length s.done

preempt_conserves : (s : Scheduler) (p : Preempts s (preempt s)) → num_groups p.after ≡ num_groups s
unfolding num_groups
preempt_conserves s p = omega (arith, p.all_kept, ap length p.same_waiting, ap length p.same_done)

schedule_conserves :
    (s : Scheduler) (c : Schedules s (schedule s)) → num_groups c.after ≡ num_groups s
unfolding num_groups
schedule_conserves s c = omega (
  arith,
  ap length c.same_preempted,
  ap length c.same_done,
  ap length c.in_order,
  length-append c.admitted c.after.waiting,
  ap length c.joined,
  length-append s.running c.new,
  ap length c.same_groups,
  length-map bare c.new,
  length-map bare c.admitted,
)

run_step_conserves : (s : Scheduler) (k : Steps s (run_step s)) → num_groups k.after ≡ num_groups s
unfolding num_groups
run_step_conserves s k = omega (
  arith,
  ap length k.same_waiting,
  ap length k.same_preempted,
  ap length k.stay,
  ap length k.left,
  length-append s.done (leaving s.running),
  length-survivors s.running,
)

tick_conserves :
    (s : Scheduler) (k : Ticks s (schedule_tick s)) → num_groups k.steps.after ≡ num_groups s
tick_conserves s k =
    run_step_conserves k.schedules.after k.steps
    ∙ schedule_conserves k.preempts.after k.schedules
    ∙ preempt_conserves s k.preempts

take_tick_counts : (s : Scheduler) → num_groups (take_tick s) ≡ num_groups s
unfolding num_groups
take_tick_counts s = refl

add_request_counts :
    (s : Scheduler) (g : SequenceGroup) → num_groups (add_request g s).1 ≡ num_groups s + 1
unfolding num_groups add_request
add_request_counts s g = omega (arith, length-append s.waiting (g ∷ []))

-- How many requests come in during a history.
unfoldable pub arrivals : {s t : Scheduler} → Reach s t → ℕ
arrivals here = 0
arrivals (next r (request request_id prompt_len max_tokens stop e)) = suc (arrivals r)
arrivals (next r (tick result due e)) = arrivals r

-- From a state that keeps the scheduler's invariant, after any requests and ticks in any order, the
-- groups that wait, run, are preempted or are done are as many as there were, and one for each
-- request that came in.
pub Reach-num_groups :
    (s t : Scheduler) (r : Reach s t) → Inv s → num_groups t ≡ num_groups s + arrivals r
unfolding arrivals
Reach-num_groups s t here v = omega arith
Reach-num_groups s t (next {t = u} r (request request_id prompt_len max_tokens stop e)) v =
    let g = new_group request_id prompt_len max_tokens stop in
    omega (arith, ap num_groups e, add_request_counts u g, Reach-num_groups s u r v)
Reach-num_groups s t (next {t = u} r (tick result due e)) v =
    let k = schedule_tick-Ticks (take_tick u) (take_tick-Inv u (Reach-Inv r v)) in
    let same = tick_after (take_tick u) t result k e in
    omega (
      arith,
      ap num_groups same,
      tick_conserves (take_tick u) k,
      take_tick_counts u,
      Reach-num_groups s u r v,
    )
