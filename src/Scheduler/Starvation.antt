-- ===== src/Scheduler/Starvation.antt =====
-- src/scheduler.py: preempted groups, and the queue behind a group that is too large.
use vllm_rocm.Common.{◌≡◌, ap, ◌∙◌, sym, List, [], ◌++◌, append-nil, append_assoc}
use vllm_rocm.Scheduler.{SequenceGroup, Scheduler, add_request, take_tick}
use vllm_rocm.Scheduler.Ownership.{Inv}
use vllm_rocm.Scheduler.Tick.{schedule_tick-Ticks, take_tick-Inv}
use vllm_rocm.Scheduler.History.{Step, request, tick, Reach, here, next, tick_after, Reach-Inv}

Step-preempted :
    {s t : Scheduler}
    → Step s t
    → Inv s
    → (more : List SequenceGroup) × (t.preempted ≡ s.preempted ++ more)
unfolding add_request
Step-preempted {s} {t} (request request_id prompt_len max_tokens stop e) v =
    ([], ap (λ u. u.preempted) e ∙ sym (append-nil s.preempted))
Step-preempted {s} {t} (tick r h e) v =
    let k = schedule_tick-Ticks (take_tick s) (take_tick-Inv s v) in
    (
      k.keeps.victims,
      ap (λ u. u.preempted) (sym (tick_after (take_tick s) t r k e)) ∙ k.keeps.preempted_grows,
    )

-- From a state that keeps the scheduler's invariant, the list of preempted groups only grows: no
-- later request or tick takes a group out of it again.
pub Reach-preempted :
    {s t : Scheduler}
    → Reach s t
    → Inv s
    → (more : List SequenceGroup) × (t.preempted ≡ s.preempted ++ more)
Reach-preempted {s} here v = ([], sym (append-nil s.preempted))
Reach-preempted {s} (next r st) v =
    let (old, e) = Reach-preempted r v in
    let (more, f) = Step-preempted st (Reach-Inv r v) in
    (old ++ more, f ∙ ap (λ gs. gs ++ more) e ∙ append_assoc s.preempted old more)
