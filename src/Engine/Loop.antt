-- ===== src/Engine/Loop.antt =====
-- The event loop with a batch of requests: from the queue to the
-- results.
use vllm_rocm.Common.{
  ℕ, zero, suc, ◌+◌, ◌≤◌, ◌<◌, ◌≡◌, refl, ap, ◌∙◌, ◌⊎◌, true, false, List, [], ◌∷◌, ◌++◌, map,
  length, Result, return, arith, append-nil, length-append, length-map,
}
use vllm_rocm.Scheduler.{
  SequenceGroup, Scheduler, needed_blocks, generate, completed, run_step, schedule_tick, take_tick,
}
use vllm_rocm.Scheduler.Ownership.{Inv, All}
use vllm_rocm.Scheduler.Visits.{survivors, leaving, has_enough}
use vllm_rocm.Scheduler.RunStep.{run_step-Steps}
use vllm_rocm.Scheduler.Tick.{take_tick-Inv}
use vllm_rocm.Scheduler.Completion.{tick_alone}
use vllm_rocm.Engine.{run_due}

run_due_then :
    (n : ℕ) (s t : Scheduler)
    → 0 < s.ticks
    → schedule_tick (take_tick s) ≡ (return tt, t)
    → run_due (suc n) s ≡ run_due n t
unfolding run_due
run_due_then n s t h e = ground (arith, e)

-- A group after `n` more tokens.
unfoldable pub grown : ℕ → SequenceGroup → SequenceGroup
grown zero g = g
grown (suc n) g = grown n (generate g)

abbrev pub finished_after : ℕ → SequenceGroup → SequenceGroup
finished_after n g = completed (grown n g)

-- The group is `n` tokens short of its limit.
abbrev pub IsShort : ℕ → SequenceGroup → Type 0
IsShort n g = length g.generated_tokens + n ≡ g.max_tokens

All-leave :
    (gs : List SequenceGroup)
    → All (IsShort 0) gs
    → (survivors gs ≡ []) × (leaving gs ≡ map (finished_after 0) gs)
unfolding survivors leaving grown
All-leave [] a = (refl, refl)
All-leave (g ∷ gs) a =
    let enough : has_enough g ≡ true = ground (arith, a.0) in
    let rest = All-leave gs a.1 in rw enough (rest.0, ap (◌∷◌ (completed g)) rest.1)

All-stay :
    (n : ℕ) (gs : List SequenceGroup)
    → All (IsShort (suc n)) gs
    → (survivors gs ≡ map generate gs)
      × (leaving gs ≡ [])
      × All (IsShort n) (map generate gs)
      × (map (finished_after n) (map generate gs) ≡ map (finished_after (suc n)) gs)
unfolding survivors leaving grown
All-stay n [] a = (refl, refl, tt, refl)
All-stay n (g ∷ gs) a =
    let more : has_enough g ≡ false = ground (arith, a.0) in
    let (stay, leave, short, same) = All-stay n gs a.1 in
    rw more (
      ap (◌∷◌ (generate g)) stay,
      leave,
      (omega (arith, a.0, length-append g.generated_tokens (0 ∷ [])), short),
      ap (◌∷◌ (finished_after n (generate g))) same,
    )

-- The scheduler has nothing to do, and the groups of `last` have left.
pub record Answered (s : Scheduler) (last : List SequenceGroup)
    (result : Result (Unit {0}) × Scheduler) : Type 0 where
  pub after : Scheduler
  pub returns : result ≡ (return tt, after)
  pub inv : Inv after
  pub no_waiting : after.waiting ≡ []
  pub no_running : after.running ≡ []
  pub same_preempted : after.preempted ≡ s.preempted
  pub same_config : after.config ≡ s.config
  pub same_total : after.block_manager.total_blocks ≡ s.block_manager.total_blocks
  pub new_done : after.done ≡ s.done ++ last

-- Scheduler `x` has the queue, the groups and the resources of `s` but for what runs.
pub record Runs (s x : Scheduler) (gs : List SequenceGroup) : Type 0 where
  pub inv : Inv x
  pub no_waiting : x.waiting ≡ []
  pub running : x.running ≡ gs
  pub same_preempted : x.preempted ≡ s.preempted
  pub same_config : x.config ≡ s.config
  pub same_total : x.block_manager.total_blocks ≡ s.block_manager.total_blocks
  pub same_done : x.done ≡ s.done

-- Groups that are all `n` tokens short leave `n` ticks after the next, whose step is that of `x`.
pub finishes_from :
    (n : ℕ) (s x : Scheduler) (gs : List SequenceGroup)
    → 0 < s.ticks
    → 0 < length gs
    → schedule_tick (take_tick s) ≡ run_step x
    → Runs s x gs
    → All (IsShort n) gs
    → Answered s (map (finished_after n) gs) (run_due (suc n) s)
unfolding run_due
finishes_from zero s x gs due some_run tick r a =
    let k = run_step-Steps x r.inv in
    let out = All-leave gs a in
    record {
      after = k.after;
      returns = run_due_then 0 s k.after due (tick ∙ k.keeps.returns);
      inv = k.keeps.inv;
      no_waiting = k.same_waiting ∙ r.no_waiting;
      no_running = k.stay ∙ ap survivors r.running ∙ out.0;
      same_preempted = k.same_preempted ∙ r.same_preempted;
      same_config = k.keeps.same_config ∙ r.same_config;
      same_total = k.keeps.same_total ∙ r.same_total;
      new_done = k.left ∙ rw (r.same_done, r.running, out.1) refl;
    }
finishes_from (suc n) s x gs due some_run tick r a =
    let k = run_step-Steps x r.inv in
    let (stay, leave, short, same) = All-stay n gs a in
    let waiting = k.same_waiting ∙ r.no_waiting in
    let again : 0 < k.after.ticks = ground (arith, k.next_tick, ap length r.running) in
    let rest =
      finishes_from n k.after (take_tick k.after) (map generate gs) again
        (omega (arith, some_run, length-map generate gs))
        (tick_alone (take_tick k.after) (take_tick-Inv k.after k.keeps.inv) waiting)
        (record {
          inv = take_tick-Inv k.after k.keeps.inv;
          no_waiting = waiting;
          running = k.stay ∙ ap survivors r.running ∙ stay;
          same_preempted = refl;
          same_config = refl;
          same_total = refl;
          same_done = refl;
        })
        short in
    record {
      after = rest.after;
      returns = run_due_then (suc n) s k.after due (tick ∙ k.keeps.returns) ∙ rest.returns;
      inv = rest.inv;
      no_waiting = rest.no_waiting;
      no_running = rest.no_running;
      same_preempted = rest.same_preempted ∙ k.same_preempted ∙ r.same_preempted;
      same_config = rest.same_config ∙ k.keeps.same_config ∙ r.same_config;
      same_total = rest.same_total ∙ k.keeps.same_total ∙ r.same_total;
      new_done =
          rest.new_done
          ∙ ap (λ hs. k.after.done ++ hs) same
          ∙ ap (λ hs. hs ++ map (finished_after (suc n)) gs)
              (k.left ∙ rw (r.same_done, r.running, leave) (append-nil s.done));
    }

-- The blocks that a queue needs, with one token for each group.
unfoldable pub total_needed : ℕ → List SequenceGroup → ℕ
total_needed bs [] = 0
total_needed bs (g ∷ gs) = needed_blocks bs g + total_needed bs gs

-- The limit on running groups lets `n` more in.
abbrev pub HasSeats : Scheduler → ℕ → Type 0
HasSeats s n = (s.config.max_num_seqs ≡ 0) ⊎ (length s.running + n ≤ s.config.max_num_seqs)
