-- ===== src/Scheduler/Tests.antt =====
-- A run of the scheduler with four blocks of two tokens, and its theorems at states of the run.
use vllm_rocm.Common.{
  ◌+◌, ◌≡◌, refl, subst, none, List, [], ◌∷◌, ◌++◌, length, count, ltb, if◌then◌else◌, return,
  raise, zero_division_error, arith, pop_last, range, remove?, map,
}
use vllm_rocm.Config.{EngineConfig, defaults, recompute}
use vllm_rocm.BlockManager.{
  BlockManager, free_blocks, estimate_num_blocks, change_block, pop_free, allocate_one,
  allocate_loop, allocate, free_one, free, swap_out_one, swap_out,
}
use vllm_rocm.BlockManager
use vllm_rocm.Scheduler.{
  SequenceGroup, Scheduler, add_request, new_group, started, can_add, pick_longest, evict,
  preempt_loop, preempt, admit, schedule_loop, schedule, finish, is_prefix, is_in, stop_hit, visit,
  run_loop, run_step, schedule_tick, take_tick, run_ticks,
}
use vllm_rocm.Scheduler.Ownership.{owned, All, IsComplete, Inv}
use vllm_rocm.Scheduler.Admit.{Schedules, schedule-Schedules}
use vllm_rocm.Scheduler.History.{Reach, here, next, request, tick, start, start-Inv, Reach-Inv}
use vllm_rocm.Scheduler.Safety.{blocks_exclusive, done-IsComplete}
use vllm_rocm.Scheduler.Starvation.{Reach-preempted}
use vllm_rocm.Scheduler.Conservation.{num_groups, arrivals, Reach-num_groups}

program : Unit {0}
unfolding estimate_num_blocks BlockManager.init change_block pop_free allocate_one allocate_loop
    allocate free_one free swap_out_one swap_out pop_last range remove? add_request can_add
    pick_longest evict preempt_loop preempt admit schedule_loop schedule finish is_prefix is_in
    stop_hit visit run_loop run_step schedule_tick run_ticks
program = tt

abbrev config : EngineConfig
config = record defaults {
  block_size = 2;
  num_kv_cache_blocks = 4;
  max_num_seqs = 0;
  preemption_mode = recompute;
}

abbrev idle : Scheduler
idle = start config none

abbrev short : SequenceGroup
short = new_group "short" 3 2 ((104 ∷ []) ∷ [])

abbrev long : SequenceGroup
long = new_group "long" 9 5 []

asked : Scheduler
unfolding program
asked = (add_request short idle).1

-- The short request runs, with its first token.
busy : Scheduler
unfolding program asked
busy = (schedule_tick (take_tick asked)).1

-- Behind it comes a request that needs five blocks.
blocked : Scheduler
unfolding program busy
blocked = (add_request long busy).1

main :
    (map (λ (g : SequenceGroup). g.block_ids) busy.running ≡ (3 ∷ 2 ∷ []) ∷ [])
    × (length (run_ticks 2 busy).1.done ≡ 1)
    × ((schedule_tick (take_tick blocked)).1.running ≡ [])
    × ((schedule_tick (take_tick (record asked { config = record config { block_size = 0 } }))).0
        ≡ raise zero_division_error)
unfolding program asked busy blocked
main = (refl, refl, refl, refl)

asked-Reach : Reach idle asked
unfolding program asked
asked-Reach = next here (request "short" 3 2 ((104 ∷ []) ∷ []) refl)

busy-Reach : Reach idle busy
unfolding program asked busy
busy-Reach = next asked-Reach (tick (return tt) (omega arith) refl)

asked-Inv : Inv asked
asked-Inv = Reach-Inv asked-Reach (start-Inv config none (omega arith))

blocks_exclusive_example :
    count 2 busy.block_manager.free_block_ids + owned busy.running 2
    ≡ (if ltb 2 busy.block_manager.total_blocks then 1 else 0)
blocks_exclusive_example = blocks_exclusive config none busy 2 (omega arith) busy-Reach

done-IsComplete_example : All IsComplete busy.done
done-IsComplete_example = done-IsComplete config none busy (omega arith) busy-Reach

schedule-Schedules_example : Schedules asked (schedule asked)
schedule-Schedules_example = schedule-Schedules asked asked-Inv

Reach-preempted_example : (more : List SequenceGroup) × (busy.preempted ≡ idle.preempted ++ more)
Reach-preempted_example = Reach-preempted busy-Reach (start-Inv config none (omega arith))

-- A request whose prompt fills two blocks, placed and not yet stepped.
abbrev tight : SequenceGroup
tight = new_group "tight" 4 3 []

asked_tight : Scheduler
unfolding program
asked_tight = (add_request tight idle).1

placed : Scheduler
unfolding program asked_tight
placed = (schedule asked_tight).1

abbrev placed_group : SequenceGroup
placed_group = started (3 ∷ 2 ∷ []) tight

placed-Inv : Inv placed
unfolding program asked_tight placed
placed-Inv =
    let r : Reach idle asked_tight = next here (request "tight" 4 3 [] refl) in
    let c = schedule-Schedules asked_tight (Reach-Inv r (start-Inv config none (omega arith))) in
    let same : c.after ≡ placed = cc (c.keeps.returns) in subst Inv same c.keeps.inv

Reach-num_groups_example : num_groups busy ≡ num_groups idle + arrivals busy-Reach
Reach-num_groups_example =
    Reach-num_groups idle busy busy-Reach (start-Inv config none (omega arith))
