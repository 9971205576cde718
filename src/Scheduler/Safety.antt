-- ===== src/Scheduler/Safety.antt =====
-- What holds in every state that the engine's scheduler can reach.
use vllm_rocm.Common.{ℕ, ◌+◌, ◌<◌, ◌≡◌, Option, count, ltb, if◌then◌else◌, arith}
use vllm_rocm.Config.{EngineConfig}
use vllm_rocm.Scheduler.{Scheduler}
use vllm_rocm.Scheduler.Ownership.{owned, All, IsComplete}
use vllm_rocm.Scheduler.History.{Reach, start, start-Inv, Reach-Inv}

-- In every state that requests and ticks lead to from a new scheduler with a positive block size,
-- each block of the manager stands in the free list exactly once and no running group holds it, or
-- it is not free and exactly one running group holds it, once.
pub blocks_exclusive :
    (config : EngineConfig) (available : Option ℕ) (s : Scheduler) (i : ℕ)
    → 0 < config.block_size
    → Reach (start config available) s
    → count i s.block_manager.free_block_ids + owned s.running i
      ≡ (if ltb i s.block_manager.total_blocks then 1 else 0)
blocks_exclusive config available s i h r =
    let v = Reach-Inv r (start-Inv config available h) in
    ground (arith, v.accounted.free_once i, v.exclusive i, v.accounted.in_range i)

-- In every state that requests and ticks lead to from a new scheduler with a positive block size,
-- every group that has left has exactly `max_tokens` tokens, holds no block, and its future holds
-- these tokens.
pub done-IsComplete :
    (config : EngineConfig) (available : Option ℕ) (s : Scheduler)
    → 0 < config.block_size
    → Reach (start config available) s
    → All IsComplete s.done
done-IsComplete config available s h r = (Reach-Inv r (start-Inv config available h)).all_done
