-- ===== src/ContinuousBatch/Ordering.antt =====
-- src/vllm_rocm/scheduler.py: `schedule` and the order of priority.
use vllm_rocm.Common.{ℕ, ◌+◌, ◌≤◌, ◌≡◌, List, ◌++◌, Result, return}
use vllm_rocm.ContinuousBatch.{
  Sequence, ContinuousBatchScheduler, Pass, weigh, urgent_first, values,
}
use vllm_rocm.ContinuousBatch.Weights.{has_id}
use vllm_rocm.ContinuousBatch.Sorting.{AllBefore}

-- What the loop makes of the queue `qs`: `taken` may be in the batch, `left` still waits.
record Takes (p : Pass) (qs : List Sequence) (result : Result (Unit {0}) × Pass) : Type 0 where
  after : Pass
  returns : result ≡ (return tt, after)
  taken : List Sequence
  left : List Sequence
  split : qs ≡ taken ++ left
  in_batch :
      (i : ℕ) → weigh (has_id i) after.batch ≤ weigh (has_id i) p.batch + weigh (has_id i) taken
  waits : (i : ℕ) → weigh (has_id i) left ≤ weigh (has_id i) after.scheduler.waiting

-- What a call of `schedule` makes of the queue.
pub record Prioritizes (s : ContinuousBatchScheduler)
    (result : Result (List Sequence) × ContinuousBatchScheduler) : Type 0 where
  pub batch : List Sequence
  pub after : ContinuousBatchScheduler
  pub returns : result ≡ (return batch, after)
  pub taken : List Sequence
  pub left : List Sequence
  pub parts : (f : Sequence → ℕ) → weigh f taken + weigh f left ≡ weigh f s.waiting
  pub above : AllBefore urgent_first taken left
  pub in_batch :
      (i : ℕ)
      → weigh (has_id i) batch ≤ weigh (has_id i) (values s.running) + weigh (has_id i) taken
  pub waits : (i : ℕ) → weigh (has_id i) left ≤ weigh (has_id i) after.waiting
