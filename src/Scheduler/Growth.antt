-- ===== src/Scheduler/Growth.antt =====
-- src/scheduler.py: the blocks of a group that grows, against its tokens.
use native.Mathlib.Nat.{mul-le-mul_right, lt_of_mul-lt-mul_right, suc-mul}
use vllm_rocm.Common.{
  ℕ, suc, ◌*◌, ◌≤◌, ◌<◌, ◌≡◌, refl, ap, ◌∙◌, [], ◌∷◌, length, return, arith, false, length-append,
}
use vllm_rocm.Scheduler.{SequenceGroup, Scheduler, total_len, run_step, generate}
use vllm_rocm.Scheduler.Ownership.{Inv}
use vllm_rocm.Scheduler.Admit.{IsEquipped}
use vllm_rocm.Scheduler.Visits.{survivors, has_enough}
use vllm_rocm.Scheduler.RunStep.{run_step-Steps}

-- In a state that keeps the scheduler's invariant, if one group runs, has tokens to come and
-- blocks that its tokens fill to the last place, then after one step it has more tokens than its
-- blocks hold.
pub step_outgrows :
    (s : Scheduler) (g : SequenceGroup) (k : ℕ)
    → Inv s
    → s.running ≡ g ∷ []
    → has_enough g ≡ false
    → IsEquipped s.config.block_size g
    → total_len g ≡ k * s.config.block_size
    → (t : Scheduler) × (h : SequenceGroup) × (run_step s ≡ (return tt, t))
      × (t.running ≡ h ∷ [])
      × (h.block_ids ≡ g.block_ids)
      × (length h.block_ids * s.config.block_size < total_len h)
unfolding survivors
step_outgrows s g k v e more equipped full =
    let r = run_step-Steps s v in
    let bs = s.config.block_size in
    let lt : length g.block_ids * bs < suc k * bs = omega (arith, equipped.2, suc-mul k bs) in
    let fewer : length g.block_ids < suc k = lt_of_mul-lt-mul_right bs lt in
    let at_most : length g.block_ids ≤ k = omega (arith, fewer) in
    (
      r.after,
      generate g,
      r.keeps.returns,
      r.stay ∙ ap survivors e ∙ rw more refl,
      refl,
      omega (arith, mul-le-mul_right bs at_most, length-append g.generated_tokens (0 ∷ []), full),
    )
