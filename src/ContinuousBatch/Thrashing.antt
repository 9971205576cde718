-- ===== src/ContinuousBatch/Thrashing.antt =====
-- src/vllm_rocm/scheduler.py: a long request behind one that is over the budget.
use vllm_rocm.Common.{
  ℕ, ◌≤◌, ◌<◌, ◌≡◌, refl, ap, ◌∙◌, sym, true, false, List, [], ◌∷◌, map, length, snoc, ltb, leb,
  arith, return,
}
use vllm_rocm.ContinuousBatch.{
  Sequence, RequestStatus, ContinuousBatchScheduler, Pass, total_tokens, weigh, sort_by, insert_by,
  victim_first, urgent_first, with_status, make_room, maybe_preempt, preempt_loop, schedule,
  schedule_loop, first_pass, batch_of,
}
use vllm_rocm.ContinuousBatch.Weights.{has_id, table}
use vllm_rocm.ContinuousBatch.Preemption.{Fine, Same, preempt_loop_goes_on, preempt_one-Drops}
use vllm_rocm.ContinuousBatch.Admit.{admit-Admits, length-weigh}
use vllm_rocm.ContinuousBatch.Admission.{
  IsSound, first_pass-Fine, schedule_loop_goes_on, schedule_loop_stops,
}

length_zero : (xs : List Sequence) → length xs ≡ 0 → xs ≡ []
length_zero [] h = refl
length_zero (x ∷ xs) h = absurd (omega arith)

-- A batch of one sequence that is over the budget loses it.
maybe_preempt_single :
    (p : Pass) (q : Sequence)
    → Fine p
    → p.batch ≡ q ∷ []
    → p.scheduler.budget < total_tokens q
    → (p' : Pass) × (maybe_preempt p ≡ (return tt, p'))
      × (p'.batch ≡ [])
      × Same p.scheduler p'.scheduler
      × Fine p'
unfolding maybe_preempt preempt_loop sort_by insert_by
maybe_preempt_single p q w e h =
    let same : (f : Sequence → ℕ) → weigh f (q ∷ []) ≡ weigh f p.batch =
      λ f. ap (weigh f) (sym e) in
    let d = preempt_one-Drops p q [] w same in
    let over : leb (weigh total_tokens p.batch) p.scheduler.budget ≡ false =
      ground (arith, same total_tokens) in
    let over' : ltb p.scheduler.budget (weigh total_tokens p.batch) ≡ true =
      ground (arith, same total_tokens) in
    (
      d.shrinks.after,
      rw over (
          ap (λ b. preempt_loop (weigh total_tokens p.batch) (sort_by victim_first b) p) e
          ∙ preempt_loop_goes_on p d.shrinks.after q [] over' d.shrinks.returns d.fewer),
      length_zero d.shrinks.after.batch
          (length-weigh d.shrinks.after.batch ∙ sym (d.left (λ q. 1))),
      d.shrinks.same,
      d.shrinks.fine,
    )

fits_alone :
    (p : Pass) (q : Sequence)
    → p.batch ≡ []
    → total_tokens q ≤ p.scheduler.max_total_tokens
    → make_room q p ≡ (return tt, p)
unfolding make_room
fits_alone p q e h = ground (arith, ap (weigh total_tokens) e)

calls_preempt :
    (p : Pass) (q : Sequence)
    → p.scheduler.max_total_tokens < total_tokens q
    → make_room q p ≡ maybe_preempt p
unfolding make_room
calls_preempt p q h = ground arith

-- Several requests wait in a sound state with room for two sequences, and nothing runs. If the
-- first fits the token limit but is over the preemption budget, and the second is over the limit,
-- then `schedule` admits the first, takes it out again to make room for the second, and returns an
-- empty batch: nothing runs.
pub schedule_thrashes :
    (s : ContinuousBatchScheduler) (q₁ q₂ : Sequence) (rest : List Sequence)
    → IsSound s
    → s.running ≡ []
    → sort_by urgent_first s.waiting ≡ q₁ ∷ q₂ ∷ rest
    → 2 ≤ s.max_batch_size
    → 2 ≤ s.max_num_seqs
    → s.budget < total_tokens q₁
    → total_tokens q₁ ≤ s.max_total_tokens
    → s.max_total_tokens < total_tokens q₂
    → (t : ContinuousBatchScheduler) × (schedule s ≡ (return [], t)) × (t.running ≡ [])
unfolding schedule
schedule_thrashes s q₁ q₂ rest v idle sorted big many over fits long =
    let p = first_pass s in
    let w = first_pass-Fine s v in
    let none_yet : p.batch ≡ [] = ap (map (λ e. e.1)) idle in
    let here : 1 ≤ weigh (has_id q₁.seq_id) p.scheduler.waiting =
      ground (arith, ap (weigh (has_id q₁.seq_id)) sorted) in
    let a = admit-Admits p q₁ w here in
    let q = with_status RequestStatus.running q₁ in
    let one : a.after.batch ≡ q ∷ [] = a.longer ∙ ap (λ b. snoc b q) none_yet in
    let (p', preempts, empty, same, fine) =
      maybe_preempt_single a.after q a.fine one (omega (arith, a.same.budget)) in
    let first =
      schedule_loop_goes_on p p a.after q₁ (q₂ ∷ rest) (ground (arith, ap length none_yet))
        (fits_alone p q₁ none_yet fits) (ground (arith, ap (weigh total_tokens) none_yet))
        a.returns in
    let second =
      schedule_loop_stops a.after p' q₂ rest
        (ground (arith, ap length one, a.same.max_batch_size, a.same.max_num_seqs))
        (calls_preempt a.after q₂ (omega (arith, a.same.max_total_tokens)) ∙ preempts)
        (ground (arith, a.same.max_total_tokens, same.max_total_tokens)) in
    (
      p'.scheduler,
      ap (λ qs. batch_of (schedule_loop qs p)) sorted
          ∙ ap batch_of (first ∙ second)
          ∙ ap (λ b. (return b, p'.scheduler)) empty,
      fine.agree ∙ ap table empty,
    )
