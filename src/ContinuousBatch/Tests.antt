-- ===== src/ContinuousBatch/Tests.antt =====
-- Runs of a scheduler of two places and ten tokens, with a budget of eight.
use vllm_rocm.Common.{ℕ, ◌≡◌, refl, List, [], ◌∷◌, map, replicate, arith, return}
use vllm_rocm.Common.Dict.{get, put, delete}
use vllm_rocm.ContinuousBatch.{
  Sequence, ContinuousBatchScheduler, init, new_sequence, add_request, insert_by, sort_by,
  remove_seq, preempt_one, preempt_loop, maybe_preempt, make_room, admit, schedule_loop, schedule,
  update_generated_tokens, first_pass, values,
}
use vllm_rocm.ContinuousBatch.Victims.{Preempts, maybe_preempt-Preempts}
use vllm_rocm.ContinuousBatch.Admission.{IsSound, Batched, schedule-Batched, first_pass-Fine}
use vllm_rocm.ContinuousBatch.Requests.{
  Updated, update_generated_tokens-Updated, Reach, here, then_step, requested, scheduled,
  Reach-IsSound,
}
use vllm_rocm.ContinuousBatch.Thrashing.{schedule_thrashes}

program : Unit {0}
unfolding get put delete add_request insert_by sort_by remove_seq preempt_one preempt_loop
    maybe_preempt make_room admit schedule_loop schedule update_generated_tokens
program = tt

abbrev s0 : ContinuousBatchScheduler
s0 = init 2 4 10 8

-- A request of six tokens, and an urgent one of three.
abbrev s1 : ContinuousBatchScheduler
s1 = (add_request (replicate 6 1) 2 0 100 s0).1

abbrev s2 : ContinuousBatchScheduler
s2 = (add_request (replicate 3 1) 4 5 101 s1).1

abbrev s3 : ContinuousBatchScheduler
s3 = (schedule s2).1

-- The first has all its tokens.
abbrev s4 : ContinuousBatchScheduler
s4 = (update_generated_tokens 0 2 s3).1

abbrev long : ContinuousBatchScheduler
long = (add_request (replicate 11 1) 2 0 101 (add_request (replicate 9 1) 2 1 100 s0).1).1

ids : List Sequence → List ℕ
ids = map (λ q. q.seq_id)

main :
    (ids s3.waiting ≡ [])
    × (ids (values s3.running) ≡ 1 ∷ 0 ∷ [])
    × (ids s4.finished ≡ 0 ∷ [])
    × (ids (values s4.running) ≡ 1 ∷ [])
    × (ids (schedule long).1.waiting ≡ 1 ∷ 0 ∷ [])
unfolding program ids
main = (refl, refl, refl, refl, refl)

s3-Reach : Reach s0 s3
s3-Reach =
    then_step
      (then_step (then_step here (requested (replicate 6 1) 2 0 100))
        (requested (replicate 3 1) 4 5 101))
      scheduled

Reach-IsSound_example : IsSound s3
Reach-IsSound_example = Reach-IsSound 2 4 10 8 s3-Reach

s3-IsSound : IsSound s3
s3-IsSound = Reach-IsSound 2 4 10 8 s3-Reach

s2-IsSound : IsSound s2
s2-IsSound = Reach-IsSound 2 4 10 8 (
    then_step (then_step here (requested (replicate 6 1) 2 0 100))
      (requested (replicate 3 1) 4 5 101))

long-IsSound : IsSound long
long-IsSound = Reach-IsSound 2 4 10 8 (
    then_step (then_step here (requested (replicate 9 1) 2 1 100))
      (requested (replicate 11 1) 2 0 101))

schedule-Batched_example : Batched s2 (schedule s2)
schedule-Batched_example = schedule-Batched s2 s2-IsSound

maybe_preempt-Preempts_example : Preempts (first_pass s3) (maybe_preempt (first_pass s3))
maybe_preempt-Preempts_example =
    maybe_preempt-Preempts (first_pass s3) (first_pass-Fine s3 s3-IsSound)

update_generated_tokens-Updated_example :
    Updated s3 0 2 (update_generated_tokens 0 2 s3) × IsSound (update_generated_tokens 0 2 s3).1
update_generated_tokens-Updated_example = update_generated_tokens-Updated s3 0 2 s3-IsSound

schedule_thrashes_example :
    (t : ContinuousBatchScheduler) × (schedule long ≡ (return [], t)) × (t.running ≡ [])
unfolding program
schedule_thrashes_example =
    schedule_thrashes long (new_sequence 0 (replicate 9 1) 2 1 100)
      (new_sequence 1 (replicate 11 1) 2 0 101) [] long-IsSound refl refl (omega arith)
      (omega arith) (omega arith) (omega arith) (omega arith)
