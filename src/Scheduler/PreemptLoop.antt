-- ===== src/Scheduler/PreemptLoop.antt =====
-- src/scheduler.py: the loop of `_preempt`, and why it stops.
use vllm_rocm.Common.{
  ℕ, zero, suc, ◌+◌, ◌<◌, ◌≡◌, refl, ap, ◌∙◌, none, some, List, [], ◌∷◌, length, Result, return,
  arith, ◌⊎◌, inl, inr, true, false, Bool, Bool-cases, ◌>>◌, length-append,
}
use vllm_rocm.Scheduler.{
  SequenceGroup, Scheduler, pick_longest, evict, evicted, first_fits, preempt_loop, preempt,
}
use vllm_rocm.Scheduler.Ownership.{Inv, Keeps, pick_longest-Picked}
use vllm_rocm.Scheduler.Preempt.{fits, can_add-fits, Keeps-refl, Keeps-then, evict-Keeps}

abbrev pub first_answer : List SequenceGroup → Scheduler → Bool
first_answer [] s = true
first_answer (g ∷ _) s = fits s g

-- Whether the loop's test lets it stop: nobody waits, or the first of the queue fits.
abbrev pub head_answer : Scheduler → Bool
head_answer s = first_answer s.waiting s

first_fits_lem :
    (s : Scheduler) (gs : List SequenceGroup)
    → 0 < s.config.block_size
    → first_fits gs s ≡ (return (first_answer gs s), s)
first_fits_lem s [] h = refl
first_fits_lem s (g ∷ gs) h = can_add-fits s g h

pub record Preempts (s : Scheduler) (result : Result (Unit {0}) × Scheduler) : Type 0 where
  pub after : Scheduler
  pub keeps : Keeps s result after
  pub same_waiting : after.waiting ≡ s.waiting
  pub same_ticks : after.ticks ≡ s.ticks
  pub same_done : after.done ≡ s.done
  pub all_kept :
      length after.running + length after.preempted ≡ length s.running + length s.preempted
  pub settled : (head_answer after ≡ true) ⊎ (after.running ≡ [])

module _ (n : ℕ) (s : Scheduler) (v : Inv s) where
  preempt_loop_stops : head_answer s ≡ true → preempt_loop (suc n) s ≡ (return tt, s)
  unfolding preempt_loop
  preempt_loop_stops h = rw (first_fits_lem s s.waiting v.positive) (rw h refl)

  preempt_loop_breaks : pick_longest s.running ≡ none → preempt_loop (suc n) s ≡ (return tt, s)
  unfolding preempt_loop
  preempt_loop_breaks h = ground (arith, first_fits_lem s s.waiting v.positive)

  preempt_loop_goes_on :
      (victim : SequenceGroup) (rest : List SequenceGroup)
      → head_answer s ≡ false
      → pick_longest s.running ≡ some (victim, rest)
      → preempt_loop (suc n) s ≡ (evict victim rest >> preempt_loop n) s
  unfolding preempt_loop
  preempt_loop_goes_on victim rest h p = ground (arith, first_fits_lem s s.waiting v.positive)

-- With fuel beyond the number of running groups the loop ends as the code's does.
preempt_loop-Preempts :
    (n : ℕ) (s : Scheduler) → Inv s → length s.running < n → Preempts s (preempt_loop n s)
preempt_loop-Preempts zero s v h = elim h [ ]
preempt_loop-Preempts (suc n) s v h = elim (Bool-cases (head_answer s)) [
  | inl e ↦ rw (preempt_loop_stops n s v e) (record {
    after = s;
    keeps = Keeps-refl s v;
    same_waiting = refl;
    same_ticks = refl;
    same_done = refl;
    all_kept = refl;
    settled = inl e;
  })
  | inr e ↦ elim (pick_longest-Picked s.running) [
    | inl (empty, p) ↦ rw (preempt_loop_breaks n s v p) (record {
      after = s;
      keeps = Keeps-refl s v;
      same_waiting = refl;
      same_ticks = refl;
      same_done = refl;
      all_kept = refl;
      settled = inr empty;
    })
    | inr p ↦
        let (t, k, running, waiting, ticks, done, preempted) = evict-Keeps s v p in
        let rest = preempt_loop-Preempts n t k.inv (omega (arith, ap length running, p.one_less)) in
        rw (preempt_loop_goes_on n s v p.victim p.rest e p.picks) (record {
          after = rest.after;
          keeps = Keeps-then (evict p.victim p.rest) (preempt_loop n) s t rest.after k rest.keeps;
          same_waiting = rest.same_waiting ∙ waiting;
          same_ticks = rest.same_ticks ∙ ticks;
          same_done = rest.same_done ∙ done;
          all_kept = omega (
            arith,
            rest.all_kept,
            ap length running,
            ap length preempted,
            length-append s.preempted (evicted p.victim ∷ []),
            p.one_less,
          );
          settled = rest.settled;
        })
  ]
]

pub preempt-Preempts : (s : Scheduler) → Inv s → Preempts s (preempt s)
unfolding preempt
preempt-Preempts s v = preempt_loop-Preempts (suc (length s.running)) s v (omega arith)

-- It evicts nobody where it need not.
pub preempt_idle : (s : Scheduler) → Inv s → head_answer s ≡ true → preempt s ≡ (return tt, s)
unfolding preempt
preempt_idle s v h = preempt_loop_stops (length s.running) s v h
