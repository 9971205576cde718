-- ===== src/ContinuousBatch/Preemption.antt =====
-- src/vllm_rocm/scheduler.py: `_maybe_preempt`, the queue and the budget.
use vllm_rocm.Common.{
  ℕ, ◌+◌, ◌≤◌, ◌≡◌, refl, ap, ◌∙◌, sym, subst, true, some, List, [], ◌∷◌, ltb, leb, if◌then◌else◌,
  arith, Bool-cases, inl, inr, Result, return,
}
use vllm_rocm.Common.Dict
use vllm_rocm.ContinuousBatch.{
  Sequence, RequestStatus, ContinuousBatchScheduler, Pass, total_tokens, weigh, remove_seq, sort_by,
  victim_first, with_status, preempt_one, preempt_loop, maybe_preempt, stop_running, requeue,
}
use vllm_rocm.ContinuousBatch.Weights.{
  has_id, has_left, table, weigh-append, weigh-sort_by, remove_seq-Removed, splits_same,
}

-- Each id below the next one is in the queue, in the batch or among the finished, once; the batch
-- is what runs, and nobody in it has finished.
pub record Fine (p : Pass) : Type 0 where
  pub once :
      (i : ℕ)
      → weigh (has_id i) p.scheduler.waiting
          + weigh (has_id i) p.batch
          + weigh (has_id i) p.scheduler.finished
        ≡ (if ltb i p.scheduler.next_seq_id then 1 else 0)
  pub agree : p.scheduler.running ≡ table p.batch
  pub active : weigh has_left p.batch ≡ 0

-- What a part of `schedule` leaves alone.
pub record Same (s t : ContinuousBatchScheduler) : Type 0 where
  pub max_batch_size : t.max_batch_size ≡ s.max_batch_size
  pub max_num_seqs : t.max_num_seqs ≡ s.max_num_seqs
  pub max_total_tokens : t.max_total_tokens ≡ s.max_total_tokens
  pub budget : t.budget ≡ s.budget
  pub finished : t.finished ≡ s.finished
  pub next_seq_id : t.next_seq_id ≡ s.next_seq_id

pub Same-refl : (s : ContinuousBatchScheduler) → Same s s
Same-refl s = record {
  max_batch_size = refl;
  max_num_seqs = refl;
  max_total_tokens = refl;
  budget = refl;
  finished = refl;
  next_seq_id = refl;
}

pub Same-then : {s t u : ContinuousBatchScheduler} → Same s t → Same t u → Same s u
Same-then a b = record {
  max_batch_size = b.max_batch_size ∙ a.max_batch_size;
  max_num_seqs = b.max_num_seqs ∙ a.max_num_seqs;
  max_total_tokens = b.max_total_tokens ∙ a.max_total_tokens;
  budget = b.budget ∙ a.budget;
  finished = b.finished ∙ a.finished;
  next_seq_id = b.next_seq_id ∙ a.next_seq_id;
}

-- What preempting leaves: it takes sequences out of the batch and puts them into the queue.
pub record Shrinks (p : Pass) (result : Result (Unit {0}) × Pass) : Type 0 where
  pub after : Pass
  pub returns : result ≡ (return tt, after)
  pub fine : Fine after
  pub same : Same p.scheduler after.scheduler
  pub lighter : (f : Sequence → ℕ) → weigh f after.batch ≤ weigh f p.batch
  pub queued :
      (i : ℕ) → weigh (has_id i) p.scheduler.waiting ≤ weigh (has_id i) after.scheduler.waiting

pub Shrinks-refl : (p : Pass) → Fine p → Shrinks p (return tt, p)
Shrinks-refl p v = record {
  after = p;
  returns = refl;
  fine = v;
  same = Same-refl p.scheduler;
  lighter = λ f. omega arith;
  queued = λ i. omega arith;
}

pub Shrinks-then :
    (p : Pass) {r r' r'' : Result (Unit {0}) × Pass}
    → (a : Shrinks p r) → Shrinks a.after r'
    → r'' ≡ r'
    → Shrinks p r''
Shrinks-then p a b e = record {
  after = b.after;
  returns = e ∙ b.returns;
  fine = b.fine;
  same = Same-then a.same b.same;
  lighter = λ f. omega (arith, a.lighter f, b.lighter f);
  queued = λ i. omega (arith, a.queued i, b.queued i);
}

-- One victim.
pub record Drops (p : Pass) (v : Sequence) (vs : List Sequence) (result : Result (Unit {0}) × Pass)
    : Type 0 where
  pub shrinks : Shrinks p result
  pub left : (f : Sequence → ℕ) → weigh f vs ≡ weigh f shrinks.after.batch
  pub fewer : weigh total_tokens p.batch ≡ total_tokens v + weigh total_tokens shrinks.after.batch

-- The pass after one victim, `rest` being the batch without it.
abbrev dropped : Pass → Sequence → List Sequence → Pass
dropped p v rest = requeue v (record (stop_running v.seq_id p) { batch = rest })

preempt_one_runs :
    (p : Pass) (v : Sequence) (rest : List Sequence)
    → remove_seq v.seq_id p.batch ≡ some rest
    → preempt_one v p ≡ (return tt, dropped p v rest)
unfolding preempt_one
preempt_one_runs p v rest e = ground (arith, e)

pub preempt_one-Drops :
    (p : Pass) (v : Sequence) (vs : List Sequence)
    → Fine p
    → ((f : Sequence → ℕ) → weigh f (v ∷ vs) ≡ weigh f p.batch)
    → Drops p v vs (preempt_one v p)
preempt_one-Drops p v vs w same =
    let k = v.seq_id in
    let here : 1 ≤ weigh (has_id k) p.batch = ground (arith, same (has_id k)) in
    let u : weigh (has_id k) p.batch ≤ 1 = ground (arith, w.once k) in
    let r = remove_seq-Removed k p.batch here in
    subst (Drops p v vs) (sym (preempt_one_runs p v r.rest r.removes)) (record {
      shrinks = record {
        after = dropped p v r.rest;
        returns = refl;
        fine = record {
          once = λ i. ground (
            arith,
            w.once i,
            r.splits (has_id i),
            r.same_id,
            weigh-append (has_id i) p.scheduler.waiting
                (with_status RequestStatus.preempted v ∷ []),
          );
          agree = ap (Dict.delete k) w.agree ∙ r.deletes u;
          active = omega (arith, r.splits has_left, w.active);
        };
        same = record {
          max_batch_size = refl;
          max_num_seqs = refl;
          max_total_tokens = refl;
          budget = refl;
          finished = refl;
          next_seq_id = refl;
        };
        lighter = λ f. omega (arith, r.splits f);
        queued = λ i. omega (
          arith,
          weigh-append (has_id i) p.scheduler.waiting (with_status RequestStatus.preempted v ∷ []),
        );
      };
      left = splits_same v p.batch vs r same u;
      fewer = omega (arith, same total_tokens, splits_same v p.batch vs r same u total_tokens);
    })

-- What the loop leaves: the total is within the budget, or every victim is gone.
pub record Fits (p : Pass) (result : Result (Unit {0}) × Pass) : Type 0 where
  pub shrinks : Shrinks p result
  pub under : weigh total_tokens shrinks.after.batch ≤ p.scheduler.budget

pub preempt_loop_goes_on :
    (p q : Pass) (v : Sequence) (vs : List Sequence)
    → ltb p.scheduler.budget (weigh total_tokens p.batch) ≡ true
    → preempt_one v p ≡ (return tt, q)
    → weigh total_tokens p.batch ≡ total_tokens v + weigh total_tokens q.batch
    → preempt_loop (weigh total_tokens p.batch) (v ∷ vs) p
      ≡ preempt_loop (weigh total_tokens q.batch) vs q
unfolding preempt_loop
preempt_loop_goes_on p q v vs e r n = rw e (rw r (ap (λ k. preempt_loop k vs q) (omega (arith, n))))

preempt_loop-Fits :
    (p : Pass) (vs : List Sequence)
    → Fine p
    → ((f : Sequence → ℕ) → weigh f vs ≡ weigh f p.batch)
    → Fits p (preempt_loop (weigh total_tokens p.batch) vs p)
unfolding preempt_loop Shrinks-refl Shrinks-then
preempt_loop-Fits p [] w same = record {
  shrinks = Shrinks-refl p w;
  under = omega (arith, same total_tokens);
}
preempt_loop-Fits p (v ∷ vs) w same =
    elim (Bool-cases (ltb p.scheduler.budget (weigh total_tokens p.batch))) [
      | inr e ↦ rw e (record { shrinks = Shrinks-refl p w; under = ground arith })
      | inl e ↦
          let d = preempt_one-Drops p v vs w same in
          let m = preempt_loop-Fits d.shrinks.after vs d.shrinks.fine d.left in
          record {
            shrinks =
                Shrinks-then p d.shrinks m.shrinks
                  (preempt_loop_goes_on p d.shrinks.after v vs e d.shrinks.returns d.fewer);
            under = omega (arith, m.under, d.shrinks.same.budget);
          }
    ]

-- In a pass where every request is in one place and the batch is what runs, `_maybe_preempt` ends,
-- raises nothing and leaves a batch within the budget. Every request is still in one place, the
-- batch is what runs, and none leaves the queue or the finished.
pub maybe_preempt-Fits : (p : Pass) → Fine p → Fits p (maybe_preempt p)
unfolding maybe_preempt Shrinks-refl
maybe_preempt-Fits p w = elim (Bool-cases (leb (weigh total_tokens p.batch) p.scheduler.budget)) [
  | inl e ↦ rw e (record { shrinks = Shrinks-refl p w; under = ground arith })
  | inr e ↦ rw e (
      preempt_loop-Fits p (sort_by victim_first p.batch) w
        (λ f. weigh-sort_by victim_first f p.batch))
]
