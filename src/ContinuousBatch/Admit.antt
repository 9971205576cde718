-- ===== src/ContinuousBatch/Admit.antt =====
-- src/vllm_rocm/scheduler.py: one round of `schedule`, which makes room for a request and admits it.
use vllm_rocm.Common.{
  ℕ, ◌+◌, ◌≤◌, ◌≡◌, refl, ap, ◌∙◌, sym, subst, some, List, [], ◌∷◌, length, snoc, ltb, arith,
  Bool-cases, inl, inr, Result, return,
}
use vllm_rocm.Common.Dict
use vllm_rocm.ContinuousBatch.{
  Sequence, RequestStatus, Pass, total_tokens, weigh, remove_seq, with_status, make_room, start,
  admit,
}
use vllm_rocm.ContinuousBatch.Weights.{
  has_id, has_left, weigh-append, remove_seq-Removed, put-table,
}
use vllm_rocm.ContinuousBatch.Preemption.{Fine, Same, Shrinks, Shrinks-refl, maybe_preempt-Fits}

pub make_room-Shrinks : (p : Pass) (q : Sequence) → Fine p → Shrinks p (make_room q p)
unfolding make_room
make_room-Shrinks p q w =
    elim (Bool-cases
      (ltb p.scheduler.max_total_tokens (weigh total_tokens p.batch + total_tokens q))) [
        | inl e ↦ rw e ((maybe_preempt-Fits p w).shrinks)
        | inr e ↦ rw e (Shrinks-refl p w)
      ]

pub length-weigh : (xs : List Sequence) → length xs ≡ weigh (λ q. 1) xs
length-weigh [] = refl
length-weigh (x ∷ xs) = omega (arith, length-weigh xs)

-- A pass with `q` in the batch, and out of the queue.
abbrev admitted : Pass → Sequence → List Sequence → Pass
admitted p q rest = record (start q p) {
  scheduler = record (start q p).scheduler { waiting = rest };
}

admit_runs :
    (p : Pass) (q : Sequence) (rest : List Sequence)
    → remove_seq q.seq_id p.scheduler.waiting ≡ some rest
    → admit q p ≡ (return tt, admitted p q rest)
unfolding admit
admit_runs p q rest e = ground (arith, e)

-- What admitting one sequence leaves.
pub record Admits (p : Pass) (q : Sequence) (result : Result (Unit {0}) × Pass) : Type 0 where
  pub after : Pass
  pub returns : result ≡ (return tt, after)
  pub fine : Fine after
  pub same : Same p.scheduler after.scheduler
  pub longer : after.batch ≡ snoc p.batch (with_status RequestStatus.running q)
  pub queued :
      (i : ℕ)
      → weigh (has_id i) p.scheduler.waiting ≡ has_id i q + weigh (has_id i) after.scheduler.waiting

pub admit-Admits :
    (p : Pass) (q : Sequence)
    → Fine p
    → 1 ≤ weigh (has_id q.seq_id) p.scheduler.waiting
    → Admits p q (admit q p)
admit-Admits p q w here =
    let k = q.seq_id in
    let r = remove_seq-Removed k p.scheduler.waiting here in
    let q' = with_status RequestStatus.running q in
    let absent : weigh (has_id k) p.batch ≡ 0 = ground (arith, w.once k) in
    subst (Admits p q) (sym (admit_runs p q r.rest r.removes)) (record {
      after = admitted p q r.rest;
      returns = refl;
      fine = record {
        once = λ i. ground (
          arith,
          w.once i,
          r.splits (has_id i),
          r.same_id,
          weigh-append (has_id i) p.batch (q' ∷ []),
        );
        agree = ap (Dict.put k q') w.agree ∙ put-table q' p.batch absent;
        active = ground (arith, w.active, weigh-append has_left p.batch (q' ∷ []));
      };
      same = record {
        max_batch_size = refl;
        max_num_seqs = refl;
        max_total_tokens = refl;
        budget = refl;
        finished = refl;
        next_seq_id = refl;
      };
      longer = refl;
      queued = λ i. ground (arith, r.splits (has_id i), r.same_id);
    })
