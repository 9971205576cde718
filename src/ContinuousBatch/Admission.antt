-- ===== src/ContinuousBatch/Admission.antt =====
-- src/vllm_rocm/scheduler.py: `schedule` and the limits of the batch.
use vllm_rocm.Common.{
  ℕ, ◌+◌, ◌≤◌, ◌≡◌, refl, ap, ◌∙◌, sym, subst, true, false, List, [], ◌∷◌, length, ltb, leb,
  if◌then◌else◌, arith, Bool-cases, ◌⊎◌, inl, inr, Result, return, length-append,
}
use vllm_rocm.ContinuousBatch.{
  Sequence, RequestStatus, ContinuousBatchScheduler, Pass, total_tokens, weigh, sort_by,
  urgent_first, with_status, make_room, admit, is_full, schedule_loop, first_pass, batch_of,
  schedule, values,
}
use vllm_rocm.ContinuousBatch.Weights.{
  has_id, has_left, table, weigh-append, weigh-sort_by, values-table,
}
use vllm_rocm.ContinuousBatch.Preemption.{Fine, Same, Same-then, Shrinks, Shrinks-refl}
use vllm_rocm.ContinuousBatch.Admit.{make_room-Shrinks, length-weigh, Admits, admit-Admits}

-- A batch that keeps to the scheduler's limits, or to what was running before where that was more.
pub record IsBounded (s : ContinuousBatchScheduler) (before batch : List Sequence) : Type 0 where
  pub tokens :
      (weigh total_tokens batch ≤ s.max_total_tokens)
      ⊎ (weigh total_tokens batch ≤ weigh total_tokens before)
  pub size :
      ((length batch ≤ s.max_batch_size) × (length batch ≤ s.max_num_seqs))
      ⊎ (length batch ≤ length before)

-- What the loop leaves.
record Grows (p : Pass) (result : Result (Unit {0}) × Pass) : Type 0 where
  after : Pass
  returns : result ≡ (return tt, after)
  fine : Fine after
  same : Same p.scheduler after.scheduler
  bounded : IsBounded p.scheduler p.batch after.batch

Shrinks-Grows : (p : Pass) {r : Result (Unit {0}) × Pass} → Shrinks p r → Grows p r
Shrinks-Grows p a = record {
  after = a.after;
  returns = a.returns;
  fine = a.fine;
  same = a.same;
  bounded = record {
    tokens = inr (a.lighter total_tokens);
    size =
        inr (omega (arith, a.lighter (λ q. 1), length-weigh p.batch, length-weigh a.after.batch));
  };
}

-- Going on after a sequence that was admitted within the limits.
Grows-then :
    (p p' : Pass) {r : Result (Unit {0}) × Pass}
    → Same p.scheduler p'.scheduler
    → weigh total_tokens p'.batch ≤ p.scheduler.max_total_tokens
    → length p'.batch ≤ p.scheduler.max_batch_size
    → length p'.batch ≤ p.scheduler.max_num_seqs
    → Grows p' r
    → Grows p r
Grows-then p p' c t l n g = record {
  after = g.after;
  returns = g.returns;
  fine = g.fine;
  same = Same-then c g.same;
  bounded = record {
    tokens = elim g.bounded.tokens [
      | inl h ↦ inl (omega (arith, c.max_total_tokens))
      | inr h ↦ inl (omega arith)
    ];
    size = elim g.bounded.size [
      | inl (h, k) ↦ inl (omega (arith, c.max_batch_size), omega (arith, c.max_num_seqs))
      | inr h ↦ inl (omega arith, omega arith)
    ];
  };
}

pub schedule_loop_stops :
    (p p₁ : Pass) (q : Sequence) (rest : List Sequence)
    → is_full p ≡ false
    → make_room q p ≡ (return tt, p₁)
    → leb (weigh total_tokens p₁.batch + total_tokens q) p₁.scheduler.max_total_tokens ≡ false
    → schedule_loop (q ∷ rest) p ≡ (return tt, p₁)
unfolding schedule_loop
schedule_loop_stops p p₁ q rest e m f = rw (e, is_full) (rw m (rw f refl))

pub schedule_loop_goes_on :
    (p p₁ p₂ : Pass) (q : Sequence) (rest : List Sequence)
    → is_full p ≡ false
    → make_room q p ≡ (return tt, p₁)
    → leb (weigh total_tokens p₁.batch + total_tokens q) p₁.scheduler.max_total_tokens ≡ true
    → admit q p₁ ≡ (return tt, p₂)
    → schedule_loop (q ∷ rest) p ≡ schedule_loop rest p₂
unfolding schedule_loop
schedule_loop_goes_on p p₁ p₂ q rest e m f a = rw (e, is_full) (rw m (rw f (rw a refl)))

-- One round that admits `q`, `more` being what the rounds after it leave.
Grows-round :
    (p : Pass) (q : Sequence) (rest : List Sequence)
    → is_full p ≡ false
    → (a : Shrinks p (make_room q p))
    → leb (weigh total_tokens a.after.batch + total_tokens q) a.after.scheduler.max_total_tokens
      ≡ true
    → (b : Admits a.after q (admit q a.after)) → Grows b.after (schedule_loop rest b.after)
    → Grows p (schedule_loop (q ∷ rest) p)
Grows-round p q rest e a f b more =
    let q' = with_status RequestStatus.running q in
    let n = length-append a.after.batch (q' ∷ []) in
    let l = ap length b.longer in
    let shorter = a.lighter (λ q. 1) in
    let le : length a.after.batch ≤ length p.batch =
      omega (arith, shorter, length-weigh p.batch, length-weigh a.after.batch) in
    subst (Grows p) (sym (schedule_loop_goes_on p a.after b.after q rest e a.returns f b.returns)) (
      Grows-then p b.after (Same-then a.same b.same)
        (ground (
          arith,
          a.same.max_total_tokens,
          ap (weigh total_tokens) b.longer,
          weigh-append total_tokens a.after.batch (q' ∷ []),
        ))
        (ground (arith, l, n, le)) (ground (arith, l, n, le)) more)

schedule_loop-Grows :
    (p : Pass) (qs : List Sequence)
    → Fine p
    → ((i : ℕ) → weigh (has_id i) qs ≤ weigh (has_id i) p.scheduler.waiting)
    → Grows p (schedule_loop qs p)
unfolding schedule_loop
schedule_loop-Grows p [] w here = Shrinks-Grows p (Shrinks-refl p w)
schedule_loop-Grows p (q ∷ rest) w here = elim (Bool-cases (is_full p)) [
  | inl e ↦ rw (e, is_full) (Shrinks-Grows p (Shrinks-refl p w))
  | inr e ↦
      let a = make_room-Shrinks p q w in
      elim (Bool-cases (
        leb (weigh total_tokens a.after.batch + total_tokens q)
          a.after.scheduler.max_total_tokens)) [
            | inr f ↦
                subst (Grows p) (sym (schedule_loop_stops p a.after q rest e a.returns f))
                  (Shrinks-Grows p (subst (Shrinks p) a.returns a))
            | inl f ↦
                let b =
                  admit-Admits a.after q a.fine
                    (ground (arith, here q.seq_id, a.queued q.seq_id)) in
                Grows-round p q rest e a f b (
                  schedule_loop-Grows b.after rest b.fine
                    (λ i. omega (arith, here i, a.queued i, b.queued i)))
          ]
]

-- The scheduler between two calls: each id that was given out is waiting, running or finished, in
-- one place; the running sequences stand at their ids, and none of them has finished.
pub record IsSound (s : ContinuousBatchScheduler) : Type 0 where
  pub once :
      (i : ℕ)
      → weigh (has_id i) s.waiting
          + weigh (has_id i) (values s.running)
          + weigh (has_id i) s.finished
        ≡ (if ltb i s.next_seq_id then 1 else 0)
  pub at_ids : s.running ≡ table (values s.running)
  pub active : weigh has_left (values s.running) ≡ 0

-- What `schedule` returns and leaves.
pub record Batched (s : ContinuousBatchScheduler)
    (result : Result (List Sequence) × ContinuousBatchScheduler) : Type 0 where
  pub batch : List Sequence
  pub after : ContinuousBatchScheduler
  pub returns : result ≡ (return batch, after)
  pub sound : IsSound after
  pub same : Same s after
  pub running : after.running ≡ table batch
  pub bounded : IsBounded s (values s.running) batch

pub first_pass-Fine : (s : ContinuousBatchScheduler) → IsSound s → Fine (first_pass s)
first_pass-Fine s v = record {
  once = λ i. omega (arith, v.once i, weigh-sort_by urgent_first (has_id i) s.waiting);
  agree = v.at_ids;
  active = v.active;
}

Grows-Batched :
    (s : ContinuousBatchScheduler) {r : Result (Unit {0}) × Pass}
    → Grows (first_pass s) r
    → Batched s (batch_of r)
Grows-Batched s g =
    let values_batch : values g.after.scheduler.running ≡ g.after.batch =
      ap values g.fine.agree ∙ values-table g.after.batch in
    subst (λ r. Batched s (batch_of r)) (sym g.returns)
      (record {
        batch = g.after.batch;
        after = g.after.scheduler;
        returns = refl;
        sound = record {
          once = λ i. rw values_batch (g.fine.once i);
          at_ids = g.fine.agree ∙ ap table (sym values_batch);
          active = rw values_batch g.fine.active;
        };
        same = record {
          max_batch_size = g.same.max_batch_size;
          max_num_seqs = g.same.max_num_seqs;
          max_total_tokens = g.same.max_total_tokens;
          budget = g.same.budget;
          finished = g.same.finished;
          next_seq_id = g.same.next_seq_id;
        };
        running = g.fine.agree;
        bounded = record { tokens = g.bounded.tokens; size = g.bounded.size };
      })

-- In a sound state `schedule` raises nothing. No sequence is lost or doubled: each is still
-- waiting, running or finished, in one place. The batch is exactly what runs now, and keeps to the
-- limits on tokens and on sequences, or to what was running before where that was more.
pub schedule-Batched : (s : ContinuousBatchScheduler) → IsSound s → Batched s (schedule s)
unfolding schedule
schedule-Batched s v = Grows-Batched s (
    schedule_loop-Grows (first_pass s) (sort_by urgent_first s.waiting) (first_pass-Fine s v)
      (λ i. omega arith))
