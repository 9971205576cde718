-- ===== src/ContinuousBatch/Requests.antt =====
-- src/vllm_rocm/scheduler.py: `add_request`, `update_generated_tokens` and histories of calls.
use vllm_rocm.Common.{
  ℕ, ◌+◌, ◌≤◌, ◌<◌, ◌≡◌, refl, ap, ◌∙◌, sym, subst, Option, none, some, List, [], ◌∷◌, length, snoc,
  replicate, length-replicate, leb, arith, Bool-cases, inl, inr, length-append,
}
use vllm_rocm.Common.Dict
use vllm_rocm.Common.Dict.{get-put, get-delete}
use vllm_rocm.ContinuousBatch.{
  Sequence, RequestStatus, ContinuousBatchScheduler, weigh, init, new_sequence, add_request,
  update_generated_tokens, generate, schedule, values, with_status,
}
use vllm_rocm.ContinuousBatch.Weights.{
  has_id, has_left, table, weigh-append, values-table, Found, table-Found,
}
use vllm_rocm.ContinuousBatch.Admission.{IsSound, schedule-Batched}

pub init-IsSound :
    (max_batch max_seqs max_tokens budget : ℕ) → IsSound (init max_batch max_seqs max_tokens budget)
init-IsSound max_batch max_seqs max_tokens budget = record {
  once = λ i. ground arith;
  at_ids = refl;
  active = refl;
}

add_request-IsSound :
    (s : ContinuousBatchScheduler) (prompt : List ℕ) (max_tokens priority now : ℕ)
    → IsSound s
    → IsSound (add_request prompt max_tokens priority now s).1
unfolding add_request
add_request-IsSound s prompt max_tokens priority now v =
    let q = new_sequence s.next_seq_id prompt max_tokens priority now in
    record {
      once = λ i. ground (arith, v.once i, weigh-append (has_id i) s.waiting (q ∷ []));
      at_ids = v.at_ids;
      active = v.active;
    }

-- What `update_generated_tokens` for an id returns and leaves: the sequence does not run, or it has
-- all its tokens now and moves to the finished, or it goes on with the tokens added.
pub data Updated (s : ContinuousBatchScheduler) (k n : ℕ)
    : Option Sequence × ContinuousBatchScheduler → Type 0 where
  ignored : Dict.get k s.running ≡ none → Updated s k n (none, s)
  ended :
      (q : Sequence) {t : ContinuousBatchScheduler}
      → Dict.get k s.running ≡ some q
      → q.max_tokens ≤ length q.generated_tokens + n
      → t.finished ≡ snoc s.finished (with_status RequestStatus.finished (generate n q))
      → Dict.get k t.running ≡ none
      → t.waiting ≡ s.waiting
      → Updated s k n (some (with_status RequestStatus.finished (generate n q)), t)
  grown :
      (q : Sequence) {t : ContinuousBatchScheduler}
      → Dict.get k s.running ≡ some q
      → length q.generated_tokens + n < q.max_tokens
      → Dict.get k t.running ≡ some (generate n q)
      → t.finished ≡ s.finished
      → t.waiting ≡ s.waiting
      → Updated s k n (none, t)

once_running :
    (s : ContinuousBatchScheduler) (k : ℕ) → IsSound s → weigh (has_id k) (values s.running) ≤ 1
once_running s k v = ground (arith, v.once k)

update_ends :
    (s : ContinuousBatchScheduler) (k n : ℕ) (q : Sequence)
    → Dict.get k s.running ≡ some q
    → q.max_tokens ≤ length q.generated_tokens + n
    → update_generated_tokens k n s ≡ (
      some (with_status RequestStatus.finished (generate n q)),
      record s {
        finished = snoc s.finished (with_status RequestStatus.finished (generate n q));
        running = Dict.delete k s.running;
      },
    )
unfolding update_generated_tokens
update_ends s k n q g h =
    let m = length-append q.generated_tokens (replicate n 0) in
    ground (arith, m, length-replicate {A = ℕ} n 0)

update_grows :
    (s : ContinuousBatchScheduler) (k n : ℕ) (q : Sequence)
    → Dict.get k s.running ≡ some q
    → has_left q ≡ 0
    → length q.generated_tokens + n < q.max_tokens
    → update_generated_tokens k n s
      ≡ (none, record s { running = Dict.put k (generate n q) s.running })
unfolding update_generated_tokens
update_grows s k n q g a h =
    let m = length-append q.generated_tokens (replicate n 0) in
    ground (arith, m, length-replicate {A = ℕ} n 0)

update_ignores :
    (s : ContinuousBatchScheduler) (k n : ℕ)
    → Dict.get k s.running ≡ none
    → update_generated_tokens k n s ≡ (none, s)
unfolding update_generated_tokens
update_ignores s k n g = ground arith

module _ (s : ContinuousBatchScheduler) (k n : ℕ) (v : IsSound s)
    (f : Found k (values s.running)) where
  gets_found : Dict.get k s.running ≡ some f.found
  gets_found = ap (Dict.get k) v.at_ids ∙ f.gets

  delete_found : Dict.delete k s.running ≡ table f.others
  delete_found = ap (Dict.delete k) v.at_ids ∙ f.deletes

  ends-IsSound :
      (q : Sequence)
      → q.seq_id ≡ f.found.seq_id
      → IsSound (record s { finished = snoc s.finished q; running = Dict.delete k s.running })
  ends-IsSound q e =
      let vals : values (Dict.delete k s.running) ≡ f.others =
        ap values delete_found ∙ values-table f.others in
      record {
        once = λ i. rw vals (
            ground (
              arith,
              v.once i,
              f.splits (has_id i),
              e,
              weigh-append (has_id i) s.finished (q ∷ []),
            ));
        at_ids = delete_found ∙ ap table (sym vals);
        active = rw vals (omega (arith, v.active, f.splits has_left));
      }

  grows-IsSound :
      (q : Sequence)
      → q.seq_id ≡ k
      → has_left q ≡ 0
      → IsSound (record s { running = Dict.put k q s.running })
  grows-IsSound q e a =
      let (ys, p, w) = f.puts q e in
      let put_found : Dict.put k q s.running ≡ table ys = ap (Dict.put k q) v.at_ids ∙ p in
      let vals : values (Dict.put k q s.running) ≡ ys = ap values put_found ∙ values-table ys in
      record {
        once = λ i.
            rw vals (ground (arith, v.once i, f.splits (has_id i), e, f.same_id, w (has_id i)));
        at_ids = put_found ∙ ap table (sym vals);
        active = rw vals (omega (arith, v.active, f.splits has_left, w has_left));
      }

  -- The two branches for a sequence that runs.
  update_found :
      Updated s k n (update_generated_tokens k n s) × IsSound (update_generated_tokens k n s).1
  update_found =
      let q = f.found in
      let active : has_left q ≡ 0 = omega (arith, f.counted has_left, v.active) in
      elim (Bool-cases (leb q.max_tokens (length q.generated_tokens + n))) [
        | inl e ↦
            let q' = with_status RequestStatus.finished (generate n q) in
            subst (λ r. Updated s k n r × IsSound r.1)
              (sym (update_ends s k n q gets_found (ground arith)))
              (
                ended q gets_found (ground arith) refl (ground (arith, get-delete k k s.running))
                    refl,
                ends-IsSound q' refl,
              )
        | inr e ↦
            subst (λ r. Updated s k n r × IsSound r.1)
              (sym (update_grows s k n q gets_found active (ground arith)))
              (
                grown q gets_found (ground arith)
                    (ground (arith, get-put k k (generate n q) s.running)) refl refl,
                grows-IsSound (generate n q) f.same_id active,
              )
      ]

-- `update_generated_tokens` keeps a sound scheduler sound, and it does one of three things. For an
-- id that does not run it returns None and changes nothing. A sequence that has `max_tokens` now
-- is returned, stands last among the finished and runs no more. Any other sequence goes on running
-- with the tokens added. The queue stays.
pub update_generated_tokens-Updated :
    (s : ContinuousBatchScheduler) (seq_id num_tokens : ℕ)
    → IsSound s
    → Updated s seq_id num_tokens (update_generated_tokens seq_id num_tokens s)
      × IsSound (update_generated_tokens seq_id num_tokens s).1
update_generated_tokens-Updated s k n v =
    elim (table-Found k (values s.running) (once_running s k v)) [
      | inl (_, g) ↦
          let g' = ap (Dict.get k) v.at_ids ∙ g in
          subst (λ r. Updated s k n r × IsSound r.1) (sym (update_ignores s k n g')) (ignored g', v)
      | inr f ↦ update_found s k n v f
    ]

-- One call on the scheduler.
pub data Step : ContinuousBatchScheduler → ContinuousBatchScheduler → Type 0 where
  requested :
      {s : ContinuousBatchScheduler} (prompt : List ℕ) (max_tokens priority now : ℕ)
      → Step s (add_request prompt max_tokens priority now s).1
  scheduled : {s : ContinuousBatchScheduler} → Step s (schedule s).1
  updated :
      {s : ContinuousBatchScheduler} (seq_id num_tokens : ℕ)
      → Step s (update_generated_tokens seq_id num_tokens s).1

-- Any number of calls.
pub data Reach (s : ContinuousBatchScheduler) : ContinuousBatchScheduler → Type 0 where
  here : Reach s s
  then_step : {t u : ContinuousBatchScheduler} → Reach s t → Step t u → Reach s u

Step-IsSound : {s t : ContinuousBatchScheduler} → Step s t → IsSound s → IsSound t
Step-IsSound (requested prompt max_tokens priority now) v =
    add_request-IsSound _ prompt max_tokens priority now v
Step-IsSound (scheduled {s}) v =
    let b = schedule-Batched s v in subst (λ r. IsSound r.1) (sym b.returns) b.sound
Step-IsSound (updated {s} k n) v = (update_generated_tokens-Updated s k n v).1

-- After any sequence of calls on a new scheduler, each request that was made is waiting, running or
-- finished, in one place, and what runs stands at its id and has not finished.
pub Reach-IsSound :
    (max_batch max_seqs max_tokens budget : ℕ) {s : ContinuousBatchScheduler}
    → Reach (init max_batch max_seqs max_tokens budget) s
    → IsSound s
Reach-IsSound max_batch max_seqs max_tokens budget here =
    init-IsSound max_batch max_seqs max_tokens budget
Reach-IsSound max_batch max_seqs max_tokens budget (then_step r st) =
    Step-IsSound st (Reach-IsSound max_batch max_seqs max_tokens budget r)
