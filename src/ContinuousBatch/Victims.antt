-- ===== src/ContinuousBatch/Victims.antt =====
-- src/vllm_rocm/scheduler.py: whom `_maybe_preempt` takes out of the batch.
use vllm_rocm.Common.{
  ℕ, ◌+◌, ◌<◌, ◌≡◌, refl, ap, subst, ◌∙◌, inl, inr, true, false, List, [], ◌∷◌, ◌++◌, leb, ltb,
  Result, return, arith, Bool-cases,
}
use vllm_rocm.ContinuousBatch.{
  Sequence, Pass, total_tokens, weigh, sort_by, victim_first, preempt_loop, maybe_preempt,
}
use vllm_rocm.ContinuousBatch.Weights.{weigh-append, weigh-sort_by}
use vllm_rocm.ContinuousBatch.Sorting.{AllBefore, IsSorted, IsSorted-append, sort_by-IsSorted}
use vllm_rocm.ContinuousBatch.Preemption.{
  Fine, Fits, preempt_one-Drops, maybe_preempt-Fits, preempt_loop_goes_on,
}

-- Each of the victims in `gone`, in their order, left a batch over the budget.
abbrev pub IsNeeded : ℕ → List Sequence → List Sequence → Type 0
IsNeeded budget [] kept = Unit {0}
IsNeeded budget (v ∷ vs) kept =
    (budget < total_tokens v + weigh total_tokens vs + weigh total_tokens kept)
    × IsNeeded budget vs kept

-- What the loop makes of its victims `vs`: those of `gone` left the batch, the batch is `kept`.
record Takes (p : Pass) (vs : List Sequence) (result : Result (Unit {0}) × Pass) : Type 0 where
  after : Pass
  returns : result ≡ (return tt, after)
  gone : List Sequence
  kept : List Sequence
  split : vs ≡ gone ++ kept
  needed : IsNeeded p.scheduler.budget gone kept
  batch : (f : Sequence → ℕ) → weigh f kept ≡ weigh f after.batch

preempt_loop-Takes :
    (p : Pass) (vs : List Sequence)
    → Fine p
    → ((f : Sequence → ℕ) → weigh f vs ≡ weigh f p.batch)
    → Takes p vs (preempt_loop (weigh total_tokens p.batch) vs p)
unfolding preempt_loop
preempt_loop-Takes p [] w same = record {
  after = p;
  returns = refl;
  gone = [];
  kept = [];
  split = refl;
  needed = tt;
  batch = same;
}
preempt_loop-Takes p (v ∷ vs) w same =
    elim (Bool-cases (ltb p.scheduler.budget (weigh total_tokens p.batch))) [
      | inr e ↦ rw e (record {
        after = p;
        returns = refl;
        gone = [];
        kept = v ∷ vs;
        split = refl;
        needed = tt;
        batch = same;
      })
      | inl e ↦
          let d = preempt_one-Drops p v vs w same in
          let m = preempt_loop-Takes d.shrinks.after vs d.shrinks.fine d.left in
          record {
            after = m.after;
            returns =
                preempt_loop_goes_on p d.shrinks.after v vs e d.shrinks.returns d.fewer ∙ m.returns;
            gone = v ∷ m.gone;
            kept = m.kept;
            split = ap (◌∷◌ v) m.split;
            needed = (
              ground (
                arith,
                same total_tokens,
                ap (weigh total_tokens) m.split,
                weigh-append total_tokens m.gone m.kept,
              ),
              subst (λ b. IsNeeded b m.gone m.kept) d.shrinks.same.budget m.needed,
            );
            batch = m.batch;
          }
    ]

victim_total : (x y : Sequence) → victim_first x y ≡ false → victim_first y x ≡ true
victim_total x y h = ground arith

victim_trans :
    (x y z : Sequence) → victim_first x y ≡ true → victim_first y z ≡ true → victim_first x z ≡ true
victim_trans x y z h k = ground arith

-- What a call makes of the batch: `gone` left it, `kept` is what it has.
pub record Preempts (p : Pass) (result : Result (Unit {0}) × Pass) : Type 0 where
  pub fits : Fits p result
  pub after : Pass
  pub returns : result ≡ (return tt, after)
  pub gone : List Sequence
  pub kept : List Sequence
  pub parts : (f : Sequence → ℕ) → weigh f gone + weigh f kept ≡ weigh f p.batch
  pub batch : (f : Sequence → ℕ) → weigh f kept ≡ weigh f after.batch
  pub before : AllBefore victim_first gone kept
  pub needed : IsNeeded p.scheduler.budget gone kept

Takes-Preempts :
    (p : Pass) {r : Result (Unit {0}) × Pass}
    → Takes p (sort_by victim_first p.batch) r
    → Fits p r
    → Preempts p r
Takes-Preempts p t fits = record {
  fits = fits;
  after = t.after;
  returns = t.returns;
  gone = t.gone;
  kept = t.kept;
  parts = λ f. omega (
    arith,
    weigh-append f t.gone t.kept,
    ap (weigh f) t.split,
    weigh-sort_by victim_first f p.batch,
  );
  batch = t.batch;
  before = IsSorted-append victim_first t.gone t.kept (
      subst (IsSorted victim_first) t.split
        (sort_by-IsSorted victim_first victim_total victim_trans p.batch));
  needed = t.needed;
}

maybe_preempt-Takes : (p : Pass) → Fine p → Takes p (sort_by victim_first p.batch) (maybe_preempt p)
unfolding maybe_preempt
maybe_preempt-Takes p w = elim (Bool-cases (leb (weigh total_tokens p.batch) p.scheduler.budget)) [
  | inl e ↦ rw e (record {
    after = p;
    returns = refl;
    gone = [];
    kept = sort_by victim_first p.batch;
    split = refl;
    needed = tt;
    batch = λ f. weigh-sort_by victim_first f p.batch;
  })
  | inr e ↦ rw e (
      preempt_loop-Takes p (sort_by victim_first p.batch) w
        (λ f. weigh-sort_by victim_first f p.batch))
]

-- In a pass where every request is in one place and the batch is what runs, `_maybe_preempt` ends,
-- raises nothing and leaves a batch within the budget. Every request is still in one place, the
-- batch is what runs, and none leaves the queue or the finished. It parts the batch in two: who leaves
-- it has a lower priority than who stays, or the same and was made no earlier, and each leaves when
-- those who are left are over the budget.
pub maybe_preempt-Preempts : (p : Pass) → Fine p → Preempts p (maybe_preempt p)
maybe_preempt-Preempts p w = Takes-Preempts p (maybe_preempt-Takes p w) (maybe_preempt-Fits p w)
