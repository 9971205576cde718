-- ===== src/Scheduler/Visits.antt =====
-- src/scheduler.py: `_finish` and the loop of `_run_step`, with the test of the stop texts.
use vllm_rocm.Common.{
  ℕ, ◌+◌, ◌≤◌, ◌≡◌, refl, ap, ◌∙◌, sym, subst, List, [], ◌∷◌, ◌++◌, length, snoc, count, leb,
  if◌then◌else◌, Result, return, arith, inl, inr, true, false, Bool, Bool-cases, ◌>>◌, append-nil,
  append_assoc, length-append,
}
use vllm_rocm.BlockManager.Accounting.{Accounted-same}
use vllm_rocm.BlockManager.Release.{free-Released}
use vllm_rocm.Scheduler.{
  SequenceGroup, Scheduler, completed, finish, is_prefix, is_in, stop_hit, text_so_far, generate,
  visit, run_loop,
}
use vllm_rocm.Scheduler.Ownership.{
  owned, owned-append, All, All-append, All-split, IsGoing, IsComplete, Inv, Keeps,
}
use vllm_rocm.Scheduler.Preempt.{Keeps-refl, Keeps-then}

-- No text but the empty one stands in the empty text, and that one is not asked for.
pub stop_hit-text_so_far : (stops : List (List ℕ)) → stop_hit text_so_far stops ≡ false
unfolding stop_hit is_in is_prefix
stop_hit-text_so_far [] = refl
stop_hit-text_so_far ([] ∷ xs) = ground (arith, stop_hit-text_so_far xs)
stop_hit-text_so_far ((c ∷ x) ∷ xs) = ground (arith, stop_hit-text_so_far xs)

abbrev pub has_enough : SequenceGroup → Bool
has_enough g = leb g.max_tokens (length g.generated_tokens)

-- The groups that a step leaves running, each with one token more.
unfoldable pub survivors : List SequenceGroup → List SequenceGroup
survivors [] = []
survivors (g ∷ gs) = if has_enough g then survivors gs else generate g ∷ survivors gs

-- The groups that leave in a step, as they leave.
unfoldable pub leaving : List SequenceGroup → List SequenceGroup
leaving [] = []
leaving (g ∷ gs) = if has_enough g then completed g ∷ leaving gs else leaving gs

-- What visiting `todo` leaves, `kept` being the groups before it that stay.
pub record Runs (s : Scheduler) (kept todo : List SequenceGroup)
    (result : Result (Unit {0}) × Scheduler) : Type 0 where
  pub after : Scheduler
  pub keeps : Keeps s result after
  pub same_waiting : after.waiting ≡ s.waiting
  pub same_preempted : after.preempted ≡ s.preempted
  pub same_ticks : after.ticks ≡ s.ticks
  pub stay : after.running ≡ kept ++ survivors todo
  pub left : after.done ≡ s.done ++ leaving todo

module _ (s : Scheduler) (kept : List SequenceGroup) (g : SequenceGroup) (todo : List SequenceGroup)
    (v : Inv s) (e : s.running ≡ kept ++ g ∷ todo) where
  owned_split : (i : ℕ) → owned s.running i ≡ count i g.block_ids + owned (kept ++ todo) i
  owned_split i =
      ap (λ gs. owned gs i) e
      ∙ omega (arith, owned-append i kept (g ∷ todo), owned-append i kept todo)

  IsGoing-split : All IsGoing kept × All IsGoing (g ∷ todo)
  IsGoing-split = All-split IsGoing kept (g ∷ todo) (subst (All IsGoing) e v.all_running)

  -- `_finish` gives the group's blocks back and settles its future.
  finish-Keeps :
      has_enough g ≡ true
      → (t : Scheduler) × Keeps s (finish kept g todo s) t
        × (t.running ≡ kept ++ todo)
        × (t.waiting ≡ s.waiting)
        × (t.preempted ≡ s.preempted)
        × (t.ticks ≡ s.ticks)
        × (t.done ≡ snoc s.done (completed g))
  unfolding finish
  finish-Keeps enough =
      let going = IsGoing-split in
      let r =
        free-Released s.block_manager (owned (kept ++ todo)) g.block_ids
          (Accounted-same s.block_manager (owned s.running) _ owned_split v.accounted) in
      (
        record s {
          block_manager = r.after;
          running = kept ++ todo;
          done = snoc s.done (completed g);
        },
        record {
          returns = rw r.returns refl;
          inv = record {
            positive = v.positive;
            accounted = r.accounted;
            exclusive = λ i. omega (arith, owned_split i, v.exclusive i);
            all_waiting = v.all_waiting;
            all_running = All-append IsGoing kept todo going.0 going.1.1;
            all_preempted = v.all_preempted;
            all_done =
                All-append IsComplete s.done _ v.all_done
                  ((refl, ground arith, rw going.1.0.1 refl, refl), tt);
          };
          same_config = refl;
          same_total = r.same_total;
          victims = [];
          preempted_grows = sym (append-nil s.preempted);
          leavers = completed g ∷ [];
          done_grows = refl;
        },
        refl,
        refl,
        refl,
        refl,
        refl,
      )

  -- A group that goes on keeps its blocks.
  abbrev one_token : Scheduler
  one_token = record s { running = kept ++ generate g ∷ todo }

  one_token-Keeps : has_enough g ≡ false → Keeps s (return tt, one_token) one_token
  one_token-Keeps h = record {
    returns = refl;
    inv = record {
      positive = v.positive;
      accounted = Accounted-same s.block_manager (owned s.running) _ same v.accounted;
      exclusive = λ i. omega (arith, same i, v.exclusive i);
      all_waiting = v.all_waiting;
      all_running =
          let going = IsGoing-split in
          All-append IsGoing kept (generate g ∷ todo) going.0
            ((grows going.1.0.0, going.1.0.1), going.1.1);
      all_preempted = v.all_preempted;
      all_done = v.all_done;
    };
    same_config = refl;
    same_total = refl;
    victims = [];
    preempted_grows = sym (append-nil s.preempted);
    leavers = [];
    done_grows = sym (append-nil s.done);
  }
    where
      grows :
          length g.generated_tokens ≤ g.max_tokens
          → length (snoc g.generated_tokens 0) ≤ g.max_tokens
      grows le = ground (arith, length-append g.generated_tokens (0 ∷ []))

      same : (i : ℕ) → owned s.running i ≡ owned (kept ++ generate g ∷ todo) i
      same i =
          owned_split i
          ∙ omega (arith, owned-append i kept (generate g ∷ todo), owned-append i kept todo)

-- One round, by whether the group has all its tokens.
run_loop_finishes :
    (s : Scheduler) (kept : List SequenceGroup) (g : SequenceGroup) (todo : List SequenceGroup)
    → has_enough g ≡ true
    → run_loop kept (g ∷ todo) s ≡ (finish kept g todo >> run_loop kept todo) s
unfolding run_loop visit
run_loop_finishes s kept g todo h = ground arith

run_loop_goes_on :
    (s : Scheduler) (kept : List SequenceGroup) (g : SequenceGroup) (todo : List SequenceGroup)
    → has_enough g ≡ false
    → run_loop kept (g ∷ todo) s
      ≡ run_loop (snoc kept (generate g)) todo (record s { running = kept ++ generate g ∷ todo })
unfolding run_loop visit
run_loop_goes_on s kept g todo h = ground (arith, stop_hit-text_so_far g.stop)

pub run_loop-Runs :
    (s : Scheduler) (kept todo : List SequenceGroup)
    → Inv s
    → s.running ≡ kept ++ todo
    → Runs s kept todo (run_loop kept todo s)
unfolding run_loop survivors leaving
run_loop-Runs s kept [] v e = record {
  after = s;
  keeps = Keeps-refl s v;
  same_waiting = refl;
  same_preempted = refl;
  same_ticks = refl;
  stay = e;
  left = sym (append-nil s.done);
}
run_loop-Runs s kept (g ∷ todo) v e = elim (Bool-cases (has_enough g)) [
  | inl h ↦
      let (t, k, running, waiting, preempted, ticks, done) = finish-Keeps s kept g todo v e h in
      let r = run_loop-Runs t kept todo k.inv running in
      rw (run_loop_finishes s kept g todo h) (record {
        after = r.after;
        keeps = Keeps-then (finish kept g todo) (run_loop kept todo) s t r.after k r.keeps;
        same_waiting = r.same_waiting ∙ waiting;
        same_preempted = r.same_preempted ∙ preempted;
        same_ticks = r.same_ticks ∙ ticks;
        stay = rw h r.stay;
        left = rw h (
            r.left
            ∙ ap (λ gs. gs ++ leaving todo) done
            ∙ append_assoc s.done (completed g ∷ []) (leaving todo));
      })
  | inr h ↦
      let t = one_token s kept g todo v e in
      let r =
        run_loop-Runs t (snoc kept (generate g)) todo (one_token-Keeps s kept g todo v e h).inv
          (sym (append_assoc kept (generate g ∷ []) todo)) in
      rw (run_loop_goes_on s kept g todo h) (record {
        after = r.after;
        keeps =
            Keeps-then (λ _. (return tt, t)) (run_loop (snoc kept (generate g)) todo) s t r.after
              (one_token-Keeps s kept g todo v e h) r.keeps;
        same_waiting = r.same_waiting;
        same_preempted = r.same_preempted;
        same_ticks = r.same_ticks;
        stay = rw h (r.stay ∙ append_assoc kept (generate g ∷ []) (survivors todo));
        left = rw h r.left;
      })
]
