-- ===== src/Scheduler/Preempt.antt =====
-- `_can_add` and `_preempt`.
use vllm_rocm.Common.{
  ℕ, ◌+◌, ◌≤◌, ◌<◌, ◌≡◌, refl, ap, ◌∙◌, sym, List, [], ◌∷◌, ◌++◌, length, snoc, count, ltb, leb,
  ◌&&◌, if◌then◌else◌, Result, return, arith, false, Bool, Action, ◌>>◌, append-nil, append_assoc,
}
use vllm_rocm.Config.{PreemptionMode, recompute, swap}
use vllm_rocm.BlockManager.{BlockManager, free_blocks}
use vllm_rocm.BlockManager.Accounting.{Accounted, Accounted-same}
use vllm_rocm.BlockManager.Release.{free-Released}
use vllm_rocm.BlockManager.Swap.{swap_out-SwappedOut}
use vllm_rocm.Scheduler.{
  SequenceGroup, Scheduler, needed_blocks, can_add, pick_longest, release_blocks, evicted, evict,
}
use vllm_rocm.Scheduler.Ownership.{owned, All-append, IsQueued, Inv, Keeps, Picked}

-- What `_can_add` answers where the block size is not zero.
abbrev pub fits : Scheduler → SequenceGroup → Bool
fits s g =
    if ltb 0 s.config.max_num_seqs && leb s.config.max_num_seqs (length s.running)
    then false
    else leb (needed_blocks s.config.block_size g) (free_blocks s.block_manager)

pub can_add-fits :
    (s : Scheduler) (g : SequenceGroup)
    → 0 < s.config.block_size
    → can_add g s ≡ (return (fits s g), s)
unfolding can_add
can_add-fits s g h = ground arith

pub Keeps-refl : (s : Scheduler) → Inv s → Keeps s (return tt, s) s
Keeps-refl s v = record {
  returns = refl;
  inv = v;
  same_config = refl;
  same_total = refl;
  victims = [];
  preempted_grows = sym (append-nil s.preempted);
  leavers = [];
  done_grows = sym (append-nil s.done);
}

-- Two methods in a row.
pub Keeps-then :
    (act next : Action Scheduler (Unit {0})) (s t u : Scheduler)
    → Keeps s (act s) t
    → Keeps t (next t) u
    → Keeps s ((act >> next) s) u
Keeps-then act next s t u k l = record {
  returns = rw (k.returns, l.returns) refl;
  inv = l.inv;
  same_config = l.same_config ∙ k.same_config;
  same_total = l.same_total ∙ k.same_total;
  victims = k.victims ++ l.victims;
  preempted_grows =
      l.preempted_grows
      ∙ ap (λ gs. gs ++ l.victims) k.preempted_grows
      ∙ append_assoc s.preempted k.victims l.victims;
  leavers = k.leavers ++ l.leavers;
  done_grows =
      l.done_grows
      ∙ ap (λ gs. gs ++ l.leavers) k.done_grows
      ∙ append_assoc s.done k.leavers l.leavers;
}

record GivesBack (m : BlockManager) (held : ℕ → ℕ) (result : Result (Unit {0}) × BlockManager)
    : Type 0 where
  after : BlockManager
  returns : result ≡ (return tt, after)
  accounted : Accounted after held
  same_total : after.total_blocks ≡ m.total_blocks

release_blocks-GivesBack :
    (mode : PreemptionMode) (m : BlockManager) (held : ℕ → ℕ) (ids : List ℕ)
    → Accounted m (λ i. count i ids + held i)
    → ((i : ℕ) → count i ids + held i ≤ 1)
    → GivesBack m held (release_blocks mode ids m)
release_blocks-GivesBack recompute m held ids a h =
    let r = free-Released m held ids a in
    record {
      after = r.after;
      returns = r.returns;
      accounted = r.accounted;
      same_total = r.same_total;
    }
release_blocks-GivesBack swap m held ids a h =
    let r = swap_out-SwappedOut m held ids a (λ i p. omega (arith, h i)) in
    record {
      after = r.after;
      returns = r.returns;
      accounted = r.accounted;
      same_total = r.same_total;
    }

-- Evicting the group that was picked: it alone loses its blocks, and joins `preempted`.
pub evict-Keeps :
    (s : Scheduler)
    → Inv s
    → (p : Picked s.running (pick_longest s.running))
    → (t : Scheduler) × Keeps s (evict p.victim p.rest s) t
      × (t.running ≡ p.rest)
      × (t.waiting ≡ s.waiting)
      × (t.ticks ≡ s.ticks)
      × (t.done ≡ s.done)
      × (t.preempted ≡ snoc s.preempted (evicted p.victim))
unfolding evict
evict-Keeps s v p =
    let mode = s.config.preemption_mode in
    let b =
      release_blocks-GivesBack mode s.block_manager (owned p.rest) p.victim.block_ids
        (Accounted-same s.block_manager (owned s.running) _ p.splits v.accounted)
        (λ i. omega (arith, p.splits i, v.exclusive i)) in
    (
      record s {
        block_manager = b.after;
        running = p.rest;
        preempted = snoc s.preempted (evicted p.victim);
      },
      record {
        returns = rw b.returns refl;
        inv = record {
          positive = v.positive;
          accounted = b.accounted;
          exclusive = λ i. omega (arith, p.splits i, v.exclusive i);
          all_waiting = v.all_waiting;
          all_running = (p.all_going v.all_running).1;
          all_preempted =
              All-append IsQueued s.preempted _ v.all_preempted
                ((refl, (p.all_going v.all_running).0), tt);
          all_done = v.all_done;
        };
        same_config = refl;
        same_total = b.same_total;
        victims = evicted p.victim ∷ [];
        preempted_grows = refl;
        leavers = [];
        done_grows = sym (append-nil s.done);
      },
      refl,
      refl,
      refl,
      refl,
      refl,
    )
