-- ===== src/Scheduler/Admit.antt =====
-- src/scheduler.py: `_schedule`, with the blocks of what it admits.
use native.Mathlib.Nat.{div-mul-le_self}
use vllm_rocm.Common.{
  ℕ, ◌+◌, ◌-◌, ◌*◌, ◌≤◌, ◌<◌, ◌≡◌, refl, ap, ◌∙◌, sym, subst, none, List, [], ◌∷◌, ◌++◌, length,
  snoc, Result, return, arith, ◌⊎◌, inl, inr, true, false, Bool-cases, append-nil, append_assoc,
  map,
}
use vllm_rocm.Common.Arith.{div-le-div, ceil_div-covers}
use vllm_rocm.BlockManager.{free_blocks}
use vllm_rocm.BlockManager.Accounting.{Accounted-same}
use vllm_rocm.BlockManager.Allocate.{allocate-Granted}
use vllm_rocm.Scheduler.{
  SequenceGroup, SeqStatus, Scheduler, total_len, needed_blocks, num_blocks, started, admit,
  schedule_loop, schedule,
}
use vllm_rocm.Scheduler.Ownership.{
  owned, owned-append, All, All-append, IsGoing, IsQueued, Inv, Keeps,
}
use vllm_rocm.Scheduler.PreemptLoop.{first_answer, head_answer}
use vllm_rocm.Scheduler.Preempt.{fits, can_add-fits, Keeps-refl, Keeps-then}

-- What `_can_add` asks for covers what `_schedule` takes.
pub num_blocks-le_needed :
    (bs : ℕ) (g : SequenceGroup) → 0 < bs → num_blocks bs g ≤ needed_blocks bs g
num_blocks-le_needed bs g h = div-le-div _ _ bs h (omega arith)

-- What admitting `g` leaves, `rest` being the queue behind it.
pub record Admits (s : Scheduler) (g : SequenceGroup) (rest : List SequenceGroup)
    (result : Result (Unit {0}) × Scheduler) : Type 0 where
  pub after : Scheduler
  pub keeps : Keeps s result after
  pub new_waiting : after.waiting ≡ rest
  pub ids : List ℕ
  pub length_ids : length ids ≡ num_blocks s.config.block_size g
  pub new_running : after.running ≡ snoc s.running (started ids g)
  pub free_left :
      free_blocks after.block_manager + num_blocks s.config.block_size g
      ≡ free_blocks s.block_manager
  pub same_preempted : after.preempted ≡ s.preempted
  pub same_done : after.done ≡ s.done

pub admit-Admits :
    (s : Scheduler) (g : SequenceGroup) (rest : List SequenceGroup)
    → Inv s
    → s.waiting ≡ g ∷ rest
    → fits s g ≡ true
    → Admits s g rest (admit g rest s)
unfolding admit
admit-Admits s g rest v e h =
    let n = num_blocks s.config.block_size g in
    let a =
      allocate-Granted s.block_manager (owned s.running) none n v.accounted
        (ground (arith, num_blocks-le_needed s.config.block_size g v.positive)) in
    let own = λ (i : ℕ). owned-append i s.running (started a.ids g ∷ []) in
    let queued : All IsQueued (g ∷ rest) = subst (All IsQueued) e v.all_waiting in
    record {
      after = record s {
        block_manager = a.after;
        waiting = rest;
        running = snoc s.running (started a.ids g);
      };
      keeps = record {
        returns = rw a.returns refl;
        inv = record {
          positive = v.positive;
          accounted = Accounted-same a.after _ _ (λ i. omega (arith, own i)) a.accounted;
          exclusive = λ i. ground (arith, own i, a.distinct i, a.unheld i, v.exclusive i);
          all_waiting = queued.1;
          all_running = All-append IsGoing s.running _ v.all_running (queued.0.1, tt);
          all_preempted = v.all_preempted;
          all_done = v.all_done;
        };
        same_config = refl;
        same_total = a.same_total;
        victims = [];
        preempted_grows = sym (append-nil s.preempted);
        leavers = [];
        done_grows = sym (append-nil s.done);
      };
      new_waiting = refl;
      ids = a.ids;
      length_ids = a.length_ids;
      new_running = refl;
      free_left = a.free_left;
      same_preempted = refl;
      same_done = refl;
    }

-- A group without what admitting it gives.
abbrev pub bare : SequenceGroup → SequenceGroup
bare g = record g { block_ids = []; status = SeqStatus.waiting }

-- A running group with blocks for the tokens that it has, and none that no token needs.
abbrev pub IsEquipped : ℕ → SequenceGroup → Type 0
IsEquipped bs g =
    (g.status ≡ SeqStatus.running)
    × (total_len g ≤ length g.block_ids * bs)
    × (length g.block_ids * bs < total_len g + bs)

started-IsEquipped :
    (bs : ℕ) (g : SequenceGroup) (ids : List ℕ)
    → 0 < bs
    → length ids ≡ num_blocks bs g
    → IsEquipped bs (started ids g)
started-IsEquipped bs g ids p e =
    let r = ap (λ n. n * bs) e in
    (
      refl,
      omega (arith, r, ceil_div-covers (total_len g) bs p),
      omega (arith, r, div-mul-le_self (total_len g + bs - 1) bs),
    )

pub record Schedules (s : Scheduler) (result : Result (Unit {0}) × Scheduler) : Type 0 where
  pub after : Scheduler
  pub keeps : Keeps s result after
  pub admitted : List SequenceGroup
  pub in_order : s.waiting ≡ admitted ++ after.waiting
  pub new : List SequenceGroup
  pub joined : after.running ≡ s.running ++ new
  pub same_groups : map bare new ≡ map bare admitted
  pub equipped : All (IsEquipped s.config.block_size) new
  pub same_preempted : after.preempted ≡ s.preempted
  pub same_done : after.done ≡ s.done
  pub settled : (after.waiting ≡ []) ⊎ (head_answer after ≡ false)

schedule_loop-Schedules :
    (s : Scheduler) (gs : List SequenceGroup)
    → Inv s
    → s.waiting ≡ gs
    → Schedules s (schedule_loop gs s)
unfolding schedule_loop
schedule_loop-Schedules s [] v e = record {
  after = s;
  keeps = Keeps-refl s v;
  admitted = [];
  in_order = refl;
  new = [];
  joined = sym (append-nil s.running);
  same_groups = refl;
  equipped = tt;
  same_preempted = refl;
  same_done = refl;
  settled = inl e;
}
schedule_loop-Schedules s (g ∷ rest) v e = elim (Bool-cases (fits s g)) [
  | inr full ↦ rw (can_add-fits s g v.positive) (
      rw full (record {
        after = s;
        keeps = Keeps-refl s v;
        admitted = [];
        in_order = refl;
        new = [];
        joined = sym (append-nil s.running);
        same_groups = refl;
        equipped = tt;
        same_preempted = refl;
        same_done = refl;
        settled = inr (ap (λ gs. first_answer gs s) e ∙ full);
      }))
  | inl room ↦
      let a = admit-Admits s g rest v e room in
      let more = schedule_loop-Schedules a.after rest a.keeps.inv a.new_waiting in
      rw (can_add-fits s g v.positive) (
        rw room (record {
          after = more.after;
          keeps =
              Keeps-then (admit g rest) (schedule_loop rest) s a.after more.after a.keeps
                more.keeps;
          admitted = g ∷ more.admitted;
          in_order = e ∙ ap (◌∷◌ g) (sym a.new_waiting ∙ more.in_order);
          new = started a.ids g ∷ more.new;
          joined =
              more.joined
              ∙ ap (λ gs. gs ++ more.new) a.new_running
              ∙ append_assoc s.running _ more.new;
          same_groups = ap (◌∷◌ (bare g)) more.same_groups;
          equipped = (
            started-IsEquipped s.config.block_size g a.ids v.positive a.length_ids,
            subst (λ c. All (IsEquipped c.block_size) more.new) a.keeps.same_config more.equipped,
          );
          same_preempted = more.same_preempted ∙ a.same_preempted;
          same_done = more.same_done ∙ a.same_done;
          settled = more.settled;
        }))
]

-- In a state that keeps the scheduler's invariant, `_schedule` raises nothing: `allocate` finds
-- the blocks that `_can_add` has checked for. It admits a front of the queue, in order, each group
-- with blocks for its tokens and none that no token needs, and stops with nobody waiting or at a
-- group that does not fit.
pub schedule-Schedules : (s : Scheduler) → Inv s → Schedules s (schedule s)
unfolding schedule
schedule-Schedules s v = schedule_loop-Schedules s s.waiting v refl

-- It admits nobody where the first of the queue does not fit, or nobody waits.
pub schedule_stuck :
    (s : Scheduler) (g : SequenceGroup) (rest : List SequenceGroup)
    → 0 < s.config.block_size
    → s.waiting ≡ g ∷ rest
    → fits s g ≡ false
    → schedule s ≡ (return tt, s)
unfolding schedule schedule_loop
schedule_stuck s g rest h e full =
    ap (λ gs. schedule_loop gs s) e ∙ rw (can_add-fits s g h) (rw full refl)

pub schedule_empty : (s : Scheduler) → s.waiting ≡ [] → schedule s ≡ (return tt, s)
unfolding schedule schedule_loop
schedule_empty s e = ap (λ gs. schedule_loop gs s) e
