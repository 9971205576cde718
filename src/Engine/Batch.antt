-- ===== src/Engine/Batch.antt =====
-- The first tick of a batch, with a queue that fits as a whole.
use vllm_rocm.Common.{
  ℕ, zero, suc, ◌≤◌, ◌<◌, ◌≡◌, refl, sym, ap, subst, ◌∙◌, inl, inr, true, List, [], ◌∷◌, ◌++◌, map,
  length, snoc, replicate, Result, return, arith, append-nil, append_assoc, length-append,
  length-map,
}
use vllm_rocm.Common.Counting.{length-count}
use vllm_rocm.BlockManager.{free_blocks}
use vllm_rocm.Scheduler.{
  SequenceGroup, Scheduler, needed_blocks, started, generate, run_step, schedule, schedule_loop,
  schedule_tick, take_tick,
}
use vllm_rocm.Scheduler.Ownership.{owned, Inv, All}
use vllm_rocm.Scheduler.Preempt.{fits, can_add-fits}
use vllm_rocm.Scheduler.PreemptLoop.{first_answer, preempt_idle}
use vllm_rocm.Scheduler.Admit.{admit-Admits, num_blocks-le_needed, bare}
use vllm_rocm.Scheduler.Tick.{take_tick-Inv}
use vllm_rocm.Engine.{run_due}
use vllm_rocm.Engine.Loop.{
  grown, finished_after, IsShort, Answered, Runs, finishes_from, total_needed, HasSeats,
}

-- What admitting the whole queue `gs` leaves.
record AdmitsAll (s : Scheduler) (gs : List SequenceGroup) (result : Result (Unit {0}) × Scheduler)
    : Type 0 where
  after : Scheduler
  returns : result ≡ (return tt, after)
  new : List SequenceGroup
  runs : Runs s after (s.running ++ new)
  same_groups : map bare new ≡ map bare gs

one_fits :
    (s : Scheduler) (g : SequenceGroup) (n : ℕ)
    → HasSeats s (suc n)
    → needed_blocks s.config.block_size g ≤ free_blocks s.block_manager
    → fits s g ≡ true
one_fits s g n (inl e) h = ground arith
one_fits s g n (inr e) h = ground arith

one_less :
    (s t : Scheduler) (g : SequenceGroup) (n : ℕ)
    → t.config ≡ s.config
    → t.running ≡ snoc s.running g
    → HasSeats s (suc n)
    → HasSeats t n
one_less s t g n c r (inl e) = inl (ap (λ c. c.max_num_seqs) c ∙ e)
one_less s t g n c r (inr e) =
    inr (omega (arith, ap (λ c. c.max_num_seqs) c, ap length r, length-append s.running (g ∷ [])))

schedule_loop-AdmitsAll :
    (gs : List SequenceGroup) (s : Scheduler)
    → Inv s
    → s.waiting ≡ gs
    → HasSeats s (length gs)
    → total_needed s.config.block_size gs ≤ free_blocks s.block_manager
    → AdmitsAll s gs (schedule_loop gs s)
unfolding schedule_loop total_needed
schedule_loop-AdmitsAll [] s v w c h = record {
  after = s;
  returns = refl;
  new = [];
  runs = record {
    inv = v;
    no_waiting = w;
    running = sym (append-nil s.running);
    same_preempted = refl;
    same_config = refl;
    same_total = refl;
    same_done = refl;
  };
  same_groups = refl;
}
schedule_loop-AdmitsAll (g ∷ gs) s v w c h =
    let bs = s.config.block_size in
    let room = one_fits s g (length gs) c (omega arith) in
    let a = admit-Admits s g gs v w room in
    let less = num_blocks-le_needed bs g v.positive in
    let same_bs : a.after.config.block_size ≡ bs = ap (λ c. c.block_size) a.keeps.same_config in
    let left : total_needed a.after.config.block_size gs ≤ free_blocks a.after.block_manager =
      rw same_bs (omega (arith, a.free_left, less)) in
    let rest =
      schedule_loop-AdmitsAll gs a.after a.keeps.inv a.new_waiting
        (one_less s a.after (started a.ids g) (length gs) a.keeps.same_config a.new_running c)
        left in
    record {
      after = rest.after;
      returns = rw (can_add-fits s g v.positive) (rw room (rw a.keeps.returns rest.returns));
      new = started a.ids g ∷ rest.new;
      runs = record {
        inv = rest.runs.inv;
        no_waiting = rest.runs.no_waiting;
        running =
            rest.runs.running
            ∙ ap (λ hs. hs ++ rest.new) a.new_running
            ∙ append_assoc s.running (started a.ids g ∷ []) rest.new;
        same_preempted = rest.runs.same_preempted ∙ a.same_preempted;
        same_config = rest.runs.same_config ∙ a.keeps.same_config;
        same_total = rest.runs.same_total ∙ a.keeps.same_total;
        same_done = rest.runs.same_done ∙ a.same_done;
      };
      same_groups = ap (◌∷◌ (bare g)) rest.same_groups;
    }

-- What admission gives a group does not show when it has left.
grown-bare : (n : ℕ) (g : SequenceGroup) → finished_after n (bare g) ≡ finished_after n g
unfolding grown
grown-bare zero g = refl
grown-bare (suc n) g = grown-bare n (generate g)

map-bare :
    (n : ℕ) (gs : List SequenceGroup)
    → map (finished_after n) (map bare gs) ≡ map (finished_after n) gs
map-bare n [] = refl
map-bare n (g ∷ gs) = cc (grown-bare n g, map-bare n gs)

IsShort-bare :
    (n : ℕ) (gs : List SequenceGroup) → All (IsShort n) gs → All (IsShort n) (map bare gs)
IsShort-bare n [] a = tt
IsShort-bare n (g ∷ gs) a = (a.0, IsShort-bare n gs a.1)

bare-IsShort :
    (n : ℕ) (gs : List SequenceGroup) → All (IsShort n) (map bare gs) → All (IsShort n) gs
bare-IsShort n [] a = tt
bare-IsShort n (g ∷ gs) a = (a.0, bare-IsShort n gs a.1)

-- With nobody running every block is free.
all_free :
    (s : Scheduler)
    → Inv s
    → s.running ≡ []
    → free_blocks s.block_manager ≡ s.block_manager.total_blocks
all_free s v e = length-count s.block_manager.total_blocks s.block_manager.free_block_ids (λ i.
    let none_owned : owned s.running i ≡ 0 = ap (λ gs. owned gs i) e in
    ground (arith, v.accounted.free_once i))

schedule_queue :
    (s : Scheduler) (gs : List SequenceGroup) → s.waiting ≡ gs → schedule s ≡ schedule_loop gs s
unfolding schedule
schedule_queue s gs w = ap (λ gs. schedule_loop gs s) w

-- A tick that finds nobody running, and a queue that fits, admits it as a whole.
first_tick :
    (s : Scheduler) (g : SequenceGroup) (gs : List SequenceGroup)
    → Inv s
    → s.running ≡ []
    → s.waiting ≡ g ∷ gs
    → HasSeats s (suc (length gs))
    → total_needed s.config.block_size (g ∷ gs) ≤ s.block_manager.total_blocks
    → (a : AdmitsAll s (g ∷ gs) (schedule_loop (g ∷ gs) s)) × (schedule_tick s ≡ run_step a.after)
unfolding schedule_tick total_needed
first_tick s g gs v r w c h =
    let free = all_free s v r in
    let room = one_fits s g (length gs) c (omega (arith, free)) in
    let a = schedule_loop-AdmitsAll (g ∷ gs) s v w c (omega (arith, free)) in
    (
      a,
      rw (preempt_idle s v (ap (λ gs. first_answer gs s) w ∙ room))
          (rw (schedule_queue s (g ∷ gs) w) (rw a.returns refl)),
    )

-- On a scheduler with nobody running, a queue that is not empty, that all blocks and the limit on
-- groups are enough for, and in which each group is `n` tokens short of its limit, leaves as a whole,
-- in its order, `n` ticks after the next.
pub batch-Answered :
    (n : ℕ) (s : Scheduler) (g : SequenceGroup) (gs : List SequenceGroup)
    → Inv s
    → s.running ≡ []
    → s.waiting ≡ g ∷ gs
    → 0 < s.ticks
    → HasSeats s (suc (length gs))
    → total_needed s.config.block_size (g ∷ gs) ≤ s.block_manager.total_blocks
    → All (IsShort n) (g ∷ gs)
    → Answered s (map (finished_after n) (g ∷ gs)) (run_due (suc n) s)
batch-Answered n s g gs v r w due c h short =
    let (a, tick) = first_tick (take_tick s) g gs (take_tick-Inv s v) r w c h in
    let short_new =
      bare-IsShort n a.new
        (subst (All (IsShort n)) (sym a.same_groups) (IsShort-bare n (g ∷ gs) short)) in
    let same : map (finished_after n) a.new ≡ map (finished_after n) (g ∷ gs) =
      sym (map-bare n a.new) ∙ ap (map (finished_after n)) a.same_groups ∙ map-bare n (g ∷ gs) in
    let some_new : 0 < length a.new =
      omega (arith, length-map bare a.new, ap length a.same_groups) in
    let running = a.runs.running ∙ ap (λ hs. hs ++ a.new) r in
    subst (λ hs. Answered s hs (run_due (suc n) s)) same
      (finishes_from n s a.after a.new due some_new tick
        (record {
          inv = a.runs.inv;
          no_waiting = a.runs.no_waiting;
          running = running;
          same_preempted = a.runs.same_preempted;
          same_config = a.runs.same_config;
          same_total = a.runs.same_total;
          same_done = a.runs.same_done;
        })
        short_new)

pub generated-grown :
    (n : ℕ) (g : SequenceGroup) → (grown n g).generated_tokens ≡ g.generated_tokens ++ replicate n 0
unfolding grown
generated-grown zero g = sym (append-nil g.generated_tokens)
generated-grown (suc n) g =
    generated-grown n (generate g) ∙ append_assoc g.generated_tokens (0 ∷ []) (replicate n 0)

pub future-grown :
    (n : ℕ) (g : SequenceGroup)
    → ((grown n g).completion_future ≡ g.completion_future)
      × ((grown n g).request_id ≡ g.request_id)
unfolding grown
future-grown zero g = (refl, refl)
future-grown (suc n) g = future-grown n (generate g)
