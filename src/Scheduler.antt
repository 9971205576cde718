-- ===== src/Scheduler.antt =====
-- src/scheduler.py. A method is an action on the scheduler's record. Texts are lists of code points.
-- The times, the sampling parameters and the log are left out: no method reads them.
pub mod Ownership
pub mod Preempt
pub mod PreemptLoop
pub mod Admit
pub mod Visits
pub mod RunStep
pub mod Tick
pub mod History
pub mod Safety
pub mod Starvation
pub mod Completion
pub mod Growth
pub mod Conservation
mod Tests
use Prim.Native.String.{String}
use vllm_rocm.Common.{
  ℕ, zero, suc, ◌+◌, ◌-◌, ◌/◌, Bool, true, false, ◌&&◌, ◌||◌, not, Option, none, some, List, [],
  ◌∷◌, ◌++◌, length, snoc, ltb, leb, ◌==◌, if◌then◌else◌, Result, return, raise,
  zero_division_error, Action, pure, update, ◌>>=◌, ◌>>◌,
}
use vllm_rocm.Config.{EngineConfig, PreemptionMode, recompute, swap}
use vllm_rocm.BlockManager.{BlockManager, free_blocks}
use vllm_rocm.BlockManager

pub data SeqStatus : Type 0 where
  waiting running preempted finished : SeqStatus

-- `prompt_len` is `input_ids.shape[1]`; the future is pending or holds its result.
pub record SequenceGroup : Type 0 where
  pub request_id : String
  pub prompt_len : ℕ
  pub max_tokens : ℕ
  pub stop : List (List ℕ)
  pub status : SeqStatus
  pub generated_tokens : List ℕ
  pub block_ids : List ℕ
  pub completion_future : Option (List ℕ)

abbrev pub total_len : SequenceGroup → ℕ
total_len g = g.prompt_len + length g.generated_tokens

-- `ticks` counts the calls of `_schedule_tick` that the event loop has been handed and not yet made.
-- `done` is no attribute: it keeps the groups that have left, whose callers hold the futures.
pub record Scheduler : Type 0 where
  pub config : EngineConfig
  pub block_manager : BlockManager
  pub waiting : List SequenceGroup
  pub running : List SequenceGroup
  pub preempted : List SequenceGroup
  pub ticks : ℕ
  pub done : List SequenceGroup

-- A group as a caller makes it, with the class's defaults.
abbrev pub new_group : String → ℕ → ℕ → List (List ℕ) → SequenceGroup
new_group request_id prompt_len max_tokens stop = record {
  request_id = request_id;
  prompt_len = prompt_len;
  max_tokens = max_tokens;
  stop = stop;
  status = SeqStatus.waiting;
  generated_tokens = [];
  block_ids = [];
  completion_future = none;
}

abbrev pub init : EngineConfig → BlockManager → Scheduler
init config block_manager = record {
  config = config;
  block_manager = block_manager;
  waiting = [];
  running = [];
  preempted = [];
  ticks = 0;
  done = [];
}

-- A call on `self.block_manager`.
abbrev pub with_blocks : {A : Type 0} → Action BlockManager A → Action Scheduler A
with_blocks act s = let (r, m) = act s.block_manager in (r, record s { block_manager = m })

abbrev pub call_tick : Action Scheduler (Unit {0})
call_tick = update (λ s. record s { ticks = s.ticks + 1 })

unfoldable pub add_request : SequenceGroup → Action Scheduler (Unit {0})
add_request g = do update (λ s. record s { waiting = snoc s.waiting g }); call_tick

-- Blocks for the sequence and one token more.
abbrev pub needed_blocks : ℕ → SequenceGroup → ℕ
needed_blocks block_size g =
    (g.prompt_len + length g.generated_tokens + 1 + block_size - 1) / block_size

-- `max_num_seqs` 0 means no limit.
unfoldable pub can_add : SequenceGroup → Action Scheduler Bool
can_add g s =
    if s.config.block_size == 0
    then (raise zero_division_error, s)
    else if ltb 0 s.config.max_num_seqs && leb s.config.max_num_seqs (length s.running)
    then (return false, s)
    else (return (leb (needed_blocks s.config.block_size g) (free_blocks s.block_manager)), s)

-- `max(running, key=total_len)`, the first of the longest, and `running` without it.
unfoldable pub pick_longest : List SequenceGroup → Option (SequenceGroup × List SequenceGroup)
pick_longest [] = none
pick_longest (g ∷ gs) = elim (pick_longest gs) [
  | none ↦ some (g, gs)
  | some (best, rest) ↦
      if ltb (total_len g) (total_len best) then some (best, g ∷ rest) else some (g, gs)
]

abbrev pub release_blocks : PreemptionMode → List ℕ → Action BlockManager (Unit {0})
release_blocks swap ids = BlockManager.swap_out ids
release_blocks recompute ids = BlockManager.free ids

abbrev pub evicted : SequenceGroup → SequenceGroup
evicted g = record g { block_ids = []; status = SeqStatus.preempted }

-- The body of the loop of `_preempt`, with the groups that stay.
unfoldable pub evict : SequenceGroup → List SequenceGroup → Action Scheduler (Unit {0})
evict victim rest s =
    (do
      with_blocks (release_blocks s.config.preemption_mode victim.block_ids)
      update (λ s. record s { running = rest; preempted = snoc s.preempted (evicted victim) }))
      s

-- The loop's test, `not self.waiting or self._can_add(self.waiting[0])`: it ends the loop.
abbrev pub first_fits : List SequenceGroup → Action Scheduler Bool
first_fits [] = pure true
first_fits (g ∷ _) = can_add g

abbrev pub head_fits : Action Scheduler Bool
head_fits s = first_fits s.waiting s

-- The loop of `_preempt`, on fuel: each round but the last takes one group out of `running`.
unfoldable pub preempt_loop : ℕ → Action Scheduler (Unit {0})
preempt_loop zero = pure tt
preempt_loop (suc n) = do
  fits ← head_fits
  λ s. elim fits [
    | true ↦ (return tt, s)
    | false ↦ elim (pick_longest s.running) [
      | none ↦ (return tt, s)
      | some (victim, rest) ↦ (evict victim rest >> preempt_loop n) s
    ]
  ]

unfoldable pub preempt : Action Scheduler (Unit {0})
preempt s = preempt_loop (suc (length s.running)) s

abbrev pub num_blocks : ℕ → SequenceGroup → ℕ
num_blocks block_size g = (total_len g + block_size - 1) / block_size

abbrev pub started : List ℕ → SequenceGroup → SequenceGroup
started ids g = record g { block_ids = ids; status = SeqStatus.running }

-- The body of the loop of `_schedule`, for the head of the queue and the rest of it.
unfoldable pub admit : SequenceGroup → List SequenceGroup → Action Scheduler (Unit {0})
admit g rest s =
    (do
      update (λ s. record s { waiting = rest })
      ids ← with_blocks (BlockManager.allocate (num_blocks s.config.block_size g) none)
      update (λ s. record s { running = snoc s.running (started ids g) }))
      s

-- The loop of `_schedule`, over the queue.
unfoldable pub schedule_loop : List SequenceGroup → Action Scheduler (Unit {0})
schedule_loop [] = pure tt
schedule_loop (g ∷ rest) = do
  fits ← can_add g
  if fits then (admit g rest >> schedule_loop rest) else pure tt

unfoldable pub schedule : Action Scheduler (Unit {0})
schedule s = schedule_loop s.waiting s

abbrev pub settle : List ℕ → Option (List ℕ) → Option (List ℕ)
settle tokens none = some tokens
settle tokens (some result) = some result

abbrev pub completed : SequenceGroup → SequenceGroup
completed g = record g {
  status = SeqStatus.finished;
  block_ids = [];
  completion_future = settle g.generated_tokens g.completion_future;
}

-- `_finish` for the group between `kept` and `todo` in `running`.
unfoldable pub finish :
    List SequenceGroup → SequenceGroup → List SequenceGroup → Action Scheduler (Unit {0})
finish kept g todo = do
  update (λ s. record s { running = kept ++ todo })
  with_blocks (BlockManager.free g.block_ids)
  update (λ s. record s { done = snoc s.done (completed g) })

-- `x in text`, for texts.
unfoldable pub is_prefix : List ℕ → List ℕ → Bool
is_prefix [] text = true
is_prefix (c ∷ x) [] = false
is_prefix (c ∷ x) (d ∷ text) = (c == d) && is_prefix x text

unfoldable pub is_in : List ℕ → List ℕ → Bool
is_in x [] = is_prefix x []
is_in x (d ∷ text) = is_prefix x (d ∷ text) || is_in x text

-- The stop check, over a group's stop texts. The code's `text_so_far` is the empty text.
unfoldable pub stop_hit : List ℕ → List (List ℕ) → Bool
stop_hit text [] = false
stop_hit text (x ∷ xs) = (ltb 0 (length x) && is_in x text) || stop_hit text xs

abbrev pub text_so_far : List ℕ
text_so_far = []

-- `seq.generated_tokens.append(token)`, with the placeholder token.
abbrev pub generate : SequenceGroup → SequenceGroup
generate g = record g { generated_tokens = snoc g.generated_tokens 0 }

-- One round of the loop of `_run_step`; the result is what of the visited groups stays in `running`.
unfoldable pub visit :
    List SequenceGroup → SequenceGroup → List SequenceGroup → Action Scheduler (List SequenceGroup)
visit kept g todo =
    if leb g.max_tokens (length g.generated_tokens)
    then finish kept g todo >> pure kept
    else if stop_hit text_so_far g.stop
    then finish kept (generate g) todo >> pure kept
    else (do
      update (λ s. record s { running = kept ++ generate g ∷ todo })
      pure (snoc kept (generate g)))

-- The loop of `_run_step` over its snapshot of `running`, which is `kept ++ todo` all along.
unfoldable pub run_loop : List SequenceGroup → List SequenceGroup → Action Scheduler (Unit {0})
run_loop kept [] = pure tt
run_loop kept (g ∷ todo) = do kept' ← visit kept g todo; run_loop kept' todo

-- The loop has no `break` of its own, so its `else` always schedules the next tick.
unfoldable pub run_step : Action Scheduler (Unit {0})
run_step s = elim s.running [ [] ↦ (return tt, s) | _ ↦ (run_loop [] s.running >> call_tick) s ]

unfoldable pub schedule_tick : Action Scheduler (Unit {0})
schedule_tick = do preempt; schedule; run_step

-- The event loop makes one of the calls that it was handed.
abbrev pub take_tick : Scheduler → Scheduler
take_tick s = record s { ticks = s.ticks - 1 }

-- `n` ticks in a row.
unfoldable pub run_ticks : ℕ → Action Scheduler (Unit {0})
run_ticks zero = pure tt
run_ticks (suc n) = (λ s. schedule_tick (take_tick s)) >> run_ticks n

abbrev pub num_waiting : Scheduler → ℕ
num_waiting s = length s.waiting

abbrev pub num_running : Scheduler → ℕ
num_running s = length s.running

abbrev pub num_preempted : Scheduler → ℕ
num_preempted s = length s.preempted
