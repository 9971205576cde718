-- ===== src/ContinuousBatch.antt =====
-- src/vllm_rocm/scheduler.py. A method is an action on the scheduler's record; the lock is left out,
-- since every method holds it from its first line to its last. Priorities and times of creation are
-- natural numbers: only their order is used. `budget` is the whole part of
-- `max_total_tokens * preemption_budget`, which a number of tokens is under exactly if it is under
-- the product. Sequences differ in `seq_id`, so `list.remove`, which compares by value, finds the
-- sequence itself.
mod Tests
pub mod Weights
pub mod Preemption
pub mod Admit
pub mod Admission
pub mod Requests
pub mod Thrashing
pub mod Sorting
pub mod Ordering
pub mod Victims
use mathlib.Core.Option
use vllm_rocm.Common.{
  ℕ, zero, suc, ◌+◌, ◌-◌, Bool, true, false, ◌||◌, ◌&&◌, Option, none, some, List, [], ◌∷◌, ◌++◌,
  map, length, snoc, replicate, ltb, leb, ◌==◌, if◌then◌else◌, Result, return, raise, value_error,
  Action, pure, update, ◌>>=◌, ◌>>◌,
}
use vllm_rocm.Common.Dict

pub data RequestStatus : Type 0 where
  waiting running finished preempted : RequestStatus

pub record Sequence : Type 0 where
  pub seq_id : ℕ
  pub prompt_tokens : List ℕ
  pub generated_tokens : List ℕ
  pub status : RequestStatus
  pub created_at : ℕ
  pub max_tokens : ℕ
  pub priority : ℕ

abbrev pub total_tokens : Sequence → ℕ
total_tokens q = length q.prompt_tokens + length q.generated_tokens

abbrev pub has_status_finished : RequestStatus → Bool
has_status_finished RequestStatus.finished = true
has_status_finished RequestStatus.waiting = false
has_status_finished RequestStatus.running = false
has_status_finished RequestStatus.preempted = false

abbrev pub is_finished : Sequence → Bool
is_finished q = has_status_finished q.status || leb q.max_tokens (length q.generated_tokens)

pub record ContinuousBatchScheduler : Type 0 where
  pub max_batch_size : ℕ
  pub max_num_seqs : ℕ
  pub max_total_tokens : ℕ
  pub budget : ℕ
  pub waiting : List Sequence
  pub running : List (ℕ × Sequence)
  pub finished : List Sequence
  pub next_seq_id : ℕ

abbrev pub init : ℕ → ℕ → ℕ → ℕ → ContinuousBatchScheduler
init max_batch_size max_num_seqs max_total_tokens budget = record {
  max_batch_size = max_batch_size;
  max_num_seqs = max_num_seqs;
  max_total_tokens = max_total_tokens;
  budget = budget;
  waiting = [];
  running = [];
  finished = [];
  next_seq_id = 0;
}

abbrev pub new_sequence : ℕ → List ℕ → ℕ → ℕ → ℕ → Sequence
new_sequence seq_id prompt_tokens max_tokens priority now = record {
  seq_id = seq_id;
  prompt_tokens = prompt_tokens;
  generated_tokens = [];
  status = RequestStatus.waiting;
  created_at = now;
  max_tokens = max_tokens;
  priority = priority;
}

-- `now` is what `time.time` returns.
unfoldable pub add_request : List ℕ → ℕ → ℕ → ℕ → Action ContinuousBatchScheduler ℕ
add_request prompt_tokens max_tokens priority now s = (
  return s.next_seq_id,
  record s {
    next_seq_id = s.next_seq_id + 1;
    waiting = snoc s.waiting (new_sequence s.next_seq_id prompt_tokens max_tokens priority now);
  },
)

-- `sort` with a key, which is stable: `le x y` says that the key of `x` is at most that of `y`.
unfoldable pub insert_by : (Sequence → Sequence → Bool) → Sequence → List Sequence → List Sequence
insert_by le x [] = x ∷ []
insert_by le x (y ∷ ys) = if le x y then x ∷ y ∷ ys else y ∷ insert_by le x ys

unfoldable pub sort_by : (Sequence → Sequence → Bool) → List Sequence → List Sequence
sort_by le [] = []
sort_by le (x ∷ xs) = insert_by le x (sort_by le xs)

-- The key `-s.priority`.
abbrev pub urgent_first : Sequence → Sequence → Bool
urgent_first x y = leb y.priority x.priority

-- The key `(s.priority, -s.created_at)`.
abbrev pub victim_first : Sequence → Sequence → Bool
victim_first x y =
    ltb x.priority y.priority || ((x.priority == y.priority) && leb y.created_at x.created_at)

-- `sum(f(s) for s in xs)`
abbrev pub weigh : (Sequence → ℕ) → List Sequence → ℕ
weigh f [] = 0
weigh f (x ∷ xs) = f x + weigh f xs

-- `xs.remove(s)`, by the id.
unfoldable pub remove_seq : ℕ → List Sequence → Option (List Sequence)
remove_seq k [] = none
remove_seq k (x ∷ xs) =
    if x.seq_id == k then some xs else Option.map (λ ys. x ∷ ys) (remove_seq k xs)

-- The scheduler and the batch that `schedule` makes.
pub record Pass : Type 0 where
  pub scheduler : ContinuousBatchScheduler
  pub batch : List Sequence

abbrev pub with_status : RequestStatus → Sequence → Sequence
with_status status q = record q { status = status }

abbrev pub remove_from_batch : ℕ → Action Pass (Unit {0})
remove_from_batch k p = elim (remove_seq k p.batch) [
  | none ↦ (raise value_error, p)
  | some rest ↦ (return tt, record p { batch = rest })
]

abbrev pub remove_from_waiting : ℕ → Action Pass (Unit {0})
remove_from_waiting k p = elim (remove_seq k p.scheduler.waiting) [
  | none ↦ (raise value_error, p)
  | some rest ↦ (return tt, record p { scheduler = record p.scheduler { waiting = rest } })
]

abbrev pub stop_running : ℕ → Pass → Pass
stop_running k p = record p {
  scheduler = record p.scheduler { running = Dict.delete k p.scheduler.running };
}

abbrev pub requeue : Sequence → Pass → Pass
requeue q p = record p {
  scheduler = record p.scheduler {
    waiting = snoc p.scheduler.waiting (with_status RequestStatus.preempted q);
  };
}

-- The body of the loop of `_maybe_preempt`.
unfoldable pub preempt_one : Sequence → Action Pass (Unit {0})
preempt_one victim = do
  update (stop_running victim.seq_id)
  remove_from_batch victim.seq_id
  update (requeue victim)

-- The loop, with the total and the victims that are left. The total is that of the batch, so the
-- subtraction never goes below zero.
unfoldable pub preempt_loop : ℕ → List Sequence → Action Pass (Unit {0})
preempt_loop total [] = pure tt
preempt_loop total (v ∷ vs) = λ p.
    if ltb p.scheduler.budget total
    then (preempt_one v >> preempt_loop (total - total_tokens v) vs) p
    else (return tt, p)

unfoldable pub maybe_preempt : Action Pass (Unit {0})
maybe_preempt p =
    if leb (weigh total_tokens p.batch) p.scheduler.budget
    then (return tt, p)
    else preempt_loop (weigh total_tokens p.batch) (sort_by victim_first p.batch) p

-- Preempting where the next sequence would go over the limit.
unfoldable pub make_room : Sequence → Action Pass (Unit {0})
make_room q p =
    if ltb p.scheduler.max_total_tokens (weigh total_tokens p.batch + total_tokens q)
    then maybe_preempt p
    else (return tt, p)

abbrev pub start : Sequence → Pass → Pass
start q p = record {
  scheduler = record p.scheduler {
    running = Dict.put q.seq_id (with_status RequestStatus.running q) p.scheduler.running;
  };
  batch = snoc p.batch (with_status RequestStatus.running q);
}

unfoldable pub admit : Sequence → Action Pass (Unit {0})
admit q = do update (start q); remove_from_waiting q.seq_id

abbrev pub is_full : Pass → Bool
is_full p =
    leb p.scheduler.max_batch_size (length p.batch)
    || ltb p.scheduler.max_num_seqs (length p.batch + 1)

abbrev pub has_room : Sequence → Action Pass Bool
has_room q p =
    (return (leb (weigh total_tokens p.batch + total_tokens q) p.scheduler.max_total_tokens), p)

-- The loop of `schedule`, over its snapshot of the queue.
unfoldable pub schedule_loop : List Sequence → Action Pass (Unit {0})
schedule_loop [] = pure tt
schedule_loop (q ∷ rest) = λ p.
    if is_full p
    then (return tt, p)
    else (do
      make_room q
      fits ← has_room q
      if fits then (admit q >> schedule_loop rest) else pure tt)
        p

abbrev pub values : List (ℕ × Sequence) → List Sequence
values = map (λ e. e.1)

abbrev pub first_pass : ContinuousBatchScheduler → Pass
first_pass s = record {
  scheduler = record s { waiting = sort_by urgent_first s.waiting };
  batch = values s.running;
}

abbrev pub batch_of : Result (Unit {0}) × Pass → Result (List Sequence) × ContinuousBatchScheduler
batch_of (return u, p) = (return p.batch, p.scheduler)
batch_of (raise e, p) = (raise e, p.scheduler)

unfoldable pub schedule : Action ContinuousBatchScheduler (List Sequence)
schedule s = batch_of (schedule_loop (sort_by urgent_first s.waiting) (first_pass s))

-- `seq.generated_tokens.extend([0] * num_tokens)`
abbrev pub generate : ℕ → Sequence → Sequence
generate num_tokens q = record q { generated_tokens = q.generated_tokens ++ replicate num_tokens 0 }

unfoldable pub update_generated_tokens :
    ℕ → ℕ → ContinuousBatchScheduler → Option Sequence × ContinuousBatchScheduler
update_generated_tokens seq_id num_tokens s = elim (Dict.get seq_id s.running) [
  | none ↦ (none, s)
  | some q ↦
      let q' = generate num_tokens q in
      if is_finished q' || leb q'.max_tokens (length q'.generated_tokens)
      then (
        some (with_status RequestStatus.finished q'),
        record s {
          finished = snoc s.finished (with_status RequestStatus.finished q');
          running = Dict.delete seq_id s.running;
        },
      )
      else (none, record s { running = Dict.put seq_id q' s.running })
]

-- The numbers of `get_stats`.
pub record Stats : Type 0 where
  pub num_waiting : ℕ
  pub num_running : ℕ
  pub num_finished : ℕ
  pub running_tokens : ℕ
  pub limit : ℕ

abbrev pub get_stats : ContinuousBatchScheduler → Stats
get_stats s = record {
  num_waiting = length s.waiting;
  num_running = length s.running;
  num_finished = length s.finished;
  running_tokens = weigh total_tokens (values s.running);
  limit = s.max_total_tokens;
}
