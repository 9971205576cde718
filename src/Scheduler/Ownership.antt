-- ===== src/Scheduler/Ownership.antt =====
-- src/scheduler.py: who holds which block, and the invariant of the scheduler.
use vllm_rocm.Common.{
  ℕ, suc, ◌+◌, ◌≤◌, ◌<◌, ◌≡◌, refl, Option, none, some, List, [], ◌∷◌, ◌++◌, length, count, ltb,
  Result, return, arith, ◌⊎◌, inl, inr, Bool-cases,
}
use vllm_rocm.BlockManager.Accounting.{Accounted}
use vllm_rocm.Scheduler.{SequenceGroup, SeqStatus, Scheduler, total_len, pick_longest}

-- How many references to block `i` the groups hold.
abbrev pub owned : List SequenceGroup → ℕ → ℕ
owned [] i = 0
owned (g ∷ gs) i = count i g.block_ids + owned gs i

pub owned-append :
    (i : ℕ) (gs hs : List SequenceGroup) → owned (gs ++ hs) i ≡ owned gs i + owned hs i
owned-append i [] hs = omega arith
owned-append i (g ∷ gs) hs = omega (arith, owned-append i gs hs)

-- A predicate of every group of a list.
abbrev pub All : (SequenceGroup → Type 0) → List SequenceGroup → Type 0
All P [] = Unit {0}
All P (g ∷ gs) = P g × All P gs

pub All-append :
    (P : SequenceGroup → Type 0) (gs hs : List SequenceGroup)
    → All P gs
    → All P hs
    → All P (gs ++ hs)
All-append P [] hs p q = q
All-append P (g ∷ gs) hs p q = (p.0, All-append P gs hs p.1 q)

pub All-split :
    (P : SequenceGroup → Type 0) (gs hs : List SequenceGroup)
    → All P (gs ++ hs)
    → All P gs × All P hs
All-split P [] hs a = (tt, a)
All-split P (g ∷ gs) hs a = let b = All-split P gs hs a.1 in ((a.0, b.0), b.1)

-- A group on its way: within its token limit, its future pending.
abbrev pub IsGoing : SequenceGroup → Type 0
IsGoing g = (length g.generated_tokens ≤ g.max_tokens) × (g.completion_future ≡ none)

-- A group on its way that does not run: it holds no block.
abbrev pub IsQueued : SequenceGroup → Type 0
IsQueued g = (g.block_ids ≡ []) × IsGoing g

-- A group that has left: it holds no block, has all its tokens, and its future has them too.
abbrev pub IsComplete : SequenceGroup → Type 0
IsComplete g =
    (g.block_ids ≡ [])
    × (length g.generated_tokens ≡ g.max_tokens)
    × (g.completion_future ≡ some g.generated_tokens)
    × (g.status ≡ SeqStatus.finished)

-- The invariant: the block manager's books agree with what the running groups hold, no block has two
-- holders, and each group is as its list says.
pub record Inv (s : Scheduler) : Type 0 where
  pub positive : 0 < s.config.block_size
  pub accounted : Accounted s.block_manager (owned s.running)
  pub exclusive : (i : ℕ) → owned s.running i ≤ 1
  pub all_waiting : All IsQueued s.waiting
  pub all_running : All IsGoing s.running
  pub all_preempted : All IsQueued s.preempted
  pub all_done : All IsComplete s.done

-- What a method that keeps the invariant leaves: it returns, and changes neither the configuration
-- nor the number of blocks, and takes no group out of `preempted` or `done`.
pub record Keeps (s : Scheduler) (result : Result (Unit {0}) × Scheduler) (after : Scheduler)
    : Type 0 where
  pub returns : result ≡ (return tt, after)
  pub inv : Inv after
  pub same_config : after.config ≡ s.config
  pub same_total : after.block_manager.total_blocks ≡ s.block_manager.total_blocks
  pub victims : List SequenceGroup
  pub preempted_grows : after.preempted ≡ s.preempted ++ victims
  pub leavers : List SequenceGroup
  pub done_grows : after.done ≡ s.done ++ leavers

abbrev pub IsAtMost : ℕ → SequenceGroup → Type 0
IsAtMost n g = total_len g ≤ n

IsAtMost-mono :
    (m n : ℕ) (gs : List SequenceGroup) → m ≤ n → All (IsAtMost m) gs → All (IsAtMost n) gs
IsAtMost-mono m n [] h a = tt
IsAtMost-mono m n (g ∷ gs) h a = (omega arith, IsAtMost-mono m n gs h a.1)

-- What `pick_longest` takes out of a list that is not empty.
pub record Picked (gs : List SequenceGroup) (result : Option (SequenceGroup × List SequenceGroup))
    : Type 0 where
  pub victim : SequenceGroup
  pub rest : List SequenceGroup
  pub picks : result ≡ some (victim, rest)
  pub longest : All (IsAtMost (total_len victim)) gs
  pub all_going : All IsGoing gs → IsGoing victim × All IsGoing rest
  pub splits : (i : ℕ) → owned gs i ≡ count i victim.block_ids + owned rest i
  pub one_less : length gs ≡ suc (length rest)

Picked-cons :
    (g : SequenceGroup) (gs : List SequenceGroup)
    → Picked gs (pick_longest gs)
    → Picked (g ∷ gs) (pick_longest (g ∷ gs))
unfolding pick_longest
Picked-cons g gs p = elim (Bool-cases (ltb (total_len g) (total_len p.victim))) [
  | inl e ↦ record {
    victim = p.victim;
    rest = g ∷ p.rest;
    picks = rw (p.picks, pick_longest) (rw e);
    longest = (ground arith, p.longest);
    all_going = λ a. let b = p.all_going a.1 in (b.0, (a.0, b.1));
    splits = λ i. omega (arith, p.splits i);
    one_less = omega (arith, p.one_less);
  }
  | inr e ↦ record {
    victim = g;
    rest = gs;
    picks = rw (p.picks, pick_longest) (rw e);
    longest =
        (omega arith, IsAtMost-mono (total_len p.victim) (total_len g) gs (ground arith) p.longest);
    all_going = λ a. a;
    splits = λ i. refl;
    one_less = refl;
  }
]

-- `pick_longest` fails on no running group only; otherwise it takes out one that no other exceeds.
pub pick_longest-Picked :
    (gs : List SequenceGroup) → ((gs ≡ []) × (pick_longest gs ≡ none)) ⊎ Picked gs (pick_longest gs)
unfolding pick_longest
pick_longest-Picked [] = inl (refl, refl)
pick_longest-Picked (g ∷ gs) = elim (pick_longest-Picked gs) [
  | inl (e, p) ↦ inr (record {
    victim = g;
    rest = gs;
    picks = rw (p, pick_longest) refl;
    longest = (omega arith, rw e tt);
    all_going = λ a. a;
    splits = λ i. refl;
    one_less = refl;
  })
  | inr p ↦ inr (Picked-cons g gs p)
]
