-- ===== src/BlockManager/Prefix.antt =====
-- src/cache/block_manager.py: `allocate_prefix`, and the `free` that follows.
use vllm_rocm.Common.{
  ℕ, ◌+◌, ◌≤◌, ◌<◌, ◌≡◌, refl, ap, none, some, List, ◌∷◌, [], length, get_elem?, set, count,
  length-set, get_elem?-set, get_elem?-lt, get_elem?-some, ◌==◌, if◌then◌else◌, Result, return,
  arith,
}
use vllm_rocm.BlockManager.{
  Block, BlockManager, free_blocks, change_block, share_block, share_all, allocate_prefix,
}
use vllm_rocm.BlockManager.Accounting.{Accounted, Accounted-same, plus_one}
use vllm_rocm.BlockManager.Allocate.{allocate-Granted}

pub record Shared (m : BlockManager) (held : ℕ → ℕ) (result : Result (Unit {0}) × BlockManager)
    : Type 0 where
  pub after : BlockManager
  pub returns : result ≡ (return tt, after)
  pub accounted : Accounted after held
  pub same_free : after.free_block_ids ≡ m.free_block_ids
  pub same_total : after.total_blocks ≡ m.total_blocks

-- One round: block `bid`, which is held, gains a reference.
module _ (m : BlockManager) (held : ℕ → ℕ) (bid : ℕ) (b : Block) (a : Accounted m held)
    (some_held : 0 < held bid) (g : get_elem? m.blocks bid ≡ some b) where
  abbrev shared_once : BlockManager
  shared_once = record m { blocks = set m.blocks bid (share_block b) }

  shared_once-Accounted : Accounted shared_once (plus_one bid held)
  shared_once-Accounted = record {
    sized = omega (arith, a.sized, length-set m.blocks bid (share_block b));
    free_once = λ i. ground (arith, a.free_once i);
    in_range = λ i p. ground (arith, a.in_range i);
    flagged = λ i v p. ground (arith, reads i, a.flagged i v, a.flagged bid b);
    counted = λ i v p q. ground (arith, reads i, a.counted i v, a.counted bid b);
  }
    where
      reads :
          (i : ℕ)
          → get_elem? (set m.blocks bid (share_block b)) i
            ≡ (if bid == i then some (share_block b) else get_elem? m.blocks i)
      reads i = get_elem?-set m.blocks bid i (share_block b) (get_elem?-lt m.blocks bid b g)

  Shared-cons :
      (ids : List ℕ)
      → Shared shared_once (λ i. count i ids + plus_one bid held i) (share_all ids shared_once)
      → Shared m (λ i. count i (bid ∷ ids) + held i) (share_all (bid ∷ ids) m)
  unfolding share_all change_block
  Shared-cons ids rest = record {
    after = rest.after;
    returns = rw (g, change_block) rest.returns;
    accounted = Accounted-same rest.after _ _ (λ i. omega arith) rest.accounted;
    same_free = rest.same_free;
    same_total = rest.same_total;
  }

share_all-Shared :
    (m : BlockManager) (held : ℕ → ℕ) (ids : List ℕ)
    → Accounted m held
    → ((i : ℕ) → 0 < count i ids → 0 < held i)
    → Shared m (λ i. count i ids + held i) (share_all ids m)
unfolding share_all
share_all-Shared m held [] a h = record {
  after = m;
  returns = refl;
  accounted = Accounted-same m held _ (λ i. omega arith) a;
  same_free = refl;
  same_total = refl;
}
share_all-Shared m held (bid ∷ ids) a h =
    let some_held : 0 < held bid = h bid (ground arith) in
    let (b, g) = get_elem?-some m.blocks bid (omega (arith, a.sized, a.in_range bid)) in
    Shared-cons m held bid b a some_held g ids (
      share_all-Shared (shared_once m held bid b a some_held g) (plus_one bid held) ids
        (shared_once-Accounted m held bid b a some_held g) (λ i p. ground (arith, h i)))

-- While the books are right and enough blocks are free, `allocate_prefix` returns; the blocks are
-- fresh, distinct, and referred to twice each.
pub allocate_prefix-Accounted :
    (m : BlockManager) (held : ℕ → ℕ) (n : ℕ)
    → Accounted m held
    → n ≤ free_blocks m
    → (ids : List ℕ) × (m' : BlockManager) × (allocate_prefix n m ≡ (return ids, m'))
      × (length ids ≡ n)
      × ((i : ℕ) → 0 < count i ids → (count i ids ≡ 1) × (held i ≡ 0))
      × Accounted m' (λ i. count i ids + (count i ids + held i))
      × (free_blocks m' + n ≡ free_blocks m)
unfolding allocate_prefix
allocate_prefix-Accounted m held n a h =
    let g = allocate-Granted m held none n a h in
    let s =
      share_all-Shared g.after (λ i. count i g.ids + held i) g.ids g.accounted
        (λ i p. omega arith) in
    (
      g.ids,
      s.after,
      rw g.returns (rw s.returns refl),
      g.length_ids,
      λ i p. (omega (arith, g.distinct i), g.unheld i p),
      s.accounted,
      omega (arith, g.free_left, ap length s.same_free),
    )
