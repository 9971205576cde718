-- ===== src/BlockManager/Allocate.antt =====
-- `allocate`, `allocate_prefix` and `can_allocate` against the references that they hand out.
use Prim.Native.String.{String}
use mathlib.Core.Option
use vllm_rocm.Common.{
  ℕ, zero, suc, ◌+◌, ◌≤◌, ◌<◌, ◌≡◌, refl, subst, ◌∙◌, ◌↔◌, ◌-◌, false, Option, List, ◌∷◌, [],
  length, get_elem?, count, has, if◌then◌else◌, Result, return, raise, value_error, arith,
  Bool-cases, inl, inr, leb→le, le→ltb,
}
use vllm_rocm.BlockManager.{
  BlockManager, free_blocks, take_block, allocate_one, allocate_loop, allocate, can_allocate,
}
use vllm_rocm.BlockManager.Accounting.{Accounted, Accounted-same, plus_one, Took, allocate_one-Took}

-- What a successful `allocate` of `n` blocks leaves.
pub record Granted (m : BlockManager) (held : ℕ → ℕ) (owner : Option String) (n : ℕ)
    (result : Result (List ℕ) × BlockManager) : Type 0 where
  pub ids : List ℕ
  pub after : BlockManager
  pub returns : result ≡ (return ids, after)
  pub accounted : Accounted after (λ i. count i ids + held i)
  pub length_ids : length ids ≡ n
  pub distinct : (i : ℕ) → count i ids ≤ 1
  pub unheld : (i : ℕ) → 0 < count i ids → held i ≡ 0
  pub free_left : free_blocks after + n ≡ free_blocks m
  pub same_total : after.total_blocks ≡ m.total_blocks
  pub same_swap : after.swap_blocks ≡ m.swap_blocks
  pub reads :
      (i : ℕ)
      → get_elem? after.blocks i ≡ (
          if has i ids
          then Option.map (take_block owner) (get_elem? m.blocks i)
          else get_elem? m.blocks i)

Granted-cons :
    (m : BlockManager) (held : ℕ → ℕ) (owner : Option String) (n k : ℕ)
    → (t : Took m held owner k (allocate_one owner m))
    → Granted t.after (plus_one t.bid held) owner n (allocate_loop n owner t.after)
    → free_blocks m ≡ suc k
    → Granted m held owner (suc n) (allocate_loop (suc n) owner m)
unfolding allocate_loop
Granted-cons m held owner n k t g h = record {
  ids = t.bid ∷ g.ids;
  after = g.after;
  returns = rw (t.returns, g.returns) refl;
  accounted = Accounted-same g.after _ _ (λ i. omega arith) g.accounted;
  length_ids = omega (arith, g.length_ids);
  distinct = λ i. ground (arith, g.distinct i, g.unheld i);
  unheld = λ i h'. ground (arith, g.unheld i, t.unheld);
  free_left = omega (arith, g.free_left, t.free_left);
  same_total = g.same_total ∙ t.same_total;
  same_swap = g.same_swap ∙ t.same_swap;
  reads = λ i. ground (arith, g.reads i, t.reads i);
}

allocate_loop-Granted :
    (m : BlockManager) (held : ℕ → ℕ) (owner : Option String) (n : ℕ)
    → Accounted m held
    → n ≤ free_blocks m
    → Granted m held owner n (allocate_loop n owner m)
unfolding allocate_loop
allocate_loop-Granted m held owner zero a h = record {
  ids = [];
  after = m;
  returns = refl;
  accounted = Accounted-same m held _ (λ i. omega arith) a;
  length_ids = refl;
  distinct = λ i. omega arith;
  unheld = λ i h'. absurd (omega arith);
  free_left = omega arith;
  same_total = refl;
  same_swap = refl;
  reads = λ i. refl;
}
allocate_loop-Granted m held owner (suc n) a h =
    let k = free_blocks m - 1 in
    let t = allocate_one-Took m held owner k a (omega arith) in
    Granted-cons m held owner n k t
      (allocate_loop-Granted t.after _ owner n t.accounted (omega (arith, t.free_left)))
      (omega arith)

-- While the books are right and enough blocks are free, `allocate` returns as many distinct ids as
-- were asked for, of blocks that nobody held; each has its one reference and its owner now, and
-- nothing else changes.
pub allocate-Granted :
    (m : BlockManager) (held : ℕ → ℕ) (owner : Option String) (n : ℕ)
    → Accounted m held
    → n ≤ free_blocks m
    → Granted m held owner n (allocate n owner m)
unfolding allocate
allocate-Granted m held owner n a h = rw (le→ltb _ _ h) (allocate_loop-Granted m held owner n a h)

-- The books after an `allocate` that is known to return `ids`.
pub Granted-Accounted :
    (m m' : BlockManager) (held : ℕ → ℕ) (owner : Option String) (n : ℕ) (ids : List ℕ)
    → Granted m held owner n (allocate n owner m)
    → allocate n owner m ≡ (return ids, m')
    → Accounted m' (λ i. count i ids + held i)
Granted-Accounted m m' held owner n ids g e =
    let same : g.after ≡ m' = cc (g.returns, e) in
    let same_ids : g.ids ≡ ids = cc (g.returns, e) in
    subst (λ u. Accounted u (λ i. count i ids + held i)) same
      (subst (λ l. Accounted g.after (λ i. count i l + held i)) same_ids g.accounted)

-- While the books are right, `allocate` raises exactly where `can_allocate` says no, and then the
-- manager is as it was.
pub allocate_raises_iff :
    (m : BlockManager) (held : ℕ → ℕ) (owner : Option String) (n : ℕ)
    → Accounted m held
    → (can_allocate m n ≡ false) ↔ (allocate n owner m ≡ (raise value_error, m))
unfolding allocate
allocate_raises_iff m held owner n a = (
  λ h. ground arith,
  λ e. elim (Bool-cases (can_allocate m n)) [
    | inl yes' ↦
        let g = allocate-Granted m held owner n a (leb→le _ _ yes') in
        absurd (ground (arith, g.returns))
    | inr h ↦ h
  ],
)
