-- ===== src/BlockManager/SwapIn.antt =====
-- `swap_in`: what it needs to take blocks back, what it does when one has gone to another sequence,
-- and that it undoes `swap_out`.
use vllm_rocm.Common.{
  ℕ, suc, ◌+◌, ◌≤◌, ◌<◌, ◌≡◌, refl, some, List, ◌∷◌, [], length, get_elem?, set, count, has,
  length-set, get_elem?-set, get_elem?-lt, get_elem?-some, remove?, remove?-cases, ◌==◌,
  if◌then◌else◌, Result, return, raise, value_error, arith, Option-cases, inl, inr, true, false,
}
use vllm_rocm.Common.Int.{pos}
use vllm_rocm.BlockManager.{
  Block, BlockManager, free_blocks, change_block, remove_key, swap_out, take_free, swap_in,
}
use vllm_rocm.BlockManager.Accounting.{Accounted, Accounted-same, plus_one}
use vllm_rocm.BlockManager.Swap.{mark_used, SwappedOut, swap_out-SwappedOut}

count-remove_key_ne :
    (i k : ℕ) (ks : List ℕ) → (k == i) ≡ false → count i (remove_key k ks) ≡ count i ks
count-remove_key_ne i k [] h = refl
count-remove_key_ne i k (x ∷ xs) h = ground (arith, count-remove_key_ne i k xs)

-- Block `i` can come back: it is in the swap space, nobody holds it, and its count is still the one
-- that it was swapped out with.
pub record Returnable (m : BlockManager) (held : ℕ → ℕ) (i : ℕ) : Type 0 where
  pub stored : has i m.swap_blocks ≡ true
  pub unheld : held i ≡ 0
  pub exists : i < m.total_blocks
  pub single : (b : Block) → get_elem? m.blocks i ≡ some b → b.ref_count ≡ pos 1

pub record SwappedIn (m : BlockManager) (held : ℕ → ℕ) (ids : List ℕ)
    (result : Result (List ℕ) × BlockManager) : Type 0 where
  pub after : BlockManager
  pub returns : result ≡ (return ids, after)
  pub accounted : Accounted after (λ i. count i ids + held i)
  pub free_less : free_blocks after + length ids ≡ free_blocks m
  pub same_total : after.total_blocks ≡ m.total_blocks

-- One round of `swap_in` at a key of the swap space.
swap_in_one : ℕ → BlockManager → Block → List ℕ → BlockManager
swap_in_one bid m b rest = record m {
  swap_blocks = remove_key bid m.swap_blocks;
  blocks = set m.blocks bid (mark_used b);
  free_block_ids = rest;
}

swap_in-cons :
    (m : BlockManager) (bid : ℕ) (ids : List ℕ) (b : Block) (rest new_ids : List ℕ)
    (m' : BlockManager)
    → has bid m.swap_blocks ≡ true
    → get_elem? m.blocks bid ≡ some b
    → remove? bid m.free_block_ids ≡ some rest
    → swap_in ids (swap_in_one bid m b rest) ≡ (return new_ids, m')
    → swap_in (bid ∷ ids) m ≡ (return (bid ∷ new_ids), m')
unfolding swap_in change_block take_free swap_in_one
swap_in-cons m bid ids b rest new_ids m' h g r e =
    rw (h, swap_in) (rw (g, change_block) (rw (r, take_free) (rw e refl)))

-- The round keeps the books, with one reference more, and touches no other block's entries.
module _ (m : BlockManager) (held : ℕ → ℕ) (bid : ℕ) (b : Block) (rest : List ℕ)
    (a : Accounted m held) (back : Returnable m held bid) (g : get_elem? m.blocks bid ≡ some b)
    (c : (i : ℕ) → count i m.free_block_ids ≡ (if bid == i then 1 else 0) + count i rest) where
  reads_after :
      (i : ℕ)
      → get_elem? (set m.blocks bid (mark_used b)) i
        ≡ (if bid == i then some (mark_used b) else get_elem? m.blocks i)
  reads_after i = get_elem?-set m.blocks bid i (mark_used b) (get_elem?-lt m.blocks bid b g)

  swap_in_one-Accounted : Accounted (swap_in_one bid m b rest) (plus_one bid held)
  unfolding swap_in_one
  swap_in_one-Accounted = record {
    sized = omega (arith, a.sized, length-set m.blocks bid (mark_used b));
    free_once = λ i. ground (arith, a.free_once i, c i, back.unheld, back.exists);
    in_range = λ i h. ground (arith, a.in_range i, back.exists);
    flagged = λ i v h. ground (arith, reads_after i, a.flagged i v);
    counted = λ i v h p. ground (arith, reads_after i, a.counted i v, back.single b, back.unheld);
  }

  swap_in_one-Returnable :
      (i : ℕ)
      → (bid == i) ≡ false
      → Returnable m held i
      → Returnable (swap_in_one bid m b rest) (plus_one bid held) i
  unfolding swap_in_one
  swap_in_one-Returnable i other r = record {
    stored = ground (arith, count-remove_key_ne i bid m.swap_blocks, r.stored);
    unheld = ground (arith, r.unheld);
    exists = r.exists;
    single = λ v h. ground (arith, reads_after i, r.single v);
  }

  SwappedIn-cons :
      (ids : List ℕ)
      → remove? bid m.free_block_ids ≡ some rest
      → length m.free_block_ids ≡ suc (length rest)
      → SwappedIn
          (swap_in_one bid m b rest)
          (plus_one bid held)
          ids
          (swap_in ids (swap_in_one bid m b rest))
      → SwappedIn m held (bid ∷ ids) (swap_in (bid ∷ ids) m)
  unfolding swap_in_one
  SwappedIn-cons ids e n more = record {
    after = more.after;
    returns = swap_in-cons m bid ids b rest ids more.after back.stored g e more.returns;
    accounted = Accounted-same more.after _ _ (λ i. omega arith) more.accounted;
    free_less = omega (arith, more.free_less);
    same_total = more.same_total;
  }

-- Distinct blocks that can come back do: `swap_in` returns their ids, and they have their one
-- reference again.
pub swap_in-SwappedIn :
    (m : BlockManager) (held : ℕ → ℕ) (ids : List ℕ)
    → Accounted m held
    → ((i : ℕ) → count i ids ≤ 1)
    → ((i : ℕ) → 0 < count i ids → Returnable m held i)
    → SwappedIn m held ids (swap_in ids m)
unfolding swap_in
swap_in-SwappedIn m held [] a once back = record {
  after = m;
  returns = refl;
  accounted = Accounted-same m held _ (λ i. omega arith) a;
  free_less = omega arith;
  same_total = refl;
}
swap_in-SwappedIn m held (bid ∷ ids) a once back =
    let r : Returnable m held bid = back bid (ground arith) in
    let (b, g) = get_elem?-some m.blocks bid (omega (arith, a.sized, r.exists)) in
    elim (remove?-cases bid m.free_block_ids) [
      | inl (absent, _) ↦ absurd (ground (arith, a.free_once bid, r.unheld, r.exists))
      | inr (rest, e, n, c) ↦ SwappedIn-cons m held bid b rest a r g c ids e n (
          swap_in-SwappedIn (swap_in_one bid m b rest) _ ids
            (swap_in_one-Accounted m held bid b rest a r g c) (λ i. ground (arith, once i))
            (λ i h.
              swap_in_one-Returnable m held bid b rest a r g c i (ground (arith, once i))
                (back i (ground arith))))
    ]

-- While the books are right and the holder of some blocks alone refers to them, `swap_in` right
-- after `swap_out` undoes it: the same ids come back, and the books are those of before.
pub swap_in-swap_out :
    (m : BlockManager) (held : ℕ → ℕ) (ids : List ℕ)
    → Accounted m (λ i. count i ids + held i)
    → ((i : ℕ) → 0 < count i ids → count i ids + held i ≡ 1)
    → (m₁ m₂ : BlockManager) × (swap_out ids m ≡ (return tt, m₁))
      × (swap_in ids m₁ ≡ (return ids, m₂))
      × Accounted m₂ (λ i. count i ids + held i)
      × (free_blocks m₂ ≡ free_blocks m)
swap_in-swap_out m held ids a only =
    let out = swap_out-SwappedOut m held ids a only in
    let single =
      λ (i : ℕ) (b : Block) (listed : 0 < count i ids) (g : get_elem? out.after.blocks i ≡ some b).
        returning i b out a only listed g in
    let back =
      swap_in-SwappedIn out.after held ids out.accounted (λ i. ground (arith, only i))
        (λ i h. record {
          stored = ground (arith, out.stored i);
          unheld = ground (arith, only i);
          exists = ground (arith, out.same_total, a.in_range i);
          single = λ b g. single i b h g;
        }) in
    (
      out.after,
      back.after,
      out.returns,
      back.returns,
      back.accounted,
      omega (arith, back.free_less, out.free_more),
    )
  where
    returning :
        (i : ℕ) (b : Block)
        → (out : SwappedOut m held ids (swap_out ids m)) → Accounted m (λ i. count i ids + held i)
        → ((i : ℕ) → 0 < count i ids → count i ids + held i ≡ 1)
        → 0 < count i ids
        → get_elem? out.after.blocks i ≡ some b
        → b.ref_count ≡ pos 1
    returning i b out a only listed g = elim (Option-cases (get_elem? m.blocks i)) [
      | inl e ↦ absurd (ground (arith, out.reads i))
      | inr (v, e) ↦ ground (arith, out.reads i, a.counted i v e, only i listed)
    ]

-- While the books are right, a block of the swap space that went to another sequence in between
-- cannot come back: `swap_in` raises ValueError, and by then it has dropped the block's key, and
-- with it the data, from the swap space.
pub swap_in_reused :
    (m : BlockManager) (held : ℕ → ℕ) (bid : ℕ) (ids : List ℕ)
    → Accounted m held
    → has bid m.swap_blocks ≡ true
    → 0 < held bid
    → (m' : BlockManager) × (swap_in (bid ∷ ids) m ≡ (raise value_error, m'))
      × (m'.swap_blocks ≡ remove_key bid m.swap_blocks)
unfolding swap_in change_block take_free
swap_in_reused m held bid ids a stored reused =
    let (b, g) = get_elem?-some m.blocks bid (omega (arith, a.sized, a.in_range bid)) in
    elim (remove?-cases bid m.free_block_ids) [
      | inl (absent, e) ↦ (
        record m {
          swap_blocks = remove_key bid m.swap_blocks;
          blocks = set m.blocks bid (mark_used b);
        },
        rw (stored, swap_in) (rw (g, change_block) (rw (e, take_free) refl)),
        refl,
      )
      | inr (rest, e, n, c) ↦ absurd (ground (arith, a.free_once bid, c bid))
    ]
