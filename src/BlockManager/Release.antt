-- ===== src/BlockManager/Release.antt =====
-- src/cache/block_manager.py: `free`, against the references of its list.
use vllm_rocm.Common.{
  ℕ, suc, ◌+◌, ◌≤◌, ◌<◌, ◌≡◌, refl, ◌∙◌, some, List, ◌∷◌, [], get_elem?, set, set-set, snoc, count,
  count-append, length-append, length-set, get_elem?-set, get_elem?-lt, get_elem?-some, ◌==◌,
  Result, return, arith, Bool-cases, inl, inr, true, false,
}
use vllm_rocm.Common.Int.{pos, pred_ℤ, is_nonpositive}
use vllm_rocm.BlockManager.{
  Block, BlockManager, free_blocks, release_ref, clear_block, change_block, free_one, free,
}
use vllm_rocm.BlockManager.Accounting.{Accounted, Accounted-same, plus_one}

module _ (m : BlockManager) (bid : ℕ) (b : Block) (lt : bid < m.total_blocks)
    (g : get_elem? m.blocks bid ≡ some b) where
  free_one_last :
      is_nonpositive (pred_ℤ b.ref_count) ≡ true
      → free_one bid m ≡ (
        return tt,
        record m {
          blocks = set m.blocks bid (clear_block (release_ref b));
          free_block_ids = snoc m.free_block_ids bid;
        },
      )
  unfolding free_one change_block
  free_one_last h = ground (
    arith,
    get_elem?-set m.blocks bid bid (release_ref b) (get_elem?-lt m.blocks bid b g),
    set-set m.blocks bid (release_ref b) (clear_block (release_ref b)),
  )

  free_one_shared :
      is_nonpositive (pred_ℤ b.ref_count) ≡ false
      → free_one bid m ≡ (return tt, record m { blocks = set m.blocks bid (release_ref b) })
  unfolding free_one change_block
  free_one_shared h =
      ground (arith, get_elem?-set m.blocks bid bid (release_ref b) (get_elem?-lt m.blocks bid b g))

-- What dropping the references of `ids` leaves.
pub record Released (m : BlockManager) (held : ℕ → ℕ) (result : Result (Unit {0}) × BlockManager)
    : Type 0 where
  pub after : BlockManager
  pub returns : result ≡ (return tt, after)
  pub accounted : Accounted after held
  pub free_grows : free_blocks m ≤ free_blocks after
  pub same_total : after.total_blocks ≡ m.total_blocks
  pub same_swap : after.swap_blocks ≡ m.swap_blocks

free_one-Released :
    (m : BlockManager) (held : ℕ → ℕ) (bid : ℕ)
    → Accounted m (plus_one bid held)
    → Released m held (free_one bid m)
free_one-Released m held bid a =
    let lt : bid < m.total_blocks = ground (arith, a.in_range bid) in
    let (b, g) = get_elem?-some m.blocks bid (omega (arith, a.sized)) in
    let refs : b.ref_count ≡ pos (suc (held bid)) = ground (arith, a.counted bid b g) in
    let reads = λ (i : ℕ) (v : Block). get_elem?-set m.blocks bid i v (omega (arith, a.sized)) in
    elim (Bool-cases (held bid == 0)) [
      | inl e ↦
          let b' = clear_block (release_ref b) in
          record {
            after = record m {
              blocks = set m.blocks bid b';
              free_block_ids = snoc m.free_block_ids bid;
            };
            returns = free_one_last m bid b lt g (ground (arith, refs));
            accounted = record {
              sized = omega (arith, a.sized, length-set m.blocks bid b');
              free_once =
                  λ i. ground (arith, a.free_once i, count-append i m.free_block_ids (bid ∷ []));
              in_range = λ i h. ground (arith, a.in_range i);
              flagged = λ i v h. ground (arith, reads i b', a.flagged i v);
              counted = λ i v h p. ground (arith, reads i b', a.counted i v);
            };
            free_grows = omega (arith, length-append m.free_block_ids (bid ∷ []));
            same_total = refl;
            same_swap = refl;
          }
      | inr e ↦
          let b' = release_ref b in
          record {
            after = record m { blocks = set m.blocks bid b' };
            returns = free_one_shared m bid b lt g (ground (arith, refs));
            accounted = record {
              sized = omega (arith, a.sized, length-set m.blocks bid b');
              free_once = λ i. ground (arith, a.free_once i);
              in_range = λ i h. ground (arith, a.in_range i);
              flagged = λ i v h. ground (arith, reads i b', a.flagged i v, a.flagged bid b);
              counted = λ i v h p. ground (arith, reads i b', a.counted i v, refs);
            };
            free_grows = omega arith;
            same_total = refl;
            same_swap = refl;
          }
    ]

-- While the books are right and each id of the list stands for a reference that is held, as often
-- as it is listed, `free` returns and drops exactly these references; a block whose last one goes
-- joins the free list.
pub free-Released :
    (m : BlockManager) (held : ℕ → ℕ) (ids : List ℕ)
    → Accounted m (λ i. count i ids + held i)
    → Released m held (free ids m)
unfolding free
free-Released m held [] a = record {
  after = m;
  returns = refl;
  accounted = Accounted-same m _ held (λ i. omega arith) a;
  free_grows = omega arith;
  same_total = refl;
  same_swap = refl;
}
free-Released m held (bid ∷ ids) a =
    let held' = λ (i : ℕ). count i ids + held i in
    let one = free_one-Released m held' bid (Accounted-same m _ _ (λ i. omega arith) a) in
    let rest = free-Released one.after held ids one.accounted in
    record {
      after = rest.after;
      returns = rw (one.returns, rest.returns) refl;
      accounted = rest.accounted;
      free_grows = omega (arith, one.free_grows, rest.free_grows);
      same_total = rest.same_total ∙ one.same_total;
      same_swap = rest.same_swap ∙ one.same_swap;
    }
