-- ===== src/BlockManager/Swap.antt =====
-- `swap_out` and `swap_in`. Swapping out gives a block back whatever its reference count says, so it
-- keeps the books only for blocks with one reference; swapping in takes it from the free list.
use mathlib.Core.Option
use vllm_rocm.Common.{
  ℕ, ◌+◌, ◌<◌, ◌≡◌, refl, ◌∙◌, ◌||◌, some, List, ◌∷◌, [], length, get_elem?, set, snoc, count, has,
  count-append, length-append, length-set, get_elem?-set, get_elem?-lt, get_elem?-some, ◌==◌,
  if◌then◌else◌, Result, return, arith, true, false,
}
use vllm_rocm.BlockManager.{
  Block, BlockManager, free_blocks, change_block, add_key, swap_out_one, swap_out,
}
use vllm_rocm.BlockManager.Accounting.{Accounted, Accounted-same, plus_one}

abbrev pub mark_free : Block → Block
mark_free b = record b { is_free = true }

abbrev pub mark_used : Block → Block
mark_used b = record b { is_free = false }

swap_out_one_lem :
    (m : BlockManager) (bid : ℕ) (b : Block)
    → get_elem? m.blocks bid ≡ some b
    → swap_out_one bid m ≡ (
      return tt,
      record m {
        swap_blocks = add_key bid m.swap_blocks;
        blocks = set m.blocks bid (mark_free b);
        free_block_ids = snoc m.free_block_ids bid;
      },
    )
unfolding swap_out_one change_block
swap_out_one_lem m bid b g = rw (g, change_block) refl

has-add_key : (i k : ℕ) (ks : List ℕ) → has i (add_key k ks) ≡ (k == i || has i ks)
has-add_key i k ks = ground (arith, count-append i ks (k ∷ []))

-- What swapping out `ids` leaves.
pub record SwappedOut (m : BlockManager) (held : ℕ → ℕ) (ids : List ℕ)
    (result : Result (Unit {0}) × BlockManager) : Type 0 where
  pub after : BlockManager
  pub returns : result ≡ (return tt, after)
  pub accounted : Accounted after held
  pub free_more : free_blocks after ≡ free_blocks m + length ids
  pub same_total : after.total_blocks ≡ m.total_blocks
  pub stored : (i : ℕ) → has i after.swap_blocks ≡ (has i ids || has i m.swap_blocks)
  pub reads :
      (i : ℕ)
      → get_elem? after.blocks i
        ≡ (if has i ids then Option.map mark_free (get_elem? m.blocks i) else get_elem? m.blocks i)

swap_out_one-SwappedOut :
    (m : BlockManager) (held : ℕ → ℕ) (bid : ℕ)
    → Accounted m (plus_one bid held)
    → held bid ≡ 0
    → SwappedOut m held (bid ∷ []) (swap_out_one bid m)
swap_out_one-SwappedOut m held bid a only =
    let lt : bid < m.total_blocks = ground (arith, a.in_range bid) in
    let (b, g) = get_elem?-some m.blocks bid (omega (arith, a.sized)) in
    let b' = mark_free b in
    let reads = λ (i : ℕ). get_elem?-set m.blocks bid i b' (get_elem?-lt m.blocks bid b g) in
    record {
      after = record m {
        swap_blocks = add_key bid m.swap_blocks;
        blocks = set m.blocks bid b';
        free_block_ids = snoc m.free_block_ids bid;
      };
      returns = swap_out_one_lem m bid b g;
      accounted = record {
        sized = omega (arith, a.sized, length-set m.blocks bid b');
        free_once = λ i. ground (arith, a.free_once i, count-append i m.free_block_ids (bid ∷ []));
        in_range = λ i h. ground (arith, a.in_range i);
        flagged = λ i v h. ground (arith, reads i, a.flagged i v);
        counted = λ i v h p. ground (arith, reads i, a.counted i v);
      };
      free_more = omega (arith, length-append m.free_block_ids (bid ∷ []));
      same_total = refl;
      stored = λ i. ground (arith, has-add_key i bid m.swap_blocks);
      reads = λ i. ground (arith, reads i, g);
    }

-- Blocks that their holder alone refers to are all free after `swap_out`, and their ids are keys of
-- the swap space.
pub swap_out-SwappedOut :
    (m : BlockManager) (held : ℕ → ℕ) (ids : List ℕ)
    → Accounted m (λ i. count i ids + held i)
    → ((i : ℕ) → 0 < count i ids → count i ids + held i ≡ 1)
    → SwappedOut m held ids (swap_out ids m)
unfolding swap_out
swap_out-SwappedOut m held [] a only = record {
  after = m;
  returns = refl;
  accounted = Accounted-same m _ held (λ i. omega arith) a;
  free_more = omega arith;
  same_total = refl;
  stored = λ i. refl;
  reads = λ i. refl;
}
swap_out-SwappedOut m held (bid ∷ ids) a only =
    let held' = λ (i : ℕ). count i ids + held i in
    let one =
      swap_out_one-SwappedOut m held' bid (Accounted-same m _ _ (λ i. omega arith) a)
        (ground (arith, only bid)) in
    let rest =
      swap_out-SwappedOut one.after held ids one.accounted (λ i h. ground (arith, only i)) in
    record {
      after = rest.after;
      returns = rw (one.returns, rest.returns) refl;
      accounted = rest.accounted;
      free_more = omega (arith, one.free_more, rest.free_more);
      same_total = rest.same_total ∙ one.same_total;
      stored = λ i. ground (arith, one.stored i, rest.stored i);
      reads = λ i. ground (arith, one.reads i, rest.reads i);
    }

-- While the books are right, a block with a second holder is given back by `swap_out` all the
-- same: it is in the free list while that holder still refers to it, and the books are wrong.
pub swap_out_shared :
    (m : BlockManager) (held : ℕ → ℕ) (bid : ℕ)
    → Accounted m (plus_one bid held)
    → 0 < held bid
    → (m' : BlockManager) × (swap_out (bid ∷ []) m ≡ (return tt, m'))
      × (count bid m'.free_block_ids ≡ 1)
      × (¬ Accounted m' held)
unfolding swap_out
swap_out_shared m held bid a shared =
    let lt : bid < m.total_blocks = ground (arith, a.in_range bid) in
    let (b, g) = get_elem?-some m.blocks bid (omega (arith, a.sized)) in
    let ids = snoc m.free_block_ids bid in
    let one : count bid ids ≡ 1 =
      ground (arith, a.free_once bid, count-append bid m.free_block_ids (bid ∷ [])) in
    (
      record m {
        swap_blocks = add_key bid m.swap_blocks;
        blocks = set m.blocks bid (mark_free b);
        free_block_ids = ids;
      },
      rw (swap_out_one_lem m bid b g) refl,
      one,
      λ a'. ground (arith, a'.free_once bid, one),
    )
