-- ===== src/BlockManager/Accounting.antt =====
-- What the free list, the flags and the reference counts say of each block, against the number of
-- references that the manager's clients hold to it; and one step of each loop.
use Prim.Native.String.{String}
use vllm_rocm.Common.{
  ℕ, suc, ◌+◌, ◌<◌, ◌≡◌, refl, ap, ◌∙◌, ◌&&◌, Option, some, List, ◌∷◌, [], length, get_elem?, set,
  pop_last, count, count-append, length-append, length-set, get_elem?-set, get_elem?-some,
  get_elem?-lt, pop_last-cases, ltb, ◌==◌, if◌then◌else◌, return, inl, inr, arith, Result,
}
use mathlib.Core.Option
use vllm_rocm.Common.Int.{pos}
use vllm_rocm.BlockManager.{
  Block, BlockManager, free_blocks, take_block, change_block, pop_free, allocate_one,
}

-- `held i` is the number of references to block `i`. A block with none stands in the free list
-- exactly once; a block with some exists, is not in the free list, and counts them.
pub record Accounted (m : BlockManager) (held : ℕ → ℕ) : Type 0 where
  pub sized : length m.blocks ≡ m.total_blocks
  pub free_once :
      (i : ℕ) → count i m.free_block_ids ≡ (if held i == 0 && ltb i m.total_blocks then 1 else 0)
  pub in_range : (i : ℕ) → 0 < held i → i < m.total_blocks
  pub flagged : (i : ℕ) (b : Block) → get_elem? m.blocks i ≡ some b → b.is_free ≡ (held i == 0)
  pub counted :
      (i : ℕ) (b : Block) → get_elem? m.blocks i ≡ some b → 0 < held i → b.ref_count ≡ pos (held i)

pub Accounted-same :
    (m : BlockManager) (held held' : ℕ → ℕ)
    → ((i : ℕ) → held i ≡ held' i)
    → Accounted m held
    → Accounted m held'
Accounted-same m held held' e a = record {
  sized = a.sized;
  free_once = λ i. ground (arith, e i, a.free_once i);
  in_range = λ i h. ground (arith, e i, a.in_range i);
  flagged = λ i b g. ground (arith, e i, a.flagged i b g);
  counted = λ i b g h. ground (arith, e i, a.counted i b g);
}

abbrev pub plus_one : ℕ → (ℕ → ℕ) → ℕ → ℕ
plus_one bid held i = (if bid == i then 1 else 0) + held i

allocate_one_lem :
    (m : BlockManager) (owner : Option String) (rest : List ℕ) (bid : ℕ) (b : Block)
    → pop_last m.free_block_ids ≡ some (rest, bid)
    → get_elem? m.blocks bid ≡ some b
    → allocate_one owner m ≡ (
      return bid,
      record m { free_block_ids = rest; blocks = set m.blocks bid (take_block owner b) },
    )
unfolding allocate_one pop_free change_block
allocate_one_lem m owner rest bid b p g = rw (p, pop_free) (rw (g, change_block) refl)

-- What a round of `allocate` leaves: block `bid` gained its one reference.
pub record Took (m : BlockManager) (held : ℕ → ℕ) (owner : Option String) (k : ℕ)
    (result : Result ℕ × BlockManager) : Type 0 where
  pub bid : ℕ
  pub after : BlockManager
  pub returns : result ≡ (return bid, after)
  pub accounted : Accounted after (plus_one bid held)
  pub unheld : held bid ≡ 0
  pub free_left : free_blocks after ≡ k
  pub same_total : after.total_blocks ≡ m.total_blocks
  pub same_swap : after.swap_blocks ≡ m.swap_blocks
  pub reads :
      (i : ℕ)
      → get_elem? after.blocks i ≡ (
          if bid == i
          then Option.map (take_block owner) (get_elem? m.blocks i)
          else get_elem? m.blocks i)

pub allocate_one-Took :
    (m : BlockManager) (held : ℕ → ℕ) (owner : Option String) (k : ℕ)
    → Accounted m held
    → free_blocks m ≡ suc k
    → Took m held owner k (allocate_one owner m)
allocate_one-Took m held owner k a h = elim (pop_last-cases m.free_block_ids) [
  | inl (e, _) ↦ absurd (omega (arith, ap length e))
  | inr (rest, bid, e, p) ↦
      let c : count bid m.free_block_ids ≡ count bid rest + 1 =
        ap (count bid) e ∙ grind (arith, count-append bid rest (bid ∷ [])) in
      let (b, g) = get_elem?-some m.blocks bid (ground (arith, a.free_once bid, c, a.sized)) in
      let b' = take_block owner b in
      let reads = λ (i : ℕ). get_elem?-set m.blocks bid i b' (get_elem?-lt m.blocks bid b g) in
      record {
        bid = bid;
        after = record m { free_block_ids = rest; blocks = set m.blocks bid b' };
        returns = allocate_one_lem m owner rest bid b p g;
        accounted = record {
          sized = omega (arith, a.sized, length-set m.blocks bid b');
          free_once =
              λ i. ground (arith, a.free_once i, ap (count i) e, count-append i rest (bid ∷ []));
          in_range = λ i h'. ground (arith, a.in_range i, a.free_once bid, c);
          flagged = λ i v g'. ground (arith, reads i, a.flagged i v);
          counted = λ i v g' h'. ground (arith, reads i, a.counted i v, a.free_once bid, c);
        };
        unheld = ground (arith, a.free_once bid, c);
        free_left = omega (arith, ap length e, length-append rest (bid ∷ []));
        same_total = refl;
        same_swap = refl;
        reads = λ i. ground (arith, reads i, g);
      }
]
