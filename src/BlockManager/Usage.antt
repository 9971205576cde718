-- ===== src/BlockManager/Usage.antt =====
-- The new manager, and how the free list measures the blocks in use.
use vllm_rocm.Common.{
  ℕ, zero, suc, ◌+◌, ◌≤◌, ◌<◌, ◌≡◌, refl, ap, ◌∙◌, Option, none, some, List, ◌∷◌, [], map, length,
  get_elem?, count, range, length-range, count-range, get_elem?-none, get_elem?-lt, if◌then◌else◌,
  arith, true, Option-cases, inl, inr,
}
use vllm_rocm.Common.Int.{pos}
use vllm_rocm.Config.{EngineConfig}
use vllm_rocm.BlockManager.{
  Block, BlockManager, free_blocks, used_blocks, fresh_block, estimate_num_blocks, init,
}
use vllm_rocm.BlockManager.Accounting.{Accounted}

length-map_fresh : (ids : List ℕ) → length (map fresh_block ids) ≡ length ids
length-map_fresh [] = refl
length-map_fresh (i ∷ ids) = ap suc (length-map_fresh ids)

get_elem?-map_fresh :
    (ids : List ℕ) (i : ℕ) (b : Block)
    → get_elem? (map fresh_block ids) i ≡ some b
    → b.is_free ≡ true
get_elem?-map_fresh [] i b h = cc
get_elem?-map_fresh (x ∷ ids) zero b h = ground arith
get_elem?-map_fresh (x ∷ ids) (suc i) b h = get_elem?-map_fresh ids i b h

-- A new manager has every block free, and nobody holds any; an explicit block count is taken as it
-- is, and an estimate is never below 64 blocks.
pub init-Accounted :
    (config : EngineConfig) (available : Option ℕ)
    → Accounted (init config available) (λ i. 0)
      × (0 < config.num_kv_cache_blocks
          → free_blocks (init config available) ≡ config.num_kv_cache_blocks)
      × (config.num_kv_cache_blocks ≡ 0 → 64 ≤ free_blocks (init config available))
unfolding init estimate_num_blocks
init-Accounted config available =
    let m = init config available in
    (
      record {
        sized = length-map_fresh (range 0 m.total_blocks) ∙ length-range 0 m.total_blocks;
        free_once = λ i. ground (arith, count-range i 0 m.total_blocks);
        in_range = λ i h. absurd (omega arith);
        flagged = λ i b h. get_elem?-map_fresh (range 0 m.total_blocks) i b h;
        counted = λ i b h p. absurd (omega arith);
      },
      λ h. ground (arith, length-range 0 m.total_blocks),
      λ h. ground (arith, length-range 0 m.total_blocks),
    )

-- How many blocks carry the flag.
pub num_used : List Block → ℕ
num_used [] = 0
num_used (b ∷ bs) = (if b.is_free then 0 else 1) + num_used bs

abbrev free_at : List Block → ℕ → ℕ
free_at bs i = elim (get_elem? bs i) [ none ↦ 0 | some b ↦ if b.is_free then 1 else 0 ]

-- The numbers of the list that are not zero, less one.
lower : List ℕ → List ℕ
lower [] = []
lower (zero ∷ xs) = lower xs
lower (suc x ∷ xs) = x ∷ lower xs

length-lower : (xs : List ℕ) → length xs ≡ count 0 xs + length (lower xs)
unfolding lower
length-lower [] = refl
length-lower (zero ∷ xs) = ground (arith, length-lower xs)
length-lower (suc x ∷ xs) = ground (arith, length-lower xs)

count-lower : (i : ℕ) (xs : List ℕ) → count i (lower xs) ≡ count (suc i) xs
unfolding lower
count-lower i [] = refl
count-lower i (zero ∷ xs) = ground (arith, count-lower i xs)
count-lower i (suc x ∷ xs) = ground (arith, count-lower i xs)

no_counts : (xs : List ℕ) → ((i : ℕ) → count i xs ≡ 0) → length xs ≡ 0
no_counts [] h = refl
no_counts (x ∷ xs) h = absurd (ground (arith, h x))

length-num_used :
    (bs : List Block) (xs : List ℕ)
    → ((i : ℕ) → count i xs ≡ free_at bs i)
    → length xs + num_used bs ≡ length bs
unfolding num_used
length-num_used [] xs h = omega (arith, no_counts xs h)
length-num_used (b ∷ bs) xs h =
    ground (
      arith,
      h 0,
      length-lower xs,
      length-num_used bs (lower xs) (λ i. count-lower i xs ∙ h (suc i)),
    )

free_at-Accounted :
    (m : BlockManager) (held : ℕ → ℕ) (i : ℕ)
    → Accounted m held
    → count i m.free_block_ids ≡ free_at m.blocks i
free_at-Accounted m held i a = elim (Option-cases (get_elem? m.blocks i)) [
  | inl e ↦ ground (arith, a.free_once i, a.sized, get_elem?-none m.blocks i e)
  | inr (b, e) ↦
      ground (arith, a.free_once i, a.sized, get_elem?-lt m.blocks i b e, a.flagged i b e)
]

-- While the books are right, `used_blocks` is never negative: it is the number of blocks whose flag
-- says that they are in use.
pub used_blocks-num_used :
    (m : BlockManager) (held : ℕ → ℕ) → Accounted m held → used_blocks m ≡ pos (num_used m.blocks)
unfolding used_blocks
used_blocks-num_used m held a =
    let e = length-num_used m.blocks m.free_block_ids (λ i. free_at-Accounted m held i a) in
    ground (arith, e, a.sized)

pub free_blocks-le_total :
    (m : BlockManager) (held : ℕ → ℕ) → Accounted m held → free_blocks m ≤ m.total_blocks
free_blocks-le_total m held a =
    let e = length-num_used m.blocks m.free_block_ids (λ i. free_at-Accounted m held i a) in
    omega (arith, e, a.sized)
