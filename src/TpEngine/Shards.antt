-- ===== src/TpEngine/Shards.antt =====
-- `shard_weights` and `all_gather` along the rows: what the shards of all ranks are together.
use vllm_rocm.Common.{
  ℕ, zero, suc, ◌+◌, ◌*◌, ◌-◌, ◌/◌, ◌%◌, ◌≤◌, ◌<◌, ◌≡◌, refl, ap, ◌∙◌, sym, min, true, false, some,
  List, [], ◌∷◌, map, length, take, drop, get_elem?, get_elem?-some, range, ◌==◌, arith, Bool-cases,
  inl, inr, return,
}
use native.Mathlib.Nat.{mul-le-mul_right, suc-mul, div-add-mod}
use vllm_rocm.Common.Slices.{concat-slices, length-take}
use vllm_rocm.TpEngine.{TensorParallelEngine, Weight, pick, shard_weights, all_gather}

-- The engine of a rank after `init_distributed`.
abbrev pub engine_of : ℕ → ℕ → TensorParallelEngine
engine_of world_size rank = record { world_size = world_size; rank = rank; initialized = true }

module _ {A : Type 0} where
  drop-get :
      (xs : List A) (i : ℕ) (a : A) → get_elem? xs i ≡ some a → drop i xs ≡ a ∷ drop (suc i) xs
  drop-get [] i a h = absurd (cc)
  drop-get (x ∷ xs) zero a h = ground arith
  drop-get (x ∷ xs) (suc i) a h = drop-get xs i a h

  pick-range :
      (xs : List A) (start n : ℕ)
      → start + n ≤ length xs
      → pick xs (range start n) ≡ return (take n (drop start xs))
  unfolding pick range
  pick-range xs start zero h = refl
  pick-range xs start (suc n) h =
      let (a, g) = get_elem?-some xs start (omega arith) in
      rw (g, pick)
        (rw (pick-range xs (suc start) n (omega arith)) (rw (drop-get xs start a g) refl))

-- A rank's slice ends inside.
shard_fits : (size ws r : ℕ) → r < ws → r * (size / ws) + size / ws ≤ size
shard_fits size ws r h =
    let le : suc r ≤ ws = omega arith in
    omega (arith, mul-le-mul_right (size / ws) le, suc-mul r (size / ws), div-add-mod size ws)

module _ {T : Type 0} where
  abbrev pub shard_of : ℕ → List (List T) → ℕ → List (List T)
  shard_of world_size rows rank =
      let chunk_size = length rows / world_size in take chunk_size (drop (rank * chunk_size) rows)

  shard_weights_runs :
      (ws r : ℕ) (w : Weight T)
      → r < ws
      → shard_weights (engine_of ws r) w 0
        ≡ return (record { columns = w.columns; rows = shard_of ws w.rows r })
  unfolding shard_weights
  shard_weights_runs ws r w h =
      let c = length w.rows / ws in
      let fits = shard_fits (length w.rows) ws r h in
      let t : (ws == 0) ≡ false = ground arith in
      let n : min (r * c + c) (length w.rows) - r * c ≡ c = omega (arith, fits) in
      rw t (rw n (rw (pick-range w.rows (r * c) c fits) refl))

  -- With the engines of all ranks initialised, `shard_weights` along the rows gives each rank its
  -- slice, and `all_gather` of these shards gives, on every rank, the weight without its last
  -- `size % world_size` rows: the whole weight where the ranks divide it, and otherwise not.
  pub all_gather-shard_weights :
      (world_size : ℕ) (w : Weight T)
      → 0 < world_size
      → let size = length w.rows in
        let shards = map (shard_of world_size w.rows) (range 0 world_size) in
        ((r : ℕ)
          → r < world_size
          → (shard_weights (engine_of world_size r) w 0
              ≡ return (record { columns = w.columns; rows = shard_of world_size w.rows r }))
            × (all_gather (engine_of world_size r) (shard_of world_size w.rows r) shards
                ≡ take (size - size % world_size) w.rows))
        × (length (take (size - size % world_size) w.rows) + size % world_size ≡ size)
  unfolding all_gather
  all_gather-shard_weights ws w p =
      let size = length w.rows in
      let c = size / ws in
      let whole : ws * c ≡ size - size % ws = omega (arith, div-add-mod size ws) in
      let joined = concat-slices c 0 ws w.rows in
      let first : zero ≡ 0 * c = omega arith in
      (
        λ r h. (
          shard_weights_runs ws r w h,
          elim (Bool-cases (ws == 1)) [
            | inl t ↦
                let one : ws ≡ 1 = ground arith in
                let start : r * c ≡ 0 =
                  let z : r ≡ 0 = ground arith in ap (λ k. k * c) z ∙ sym first in
                let end : c ≡ size - size % ws =
                  let k : c ≡ 1 * c = omega arith in k ∙ ap (λ k. k * c) (sym one) ∙ whole in
                rw t (ap (λ n. take c (drop n w.rows)) start ∙ ap (λ n. take n w.rows) end)
            | inr t ↦ rw t (
                joined
                ∙ ap (λ n. take (ws * c) (drop n w.rows)) (sym first)
                ∙ ap (λ n. take n w.rows) whole)
          ],
        ),
        omega (arith, length-take (size - size % ws) w.rows, div-add-mod size ws),
      )
