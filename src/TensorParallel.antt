-- ===== src/TensorParallel.antt =====
-- src/tensor_parallel.py: the ranks, and the split of linear layers and attention heads. A weight is
-- a list of rows of type `R`, a bias a list of numbers of type `T`; torch.distributed is what its
-- calls answer, given as arguments.
mod Tests
pub mod Split
pub mod Forward
use vllm_rocm.Common.{
  ℕ, zero, suc, ◌+◌, ◌*◌, ◌-◌, ◌/◌, ◌%◌, Bool, true, false, not, ◌||◌, ◌&&◌, Option, none, some,
  List, [], ◌∷◌, length, Chars, codes, leb, ltb, ◌==◌, if◌then◌else◌, Result, return, raise,
  runtime_error, zero_division_error,
}
use vllm_rocm.Common.Slices.{slice, concat}
use vllm_rocm.Scheduler.{is_in}

pub record TensorParallelManager : Type 0 where
  pub world_size : ℕ
  pub rank : ℕ
  pub initialized : Bool

-- The rank of the process group is asked for only where this call makes the group.
unfoldable pub init_distributed :
    Bool → Bool → ℕ → TensorParallelManager → Result TensorParallelManager
init_distributed has_dist is_initialized group_rank m =
    if not has_dist
    then raise runtime_error
    else return
        (record m { rank = if is_initialized then m.rank else group_rank; initialized = true })

unfoldable pub init : Bool → Bool → ℕ → ℕ → Result TensorParallelManager
init has_dist is_initialized group_rank world_size =
    let m : TensorParallelManager = record {
      world_size = world_size;
      rank = 0;
      initialized = false;
    } in
    if ltb 1 world_size then init_distributed has_dist is_initialized group_rank m else return m

pub record Linear (R T : Type 0) : Type 0 where
  pub weight : List R
  pub bias : Option (List T)

abbrev pub split_bias : {T : Type 0} → ℕ → ℕ → Option (List T) → Option (List T)
split_bias start end none = none
split_bias start end (some bias) = some (slice start end bias)

unfoldable pub split_linear :
    {R T : Type 0} → TensorParallelManager → Linear R T → Result (Linear R T)
split_linear m l =
    let out_features = length l.weight in
    let chunk_size = out_features / m.world_size in
    let start = m.rank * chunk_size in
    if m.world_size == 0
    then raise zero_division_error
    else if out_features % m.world_size == 0
    then return (record {
      weight = slice start (start + chunk_size) l.weight;
      bias = split_bias start (start + chunk_size) l.bias;
    })
    else return l

-- The number of heads that a module has afterwards.
unfoldable pub split_attention : TensorParallelManager → ℕ → Result ℕ
split_attention m total_heads =
    if m.world_size == 0
    then raise zero_division_error
    else if total_heads % m.world_size == 0
    then return (total_heads / m.world_size)
    else return total_heads

-- A module of a model with its name: a linear layer, one with the attribute `num_heads`, or another.
pub data Module (R T : Type 0) : Type 0 where
  linear : Linear R T → Module R T
  heads : ℕ → Module R T
  other : Module R T

-- `name.lower()`, of a name in ASCII
abbrev pub lower : Chars → Chars
lower [] = []
lower (c ∷ s) = (if leb b'A' c && leb c b'Z' then c + 32 else c) ∷ lower s

abbrev pub is_attention : Chars → Bool
is_attention name = is_in (codes "attention") (lower name)

abbrev pub as_linear : {R T : Type 0} → Result (Linear R T) → Result (Module R T)
as_linear (return l) = return (linear l)
as_linear (raise e) = raise e

abbrev pub as_heads : {R T : Type 0} → Result ℕ → Result (Module R T)
as_heads (return n) = return (heads n)
as_heads (raise e) = raise e

-- The body of the loop of `parallelize`.
unfoldable pub split_module :
    {R T : Type 0} → TensorParallelManager → Chars → Module R T → Result (Module R T)
split_module m name (linear l) = as_linear (split_linear m l)
split_module m name (heads n) =
    if is_attention name then as_heads (split_attention m n) else return (heads n)
split_module m name other = return other

abbrev pub with_module :
    {R T : Type 0}
    → Chars
    → Result (Module R T)
    → Result (List (Chars × Module R T))
    → Result (List (Chars × Module R T))
with_module name (raise e) rest = raise e
with_module name (return x) (raise e) = raise e
with_module name (return x) (return xs) = return ((name, x) ∷ xs)

unfoldable pub split_modules :
    {R T : Type 0}
    → TensorParallelManager
    → List (Chars × Module R T)
    → Result (List (Chars × Module R T))
split_modules m [] = return []
split_modules m ((name, x) ∷ xs) = with_module name (split_module m name x) (split_modules m xs)

-- Without the move to the rank's device and type.
unfoldable pub parallelize :
    {R T : Type 0}
    → TensorParallelManager
    → List (Chars × Module R T)
    → Result (List (Chars × Module R T))
parallelize m model = if m.world_size == 1 then return model else split_modules m model

-- The collectives pass a tensor on where there is one rank or no group; `brought` is what the
-- collective of torch.distributed brings, for `all_gather` in the order of the ranks.
abbrev pub is_alone : TensorParallelManager → Bool
is_alone m = (m.world_size == 1) || not m.initialized

abbrev pub all_reduce : {X : Type 0} → TensorParallelManager → X → X → X
all_reduce m tensor brought = if is_alone m then tensor else brought

-- Of tensors in one dimension.
unfoldable pub all_gather : {X : Type 0} → TensorParallelManager → List X → List (List X) → List X
all_gather m tensor brought = if is_alone m then tensor else concat brought

abbrev pub broadcast : {X : Type 0} → TensorParallelManager → X → X → X
broadcast m tensor brought = if is_alone m then tensor else brought

-- Whether the process group is there afterwards.
abbrev pub cleanup : TensorParallelManager → Bool → Bool
cleanup m is_initialized = if m.initialized && is_initialized then false else is_initialized
