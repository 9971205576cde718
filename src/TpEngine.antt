-- ===== src/TpEngine.antt =====
-- src/vllm_rocm/tp_engine.py. A weight is a matrix of numbers of type `T`; what a collective of
-- torch.distributed brings is an argument.
mod Tests
pub mod Shards
use vllm_rocm.Common.{
  ℕ, zero, suc, ◌+◌, ◌*◌, ◌-◌, ◌/◌, min, Bool, true, false, not, ◌||◌, ◌&&◌, Option, none, some,
  List, [], ◌∷◌, length, get_elem?, range, leb, ◌==◌, if◌then◌else◌, Result, return, raise,
  index_error, zero_division_error,
}
use vllm_rocm.Common.Slices.{concat}

pub record TensorParallelEngine : Type 0 where
  pub world_size : ℕ
  pub rank : ℕ
  pub initialized : Bool

-- Of `columns` columns; the rows are that long.
pub record Weight (T : Type 0) : Type 0 where
  pub columns : ℕ
  pub rows : List (List T)

-- `self.rank` is what `dist.get_rank` returns.
abbrev pub init_distributed : ℕ → TensorParallelEngine → TensorParallelEngine
init_distributed rank e = record e { rank = rank; initialized = true }

-- `list(range(start, min(end, size)))`
abbrev pub indices_of : TensorParallelEngine → ℕ → List ℕ
indices_of e size =
    let chunk_size = size / e.world_size in
    let start = e.rank * chunk_size in range start (min (start + chunk_size) size - start)

module _ {A : Type 0} where
  abbrev pub prepend : A → Result (List A) → Result (List A)
  prepend a (return xs) = return (a ∷ xs)
  prepend a (raise e) = raise e

  -- `xs[indices]`
  unfoldable pub pick : List A → List ℕ → Result (List A)
  pick xs [] = return []
  pick xs (i ∷ is) = elim (get_elem? xs i) [
    | none ↦ raise index_error
    | some a ↦ prepend a (pick xs is)
  ]

module _ {T : Type 0} where
  -- `xs[:, indices]`, by the rows.
  unfoldable pub pick_columns : List (List T) → List ℕ → Result (List (List T))
  pick_columns [] indices = return []
  pick_columns (r ∷ rs) indices = elim (pick r indices) [
    | raise e ↦ raise e
    | return picked ↦ prepend picked (pick_columns rs indices)
  ]

  abbrev pub with_rows : ℕ → Result (List (List T)) → Result (Weight T)
  with_rows columns (return rows) = return (record { columns = columns; rows = rows })
  with_rows columns (raise e) = raise e

  -- The size of a matrix in a third dimension raises IndexError.
  unfoldable pub shard_weights : TensorParallelEngine → Weight T → ℕ → Result (Weight T)
  shard_weights e w dim =
      if not e.initialized
      then return w
      else if leb 2 dim
      then raise index_error
      else if e.world_size == 0
      then raise zero_division_error
      else if dim == 0
      then with_rows w.columns (pick w.rows (indices_of e (length w.rows)))
      else with_rows (length (indices_of e w.columns))
          (pick_columns w.rows (indices_of e w.columns))

  -- Along the rows; `gathered` is what the collective brings, in the order of the ranks.
  unfoldable pub all_gather :
      TensorParallelEngine → List (List T) → List (List (List T)) → List (List T)
  all_gather e tensor gathered =
      if not e.initialized || (e.world_size == 1) then tensor else concat gathered

-- What the other collectives return; `brought` is what torch.distributed leaves in the tensor.
abbrev pub is_shared : TensorParallelEngine → Bool
is_shared e = e.initialized && leb 2 e.world_size

abbrev pub all_reduce : {X : Type 0} → TensorParallelEngine → X → X → X
all_reduce e tensor brought = if is_shared e then brought else tensor

abbrev pub broadcast : {X : Type 0} → TensorParallelEngine → X → X → X
broadcast e tensor brought = if is_shared e then brought else tensor

-- With whether there is a process group, which is gone afterwards.
abbrev pub cleanup : Bool → TensorParallelEngine → Bool × TensorParallelEngine
cleanup is_initialized e =
    if is_initialized then (false, record e { initialized = false }) else (false, e)
