-- ===== src/Memory/Pools.antt =====
-- src/vllm_rocm/memory_manager.py: the pools over every history of calls.
use Prim.Native.String.{String}
use text.Mathlib.Text.{◌==◌ as same_text}
use text.Mathlib.TextEquality.{eq_iff}
use mathlib.Core.Option.{some-injective, none-ne-some}
use vllm_rocm.Common.{
  ℕ, ◌≡◌, refl, sym, subst, ◌∙◌, some, [], Bool-cases, inl, inr, Result, return, raise, arith,
}
use vllm_rocm.Common.TextDict.{lookup, lookup-put}
use vllm_rocm.Common.Int.{pos}
use vllm_rocm.Memory.{
  MemoryPool, free_bytes, GpuResourceManager, init, create_memory_pool, allocate_tensor,
}

empty_pools : (name : String) (p : MemoryPool) → ¬ (lookup name [] ≡ some p)
unfolding lookup
empty_pools name p h = none-ne-some p h

module _ {T : Type 0} where
  -- A call of one of the two methods that change the manager.
  pub data Step (m n : GpuResourceManager T) : Type 0 where
    create :
        (name : String) (num_bytes : ℕ) → (create_memory_pool name num_bytes m).1 ≡ n → Step m n
    allocate : (name : String) (empty : Result T) → (allocate_tensor name empty m).1 ≡ n → Step m n

  pub data Reach (m : GpuResourceManager T) : GpuResourceManager T → Type 0 where
    here : Reach m m
    next : {n o : GpuResourceManager T} → Reach m n → Step n o → Reach m o

  -- Every pool stands under its own name, on the manager's device, with nothing allocated from it.
  pub record IsUntouched (m : GpuResourceManager T) : Type 0 where
    pub untouched :
        (name : String) (p : MemoryPool)
        → lookup name m.pools ≡ some p
        → (p.name ≡ name) × (p.device ≡ m.device) × (free_bytes p ≡ pos p.total_bytes)

  same_pools :
      (name : String) (empty : Result T) (m : GpuResourceManager T)
      → ((allocate_tensor name empty m).1).pools ≡ m.pools
  unfolding allocate_tensor
  same_pools name (return t) m = refl
  same_pools name (raise x) m = refl

  same_device :
      (name : String) (empty : Result T) (m : GpuResourceManager T)
      → ((allocate_tensor name empty m).1).device ≡ m.device
  unfolding allocate_tensor
  same_device name (return t) m = refl
  same_device name (raise x) m = refl

  Step-IsUntouched : {m n : GpuResourceManager T} → Step m n → IsUntouched m → IsUntouched n
  unfolding create_memory_pool
  Step-IsUntouched {m} {n} (create name num_bytes e) u =
      let pool : MemoryPool = record {
        name = name;
        total_bytes = num_bytes;
        allocated_bytes = 0;
        device = m.device;
      } in
      subst IsUntouched e (record {
        untouched = λ key p h.
            let found = sym (lookup-put name key pool m.pools) ∙ h in
            elim (Bool-cases (same_text name key)) [
              | inl s ↦
                  let this : some pool ≡ some p = rw s at found in
                  let same : pool ≡ p = some-injective pool p this in
                  subst
                    (λ q.
                      (q.name ≡ key) × (q.device ≡ m.device) × (free_bytes q ≡ pos q.total_bytes))
                    same ((eq_iff name key).0 s, refl, ground arith)
              | inr s ↦ u.untouched key p (rw s at found)
            ];
      })
  Step-IsUntouched {m} {n} (allocate name empty e) u = subst IsUntouched e (record {
    untouched = λ key p h.
        rw (same_device name empty m) (u.untouched key p (rw (same_pools name empty m) at h));
  })

  Reach-keeps : {m n : GpuResourceManager T} → Reach m n → IsUntouched m → IsUntouched n
  Reach-keeps here u = u
  Reach-keeps (next r st) u = Step-IsUntouched st (Reach-keeps r u)

  -- Whatever pools are created and tensors allocated, each pool stands under its name, on the manager's
  -- device, and has all its bytes free: no allocation is taken out of a pool.
  pub Reach-IsUntouched :
      (device : String) (m : GpuResourceManager T) → Reach (init device) m → IsUntouched m
  Reach-IsUntouched device m r =
      Reach-keeps r (record { untouched = λ name p h. absurd (empty_pools name p h) })
