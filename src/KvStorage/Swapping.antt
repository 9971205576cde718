-- ===== src/KvStorage/Swapping.antt =====
-- src/cache/paged_attention.py: `swap_out` and the `swap_in` that follows.
use vllm_rocm.Common.{
  ℕ, ◌≤◌, ◌≡◌, refl, ap, ◌∙◌, sym, subst, false, ◌&&◌, none, some, List, [], ◌∷◌, count, has, ◌==◌,
  if◌then◌else◌, arith, Bool-cases, Option-cases, ◌⊎◌, inl, inr, Result, return,
}
use vllm_rocm.KvStorage.{Storage, put_swap, swap_out_one, swap_out, swap_in_one, swap_in}

-- The blocks of a list are there, with these keys and values.
pub record IsStored {T : Type 0} (m : Storage T) (ids : List ℕ) (key value : ℕ → ℕ → T)
    : Type 0 where
  pub keys : (i : ℕ) → 1 ≤ count i ids → m.key_blocks i ≡ some (key i)
  pub values : (i : ℕ) → 1 ≤ count i ids → m.value_blocks i ≡ some (value i)

-- What `swap_out` leaves: only the swap buffer has changed, and has the blocks of the list.
pub record Swapped {T : Type 0} (m : Storage T) (ids : List ℕ) (seq_id : ℕ) (key value : ℕ → ℕ → T)
    (result : Result (Unit {0}) × Storage T) : Type 0 where
  pub after : Storage T
  pub returns : result ≡ (return tt, after)
  pub same_keys : after.key_blocks ≡ m.key_blocks
  pub same_values : after.value_blocks ≡ m.value_blocks
  pub buffered :
      (s i : ℕ)
      → after.swap_buffer s i
        ≡ (if (seq_id == s) && has i ids then some (key i, value i) else m.swap_buffer s i)

module _ {T : Type 0} where
  swap_out_one_runs :
      (m : Storage T) (bid seq_id : ℕ) (k v : ℕ → T)
      → m.key_blocks bid ≡ some k
      → m.value_blocks bid ≡ some v
      → swap_out_one bid seq_id m
        ≡ (return tt, record m { swap_buffer = put_swap seq_id bid (some (k, v)) m.swap_buffer })
  unfolding swap_out_one
  swap_out_one_runs m bid seq_id k v g h = rw (g, swap_out_one) (rw h refl)

  -- `swap_out` of blocks that are there returns.
  pub swap_out-Swapped :
      (m : Storage T) (ids : List ℕ) (seq_id : ℕ) (key value : ℕ → ℕ → T)
      → IsStored m ids key value
      → Swapped m ids seq_id key value (swap_out ids seq_id m)
  unfolding swap_out
  swap_out-Swapped m [] seq_id key value g = record {
    after = m;
    returns = refl;
    same_keys = refl;
    same_values = refl;
    buffered = λ s i. ground arith;
  }
  swap_out-Swapped m (bid ∷ bids) seq_id key value g =
      let m₁ = record m {
        swap_buffer = put_swap seq_id bid (some (key bid, value bid)) m.swap_buffer;
      } in
      let r = swap_out-Swapped m₁ bids seq_id key value (record {
        keys = λ i h. g.keys i (omega arith);
        values = λ i h. g.values i (omega arith);
      }) in
      rw
        (swap_out_one_runs m bid seq_id (key bid) (value bid) (g.keys bid (ground arith))
          (g.values bid (ground arith)))
        (record {
          after = r.after;
          returns = r.returns;
          same_keys = r.same_keys;
          same_values = r.same_values;
          buffered = λ s i. elim (Bool-cases (bid == i)) [
            | inl e ↦
                let q : bid ≡ i = ground arith in
                ground (arith, r.buffered s i, ap key q, ap value q)
            | inr e ↦ ground (arith, r.buffered s i)
          ];
        })

-- Block `i` of a sequence is in the cache, with this key and value, and no longer in the buffer.
pub record IsBack {T : Type 0} (n : Storage T) (seq_id i : ℕ) (key value : ℕ → T) : Type 0 where
  pub key_back : n.key_blocks i ≡ some key
  pub value_back : n.value_blocks i ≡ some value
  pub emptied : n.swap_buffer seq_id i ≡ none

-- Nothing at the block `i` has changed.
pub record Untouched {T : Type 0} (n after : Storage T) (i : ℕ) : Type 0 where
  pub same_key : after.key_blocks i ≡ n.key_blocks i
  pub same_value : after.value_blocks i ≡ n.value_blocks i
  pub same_buffer : (s : ℕ) → after.swap_buffer s i ≡ n.swap_buffer s i

module _ {T : Type 0} where
  -- The block can come back, or is back.
  abbrev Awaits : Storage T → ℕ → ℕ → (ℕ → T) → (ℕ → T) → Type 0
  Awaits n seq_id i key value =
      (n.swap_buffer seq_id i ≡ some (key, value)) ⊎ IsBack n seq_id i key value

  swap_in_one_other :
      (n : Storage T) (bid s i : ℕ) → (bid == i) ≡ false → Untouched n (swap_in_one bid s n) i
  unfolding swap_in_one
  swap_in_one_other n bid s i e = elim (Option-cases (n.swap_buffer s bid)) [
    | inl g ↦
        rw (g, swap_in_one) (record { same_key = refl; same_value = refl; same_buffer = λ t. refl })
    | inr ((k, v), g) ↦
        rw (g, swap_in_one)
          (record {
            same_key = ground arith;
            same_value = ground arith;
            same_buffer = λ t. ground arith;
          })
  ]

  swap_in_one-IsBack :
      (n : Storage T) (bid s : ℕ) (key value : ℕ → T)
      → Awaits n s bid key value
      → IsBack (swap_in_one bid s n) s bid key value
  unfolding swap_in_one
  swap_in_one-IsBack n bid s key value (inl g) =
      rw (g, swap_in_one)
        (record { key_back = ground arith; value_back = ground arith; emptied = ground arith })
  swap_in_one-IsBack n bid s key value (inr b) = rw (b.emptied, swap_in_one) b

  Untouched-Awaits :
      (n n' : Storage T) (s i : ℕ) (key value : ℕ → T)
      → Untouched n n' i
      → Awaits n s i key value
      → Awaits n' s i key value
  Untouched-Awaits n n' s i key value u (inl g) = inl (u.same_buffer s ∙ g)
  Untouched-Awaits n n' s i key value u (inr b) = inr (record {
    key_back = u.same_key ∙ b.key_back;
    value_back = u.same_value ∙ b.value_back;
    emptied = u.same_buffer s ∙ b.emptied;
  })

  -- One round of `swap_in` at any block.
  round_Awaits :
      (n : Storage T) (bid s i : ℕ) (key value : ℕ → T)
      → Awaits n s i key value
      → Awaits (swap_in_one bid s n) s i key value
  round_Awaits n bid s i key value a = elim (Bool-cases (bid == i)) [
    | inl e ↦
        let q : i ≡ bid = ground arith in
        subst (λ j. Awaits (swap_in_one bid s n) s j key value) (sym q)
          (inr (swap_in_one-IsBack n bid s key value (subst (λ j. Awaits n s j key value) q a)))
    | inr e ↦
        Untouched-Awaits n (swap_in_one bid s n) s i key value (swap_in_one_other n bid s i e) a
  ]

  swap_in_keeps :
      (n : Storage T) (ids : List ℕ) (s i : ℕ) (key value : ℕ → T)
      → IsBack n s i key value
      → IsBack (swap_in ids s n) s i key value
  unfolding swap_in
  swap_in_keeps n [] s i key value b = b
  swap_in_keeps n (bid ∷ bids) s i key value b =
      swap_in_keeps (swap_in_one bid s n) bids s i key value (elim (Bool-cases (bid == i)) [
        | inl e ↦
            let q : i ≡ bid = ground arith in
            subst (λ j. IsBack (swap_in_one bid s n) s j key value) (sym q)
              (swap_in_one-IsBack n bid s key value (inr (subst (λ j. IsBack n s j key value) q b)))
        | inr e ↦
            let u = swap_in_one_other n bid s i e in
            record {
              key_back = u.same_key ∙ b.key_back;
              value_back = u.same_value ∙ b.value_back;
              emptied = u.same_buffer s ∙ b.emptied;
            }
      ])

  swap_in-IsBack :
      (n : Storage T) (ids : List ℕ) (s i : ℕ) (key value : ℕ → T)
      → 1 ≤ count i ids
      → Awaits n s i key value
      → IsBack (swap_in ids s n) s i key value
  unfolding swap_in
  swap_in-IsBack n [] s i key value h a = absurd (omega arith)
  swap_in-IsBack n (bid ∷ bids) s i key value h a = elim (Bool-cases (bid == i)) [
    | inl e ↦
        let q : i ≡ bid = ground arith in
        swap_in_keeps (swap_in_one bid s n) bids s i key value (
          subst (λ j. IsBack (swap_in_one bid s n) s j key value) (sym q)
            (swap_in_one-IsBack n bid s key value (subst (λ j. Awaits n s j key value) q a)))
    | inr e ↦
        swap_in-IsBack (swap_in_one bid s n) bids s i key value (ground arith)
          (round_Awaits n bid s i key value a)
  ]

  swap_in-Untouched :
      (n : Storage T) (ids : List ℕ) (s i : ℕ) → count i ids ≡ 0 → Untouched n (swap_in ids s n) i
  unfolding swap_in
  swap_in-Untouched n [] s i h = record {
    same_key = refl;
    same_value = refl;
    same_buffer = λ t. refl;
  }
  swap_in-Untouched n (bid ∷ bids) s i h =
      let u = swap_in_one_other n bid s i (ground arith) in
      let w = swap_in-Untouched (swap_in_one bid s n) bids s i (ground arith) in
      record {
        same_key = w.same_key ∙ u.same_key;
        same_value = w.same_value ∙ u.same_value;
        same_buffer = λ t. w.same_buffer t ∙ u.same_buffer t;
      }

  -- Blocks that a sequence swapped out come back as they were, whatever happened to the cache in
  -- between: `swap_out` returns, and `swap_in` of the same blocks, in any storage with that swap
  -- buffer, restores the keys and values of each, empties their places in the buffer, and touches
  -- no other block.
  pub swap_in-swap_out_kv :
      (m n : Storage T) (ids : List ℕ) (seq_id : ℕ) (key value : ℕ → ℕ → T)
      → IsStored m ids key value
      → n.swap_buffer ≡ (swap_out ids seq_id m).1.swap_buffer
      → ((swap_out ids seq_id m).0 ≡ return tt)
        × ((i : ℕ) → 1 ≤ count i ids → IsBack (swap_in ids seq_id n) seq_id i (key i) (value i))
        × ((i : ℕ) → count i ids ≡ 0 → Untouched n (swap_in ids seq_id n) i)
  swap_in-swap_out_kv m n ids s key value g e =
      let w = swap_out-Swapped m ids s key value g in
      let buffer = e ∙ ap (λ r. r.1.swap_buffer) w.returns in
      (
        ap (λ r. r.0) w.returns,
        λ i h.
            swap_in-IsBack n ids s i (key i) (value i) h
              (inl (ap (λ b. b s i) buffer ∙ w.buffered s i ∙ ground arith)),
        λ i h. swap_in-Untouched n ids s i h,
      )
