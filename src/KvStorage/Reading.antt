-- ===== src/KvStorage/Reading.antt =====
-- `read_kv`: which place of the cache stands at the last position of what it returns.
use vllm_rocm.Common.{
  ℕ, suc, ◌-◌, ◌/◌, ◌%◌, ◌≤◌, ◌<◌, ◌≡◌, refl, ap, ◌∙◌, sym, subst, min, true, false, Option, none,
  some, List, [], ◌∷◌, ◌++◌, length, append-nil, range, length-range, get_elem?, get_elem?-map,
  length-map, get_elem?-append_ge, get_elem?-range, ltb, ltb→lt, ltb→le, leb, arith, Bool-cases,
  inl, inr, Result, return, raise,
}
use native.Mathlib.Nat.{div-eq_of_lt, div-eq-sub-div, mod-eq_of_lt, mod-eq-sub-mod}
use vllm_rocm.KvStorage.{Storage, slice, read_loop, read_kv}
use vllm_rocm.KvStorage.Swapping.{IsStored}

-- What a read of the tokens up to a position has at it.
abbrev pub key_at : {T : Type 0} → ℕ → Result (List T × List T) → Option T
key_at p (return (ks, vs)) = get_elem? ks p
key_at p (raise e) = none

abbrev pub value_at : {T : Type 0} → ℕ → Result (List T × List T) → Option T
value_at p (return (ks, vs)) = get_elem? vs p
value_at p (raise e) = none

-- The entry of some blocks at a position.
abbrev pub entry_of : {T : Type 0} → (ℕ → ℕ → T) → ℕ → List ℕ → ℕ → Option T
entry_of block bs ids p = elim (get_elem? ids (p / bs)) [
  | none ↦ none
  | some b ↦ some (block b (p % bs))
]

-- What the loop returns, with its entry at the last position.
pub record Reads {T : Type 0} (bs : ℕ) (ids : List ℕ) (p : ℕ) (key value : ℕ → ℕ → T)
    (result : Result (List T × List T)) : Type 0 where
  pub ks : List T
  pub vs : List T
  pub returns : result ≡ return (ks, vs)
  pub key_read : get_elem? ks p ≡ entry_of key bs ids p
  pub value_read : get_elem? vs p ≡ entry_of value bs ids p

module _ {T : Type 0} where
  length-slice : (bs n : ℕ) (block : ℕ → T) → n ≤ bs → length (slice bs n block) ≡ n
  length-slice bs n block h =
      length-map block (range 0 (min n bs)) ∙ length-range 0 (min n bs) ∙ omega arith

  get_elem?-slice :
      (bs n : ℕ) (block : ℕ → T) (i : ℕ)
      → i < n
      → n ≤ bs
      → get_elem? (slice bs n block) i ≡ some (block i)
  get_elem?-slice bs n block i h le =
      get_elem?-map block (range 0 (min n bs)) i i
        (get_elem?-range 0 (min n bs) i (omega arith) ∙ ap some (omega arith))

  read_loop_last :
      (m : Storage T) (bid : ℕ) (bids : List ℕ) (p : ℕ) (key value : ℕ → T)
      → m.key_blocks bid ≡ some key
      → m.value_blocks bid ≡ some value
      → p < m.block_size
      → read_loop (bid ∷ bids) (suc p) m
        ≡ return (slice m.block_size (suc p) key ++ [], slice m.block_size (suc p) value ++ [])
  unfolding read_loop
  read_loop_last m bid bids p key value g h lt =
      let n : min (suc p) m.block_size ≡ suc p = omega arith in
      let t : leb (suc p - suc p) 0 ≡ true = ground arith in
      rw (g, read_loop) (rw h (rw n (rw t (rw n refl))))

  read_loop_more :
      (m : Storage T) (bid : ℕ) (bids : List ℕ) (p : ℕ) (key value : ℕ → T) (ks vs : List T)
      → m.key_blocks bid ≡ some key
      → m.value_blocks bid ≡ some value
      → m.block_size ≤ p
      → read_loop bids (suc (p - m.block_size)) m ≡ return (ks, vs)
      → read_loop (bid ∷ bids) (suc p) m
        ≡ return
            (slice m.block_size m.block_size key ++ ks, slice m.block_size m.block_size value ++ vs)
  unfolding read_loop
  read_loop_more m bid bids p key value ks vs g h le r =
      let n : min (suc p) m.block_size ≡ m.block_size = omega arith in
      let k : suc p - m.block_size ≡ suc (p - m.block_size) = omega arith in
      let t : leb (suc (p - m.block_size)) 0 ≡ false = ground arith in
      rw (g, read_loop) (rw h (rw n (rw k (rw t (rw r refl)))))

  read_loop-Reads :
      (m : Storage T) (ids : List ℕ) (p : ℕ) (key value : ℕ → ℕ → T)
      → IsStored m ids key value
      → 0 < m.block_size
      → p / m.block_size < length ids
      → Reads m.block_size ids p key value (read_loop ids (suc p) m)
  read_loop-Reads m [] p key value g h lt = absurd (omega arith)
  read_loop-Reads m (bid ∷ bids) p key value g h lt =
      let bs = m.block_size in
      let k = g.keys bid (ground arith) in
      let v = g.values bid (ground arith) in
      elim (Bool-cases (ltb p bs)) [
        | inl t ↦
            let lt' = ltb→lt p bs t in
            record {
              ks = slice bs (suc p) (key bid) ++ [];
              vs = slice bs (suc p) (value bid) ++ [];
              returns = read_loop_last m bid bids p (key bid) (value bid) k v lt';
              key_read =
                  ap (λ xs. get_elem? xs p) (append-nil (slice bs (suc p) (key bid)))
                  ∙ get_elem?-slice bs (suc p) (key bid) p (omega arith) lt'
                  ∙ ground (arith, div-eq_of_lt lt', mod-eq_of_lt lt');
              value_read =
                  ap (λ xs. get_elem? xs p) (append-nil (slice bs (suc p) (value bid)))
                  ∙ get_elem?-slice bs (suc p) (value bid) p (omega arith) lt'
                  ∙ ground (arith, div-eq_of_lt lt', mod-eq_of_lt lt');
            }
        | inr t ↦
            let le = ltb→le p bs t in
            let d = div-eq-sub-div h le in
            let r =
              read_loop-Reads m bids (p - bs) key value
                (record {
                  keys = λ i q. g.keys i (omega arith);
                  values = λ i q. g.values i (omega arith);
                })
                h (omega (arith, d, lt)) in
            let whole : (block : ℕ → T) → length (slice bs bs block) ≡ bs =
              λ block. length-slice bs bs block (omega arith) in
            record {
              ks = slice bs bs (key bid) ++ r.ks;
              vs = slice bs bs (value bid) ++ r.vs;
              returns =
                  read_loop_more m bid bids p (key bid) (value bid) r.ks r.vs k v le r.returns;
              key_read =
                  get_elem?-append_ge (slice bs bs (key bid)) r.ks p
                    (omega (arith, whole (key bid)))
                  ∙ ap (λ n. get_elem? r.ks (p - n)) (whole (key bid))
                  ∙ r.key_read
                  ∙ ground (arith, d, mod-eq-sub-mod le);
              value_read =
                  get_elem?-append_ge (slice bs bs (value bid)) r.vs p
                    (omega (arith, whole (value bid)))
                  ∙ ap (λ n. get_elem? r.vs (p - n)) (whole (value bid))
                  ∙ r.value_read
                  ∙ ground (arith, d, mod-eq-sub-mod le);
            }
      ]

  read_kv_loop :
      (m : Storage T) (ids : List ℕ) (n layer : ℕ)
      → 0 < length ids
      → read_kv ids n layer m ≡ read_loop ids n m
  unfolding read_kv
  read_kv_loop m [] n layer h = absurd (omega arith)
  read_kv_loop m (bid ∷ bids) n layer h = refl

  pub read_kv-Reads :
      (m : Storage T) (ids : List ℕ) (p layer : ℕ) (key value : ℕ → ℕ → T)
      → IsStored m ids key value
      → 0 < m.block_size
      → p / m.block_size < length ids
      → Reads m.block_size ids p key value (read_kv ids (suc p) layer m)
  read_kv-Reads m ids p layer key value g h lt =
      subst (Reads m.block_size ids p key value)
        (sym (read_kv_loop m ids (suc p) layer (omega arith)))
        (read_loop-Reads m ids p key value g h lt)
