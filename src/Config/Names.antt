-- ===== src/Config/Names.antt =====
-- src/config.py: `parsed.model.split("/")[-1]`.
use vllm_rocm.Common.{
  ℕ, ◌≡◌, refl, ap, true, false, List, [], ◌∷◌, ◌++◌, ◌⊎◌, inl, inr, arith, Chars, split_at,
  last_of, count, ◌==◌, Bool-cases,
}
use vllm_rocm.Config.Cli.{base_name}

-- A text with no separator is its own only part; of any other, the last part is what follows the last
-- separator.
abbrev IsSplit : ℕ → Chars → Chars → List Chars → Type 0
IsSplit sep s part parts =
    ((parts ≡ []) × (part ≡ s) × (count sep s ≡ 0))
    ⊎ ((next : Chars) × (rest : List Chars) × (q : Chars) × (parts ≡ next ∷ rest)
        × (s ≡ q ++ sep ∷ last_of part parts)
        × (count sep (last_of part parts) ≡ 0))

module _ (sep c : ℕ) (s part : Chars) where
  at_separator :
      (parts : List Chars)
      → (c == sep) ≡ true
      → IsSplit sep s part parts
      → IsSplit sep (c ∷ s) [] (part ∷ parts)
  unfolding last_of
  at_separator [] same (inl (e, p, z)) =
      inr (part, [], [], refl, ground (arith, ap (◌∷◌ c) p), ground (arith, ap (count sep) p))
  at_separator (next ∷ rest) same (inl (e, p, z)) = absurd (cc)
  at_separator parts same (inr (n, r, q, e, p, z)) = inr (part, parts, c ∷ q, refl, ap (◌∷◌ c) p, z)

  at_other :
      (parts : List Chars)
      → (c == sep) ≡ false
      → IsSplit sep s part parts
      → IsSplit sep (c ∷ s) (c ∷ part) parts
  unfolding last_of
  at_other parts differ (inl (e, p, z)) = inl (e, ap (◌∷◌ c) p, ground arith)
  at_other [] differ (inr (n, r, q, e, p, z)) = absurd (cc)
  at_other (next ∷ rest) differ (inr (n, r, q, e, p, z)) = inr (n, r, c ∷ q, e, ap (◌∷◌ c) p, z)

split_at-separator :
    (sep c : ℕ) (s : Chars)
    → (c == sep) ≡ true
    → split_at sep (c ∷ s) ≡ ([], (split_at sep s).0 ∷ (split_at sep s).1)
unfolding split_at
split_at-separator sep c s e = rw e refl

split_at-other :
    (sep c : ℕ) (s : Chars)
    → (c == sep) ≡ false
    → split_at sep (c ∷ s) ≡ (c ∷ (split_at sep s).0, (split_at sep s).1)
unfolding split_at
split_at-other sep c s e = rw e refl

split_at-nil : (sep : ℕ) → split_at sep [] ≡ ([], [])
unfolding split_at
split_at-nil sep = refl

split_at-IsSplit : (sep : ℕ) (s : Chars) → IsSplit sep s (split_at sep s).0 (split_at sep s).1
split_at-IsSplit sep [] = rw (split_at-nil sep) (inl (refl, refl, refl))
split_at-IsSplit sep (c ∷ s) = elim (Bool-cases (c == sep)) [
  | inl same ↦
      rw (split_at-separator sep c s same)
        (at_separator sep c s (split_at sep s).0 (split_at sep s).1 same (split_at-IsSplit sep s))
  | inr differ ↦
      rw (split_at-other sep c s differ)
        (at_other sep c s (split_at sep s).0 (split_at sep s).1 differ (split_at-IsSplit sep s))
]

-- The name of a model ends its path and holds no slash: it is the whole path, or stands behind one.
pub base_name-IsLast :
    (model : Chars)
    → (count b'/' (base_name model) ≡ 0)
      × ((base_name model ≡ model) ⊎ ((q : Chars) × (model ≡ q ++ b'/' ∷ base_name model)))
unfolding base_name last_of
base_name-IsLast model = elim (split_at-IsSplit b'/' model) [
  | inl (e, p, z) ↦ let whole : base_name model ≡ model = rw e p in (rw whole z, inl whole)
  | inr (n, r, q, e, p, z) ↦ (z, inr (q, p))
]
