-- ===== src/Common/Words.antt =====
-- What `str.split`, `str.strip` and `str.startswith` do.
use vllm_rocm.Common.{
  ℕ, ◌≡◌, refl, sym, ap, ◌∙◌, inl, inr, true, false, List, [], ◌∷◌, ◌++◌, length, drop, arith,
  if◌then◌else◌, Bool-cases, Chars, is_space, add_word, keep, append-nil, scan, split, strip_left,
  strip_right, strip, starts_with,
}

-- Characters that are no spaces.
abbrev pub IsSolid : Chars → Type 0
IsSolid [] = Unit {0}
IsSolid (c ∷ s) = (is_space c ≡ false) × IsSolid s

abbrev pub IsWord : Chars → Type 0
IsWord [] = ⊥
IsWord (c ∷ s) = IsSolid (c ∷ s)

abbrev pub AreWords : List Chars → Type 0
AreWords [] = Unit {0}
AreWords (w ∷ ws) = IsWord w × AreWords ws

-- A text without its spaces.
unfoldable pub solid : Chars → Chars
solid [] = []
solid (c ∷ s) = let rest = solid s in if is_space c then rest else c ∷ rest

abbrev pub flat : List Chars → Chars
flat [] = []
flat (w ∷ ws) = w ++ flat ws

flat-add_word : (w : Chars) (ws : List Chars) → flat (add_word w ws) ≡ w ++ flat ws
flat-add_word [] ws = refl
flat-add_word (c ∷ w) ws = refl

add_word-AreWords :
    (w : Chars) (ws : List Chars) → IsSolid w → AreWords ws → AreWords (add_word w ws)
add_word-AreWords [] ws h a = a
add_word-AreWords (c ∷ w) ws h a = (h, a)

scan-AreWords : (s : Chars) → IsSolid (scan s).0 × AreWords (scan s).1
unfolding scan
scan-AreWords [] = (tt, tt)
scan-AreWords (c ∷ s) = elim (Bool-cases (is_space c)) [
  | inl e ↦
      rw e (tt, add_word-AreWords (scan s).0 (scan s).1 (scan-AreWords s).0 (scan-AreWords s).1)
  | inr e ↦ rw e ((e, (scan-AreWords s).0), (scan-AreWords s).1)
]

-- The parts of a text are words: no part is empty, and none holds a space.
pub split-AreWords : (s : Chars) → AreWords (split s)
unfolding split
split-AreWords s = add_word-AreWords (scan s).0 (scan s).1 (scan-AreWords s).0 (scan-AreWords s).1

flat-scan : (s : Chars) → (scan s).0 ++ flat (scan s).1 ≡ solid s
unfolding scan solid
flat-scan [] = refl
flat-scan (c ∷ s) = elim (Bool-cases (is_space c)) [
  | inl e ↦ rw e (flat-add_word (scan s).0 (scan s).1 ∙ flat-scan s)
  | inr e ↦ rw e (ap (◌∷◌ c) (flat-scan s))
]

-- Nothing but spaces is lost.
pub flat-split : (s : Chars) → flat (split s) ≡ solid s
unfolding split
flat-split s = flat-add_word (scan s).0 (scan s).1 ∙ flat-scan s

scan-word : (w t : Chars) → IsSolid w → scan (w ++ t) ≡ (w ++ (scan t).0, (scan t).1)
unfolding scan
scan-word [] t h = refl
scan-word (c ∷ w) t h = rw (h.0, scan-word w t h.1) refl

scan-space : (c : ℕ) (t : Chars) → is_space c ≡ true → scan (c ∷ t) ≡ ([], split t)
unfolding scan split
scan-space c t h = rw h refl

add_word-word : (w : Chars) (ws : List Chars) → IsWord w → add_word (w ++ []) ws ≡ w ∷ ws
add_word-word [] ws h = absurd h
add_word-word (c ∷ w) ws h = ground (arith, append-nil w)

IsSolid-word : (w : Chars) → IsWord w → IsSolid w
IsSolid-word [] h = absurd h
IsSolid-word (c ∷ w) h = h

-- A word before a space is the first part.
pub split-word :
    (w : Chars) (c : ℕ) (t : Chars)
    → IsWord w
    → is_space c ≡ true
    → split (w ++ c ∷ t) ≡ w ∷ split t
unfolding split
split-word w c t h e =
    let word : IsSolid w = IsSolid-word w h in
    rw (scan-word w (c ∷ t) word, scan-space c t e) (add_word-word w (split t) h)

pub split-nil : split [] ≡ []
unfolding split scan
split-nil = refl

split-space : (c : ℕ) (t : Chars) → is_space c ≡ true → split (c ∷ t) ≡ split t
unfolding split
split-space c t e = rw (scan-space c t e) refl

split-strip_left : (s : Chars) → split (strip_left s) ≡ split s
unfolding strip_left
split-strip_left [] = refl
split-strip_left (c ∷ s) = elim (Bool-cases (is_space c)) [
  | inl e ↦ rw e (split-strip_left s ∙ sym (split-space c s e))
  | inr e ↦ rw e refl
]

scan-keep : (c : ℕ) (r s : Chars) → scan r ≡ scan s → scan (keep c r) ≡ scan (c ∷ s)
unfolding scan
scan-keep c [] s h = elim (Bool-cases (is_space c)) [
  | inl e ↦ rw (e, sym h) refl
  | inr e ↦ rw e (rw (e, sym h) refl)
]
scan-keep c (d ∷ r) s h = ap (λ p. if is_space c then ([], add_word p.0 p.1) else (c ∷ p.0, p.1)) h

scan-strip_right : (s : Chars) → scan (strip_right s) ≡ scan s
unfolding strip_right
scan-strip_right [] = refl
scan-strip_right (c ∷ s) = scan-keep c (strip_right s) s (scan-strip_right s)

-- Stripping a text changes none of its words.
pub split-strip : (s : Chars) → split (strip s) ≡ split s
unfolding split
split-strip s = ap (λ p. add_word p.0 p.1) (scan-strip_right (strip_left s)) ∙ split-strip_left s

-- `t[len(s):]` is what follows the start of a text.
pub starts_with-drop : (s t : Chars) → starts_with s t ≡ true → t ≡ s ++ drop (length s) t
unfolding starts_with
starts_with-drop [] t h = refl
starts_with-drop (c ∷ s) [] h = absurd (cc)
starts_with-drop (c ∷ s) (d ∷ t) h = ground (arith, starts_with-drop s t)
