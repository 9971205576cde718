-- ===== src/Common/Texts.antt =====
-- Python's texts as lists of code points, with the methods of `str` that the program uses.
use Prim.Native.Char.{code}
use Prim.Native.String.{String}
use Prim.Native.Nat.{ℕ}
use mathlib.Core.Path.{◌≡◌, refl}
use mathlib.Core.Bool.{Bool, true, false, ◌&&◌, ◌||◌}
use mathlib.Core.List.{List, [], ◌∷◌}
use native.Mathlib.Omega.{arith}
use vllm_rocm.Common.Tests.{◌==◌, leb, if◌then◌else◌}

abbrev pub Chars : Type 0
Chars = List ℕ

abbrev pub codes : String → Chars
codes String.[] = []
codes (String.◌∷◌ c s) = code c ∷ codes s

-- `s == t`
unfoldable pub same : Chars → Chars → Bool
same [] [] = true
same [] (d ∷ t) = false
same (c ∷ s) [] = false
same (c ∷ s) (d ∷ t) = (c == d) && same s t

-- `t.startswith(s)`
unfoldable pub starts_with : Chars → Chars → Bool
starts_with [] t = true
starts_with (c ∷ s) [] = false
starts_with (c ∷ s) (d ∷ t) = (c == d) && starts_with s t

-- `str.isspace` of one character
abbrev within : ℕ → ℕ → ℕ → Bool
within a b c = leb a c && leb c b

unfoldable pub is_space : ℕ → Bool
is_space c =
    within 9 13 c
    || within 28 32 c
    || (c == 133)
    || (c == 160)
    || (c == 5760)
    || within 8192 8202 c
    || within 8232 8233 c
    || (c == 8239)
    || (c == 8287)
    || (c == 12288)

-- `s.replace(a, b)` for two characters
unfoldable pub replace_char : ℕ → ℕ → Chars → Chars
replace_char a b [] = []
replace_char a b (c ∷ s) = (if c == a then b else c) ∷ replace_char a b s

-- `s.split(sep)`: the first part, and the parts behind a separator.
unfoldable pub split_at : ℕ → Chars → Chars × List Chars
split_at sep [] = ([], [])
split_at sep (c ∷ s) =
    let (part, parts) = split_at sep s in if c == sep then ([], part ∷ parts) else (c ∷ part, parts)

-- `parts[-1]`
unfoldable pub last_of : Chars → List Chars → Chars
last_of part [] = part
last_of part (next ∷ parts) = last_of next parts

-- The word that a text begins with, and the words behind it.
abbrev pub add_word : Chars → List Chars → List Chars
add_word [] ws = ws
add_word (c ∷ w) ws = (c ∷ w) ∷ ws

unfoldable pub scan : Chars → Chars × List Chars
scan [] = ([], [])
scan (c ∷ s) = let (w, ws) = scan s in if is_space c then ([], add_word w ws) else (c ∷ w, ws)

-- `s.split()`
unfoldable pub split : Chars → List Chars
split s = add_word (scan s).0 (scan s).1

-- `s.strip()`, from the left and from the right
unfoldable pub strip_left : Chars → Chars
strip_left [] = []
strip_left (c ∷ s) = let rest = strip_left s in if is_space c then rest else c ∷ s

abbrev pub keep : ℕ → Chars → Chars
keep c [] = if is_space c then [] else c ∷ []
keep c (d ∷ s) = c ∷ d ∷ s

unfoldable pub strip_right : Chars → Chars
strip_right [] = []
strip_right (c ∷ s) = keep c (strip_right s)

abbrev pub strip : Chars → Chars
strip s = strip_right (strip_left s)

pub same-eq : (s t : Chars) → same s t ≡ true → s ≡ t
unfolding same
same-eq [] [] h = refl
same-eq [] (d ∷ t) h = absurd (cc)
same-eq (c ∷ s) [] h = absurd (cc)
same-eq (c ∷ s) (d ∷ t) h = ground (arith, same-eq s t)

pub same_refl : (s : Chars) → same s s ≡ true
unfolding same
same_refl [] = refl
same_refl (c ∷ s) = ground (arith, same_refl s)
