-- ===== src/PrefixCache/Tests.antt =====
-- Runs of a prefix cache of two entries, with a digest that keeps short token lists apart.
use vllm_rocm.Common.{ℕ, suc, ◌+◌, ◌*◌, ◌≡◌, refl, List, [], ◌∷◌, arith}
use vllm_rocm.Common.Dict.{get, put, delete, without}
use vllm_rocm.PrefixCache.{
  PrefixCache, init, evict, probe, search_down, lookup, insert, invalidate, total_hits,
}
use vllm_rocm.PrefixCache.Lookup.{Longest, result, lookup-Longest}
use vllm_rocm.PrefixCache.Insert.{IsValid, init-IsValid, insert-IsValid}
use vllm_rocm.PrefixCache.RoundTrip.{lookup-insert}

program : Unit {0}
unfolding get put delete without evict probe search_down lookup insert invalidate total_hits
program = tt

abbrev digest_of : List ℕ → ℕ
digest_of [] = 0
digest_of (x ∷ xs) = suc x + 10 * digest_of xs

abbrev short : List ℕ
short = 1 ∷ []

abbrev long : List ℕ
long = 1 ∷ 2 ∷ 3 ∷ []

abbrev other : List ℕ
other = 5 ∷ 6 ∷ []

one : PrefixCache
unfolding program
one = insert digest_of short (70 ∷ []) (init 2)

two : PrefixCache
unfolding program one
two = insert digest_of long (71 ∷ 72 ∷ []) one

main :
    ((lookup digest_of (1 ∷ 2 ∷ 3 ∷ 4 ∷ []) two).0 ≡ (3, 71 ∷ 72 ∷ []))
    × ((lookup digest_of (1 ∷ 2 ∷ []) two).0 ≡ (1, 70 ∷ []))
    × ((lookup digest_of other two).0 ≡ (0, []))
    × ((insert digest_of other [] two).lru ≡ 432 ∷ 76 ∷ [])
unfolding program one two
main = (refl, refl, refl, refl)

one-IsValid : IsValid one
unfolding one
one-IsValid = insert-IsValid digest_of short (70 ∷ []) (init 2) (init-IsValid 2)

two-IsValid : IsValid two
unfolding two
two-IsValid = insert-IsValid digest_of long (71 ∷ 72 ∷ []) one one-IsValid

insert-IsValid_example : IsValid (insert digest_of other [] two)
insert-IsValid_example = insert-IsValid digest_of other [] two two-IsValid

lookup-Longest_example : Longest digest_of long two.cache 3 (result digest_of long two)
lookup-Longest_example = lookup-Longest digest_of long two

lookup-insert_example :
    (lookup digest_of other (insert digest_of other (9 ∷ []) two)).0 ≡ (2, 9 ∷ [])
unfolding program one two
lookup-insert_example = lookup-insert digest_of other (9 ∷ []) two two-IsValid (omega arith) refl
