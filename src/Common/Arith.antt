-- ===== src/Common/Arith.antt =====
-- Division and rounding up, which the programs use to turn tokens into blocks.
use Prim.Native.Nat.{ℕ, suc, ◌+◌, ◌-◌, ◌*◌, ◌/◌, ◌≤◌, ◌<◌}
use native.Mathlib.Nat.{mul-div-le, le-div_iff_mul-le, mul_comm, suc-mul, div-lt_iff_lt-mul}
use mathlib.Core.Path.{◌≡◌, ap, sym, ◌∙◌}
use mathlib.Core.Logic.{inl, inr}
use mathlib.Core.Bool.{◌&&◌}
use vllm_rocm.Common.Tests.{◌==◌, Bool-cases}
use Prim.Native.Nat.{◌%◌}
use native.Mathlib.Nat.{div-add-mod}
use native.Mathlib.Omega.{arith}

pub div-le-div : (a b k : ℕ) → 0 < k → a ≤ b → a / k ≤ b / k
div-le-div a b k h le = (le-div_iff_mul-le h).1 (omega (arith, mul-div-le a k, mul_comm (a / k) k))

-- Rounding up gives enough blocks of `k` for `n` tokens, and one block fewer is not enough.
pub ceil_div-covers : (n k : ℕ) → 0 < k → n ≤ (n + k - 1) / k * k
ceil_div-covers n k h = grind arith

pub ceil_div-least : (n k b : ℕ) → 0 < k → n ≤ b * k → (n + k - 1) / k ≤ b
ceil_div-least n k b h le =
    let lt : n + k - 1 < suc b * k = omega (arith, suc-mul b k) in
    omega (arith, (div-lt_iff_lt-mul {x = n + k - 1} {y = suc b} h).1 lt)

-- A position is its quotient and its remainder.
pub same_position : (p p' k : ℕ) → (p == p') ≡ ((p / k == p' / k) && (p % k == p' % k))
same_position p p' k = elim (Bool-cases (p == p')) [
  | inl e ↦ let q : p ≡ p' = ground arith in rw q (ground arith)
  | inr n ↦ elim (Bool-cases (p / k == p' / k)) [
    | inl e ↦
        let q : p / k ≡ p' / k = ground arith in
        let r = sym (div-add-mod p k) ∙ ap (λ z. k * z + p % k) q in
        ground (arith, r, div-add-mod p' k)
    | inr d ↦ ground arith
  ]
]
