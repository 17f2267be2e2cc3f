-- ===== src/ArithUint/Difficulty.antt =====
-- protocol/stratum/StratumClient.cpp: the target of a difficulty.
use gen2_energiminer.Common.{
  ℕ, ◌*◌, ◌/◌, ◌%◌, ◌^◌, ◌<◌, ◌≤◌, ◌≡◌, refl, ap, sym, ◌+◌, ◌∙◌, arith, List, none, some, inl, inr,
  ◌⊎◌, u32,
}
use native.Mathlib.Nat.{div-le_self}
use gen2_energiminer.ArithUint.{from_u64, scale}
use gen2_energiminer.ArithUint.Value.{value, modulus, Words, zeros-Words, value-zeros}
use gen2_energiminer.ArithUint.Product.{value-scale}
use gen2_energiminer.ArithUint.Quotient.{divide-value}
use gen2_energiminer.ArithUint.Divide.{diff1_target, diff_to_target}

abbrev pub diff1 : ℕ
diff1 = 0xffff0000 * 2 ^ 192

diff1_target-Words : Words 8 diff1_target
diff1_target-Words = (
  omega arith,
  (
    omega arith,
    (omega arith, (omega arith, (omega arith, (omega arith, (omega arith, (omega arith, tt)))))),
  ),
)

value-from_u64 : (b : ℕ) → b < 2 ^ 64 → Words 8 (from_u64 8 b) × (value (from_u64 8 b) ≡ b)
unfolding from_u64
value-from_u64 b hb =
    let low : u32 b + 2 ^ 32 * (b / 2 ^ 32) ≡ b = omega arith in
    let high : u32 (b / 2 ^ 32) ≡ b / 2 ^ 32 = omega (arith, hb) in
    ((omega arith, (omega arith, zeros-Words 6)), omega (arith, low, high, value-zeros 6))

-- With the difficulty times 100000, rounded to a 64-bit integer `b`, `diffToTarget` throws exactly if
-- `b` is 0, and else gives 0xffff0000 * 2 ^ 192 divided by `b`, rounded down, times 100000, with no
-- overflow.
pub value-diff_to_target :
    (b : ℕ)
    → b < 2 ^ 64
    → ((b ≡ 0) × (diff_to_target b ≡ none))
      ⊎ ((0 < b) × ((t : List ℕ) × (diff_to_target b ≡ some t) × (value t ≡ diff1 / b * 100000)))
unfolding diff_to_target
value-diff_to_target b hb =
    let (words, holds) = value-from_u64 b hb in
    elim (divide-value 8 diff1_target (from_u64 8 b) diff1_target-Words words) [
      | inl (z, e) ↦ inl (sym holds ∙ z, rw (e, diff_to_target) refl)
      | inr (some_left, (q, e, q_words, quotient)) ↦
          let same : value q ≡ diff1 / b = quotient ∙ ap (λ (t : ℕ). diff1 / t) holds in
          let le : diff1 / b ≤ diff1 = div-le_self diff1 b in
          let product = value-scale 8 100000 q (omega arith) q_words in
          inr (
            omega (arith, some_left, holds),
            (
              scale q 100000,
              rw (e, diff_to_target) refl,
              product ∙ ap (λ (t : ℕ). t * 100000 % modulus 8) same ∙ omega (arith, le),
            ),
          )
    ]
