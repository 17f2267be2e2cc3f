-- ===== src/ArithUint/Value.antt =====
-- The number that an array of 32-bit words stands for.
use gen2_energiminer.Common.{
  ℕ, zero, suc, ◌+◌, ◌*◌, ◌^◌, ◌<◌, ◌≡◌, refl, List, [], ◌∷◌, arith, length, replicate,
}

abbrev pub value : List ℕ → ℕ
value [] = 0
value (x ∷ xs) = x + 2 ^ 32 * value xs

-- 2 ^ (32 * w).
abbrev pub modulus : ℕ → ℕ
modulus zero = 1
modulus (suc w) = 2 ^ 32 * modulus w

-- Exactly `w` words, each below 2 ^ 32.
abbrev pub Words : ℕ → List ℕ → Type 0
Words zero [] = Unit {0}
Words zero (x ∷ xs) = ⊥
Words (suc w) [] = ⊥
Words (suc w) (x ∷ xs) = (x < 2 ^ 32) × Words w xs

pub value-lt : (w : ℕ) (xs : List ℕ) → Words w xs → value xs < modulus w
value-lt zero [] h = omega arith
value-lt zero (x ∷ xs) h = absurd h
value-lt (suc w) [] h = absurd h
value-lt (suc w) (x ∷ xs) h = omega (arith, value-lt w xs h.1)

pub length-Words : (w : ℕ) (xs : List ℕ) → Words w xs → length xs ≡ w
length-Words zero [] h = refl
length-Words zero (x ∷ xs) h = absurd h
length-Words (suc w) [] h = absurd h
length-Words (suc w) (x ∷ xs) h = omega (arith, length-Words w xs h.1)

pub zeros-Words : (w : ℕ) → Words w (replicate w 0)
zeros-Words zero = tt
zeros-Words (suc w) = (omega arith, zeros-Words w)

pub value-zeros : (w : ℕ) → value (replicate w 0) ≡ 0
value-zeros zero = refl
value-zeros (suc w) = omega (arith, value-zeros w)
