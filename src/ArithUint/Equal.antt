-- ===== src/ArithUint/Equal.antt =====
-- primitives/arith_uint256.cpp: `EqualTo` and `operator!` against the number that the words stand for.
use gen2_energiminer.Common.{
  ℕ, zero, suc, ◌+◌, ◌-◌, ◌*◌, ◌/◌, ◌%◌, ◌^◌, ◌<◌, ◌≤◌, ◌≡◌, refl, ◌&&◌, List, [], ◌∷◌, arith, ◌==◌,
  length, ap, ◌∙◌,
}
use gen2_energiminer.ArithUint.{high_zero, equal_to, is_zero}
use gen2_energiminer.ArithUint.Value.{value, Words}

two_up : (i : ℕ) → i + 2 ≡ suc (suc i)
two_up i = omega arith

high_zero-suc :
    (i a b x : ℕ) (xs : List ℕ)
    → high_zero (suc i) (a ∷ b ∷ x ∷ xs) ≡ (x == 0 && high_zero i (a ∷ b ∷ xs))
unfolding high_zero
high_zero-suc zero a b x xs = ground arith
high_zero-suc (suc i) a b x xs = ground (arith, high_zero-suc i a b x xs, two_up i, two_up (suc i))

high_zero-is_zero : (a b : ℕ) (xs : List ℕ) → high_zero (length xs) (a ∷ b ∷ xs) ≡ is_zero xs
unfolding is_zero
high_zero-is_zero a b [] = unfold high_zero in refl
high_zero-is_zero a b (x ∷ xs) =
    high_zero-suc (length xs) a b x xs ∙ ap (λ t. x == 0 && t) (high_zero-is_zero a b xs)

is_zero-value : (xs : List ℕ) → is_zero xs ≡ (value xs == 0)
unfolding is_zero
is_zero-value [] = refl
is_zero-value (x ∷ xs) = ground (arith, is_zero-value xs)

words_equal :
    (a b v n : ℕ)
    → a < 2 ^ 32
    → b < 2 ^ 32
    → n < 2 ^ 64
    → (v == 0 && b == n / 2 ^ 32 && a == n % 2 ^ 32) ≡ (a + 2 ^ 32 * (b + 2 ^ 32 * v) == n)
words_equal a b v n ha hb hn = ground arith

-- `EqualTo` with a number below 2 ^ 64 compares it with the one that the words stand for, for an
-- array of two words or more.
pub equal_to-value :
    (w : ℕ) (xs : List ℕ) (n : ℕ)
    → 2 ≤ w
    → Words w xs
    → n < 2 ^ 64
    → equal_to xs n ≡ (value xs == n)
unfolding equal_to
equal_to-value zero xs n two h hn = absurd (omega (arith, two))
equal_to-value (suc zero) xs n two h hn = absurd (omega (arith, two))
equal_to-value (suc (suc w)) [] n two h hn = absurd h
equal_to-value (suc (suc w)) (a ∷ []) n two h hn = absurd h.1
equal_to-value (suc (suc w)) (a ∷ b ∷ xs) n two h hn =
    let rest : length (a ∷ b ∷ xs) - 2 ≡ length xs = omega arith in
    rw (rest, high_zero-is_zero a b xs, is_zero-value xs)
      (words_equal a b (value xs) n h.0 h.1.0 hn)
