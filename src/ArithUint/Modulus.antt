-- ===== src/ArithUint/Modulus.antt =====
-- primitives/arith_uint256.h: powers of two, and those of the size of a word.
use native.Mathlib.Nat.{mul-le-mul_left}
use gen2_energiminer.Common.{
  ℕ, zero, suc, ◌+◌, ◌-◌, ◌*◌, ◌^◌, ◌<◌, ◌≤◌, ◌≡◌, refl, ap, ◌∙◌, sym, arith, pow-add, one-le-pow,
}
use gen2_energiminer.ArithUint.Value.{modulus}

pub modulus-pos : (w : ℕ) → 0 < modulus w
modulus-pos zero = omega arith
modulus-pos (suc w) = omega (arith, modulus-pos w)

pub modulus-add : (i k : ℕ) → modulus (i + k) ≡ modulus i * modulus k
modulus-add zero k = let same : zero + k ≡ k = omega arith in rw same (omega arith)
modulus-add (suc i) k =
    let up : suc i + k ≡ suc (i + k) = omega arith in rw (up, modulus-add i k) (grind arith)

pub modulus-le : (w j : ℕ) → j < w → 2 ^ 32 * modulus j ≤ modulus w
modulus-le w j lt =
    let split : suc j + (w - suc j) ≡ w = omega (arith, lt) in
    let product : modulus w ≡ modulus (suc j) * modulus (w - suc j) =
      ap modulus (sym split) ∙ modulus-add (suc j) (w - suc j) in
    let grows : modulus (suc j) * 1 ≤ modulus (suc j) * modulus (w - suc j) =
      mul-le-mul_left (modulus (suc j)) (omega (arith, modulus-pos (w - suc j))) in
    omega (arith, product, grows)

pub modulus_mono : (i k : ℕ) → i ≤ k → modulus i ≤ modulus k
modulus_mono i k le =
    let sum : i + (k - i) ≡ k = omega (arith, le) in
    let split : modulus k ≡ modulus i * modulus (k - i) =
      ap modulus (sym sum) ∙ modulus-add i (k - i) in
    let grows : modulus i * 1 ≤ modulus i * modulus (k - i) =
      mul-le-mul_left (modulus i) (omega (arith, modulus-pos (k - i))) in
    omega (arith, split, grows)

pub modulus-pow : (k : ℕ) → modulus k ≡ 2 ^ (32 * k)
modulus-pow zero = refl
modulus-pow (suc k) =
    let up : 32 * suc k ≡ 32 + 32 * k = omega arith in
    rw (up, pow-add 32 (32 * k), modulus-pow k) refl

pub times_comm : (a b : ℕ) → a * b ≡ b * a
times_comm a b = grind arith

pub two_pow-pos : (n : ℕ) → 0 < 2 ^ n
two_pow-pos n = omega (arith, one-le-pow n)

pub modulus-next : (j : ℕ) → modulus (j + 1) ≡ 2 ^ 32 * modulus j
modulus-next j = let up : j + 1 ≡ suc j = omega arith in ap modulus up

pub word_split : (s : ℕ) → s < 32 → 2 ^ (32 - s) * 2 ^ s ≡ 2 ^ 32
word_split s hs =
    let total : 32 - s + s ≡ 32 = omega (arith, hs) in
    sym (pow-add (32 - s) s) ∙ ap (λ (n : ℕ). 2 ^ n) total
