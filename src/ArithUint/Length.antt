-- ===== src/ArithUint/Length.antt =====
-- primitives/arith_uint256.cpp: what `bits` counts.
use Prim.Native.Nat.{bit_and}
use native.Mathlib.Nat.{
  pow-succ', mod-add-div, mod-lt, mul-le-mul_right, div-lt_iff_lt-mul, div-eq_of_lt,
}
use gen2_energiminer.Common.{
  ℕ, zero, suc, ◌+◌, ◌*◌, ◌/◌, ◌%◌, ◌^◌, ◌<◌, ◌≤◌, ◌≡◌, ◌≢◌, refl, ap, ◌∙◌, sym, subst, false, List,
  arith, get_or, length, take, pow-add, ◌==◌, ltb, Bool-cases, inl, inr, one-le-pow, bit_and_bit,
}
use gen2_energiminer.ArithUint.Modulus.{modulus-pow, times_comm}
use gen2_energiminer.ArithUint.Value.{value, modulus, Words, length-Words}
use gen2_energiminer.ArithUint.Divide.{top_bit, bits_loop, bits}
use gen2_energiminer.ArithUint.OrInto.{get-Words, value-take, take-value-lt, take-all}

-- The number has `b` binary digits.
pub data HasBits (b v : ℕ) : Type 0 where
  none_set : b ≡ 0 → v ≡ 0 → HasBits b v
  highest : (c : ℕ) → b ≡ suc c → 2 ^ c ≤ v → v < 2 ^ suc c → HasBits b v

doubled : (p m : ℕ) → 2 * (p * m) ≡ 2 * p * m
doubled p m = grind arith

divided : (x p : ℕ) → 0 < p → x < 2 * p → x / p % 2 ≡ 0 → x < p
divided x p hp h e =
    let two = (div-lt_iff_lt-mul {k = p} {x = x} {y = 2} hp).1 h in
    let none_left : x / p ≡ 0 = omega (arith, two, e) in
    let rest : x % p + p * (x / p) ≡ x = mod-add-div x p in
    let zero_part : p * (x / p) ≡ 0 = ap (λ (t : ℕ). p * t) none_left ∙ omega arith in
    omega (arith, rest, zero_part, mod-lt x hp)

reached : (x p : ℕ) → x / p % 2 ≢ 0 → p ≤ x
reached x p h = elim (Bool-cases (ltb x p)) [
  | inl lt ↦ absurd (h (ap (λ (t : ℕ). t % 2) (div-eq_of_lt (ground (arith, lt)))))
  | inr ge ↦ ground (arith, ge)
]

no_bit : (q p : ℕ) → 0 < p → q * p ≡ 0 → q ≡ 0
no_bit zero p hp e = refl
no_bit (suc q) p hp e = absurd (grind (arith, e, hp))

bit_is_set : (y q p : ℕ) → (y == 0) ≡ false → y ≡ q * p → q ≡ 0 → ⊥
bit_is_set y q p h e z =
    let none_left : q * p ≡ 0 = ap (λ (t : ℕ). t * p) z ∙ omega arith in
    ground (arith, h, e, none_left)

top_bit_lem :
    (b x : ℕ)
    → x < 2 ^ suc b
    → 0 < x
    → (c : ℕ) × (top_bit b x ≡ suc c) × (2 ^ c ≤ x) × (x < 2 ^ suc c) × (c ≤ b)
unfolding top_bit
top_bit_lem zero x h pos = (0, refl, omega (arith, pos), h, omega arith)
top_bit_lem (suc b) x h pos = elim (Bool-cases (bit_and x (2 ^ suc b) == 0)) [
  | inl clear ↦
      let none_set : bit_and x (2 ^ suc b) ≡ 0 = ground (arith, clear) in
      let even : x / 2 ^ suc b % 2 ≡ 0 =
        no_bit (x / 2 ^ suc b % 2) (2 ^ suc b) (omega (arith, one-le-pow (suc b)))
          (sym (bit_and_bit (suc b) x) ∙ none_set) in
      let small : x < 2 ^ suc b =
        divided x (2 ^ suc b) (omega (arith, one-le-pow (suc b)))
          (omega (arith, h, pow-succ' 2 (suc b))) even in
      let (c, e, lo, hi, le) = top_bit_lem b x small pos in
      (c, rw clear e, lo, hi, omega (arith, le))
  | inr bit ↦
      let ge : 2 ^ suc b ≤ x = reached x (2 ^ suc b) (λ e.
        bit_is_set (bit_and x (2 ^ suc b)) (x / 2 ^ suc b % 2) (2 ^ suc b) bit
          (bit_and_bit (suc b) x) e) in
      (suc b, rw bit (omega arith), ge, h, omega arith)
]

-- The bits of the word at `i`, over a number of the words below it.
placed :
    (i c x v : ℕ)
    → 2 ^ c ≤ x
    → x < 2 ^ suc c
    → v < modulus i
    → (2 ^ (32 * i + c) ≤ v + x * modulus i) × (v + x * modulus i < 2 ^ suc (32 * i + c))
placed i c x v lo hi small =
    let m = modulus i in
    let low : 2 ^ (32 * i + c) ≡ 2 ^ c * m =
      pow-add (32 * i) c ∙ ap (λ (t : ℕ). t * 2 ^ c) (sym (modulus-pow i)) ∙ times_comm m (2 ^ c) in
    let high : 2 ^ suc (32 * i + c) ≡ 2 ^ suc c * m =
      pow-succ' 2 (32 * i + c)
      ∙ ap (λ (t : ℕ). 2 * t) low
      ∙ doubled (2 ^ c) m
      ∙ ap (λ (t : ℕ). t * m) (sym (pow-succ' 2 c)) in
    (omega (arith, low, mul-le-mul_right m lo), omega (arith, high, mul-le-mul_right m hi, small))

-- The words below `i`.
bits_loop-HasBits :
    (w i : ℕ) (xs : List ℕ) → Words w xs → i ≤ w → HasBits (bits_loop i xs) (value (take i xs))
unfolding bits_loop
bits_loop-HasBits w zero xs h le = none_set refl refl
bits_loop-HasBits w (suc i) xs h le = elim (Bool-cases (get_or xs i 0 == 0)) [
  | inl clear ↦
      let zero_word : get_or xs i 0 ≡ 0 = ground (arith, clear) in
      let same : value (take (suc i) xs) ≡ value (take i xs) =
        value-take i xs (omega (arith, le, length-Words w xs h))
        ∙ ap (λ (t : ℕ). value (take i xs) + t * modulus i) zero_word
        ∙ omega arith in
      rw (clear, same) (bits_loop-HasBits w i xs h (omega arith))
  | inr some_bit ↦
      let x = get_or xs i 0 in
      let (c, e, lo, hi, small) =
        top_bit_lem 31 x (get-Words w i xs h) (ground (arith, some_bit)) in
      let (low, high) = placed i c x (value (take i xs)) lo hi (take-value-lt w i xs h) in
      let sum = value-take i xs (omega (arith, le, length-Words w xs h)) in
      rw (some_bit, sum) (highest (32 * i + c) (omega (arith, e)) low high)
]

-- `bits` of an array of `w` words is 0 for 0, and else the number of binary digits: it is the `b`
-- with 2 ^ (b - 1) ≤ n < 2 ^ b.
pub bits-HasBits : (w : ℕ) (xs : List ℕ) → Words w xs → HasBits (bits xs) (value xs)
unfolding bits
bits-HasBits w xs h =
    subst (λ ys. HasBits (bits_loop (length xs) xs) (value ys)) (take-all xs)
      (bits_loop-HasBits w (length xs) xs h (omega (arith, length-Words w xs h)))
