-- ===== src/Common/Bits.antt =====
-- The bit operations on powers of two, at every width.
use Prim.Native.Nat.{
  ℕ, zero, suc, ◌+◌, ◌-◌, ◌*◌, ◌/◌, ◌%◌, ◌^◌, ◌≤◌, ◌<◌, min, max, digits, bit_and, bit_or,
  bit_and-bitwise, bit_or-bitwise,
}
use mathlib.Core.Path.{◌≡◌, refl, sym, ap, ◌∙◌}
use native.Mathlib.Nat.{mod-add-div, mod-lt, zero-div, zero-mod, pow-succ', div-div-eq-div-mul}
use native.Mathlib.Omega.{arith}
use gen2_energiminer.Common.Words.{mod_unique}

halved : (q k : ℕ) → (q * 2 ^ suc k / 2 ≡ q * 2 ^ k) × (q * 2 ^ suc k % 2 ≡ 0)
halved q k =
    let e = pow-succ' 2 k in
    let twice : q * 2 ^ suc k ≡ q * 2 ^ k * 2 = rw e (grind arith) in
    (omega (arith, twice), omega (arith, twice))

or_above : (n k g q : ℕ) → g ≤ n → g < 2 ^ k → digits (λ b. b) max n g (q * 2 ^ k) ≡ g + q * 2 ^ k
or_above zero k zero q le lt = omega arith
or_above (suc n) k zero q le lt = omega arith
or_above zero k (suc g) q le lt = absurd (omega arith)
or_above (suc n) zero (suc g) q le lt = absurd (omega arith)
or_above (suc n) (suc k) (suc g) q le lt =
    let (h, e) = halved q k in
    let rest = or_above n k (suc g / 2) q (omega arith) (omega (arith, pow-succ' 2 k)) in
    rw (h, e, rest) (omega (arith, h, e))

-- `g | (q << k)` of a number below 2 ^ k is a sum.
pub bit_or_above : (k g q : ℕ) → g < 2 ^ k → bit_or g (q * 2 ^ k) ≡ g + q * 2 ^ k
bit_or_above k g q lt = bit_or-bitwise g (q * 2 ^ k) ∙ or_above g k g q (omega arith) lt

and_none : (n x : ℕ) → digits (λ b. zero) min n x 0 ≡ 0
and_none zero x = refl
and_none (suc n) zero = refl
and_none (suc n) (suc x) = omega (arith, and_none n (suc x / 2))

bit_up : (q p r : ℕ) → q * p * 2 + min r 0 ≡ q * (2 * p)
bit_up q p r = grind arith

and_bit : (n b x : ℕ) → x ≤ n → digits (λ b. zero) min n x (2 ^ b) ≡ x / 2 ^ b % 2 * 2 ^ b
and_bit zero b zero le = rw (zero-div (2 ^ b)) (omega arith)
and_bit (suc n) b zero le = rw (zero-div (2 ^ b)) (omega arith)
and_bit zero b (suc x) le = absurd (omega arith)
and_bit (suc n) zero (suc x) le = omega (arith, and_none n (suc x / 2))
and_bit (suc n) (suc b) (suc x) le =
    let rest = and_bit n b (suc x / 2) (omega arith) in
    let half : 2 * 2 ^ b / 2 ≡ 2 ^ b = omega arith in
    let even : 2 * 2 ^ b % 2 ≡ 0 = omega arith in
    rw (pow-succ' 2 b, half, even, rest, ← div-div-eq-div-mul (suc x) 2 (2 ^ b))
      (bit_up (suc x / 2 / 2 ^ b % 2) (2 ^ b) (suc x % 2))

-- `x & (1 << b)`.
pub bit_and_bit : (b x : ℕ) → bit_and x (2 ^ b) ≡ x / 2 ^ b % 2 * 2 ^ b
bit_and_bit b x = bit_and-bitwise x (2 ^ b) ∙ and_bit x b x (omega arith)

pub one-le-pow : (k : ℕ) → 1 ≤ 2 ^ k
one-le-pow zero = omega arith
one-le-pow (suc k) = omega (arith, one-le-pow k, pow-succ' 2 k)

low_up : (x p : ℕ) → 1 ≤ p → x / 2 % p * 2 + min (x % 2) 1 ≡ x % (2 * p)
low_up x p h =
    let whole : x / 2 % p + p * (x / 2 / p) ≡ x / 2 = mod-add-div (x / 2) p in
    let small : x / 2 % p < p = mod-lt (x / 2) (omega (arith, h)) in
    mod_unique (x / 2 % p * 2 + min (x % 2) 1) (x / 2 / p) (2 * p) x (grind (arith, whole))
      (omega (arith, small))

and_low : (n k x : ℕ) → x ≤ n → digits (λ b. zero) min n x (2 ^ k - 1) ≡ x % 2 ^ k
and_low zero k zero le = sym (zero-mod (2 ^ k))
and_low (suc n) k zero le = sym (zero-mod (2 ^ k))
and_low zero k (suc x) le = absurd (omega arith)
and_low (suc n) zero (suc x) le = omega (arith, and_none n (suc x / 2))
and_low (suc n) (suc k) (suc x) le =
    let rest = and_low n k (suc x / 2) (omega arith) in
    let pos = one-le-pow k in
    let half : (2 * 2 ^ k - 1) / 2 ≡ 2 ^ k - 1 = omega (arith, pos) in
    let odd : (2 * 2 ^ k - 1) % 2 ≡ 1 = omega (arith, pos) in
    rw (pow-succ' 2 k, half, odd, rest) (low_up (suc x) (2 ^ k) pos)

-- `x & ((1 << k) - 1)`.
pub bit_and_mask : (k x : ℕ) → bit_and x (2 ^ k - 1) ≡ x % 2 ^ k
bit_and_mask k x = bit_and-bitwise x (2 ^ k - 1) ∙ and_low x k x (omega arith)

or_below : (n k a g : ℕ) → a ≤ n → a % 2 ^ k ≡ 0 → g < 2 ^ k → digits (λ b. b) max n a g ≡ a + g
or_below zero k zero g le free lt = omega arith
or_below (suc n) k zero g le free lt = omega arith
or_below zero k (suc a) g le free lt = absurd (omega arith)
or_below (suc n) zero (suc a) g le free lt =
    let rest =
      or_below n zero (suc a / 2) (g / 2) (omega arith) (omega arith) (omega (arith, lt)) in
    rw rest (omega (arith, lt))
or_below (suc n) (suc k) (suc a) g le free lt =
    let twice = pow-succ' 2 k in
    let low : suc a / 2 % 2 ^ k * 2 + min (suc a % 2) 1 ≡ 0 =
      low_up (suc a) (2 ^ k) (one-le-pow k) ∙ ap (λ (t : ℕ). suc a % t) (sym twice) ∙ free in
    let rest =
      or_below n k (suc a / 2) (g / 2) (omega arith) (omega (arith, low))
        (omega (arith, lt, twice)) in
    rw rest (omega (arith, low))

-- `a | g` is a sum where `g` is below 2 ^ k and `a` has none of the bits there.
pub bit_or_below : (k a g : ℕ) → a % 2 ^ k ≡ 0 → g < 2 ^ k → bit_or a g ≡ a + g
bit_or_below k a g free lt = bit_or-bitwise a g ∙ or_below a k a g (omega arith) free lt

or_none : (n x : ℕ) → x ≤ n → digits (λ b. b) max n x 0 ≡ x
or_none zero zero le = refl
or_none zero (suc x) le = absurd (omega arith)
or_none (suc n) zero le = refl
or_none (suc n) (suc x) le = omega (arith, or_none n (suc x / 2) (omega arith))

or_bit : (n b x : ℕ) → x ≤ n → x / 2 ^ b % 2 ≡ 0 → digits (λ b. b) max n x (2 ^ b) ≡ x + 2 ^ b
or_bit zero b zero le free = omega arith
or_bit (suc n) b zero le free = omega arith
or_bit zero b (suc x) le free = absurd (omega arith)
or_bit (suc n) zero (suc x) le free = omega (arith, or_none n (suc x / 2) (omega arith), free)
or_bit (suc n) (suc b) (suc x) le free =
    let same : suc x / 2 / 2 ^ b ≡ suc x / 2 ^ suc b =
      div-div-eq-div-mul (suc x) 2 (2 ^ b) ∙ ap (λ (t : ℕ). suc x / t) (sym (pow-succ' 2 b)) in
    let rest = or_bit n b (suc x / 2) (omega arith) (ap (λ (t : ℕ). t % 2) same ∙ free) in
    let half : 2 * 2 ^ b / 2 ≡ 2 ^ b = omega arith in
    let even : 2 * 2 ^ b % 2 ≡ 0 = omega arith in rw (pow-succ' 2 b, half, even, rest) (omega arith)

-- `x | (1 << b)` is a sum where the bit is free.
pub bit_or_bit : (b x : ℕ) → x / 2 ^ b % 2 ≡ 0 → bit_or x (2 ^ b) ≡ x + 2 ^ b
bit_or_bit b x free = bit_or-bitwise x (2 ^ b) ∙ or_bit x b x (omega arith) free
