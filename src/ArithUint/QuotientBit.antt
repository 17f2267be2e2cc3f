-- ===== src/ArithUint/QuotientBit.antt =====
-- primitives/arith_uint256.cpp: comparison, difference and the new bit in a round of `/=`.
use native.Mathlib.Nat.{
  zero-div, zero-mod, pow-succ', mod-add-div, mul-le-mul_right, add-mul-mod_self_left,
  div-div-eq-div-mul, mul-div_cancel, lt_of_mul-lt-mul_right,
}
use gen2_energiminer.Common.{
  ℕ, zero, suc, ◌+◌, ◌-◌, ◌*◌, ◌/◌, ◌%◌, ◌^◌, ◌<◌, ◌≤◌, ◌≡◌, ap, ap₂, ◌∙◌, sym, List, [], ◌∷◌,
  arith, get_or, pow-add, one-le-pow, bit_or_below, leb,
}
use gen2_energiminer.ArithUint.{subtract, negate}
use gen2_energiminer.ArithUint.Modulus.{modulus-pos, modulus-pow, times_comm}
use gen2_energiminer.ArithUint.Value.{value, modulus, Words, value-lt}
use gen2_energiminer.ArithUint.Sum.{value-subtract, add-Words, negate-Words}
use gen2_energiminer.ArithUint.Order.{compare_to-value}
use gen2_energiminer.ArithUint.Divide.{or_into, at_least}
use gen2_energiminer.ArithUint.OrInto.{get-Words, or_into-sum}

pub subtract-Words : (w : ℕ) (xs ys : List ℕ) → Words w xs → Words w ys → Words w (subtract xs ys)
unfolding subtract
subtract-Words w xs ys hx hy = add-Words w xs (negate ys) hx (negate-Words w ys hy)

pub less_back : (m x y : ℕ) → y ≤ x → x < m → (x + m - y) % m ≡ x - y
less_back m x y le lt = grind arith

-- Without a borrow, the difference is exact.
pub subtract-exact :
    (w : ℕ) (xs ys : List ℕ)
    → Words w xs
    → Words w ys
    → value ys ≤ value xs
    → value (subtract xs ys) ≡ value xs - value ys
subtract-exact w xs ys hx hy le =
    value-subtract w xs ys hx hy ∙ less_back (modulus w) (value xs) (value ys) le (value-lt w xs hx)

pub at_least-value :
    (w : ℕ) (xs ys : List ℕ) → Words w xs → Words w ys → at_least xs ys ≡ leb (value ys) (value xs)
unfolding at_least
at_least-value w xs ys hx hy = rw (compare_to-value w xs ys hx hy, at_least) (ground arith)

pub get-div : (w j : ℕ) (xs : List ℕ) → Words w xs → get_or xs j 0 ≡ value xs / modulus j % 2 ^ 32
get-div zero j [] h = rw (zero-div (modulus j)) (omega arith)
get-div zero j (x ∷ xs) h = absurd h
get-div (suc w) j [] h = absurd h
get-div (suc w) zero (x ∷ xs) h = omega (arith, h.0)
get-div (suc w) (suc j) (x ∷ xs) h =
    let down : (x + 2 ^ 32 * value xs) / 2 ^ 32 ≡ value xs = omega (arith, h.0) in
    rw (← div-div-eq-div-mul (x + 2 ^ 32 * value xs) (2 ^ 32) (modulus j), down)
      (get-div w j xs h.1)

pub mul_inner : (a p r k x : ℕ) → a + p * r * k ≡ x → a + p * (r * k) ≡ x
mul_inner a p r k x e = let same : p * r * k ≡ p * (r * k) = grind arith in omega (arith, e, same)

-- A multiple of `p` below `p * r` leaves room for `p` more.
pub room_above : (a p r : ℕ) → a % p ≡ 0 → a < p * r → a + p ≤ p * r
room_above a p r free lt =
    let k = a / p in
    let whole : a % p + p * k ≡ a = mod-add-div a p in
    let below : k * p < r * p = omega (arith, whole, free, lt, times_comm p k, times_comm p r) in
    let less : k < r = lt_of_mul-lt-mul_right p below in
    let up : (k + 1) * p ≤ r * p = mul-le-mul_right p (omega (arith, less)) in
    omega (arith, whole, free, up, times_comm p k, times_comm p r)

pub assoc : (q p m : ℕ) → q * (p * m) ≡ q * p * m
assoc q p m = grind arith

pub divides_mod : (q p r : ℕ) → q * p % (p * r) % p ≡ 0
divides_mod q p r =
    let a = q * p % (p * r) in
    let k = q * p / (p * r) in
    let whole : a + p * (r * k) ≡ 0 + p * q =
      mul_inner a p r k (q * p) (mod-add-div (q * p) (p * r)) ∙ times_comm q p ∙ omega arith in
    sym (add-mul-mod_self_left a p (r * k))
    ∙ ap (λ (t : ℕ). t % p) whole
    ∙ add-mul-mod_self_left 0 p q
    ∙ zero-mod p

-- The bit `n` joins a number that has only bits above it.
pub or_into-bit :
    (w n q : ℕ) (xs : List ℕ)
    → Words w xs
    → n < 32 * w
    → value xs ≡ q * 2 ^ suc n
    → Words w (or_into (n / 32) (2 ^ (n % 32)) xs)
      × (value (or_into (n / 32) (2 ^ (n % 32)) xs) ≡ value xs + 2 ^ n)
or_into-bit w n q xs h lt e =
    let j = n / 32 in
    let t = n % 32 in
    let a = get_or xs j 0 in
    let p = 2 ^ suc t in
    let r = 2 ^ (31 - t) in
    let total : suc t + (31 - t) ≡ 32 = omega arith in
    let word : p * r ≡ 2 ^ 32 = sym (pow-add (suc t) (31 - t)) ∙ ap (λ (m : ℕ). 2 ^ m) total in
    let place : suc n ≡ suc t + 32 * j = omega arith in
    let big : 2 ^ suc n ≡ p * modulus j =
      ap (λ (m : ℕ). 2 ^ m) place
      ∙ pow-add (suc t) (32 * j)
      ∙ ap (λ (m : ℕ). p * m) (sym (modulus-pow j)) in
    let number : value xs ≡ q * p * modulus j =
      e ∙ ap (λ (m : ℕ). q * m) big ∙ assoc q p (modulus j) in
    let top : value xs / modulus j ≡ q * p =
      ap (λ (m : ℕ). m / modulus j) number ∙ mul-div_cancel (q * p) (modulus-pos j) in
    let held : a ≡ q * p % (p * r) = get-div w j xs h ∙ ap₂ (λ (m : ℕ) k. m % k) top (sym word) in
    let free : a % p ≡ 0 = ap (λ (m : ℕ). m % p) held ∙ divides_mod q p r in
    let room : a + p ≤ p * r = room_above a p r free (omega (arith, word, get-Words w j xs h)) in
    let half : p ≡ 2 * 2 ^ t = pow-succ' 2 t in
    let pos = one-le-pow t in
    let (words, sum) =
      or_into-sum w j (2 ^ t) xs h (omega (arith, lt))
        (bit_or_below (suc t) a (2 ^ t) free (omega (arith, half, pos)))
        (omega (arith, room, half, pos, word)) in
    let shift : n ≡ t + 32 * j = omega arith in
    let low : 2 ^ t * modulus j ≡ 2 ^ n =
      ap (λ (m : ℕ). 2 ^ t * m) (modulus-pow j)
      ∙ sym (pow-add t (32 * j))
      ∙ ap (λ (m : ℕ). 2 ^ m) (sym shift) in
    (words, sum ∙ ap (λ (m : ℕ). value xs + m) low)
