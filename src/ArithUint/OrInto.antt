-- ===== src/ArithUint/OrInto.antt =====
-- primitives/arith_uint256.cpp: what `pn[j] |= x` does to the number that the words stand for.
use Prim.Native.Nat.{bit_or}
use native.Mathlib.Nat.{lt_of_mul-lt-mul_right, mul-le-mul_right}
use gen2_energiminer.Common.{
  ℕ, zero, suc, ◌+◌, ◌-◌, ◌*◌, ◌^◌, ◌<◌, ◌≤◌, ◌≡◌, refl, ap, ◌∙◌, sym, List, [], ◌∷◌, arith, get_or,
  length, take, bit_or_above, pow-add, get_or-set_ne, length-set, ◌≢◌,
}
use gen2_energiminer.ArithUint.Modulus.{modulus-pos}
use gen2_energiminer.ArithUint.Value.{value, modulus, Words}
use gen2_energiminer.ArithUint.Divide.{or_into}

pub get-Words : (w j : ℕ) (xs : List ℕ) → Words w xs → get_or xs j 0 < 2 ^ 32
get-Words zero j [] h = omega arith
get-Words zero j (x ∷ xs) h = absurd h
get-Words (suc w) j [] h = absurd h
get-Words (suc w) zero (x ∷ xs) h = h.0
get-Words (suc w) (suc j) (x ∷ xs) h = get-Words w j xs h.1

-- A word is a part of the number.
pub get-le-value : (j : ℕ) (xs : List ℕ) → get_or xs j 0 * modulus j ≤ value xs
get-le-value j [] = omega arith
get-le-value zero (x ∷ xs) = omega arith
get-le-value (suc j) (x ∷ xs) = grind (arith, get-le-value j xs)

-- A bound on the number bounds its word at `j`.
pub get-lt : (j t : ℕ) (xs : List ℕ) → value xs < t * modulus j → get_or xs j 0 < t
get-lt j t xs h = lt_of_mul-lt-mul_right (modulus j) (omega (arith, get-le-value j xs, h))

pub value-take :
    (i : ℕ) (xs : List ℕ)
    → i < length xs
    → value (take (suc i) xs) ≡ value (take i xs) + get_or xs i 0 * modulus i
value-take i [] h = absurd (omega (arith, h))
value-take zero (x ∷ xs) h = omega arith
value-take (suc i) (x ∷ xs) h =
    let rest = value-take i xs (omega (arith, h)) in rw rest (grind arith)

pub take-value-lt : (w i : ℕ) (xs : List ℕ) → Words w xs → value (take i xs) < modulus i
take-value-lt w zero xs h = omega arith
take-value-lt zero (suc i) [] h = omega (arith, modulus-pos (suc i))
take-value-lt zero (suc i) (x ∷ xs) h = absurd h
take-value-lt (suc w) (suc i) [] h = absurd h
take-value-lt (suc w) (suc i) (x ∷ xs) h = omega (arith, take-value-lt w i xs h.1, h.0)

pub take-all : (xs : List ℕ) → take (length xs) xs ≡ xs
take-all [] = refl
take-all (x ∷ xs) = ap (λ t. x ∷ t) (take-all xs)

-- The word takes the new bits as a sum, if `fits` says so.
pub or_into-sum :
    (w j y : ℕ) (xs : List ℕ)
    → Words w xs
    → j < w
    → bit_or (get_or xs j 0) y ≡ get_or xs j 0 + y
    → get_or xs j 0 + y < 2 ^ 32
    → Words w (or_into j y xs) × (value (or_into j y xs) ≡ value xs + y * modulus j)
unfolding or_into
or_into-sum zero j y xs h lt e fits = absurd (omega (arith, lt))
or_into-sum (suc w) j y [] h lt e fits = absurd h
or_into-sum (suc w) zero y (x ∷ xs) h lt e fits = rw e ((omega (arith, fits), h.1), omega arith)
or_into-sum (suc w) (suc j) y (x ∷ xs) h lt e fits =
    let (k, v) = or_into-sum w j y xs h.1 (omega (arith, lt)) e fits in ((h.0, k), grind (arith, v))

shifted_fits : (t q g : ℕ) → q + 1 ≤ 2 ^ (32 - t) → t ≤ 32 → g < 2 ^ t → g + q * 2 ^ t < 2 ^ 32
shifted_fits t q g hq ht hg =
    let total : 32 - t + t ≡ 32 = omega (arith, ht) in
    let whole : 2 ^ (32 - t) * 2 ^ t ≡ 2 ^ 32 =
      sym (pow-add (32 - t) t) ∙ ap (λ (n : ℕ). 2 ^ n) total in
    let scaled : (q + 1) * 2 ^ t ≤ 2 ^ (32 - t) * 2 ^ t = mul-le-mul_right (2 ^ t) hq in
    grind (arith, whole, scaled)

-- Bits above those that the word has.
pub or_into-above :
    (w j t q : ℕ) (xs : List ℕ)
    → Words w xs
    → j < w
    → t ≤ 32
    → get_or xs j 0 < 2 ^ t
    → q < 2 ^ (32 - t)
    → Words w (or_into j (q * 2 ^ t) xs)
      × (value (or_into j (q * 2 ^ t) xs) ≡ value xs + q * 2 ^ t * modulus j)
or_into-above w j t q xs h lt ht low hq =
    or_into-sum w j (q * 2 ^ t) xs h lt (bit_or_above t (get_or xs j 0) q low)
      (shifted_fits t q (get_or xs j 0) (omega (arith, hq)) ht low)

-- The other words stay.
pub get-or_into_ne : (i j y : ℕ) (xs : List ℕ) → i ≢ j → get_or (or_into i y xs) j 0 ≡ get_or xs j 0
unfolding or_into
get-or_into_ne i j y xs h = get_or-set_ne xs i j _ 0 h

pub length-or_into : (j y : ℕ) (xs : List ℕ) → length (or_into j y xs) ≡ length xs
unfolding or_into
length-or_into j y xs = length-set xs j _
