-- ===== src/ArithUint/Sum.antt =====
-- What `+=`, `-=`, `++`, `--`, unary `-` and `~` of `base_uint` compute.
use gen2_energiminer.Common.{
  ℕ, zero, suc, ◌+◌, ◌-◌, ◌*◌, ◌/◌, ◌%◌, ◌^◌, ◌≤◌, ◌<◌, ◌≡◌, List, [], ◌∷◌, arith, mod_unique,
  Bool-cases, inl, inr, ◌==◌, ap, ◌∙◌,
}
use native.Mathlib.Nat.{add-mod-mod, mod-add-mod}
use gen2_energiminer.ArithUint.{add_loop, add, complement, increment, decrement, negate, subtract}
use gen2_energiminer.ArithUint.Value.{value, modulus, Words, value-lt}

add_loop_carry :
    (w c : ℕ) (xs ys : List ℕ)
    → c ≤ 1
    → Words w xs
    → Words w ys
    → (k : ℕ) × (value (add_loop c xs ys) + modulus w * k ≡ c + value xs + value ys)
      × Words w (add_loop c xs ys)
unfolding add_loop
add_loop_carry zero c [] [] hc hx hy = (c, omega arith, tt)
add_loop_carry zero c (x ∷ xs) ys hc hx hy = absurd hx
add_loop_carry zero c [] (y ∷ ys) hc hx hy = absurd hy
add_loop_carry (suc w) c [] ys hc hx hy = absurd hx
add_loop_carry (suc w) c (x ∷ xs) [] hc hx hy = absurd hy
add_loop_carry (suc w) c (x ∷ xs) (y ∷ ys) hc hx hy =
    let rest = add_loop_carry w ((c + x + y) % 2 ^ 64 / 2 ^ 32) xs ys (omega arith) hx.1 hy.1 in
    (rest.0, omega (arith, rest.1), (omega arith, rest.2))

pub add-Words : (w : ℕ) (xs ys : List ℕ) → Words w xs → Words w ys → Words w (add xs ys)
unfolding add
add-Words w xs ys hx hy = (add_loop_carry w 0 xs ys (omega arith) hx hy).2

-- Addition of arrays of `w` words is addition modulo 2 ^ (32 * w).
pub value-add :
    (w : ℕ) (xs ys : List ℕ)
    → Words w xs
    → Words w ys
    → value (add xs ys) ≡ (value xs + value ys) % modulus w
unfolding add
value-add w xs ys hx hy =
    let (k, e, b) = add_loop_carry w 0 xs ys (omega arith) hx hy in
    mod_unique (value (add_loop 0 xs ys)) k (modulus w) (value xs + value ys) (omega (arith, e))
      (value-lt w _ b)

increment_carry :
    (w : ℕ) (xs : List ℕ)
    → Words w xs
    → (k : ℕ) × (value (increment xs) + modulus w * k ≡ value xs + 1) × Words w (increment xs)
unfolding increment
increment_carry zero [] h = (1, omega arith, tt)
increment_carry zero (x ∷ xs) h = absurd h
increment_carry (suc w) [] h = absurd h
increment_carry (suc w) (x ∷ xs) h =
    let rest = increment_carry w xs h.1 in
    elim (Bool-cases ((x + 1) % 2 ^ 32 == 0)) [
      | inl e ↦ rw e (rest.0, ground (arith, rest.1), ground (arith, rest.2))
      | inr e ↦ rw e (0, ground arith, ground arith)
    ]

decrement_borrow :
    (w : ℕ) (xs : List ℕ)
    → Words w xs
    → (k : ℕ) × (value (decrement xs) + 1 ≡ value xs + modulus w * k) × Words w (decrement xs)
unfolding decrement
decrement_borrow zero [] h = (1, omega arith, tt)
decrement_borrow zero (x ∷ xs) h = absurd h
decrement_borrow (suc w) [] h = absurd h
decrement_borrow (suc w) (x ∷ xs) h =
    let rest = decrement_borrow w xs h.1 in
    elim (Bool-cases ((x + 2 ^ 32 - 1) % 2 ^ 32 == 2 ^ 32 - 1)) [
      | inl e ↦ rw e (rest.0, ground (arith, rest.1), ground (arith, rest.2))
      | inr e ↦ rw e (0, ground arith, ground arith)
    ]

-- `++` of an array of `w` words adds 1 modulo 2 ^ (32 * w).
pub value-increment :
    (w : ℕ) (xs : List ℕ) → Words w xs → value (increment xs) ≡ (value xs + 1) % modulus w
value-increment w xs h =
    let (k, e, b) = increment_carry w xs h in
    mod_unique _ k (modulus w) (value xs + 1) e (value-lt w _ b)

decrement_wraps : (v x k m : ℕ) → v + 1 ≡ x + m * k → v < m → x < m → v ≡ (x + m - 1) % m
decrement_wraps v x zero m e hv hx = grind arith
decrement_wraps v x (suc zero) m e hv hx = grind arith
decrement_wraps v x (suc (suc k)) m e hv hx = grind arith

-- `--` of an array of `w` words subtracts 1 modulo 2 ^ (32 * w).
pub value-decrement :
    (w : ℕ) (xs : List ℕ)
    → Words w xs
    → value (decrement xs) ≡ (value xs + modulus w - 1) % modulus w
value-decrement w xs h =
    let (k, e, b) = decrement_borrow w xs h in
    decrement_wraps _ (value xs) k (modulus w) e (value-lt w _ b) (value-lt w xs h)

complement_sum :
    (w : ℕ) (xs : List ℕ)
    → Words w xs
    → (value (complement xs) + value xs + 1 ≡ modulus w) × Words w (complement xs)
unfolding complement
complement_sum zero [] h = (omega arith, tt)
complement_sum zero (x ∷ xs) h = absurd h
complement_sum (suc w) [] h = absurd h
complement_sum (suc w) (x ∷ xs) h =
    let rest = complement_sum w xs h.1 in (omega (arith, rest.0), (omega arith, rest.1))

pub negate-Words : (w : ℕ) (xs : List ℕ) → Words w xs → Words w (negate xs)
unfolding negate
negate-Words w xs h = (increment_carry w _ (complement_sum w xs h).1).2

-- Unary `-` of an array of `w` words is negation modulo 2 ^ (32 * w).
pub value-negate :
    (w : ℕ) (xs : List ℕ) → Words w xs → value (negate xs) ≡ (modulus w - value xs) % modulus w
unfolding negate
value-negate w xs h =
    let (e, b) = complement_sum w xs h in
    value-increment w (complement xs) b ∙ ap (λ t. t % modulus w) (omega (arith, e))

-- Subtraction of arrays of `w` words wraps modulo 2 ^ (32 * w).
pub value-subtract :
    (w : ℕ) (xs ys : List ℕ)
    → Words w xs
    → Words w ys
    → value (subtract xs ys) ≡ (value xs + modulus w - value ys) % modulus w
unfolding subtract
value-subtract w xs ys hx hy =
    value-add w xs (negate ys) hx (negate-Words w ys hy)
    ∙ rw (value-negate w ys hy, add-mod-mod)
        (ap (λ t. t % modulus w) (omega (arith, value-lt w ys hy)))

wraps_once : (x m : ℕ) → x < m → (x + m) % m ≡ x
wraps_once x m h = grind arith

-- For arrays of `w` words, `a - b + b` is the number `a`, whatever wraps.
pub add-subtract :
    (w : ℕ) (xs ys : List ℕ) → Words w xs → Words w ys → value (add (subtract xs ys) ys) ≡ value xs
unfolding subtract
add-subtract w xs ys hx hy =
    value-add w (subtract xs ys) ys (add-Words w xs (negate ys) hx (negate-Words w ys hy)) hy
    ∙ rw (value-subtract w xs ys hx hy, mod-add-mod)
        (ap (λ t. t % modulus w) (omega (arith, value-lt w ys hy))
          ∙ wraps_once (value xs) (modulus w) (value-lt w xs hx))
