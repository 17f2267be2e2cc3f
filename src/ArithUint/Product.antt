-- ===== src/ArithUint/Product.antt =====
-- What the two `*=` of `base_uint` compute.
use gen2_energiminer.Common.{
  ℕ, zero, suc, ◌+◌, ◌*◌, ◌/◌, ◌%◌, ◌^◌, ◌≤◌, ◌<◌, ◌≡◌, List, [], ◌∷◌, arith, mod_unique,
  mul-lt_word, ap, replicate, get_or, set, refl, ◌∙◌, u64, length, ◌-◌,
}
use gen2_energiminer.ArithUint.{
  scale_loop, scale, row_loop, settle, multiply_loop, multiply, multiply_in_place, square_row,
  square_loop,
}
use gen2_energiminer.ArithUint.Value.{
  value, modulus, Words, value-lt, zeros-Words, value-zeros, length-Words,
}

-- A word of the product with its carry: the 64-bit sum never wraps.
fits_u64 :
    (c p x y : ℕ)
    → c < 2 ^ 32
    → p < 2 ^ 32
    → x < 2 ^ 32
    → y < 2 ^ 32
    → ((c + p + x * y) % 2 ^ 64 ≡ c + p + x * y) × ((c + p + x * y) % 2 ^ 64 / 2 ^ 32 < 2 ^ 32)
fits_u64 c p x y hc hp hx hy = omega (arith, mul-lt_word x y hx hy)

scale_loop_carry :
    (w c b : ℕ) (xs : List ℕ)
    → c < 2 ^ 32
    → b < 2 ^ 32
    → Words w xs
    → (k : ℕ) × (value (scale_loop c b xs) + modulus w * k ≡ c + b * value xs)
      × Words w (scale_loop c b xs)
unfolding scale_loop
scale_loop_carry zero c b [] hc hb h = (c, omega arith, tt)
scale_loop_carry zero c b (x ∷ xs) hc hb h = absurd h
scale_loop_carry (suc w) c b [] hc hb h = absurd h
scale_loop_carry (suc w) c b (x ∷ xs) hc hb h =
    let f = fits_u64 c 0 b x hc (omega arith) hb h.0 in
    let rest = scale_loop_carry w ((c + b * x) % 2 ^ 64 / 2 ^ 32) b xs (omega (arith, f)) hb h.1 in
    (rest.0, omega (arith, rest.1, f), (omega arith, rest.2))

-- Multiplication of an array of `w` words by a `uint32_t` is multiplication modulo 2 ^ (32 * w).
pub value-scale :
    (w b : ℕ) (xs : List ℕ)
    → b < 2 ^ 32
    → Words w xs
    → value (scale xs b) ≡ value xs * b % modulus w
unfolding scale
value-scale w b xs hb h =
    let (k, e, m) = scale_loop_carry w 0 b xs (omega arith) hb h in
    mod_unique _ k (modulus w) (value xs * b) (omega (arith, e)) (value-lt w _ m)

row_loop_carry :
    (n m c a : ℕ) (ps bs : List ℕ)
    → n ≤ m
    → c < 2 ^ 32
    → a < 2 ^ 32
    → Words n ps
    → Words m bs
    → (k : ℕ) × (value (row_loop c a ps bs) + modulus n * k ≡ c + value ps + a * value bs)
      × Words n (row_loop c a ps bs)
unfolding row_loop
row_loop_carry zero m c a [] bs le hc ha hp hb = (c + a * value bs, omega arith, tt)
row_loop_carry zero m c a (p ∷ ps) bs le hc ha hp hb = absurd hp
row_loop_carry (suc n) m c a [] bs le hc ha hp hb = absurd hp
row_loop_carry (suc n) zero c a (p ∷ ps) bs le hc ha hp hb = absurd (omega arith)
row_loop_carry (suc n) (suc m) c a (p ∷ ps) [] le hc ha hp hb = absurd hb
row_loop_carry (suc n) (suc m) c a (p ∷ ps) (b ∷ bs) le hc ha hp hb =
    let f = fits_u64 c p a b hc hp.0 ha hb.0 in
    let rest =
      row_loop_carry n m ((c + p + a * b) % 2 ^ 64 / 2 ^ 32) a ps bs (omega arith)
        (omega (arith, f)) ha hp.1 hb.1 in
    (rest.0, omega (arith, rest.1, f), (omega arith, rest.2))

-- A round: the row's lowest word is settled, and the loop goes on with the row's other words.
settled :
    (n s r b : ℕ) (next : List ℕ → List ℕ) (qs : List ℕ)
    → (k : ℕ) × (value qs + modulus (suc n) * k ≡ s) × Words (suc n) qs
    → ((ps : List ℕ)
        → Words n ps
        → (k : ℕ) × (value (next ps) + modulus n * k ≡ value ps + r * b) × Words n (next ps))
    → (k : ℕ) × (value (settle next qs) + modulus (suc n) * k ≡ s + 2 ^ 32 * r * b)
      × Words (suc n) (settle next qs)
unfolding settle
settled n s r b next [] (k, e, h) go = absurd h
settled n s r b next (q ∷ qs) (k, e, h) go =
    let rest = go qs h.1 in (k + rest.0, omega (arith, e, rest.1), (h.0, rest.2))

-- The outer loop, over words from `j` up: it multiplies what is left of `a` by `b`.
multiply_loop_carry :
    (n m : ℕ) (bs rest ps : List ℕ)
    → n ≤ m
    → Words n rest
    → Words n ps
    → Words m bs
    → (k : ℕ) × (value (multiply_loop bs rest ps) + modulus n * k
        ≡ value ps + value rest * value bs)
      × Words n (multiply_loop bs rest ps)
unfolding multiply_loop
multiply_loop_carry zero m bs [] [] le hr hp hb = (0, omega arith, tt)
multiply_loop_carry zero m bs [] (p ∷ ps) le hr hp hb = absurd hp
multiply_loop_carry zero m bs (a ∷ rest) ps le hr hp hb = absurd hr
multiply_loop_carry (suc n) m bs [] ps le hr hp hb = absurd hr
multiply_loop_carry (suc n) m bs (a ∷ rest) ps le hr hp hb =
    let row = row_loop_carry (suc n) m 0 a ps bs le (omega arith) hr.0 hp hb in
    let round =
      settled n (value ps + a * value bs) (value rest) (value bs) (multiply_loop bs rest)
        (row_loop 0 a ps bs) (row.0, omega (arith, row.1), row.2)
        (λ qs hq. multiply_loop_carry n m bs rest qs (omega arith) hr.1 hq hb) in
    (round.0, omega (arith, round.1), round.2)

-- `multiply` of two arrays of `w` words is multiplication modulo 2 ^ (32 * w).
pub value-multiply :
    (w : ℕ) (xs ys : List ℕ)
    → Words w xs
    → Words w ys
    → value (multiply xs ys) ≡ value xs * value ys % modulus w
unfolding multiply
value-multiply w xs ys hx hy = rw (length-Words w xs hx) (
    let (k, e, b) =
      multiply_loop_carry w w ys xs (replicate w 0) (omega arith) hx (zeros-Words w) hy in
    mod_unique _ k (modulus w) (value xs * value ys) (omega (arith, e, value-zeros w))
      (value-lt w _ b))

abbrev zeros : ℕ → List ℕ
zeros w = replicate w 0

zero_at : (w i : ℕ) → get_or (zeros w) i 0 ≡ 0
zero_at zero i = refl
zero_at (suc w) zero = refl
zero_at (suc w) (suc i) = zero_at w i

zero_set : (w i : ℕ) → set (zeros w) i 0 ≡ zeros w
zero_set zero i = refl
zero_set (suc w) zero = refl
zero_set (suc w) (suc i) = ap (λ t. 0 ∷ t) (zero_set w i)

zero_word : (a : ℕ) → u64 (0 + 0 + a * 0) ≡ 0
zero_word a = let none_left : a * 0 ≡ 0 = omega arith in rw none_left refl

-- The array that the loops read and write stays 0 from round to round.
square_row-zeros : (left i j a w : ℕ) → square_row left i j 0 a (zeros w) ≡ zeros w
unfolding square_row
square_row-zeros zero i j a w = refl
square_row-zeros (suc left) i j a w =
    rw (zero_at w (i + j), zero_at w i, zero_word a, zero_set w (i + j))
      (square_row-zeros left (i + 1) j a w)

square_loop-zeros : (xs : List ℕ) (j w : ℕ) → square_loop xs j (zeros w) ≡ zeros w
unfolding square_loop
square_loop-zeros [] j w = refl
square_loop-zeros (a ∷ rest) j w =
    ap (square_loop rest (j + 1)) (square_row-zeros (length (zeros w) - j) 0 j a w)
    ∙ square_loop-zeros rest (j + 1) w

-- For any array of `w` words, `x *= x` gives 0, and not the square.
pub value-multiply_in_place : (w : ℕ) (xs : List ℕ) → Words w xs → value (multiply_in_place xs) ≡ 0
unfolding multiply_in_place
value-multiply_in_place w xs hx =
    ap value (square_loop-zeros xs 0 (length xs)) ∙ value-zeros (length xs)
