-- ===== src/ArithUint/ShiftLeft.antt =====
-- primitives/arith_uint256.cpp: what `<<=` computes.
use native.Mathlib.Nat.{zero-mod, pow-le-pow_right, mod-eq_of_lt, mul-le-mul_right}
use gen2_energiminer.Common.{
  ℕ, zero, suc, ◌+◌, ◌-◌, ◌*◌, ◌/◌, ◌%◌, ◌^◌, ◌<◌, ◌≤◌, ◌≡◌, refl, ap, ◌∙◌, sym, subst, true, false,
  not, ◌&&◌, List, arith, get_or, length, take, replicate, pow-add, u32, ltb, ◌==◌, if◌then◌else◌,
  Bool-cases, inl, inr, mod_unique,
}
use gen2_energiminer.ArithUint.Modulus.{
  modulus-pos, modulus-add, modulus-le, modulus-pow, modulus-next, two_pow-pos,
}
use gen2_energiminer.ArithUint.Value.{
  value, modulus, Words, length-Words, value-lt, zeros-Words, value-zeros,
}
use gen2_energiminer.ArithUint.Divide.{or_into, shift_left_loop, shift_left}
use gen2_energiminer.ArithUint.OrInto.{
  get-or_into_ne, get-Words, get-lt, value-take, take-value-lt, take-all, or_into-above,
}
use gen2_energiminer.ArithUint.LeftWord.{
  spread, three_ways, inner_sum, last_sum, drops_out, below, leaves, stays, stays-lt, parts_at,
  low_word, leaves-lt,
}

module _ (w k s : ℕ) (hs : s < 32) where
  small_pow : 2 ^ s ≤ 2 ^ 32
  small_pow =
      let le : s ≤ 32 = omega (arith, hs) in
      pow-le-pow_right {n = 2} (omega arith) {i = s} {j = 32} le

  next_modulus : (j : ℕ) → 2 ^ s * modulus j ≤ modulus (j + 1)
  next_modulus j = omega (arith, modulus-next j, mul-le-mul_right (modulus j) small_pow)

  -- After the words below `i`, the result is what they stand for, shifted, modulo 2 ^ (32 * w).
  record Shifted (i : ℕ) (a pn : List ℕ) : Type 0 where
    words : Words w pn
    holds : value pn ≡ value (take i a) * 2 ^ s * modulus k % modulus w

  -- The number before the word at `i` takes less than its bits.
  before :
      (i : ℕ) (a pn : List ℕ)
      → Words w a
      → i + k < w
      → Shifted i a pn
      → (value pn ≡ value (take i a) * 2 ^ s * modulus k) × (value pn < 2 ^ s * modulus (i + k))
  before i a pn ha lt v =
      let V = value (take i a) in
      let small : V * 2 ^ s * modulus k < 2 ^ s * modulus (i + k) =
        below V (modulus i) (2 ^ s) (modulus k) (modulus (i + k)) (take-value-lt w i a ha)
          (modulus-add i k) (two_pow-pos s) (modulus-pos k) in
      let top = next_modulus (i + k) in
      let step : modulus (i + k + 1) ≡ 2 ^ 32 * modulus (i + k) = modulus-next (i + k) in
      let exact : V * 2 ^ s * modulus k % modulus w ≡ V * 2 ^ s * modulus k =
        mod-eq_of_lt (omega (arith, small, top, step, modulus-le w (i + k) lt)) in
      (v.holds ∙ exact, omega (arith, v.holds, exact, small))

  abbrev low_or : ℕ → ℕ → List ℕ → List ℕ
  low_or i x pn = or_into (i + k) (u32 (x * 2 ^ s)) pn

  abbrev high_or : ℕ → ℕ → List ℕ → List ℕ
  high_or i x pn =
      if ltb (i + k + 1) (length pn) && not (s == 0)
      then or_into (i + k + 1) (x / 2 ^ (32 - s)) pn
      else pn

  module _ (i x : ℕ) (pn : List ℕ) (hx : x < 2 ^ 32) (hp : Words w pn)
      (small : value pn < 2 ^ s * modulus (i + k)) where
    -- The bits that leave the word go to the next one, if there is one.
    high_adds :
        i + k + 1 < w
        → Words w (high_or i x pn)
          × (value (high_or i x pn) ≡ value pn + leaves s x hs hx * modulus (i + k + 1))
          × (get_or (high_or i x pn) (i + k) 0 ≡ get_or pn (i + k) 0)
    high_adds lt = elim (Bool-cases (s == 0)) [
      | inl zero_bits ↦
          let no_shift : s ≡ 0 = ground (arith, zero_bits) in
          let no_bits : 2 ^ s ≡ 1 = ap (λ (t : ℕ). 2 ^ t) no_shift in
          let none_left : leaves s x hs hx ≡ 0 = omega (arith, no_bits, leaves-lt s x hs hx) in
          let skips : (ltb (i + k + 1) (length pn) && not (s == 0)) ≡ false =
            ground (arith, zero_bits) in
          rw skips (hp, omega (arith, ap (λ (t : ℕ). t * modulus (i + k + 1)) none_left), refl)
      | inr bits ↦
          let len = length-Words w pn hp in
          let taken : (ltb (i + k + 1) (length pn) && not (s == 0)) ≡ true =
            ground (arith, bits, len, lt) in
          let free : get_or pn (i + k + 1) 0 < 1 =
            get-lt (i + k + 1) 1 pn (omega (arith, small, next_modulus (i + k))) in
          let (words, sum) =
            or_into-above w (i + k + 1) 0 (leaves s x hs hx) pn hp lt (omega arith) free
              (omega (arith, leaves-lt s x hs hx, small_pow)) in
          let whole_word : leaves s x hs hx * 2 ^ 0 ≡ x / 2 ^ (32 - s) = omega arith in
          rw taken (
            subst (λ (y : ℕ). Words w (or_into (i + k + 1) y pn)) whole_word words,
            subst (λ (y : ℕ). value (or_into (i + k + 1) y pn) ≡ value pn + y * modulus (i + k + 1))
                whole_word sum,
            get-or_into_ne (i + k + 1) (i + k) (x / 2 ^ (32 - s)) pn (λ e. omega arith),
          )
    ]

    -- The bits that stay in the word.
    low_adds :
        (h : List ℕ)
        → Words w h
        → i + k < w
        → get_or h (i + k) 0 ≡ get_or pn (i + k) 0
        → Words w (low_or i x h)
          × (value (low_or i x h) ≡ value h + stays s x hs hx * 2 ^ s * modulus (i + k))
    low_adds h hh lt same =
        let room : get_or h (i + k) 0 < 2 ^ s =
          omega (arith, same, get-lt (i + k) (2 ^ s) pn small) in
        rw (low_word s x hs hx) (
          or_into-above w (i + k) s (stays s x hs hx) h hh lt (omega (arith, hs)) room
            (stays-lt s x hs hx))

  abbrev body : ℕ → List ℕ → List ℕ → List ℕ
  body i a pn =
      if ltb (i + k) (length pn)
      then low_or i (get_or a i 0) (high_or i (get_or a i 0) pn)
      else high_or i (get_or a i 0) pn

  loop-body :
      (left i : ℕ) (a pn : List ℕ)
      → shift_left_loop (suc left) i k s a pn ≡ shift_left_loop left (i + 1) k s a (body i a pn)
  unfolding shift_left_loop
  loop-body left i a pn = refl

  -- The number that a round adds to.
  gains :
      (i : ℕ) (a : List ℕ)
      → Words w a
      → i < w
      → value (take (i + 1) a) * 2 ^ s * modulus k
        ≡ value (take i a) * 2 ^ s * modulus k + get_or a i 0 * 2 ^ s * modulus (i + k)
  gains i a ha lt =
      let up : i + 1 ≡ suc i = omega arith in
      let next : value (take (i + 1) a) ≡ value (take i a) + get_or a i 0 * modulus i =
        ap (λ (n : ℕ). value (take n a)) up
        ∙ value-take i a (omega (arith, length-Words w a ha, lt)) in
      rw (next, modulus-add i k)
        (spread (value (take i a)) (get_or a i 0) (modulus i) (2 ^ s) (modulus k))

  body-Shifted :
      (i : ℕ) (a pn : List ℕ) → Words w a → i < w → Shifted i a pn → Shifted (i + 1) a (body i a pn)
  body-Shifted i a pn ha hi v =
      let x = get_or a i 0 in
      let hx = get-Words w i a ha in
      let len = length-Words w pn v.words in
      elim (three_ways (i + k) w) [
        | inl inner ↦
            let (exact, small) = before i a pn ha (omega (arith, inner)) v in
            let high = high_adds i x pn hx v.words small inner in
            let low =
              low_adds i x pn hx v.words small (high_or i x pn) high.0 (omega (arith, inner))
                high.2 in
            let here : ltb (i + k) (length pn) ≡ true = ground (arith, len, inner) in
            rw here (record {
              words = low.0;
              holds =
                  mod_unique _ 0 (modulus w) _
                    (inner_sum (value pn) (stays s x hs hx * 2 ^ s) (leaves s x hs hx)
                      (modulus (i + k)) (modulus (i + k + 1)) (modulus w) _ _ _ _ low.1 high.1
                      (modulus-next (i + k)) (parts_at s x hs hx (modulus (i + k)))
                      (gains i a ha hi
                        ∙ ap (λ (t : ℕ). t + x * 2 ^ s * modulus (i + k)) (sym exact)))
                    (value-lt w _ low.0);
            })
        | inr (inl last) ↦
            let (exact, small) = before i a pn ha (omega (arith, last)) v in
            let low = low_adds i x pn hx v.words small pn v.words (omega (arith, last)) refl in
            let here : ltb (i + k) (length pn) ≡ true = ground (arith, len, last) in
            let no_next : (ltb (i + k + 1) (length pn) && not (s == 0)) ≡ false =
              ground (arith, len, last) in
            let top : modulus w ≡ 2 ^ 32 * modulus (i + k) =
              ap modulus (sym last) ∙ modulus-next (i + k) in
            rw (here, no_next)
              (record {
                words = low.0;
                holds =
                    mod_unique _ (leaves s x hs hx) (modulus w) _
                      (last_sum (value pn) (stays s x hs hx * 2 ^ s) (leaves s x hs hx)
                        (modulus (i + k)) (modulus w) _ _ _ low.1 top
                        (parts_at s x hs hx (modulus (i + k)))
                        (gains i a ha hi
                          ∙ ap (λ (t : ℕ). t + x * 2 ^ s * modulus (i + k)) (sym exact)))
                      (value-lt w _ low.0);
              })
        | inr (inr outside) ↦
            let here : ltb (i + k) (length pn) ≡ false = ground (arith, len, outside) in
            let no_next : (ltb (i + k + 1) (length pn) && not (s == 0)) ≡ false =
              ground (arith, len, outside) in
            let split : w + (i + k - w) ≡ i + k = omega (arith, outside) in
            let over : modulus (i + k) ≡ modulus w * modulus (i + k - w) =
              ap modulus (sym split) ∙ modulus-add w (i + k - w) in
            rw (here, no_next)
              (record {
                words = v.words;
                holds =
                    v.holds
                    ∙ sym (
                        ap (λ (t : ℕ). t % modulus w) (gains i a ha hi)
                        ∙ drops_out (value (take i a) * 2 ^ s * modulus k) (x * 2 ^ s)
                            (modulus (i + k)) (modulus w) (modulus (i + k - w)) over);
              })
      ]

  loop-Shifted :
      (left i : ℕ) (a pn : List ℕ)
      → Words w a
      → i + left ≡ w
      → Shifted i a pn
      → Shifted w a (shift_left_loop left i k s a pn)
  loop-Shifted zero i a pn ha e v =
      let at : i ≡ w = omega (arith, e) in
      unfold shift_left_loop in subst (λ (n : ℕ). Shifted n a pn) at v
  loop-Shifted (suc left) i a pn ha e v = rw (loop-body left i a pn) (
      loop-Shifted left (i + 1) a (body i a pn) ha (omega (arith, e))
        (body-Shifted i a pn ha (omega (arith, e)) v))

nothing_yet : (w k s : ℕ) → 0 * 2 ^ s * modulus k % modulus w ≡ 0
nothing_yet w k s =
    let none_yet : 0 * 2 ^ s * modulus k ≡ 0 = grind arith in rw none_yet (zero-mod (modulus w))

whole_shift :
    (w k s n : ℕ) (a : List ℕ)
    → Words w a
    → n ≡ s + 32 * k
    → value (take w a) * 2 ^ s * modulus k ≡ value a * 2 ^ n
whole_shift w k s n a ha e =
    let all : take w a ≡ a = ap (λ (m : ℕ). take m a) (sym (length-Words w a ha)) ∙ take-all a in
    rw (all, e, pow-add s (32 * k), modulus-pow k) (grind arith)

-- `a << n` for an array of `w` words is the number times 2 ^ n, modulo 2 ^ (32 * w).
pub value-shift_left :
    (w n : ℕ) (a : List ℕ)
    → Words w a
    → Words w (shift_left a n) × (value (shift_left a n) ≡ value a * 2 ^ n % modulus w)
unfolding shift_left
value-shift_left w n a ha =
    let k = n / 32 in
    let s = n % 32 in
    let len = length-Words w a ha in
    let hs : s < 32 = omega arith in
    let done =
      loop-Shifted w k s hs w 0 a (replicate w 0) ha (omega arith)
        (record { words = zeros-Words w; holds = value-zeros w ∙ sym (nothing_yet w k s) }) in
    rw len (
      done.words,
      done.holds ∙ ap (λ (t : ℕ). t % modulus w) (whole_shift w k s n a ha (omega arith)),
    )
