-- ===== src/ArithUint/Quotient.antt =====
-- primitives/arith_uint256.cpp: `/=` computes the quotient.
use native.Mathlib.Nat.{
  mul-lt-mul_of_pos_right, zero-div, mod-eq_of_lt, mul-le-mul_right, div-eq_of_lt, pow-le-pow_right,
}
use gen2_energiminer.Common.{
  ℕ, suc, ◌+◌, ◌-◌, ◌*◌, ◌/◌, ◌^◌, ◌<◌, ◌≤◌, ◌≡◌, refl, ap, ◌∙◌, sym, subst, true, false, List,
  none, some, arith, length, replicate, pow-add, ◌==◌, ltb, Bool-cases, ◌⊎◌, inl, inr, one-le-pow,
}
use gen2_energiminer.ArithUint.Modulus.{modulus-pow}
use gen2_energiminer.ArithUint.Value.{
  value, modulus, Words, length-Words, value-lt, zeros-Words, value-zeros,
}
use gen2_energiminer.ArithUint.Divide.{shift_left, bits, divide_loop, divide}
use gen2_energiminer.ArithUint.ShiftLeft.{value-shift_left}
use gen2_energiminer.ArithUint.Length.{HasBits, none_set, highest, bits-HasBits}
use gen2_energiminer.ArithUint.QuotientLoop.{loop-Quotient}

pow_mono : (a b : ℕ) → a ≤ b → 2 ^ a ≤ 2 ^ b
pow_mono a b le = pow-le-pow_right {n = 2} (omega arith) {i = a} {j = b} le

same_left : (d m : ℕ) → suc d ≡ suc m → d ≡ m
same_left d m e = omega (arith, e)

module _ (w : ℕ) (num div : List ℕ) (hn : Words w num) (hd : Words w div) where
  -- The divisor has no more digits than the number: it is shifted to the number's highest digit.
  long-Quotient :
      (a b : ℕ)
      → bits num ≡ suc a
      → bits div ≡ suc b
      → b ≤ a
      → a < 32 * w
      → 2 ^ b ≤ value div
      → value div < 2 ^ suc b
      → value num < 2 ^ suc a
      → 0 < value div
      → Words w (
          divide_loop
            (suc (bits num - bits div))
            num
            (shift_left div (bits num - bits div))
            (replicate (length num) 0))
        × (value (
              divide_loop
                (suc (bits num - bits div))
                num
                (shift_left div (bits num - bits div))
                (replicate (length num) 0))
            ≡ value num / value div)
  long-Quotient a b ea eb le room lo hi top pos =
      let d = bits num - bits div in
      let gap : b + d ≡ a = omega (arith, ea, eb, le) in
      let (cur_words, shifted) = value-shift_left w d div hd in
      let fits : value div * 2 ^ d < modulus w =
        let wide : value div * 2 ^ d < 2 ^ suc b * 2 ^ d =
          mul-lt-mul_of_pos_right hi (omega (arith, one-le-pow d)) in
        let place : suc b + d ≡ suc a = omega (arith, gap) in
        let all : 2 ^ suc b * 2 ^ d ≡ 2 ^ suc a =
          sym (pow-add (suc b) d) ∙ ap (λ (t : ℕ). 2 ^ t) place in
        omega (arith, wide, all, pow_mono (suc a) (32 * w) (omega (arith, room)), modulus-pow w) in
      let cur : value (shift_left div d) ≡ value div * 2 ^ d = shifted ∙ mod-eq_of_lt fits in
      let place : suc a ≡ b + suc d = omega (arith, gap) in
      let whole : 2 ^ suc a ≡ 2 ^ b * 2 ^ suc d = ap (λ (t : ℕ). 2 ^ t) place ∙ pow-add b (suc d) in
      let bounded : value num < value div * 2 ^ suc d =
        omega (arith, top, whole, mul-le-mul_right (2 ^ suc d) lo) in
      rw (length-Words w num hn) (
        loop-Quotient w (suc d) (value num) (value div) num (shift_left div d) (replicate w 0)
          (omega (arith, gap, room)) pos
          (record {
            num_words = hn;
            cur_words = cur_words;
            q_words = zeros-Words w;
            divisor = λ m e. cur ∙ ap (λ (t : ℕ). value div * 2 ^ t) (same_left d m e);
            bound = bounded;
            high = 0;
            multiple = value-zeros w ∙ omega arith;
            sum = ap (λ (t : ℕ). t * value div + value num) (value-zeros w) ∙ omega arith;
          }))

  -- A number with fewer digits than the divisor has the quotient 0.
  short-Quotient :
      (b : ℕ)
      → bits div ≡ suc b
      → 2 ^ b ≤ value div
      → HasBits (bits num) (value num)
      → ltb (bits num) (bits div) ≡ true
      → 0 < value div
      → value (replicate (length num) 0) ≡ value num / value div
  short-Quotient b eb lo (none_set e z) less pos =
      value-zeros (length num) ∙ sym (ap (λ (t : ℕ). t / value div) z ∙ zero-div (value div))
  short-Quotient b eb lo (highest a e low top) less pos =
      let le : suc a ≤ b = ground (arith, e, eb, less) in
      value-zeros (length num) ∙ sym (div-eq_of_lt (omega (arith, top, lo, pow_mono (suc a) b le)))

  in_range : (a : ℕ) → 2 ^ a ≤ value num → a < 32 * w
  in_range a low = elim (Bool-cases (ltb a (32 * w))) [
    | inl lt ↦ ground (arith, lt)
    | inr ge ↦ absurd (
        omega
          (arith, low, value-lt w num hn, modulus-pow w, pow_mono (32 * w) a (ground (arith, ge))))
  ]

  by_digits :
      (b : ℕ)
      → bits div ≡ suc b
      → 2 ^ b ≤ value div
      → value div < 2 ^ suc b
      → HasBits (bits num) (value num)
      → 0 < value div
      → ltb (bits num) (bits div) ≡ false
      → Words w (
          divide_loop
            (suc (bits num - bits div))
            num
            (shift_left div (bits num - bits div))
            (replicate (length num) 0))
        × (value (
              divide_loop
                (suc (bits num - bits div))
                num
                (shift_left div (bits num - bits div))
                (replicate (length num) 0))
            ≡ value num / value div)
  by_digits b eb lo hi (none_set e z) pos enough = absurd (ground (arith, e, eb, enough))
  by_digits b eb lo hi (highest a e low top) pos enough =
      long-Quotient a b e eb (ground (arith, e, eb, enough)) (in_range a low) lo hi top pos

by_divisor :
    (w : ℕ) (num div : List ℕ)
    → Words w num
    → Words w div
    → HasBits (bits div) (value div)
    → ((value div ≡ 0) × (divide num div ≡ none))
      ⊎ ((0 < value div)
          × ((q : List ℕ) × (divide num div ≡ some q)
              × Words w q
              × (value q ≡ value num / value div)))
unfolding divide
by_divisor w num div hn hd (none_set e z) = inl (z, ground (arith, e))
by_divisor w num div hn hd (highest b e lo hi) =
    let pos : 0 < value div = omega (arith, lo, one-le-pow b) in
    let some_bits : (bits div == 0) ≡ false = ground (arith, e) in
    let digits = bits-HasBits w num hn in
    inr (
      pos,
      elim (Bool-cases (ltb (bits num) (bits div))) [
        | inl less ↦
            let zeros : Words w (replicate (length num) 0) =
              subst (λ (n : ℕ). Words w (replicate n 0)) (sym (length-Words w num hn))
                (zeros-Words w) in
            (
              replicate (length num) 0,
              rw (some_bits, less) refl,
              zeros,
              short-Quotient w num div hn hd b e lo digits less pos,
            )
        | inr enough ↦
            let (words, quotient) = by_digits w num div hn hd b e lo hi digits pos enough in
            (
              divide_loop (suc (bits num - bits div)) num (shift_left div (bits num - bits div))
                  (replicate (length num) 0),
              rw (some_bits, enough) refl,
              words,
              quotient,
            )
      ],
    )

-- Of arrays of `w` words, `/=` throws exactly if the divisor is 0, and else gives the `w` words of the
-- quotient of the numbers, rounded down.
pub divide-value :
    (w : ℕ) (num div : List ℕ)
    → Words w num
    → Words w div
    → ((value div ≡ 0) × (divide num div ≡ none))
      ⊎ ((0 < value div)
          × ((q : List ℕ) × (divide num div ≡ some q)
              × Words w q
              × (value q ≡ value num / value div)))
unfolding divide
divide-value w num div hn hd = by_divisor w num div hn hd (bits-HasBits w div hd)
