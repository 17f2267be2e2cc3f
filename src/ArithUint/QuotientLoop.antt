-- ===== src/ArithUint/QuotientLoop.antt =====
-- primitives/arith_uint256.cpp: the loop of `/=` divides.
use native.Mathlib.Nat.{pow-succ', div-eq_of_lt-le}
use gen2_energiminer.Common.{
  ℕ, zero, suc, ◌+◌, ◌-◌, ◌*◌, ◌/◌, ◌%◌, ◌^◌, ◌<◌, ◌≤◌, ◌≡◌, refl, ap, ap₂, ◌∙◌, sym, true, false,
  List, arith, if◌then◌else◌, Bool-cases, inl, inr, leb,
}
use gen2_energiminer.ArithUint.{subtract}
use gen2_energiminer.ArithUint.Value.{value, Words}
use gen2_energiminer.ArithUint.Divide.{or_into, shift_right, at_least, divide_loop}
use gen2_energiminer.ArithUint.ShiftRight.{value-shift_right}
use gen2_energiminer.ArithUint.QuotientBit.{
  subtract-Words, subtract-exact, at_least-value, or_into-bit,
}

pub leb-false : (a b : ℕ) → leb a b ≡ false → b < a
leb-false a b h = ground arith

pub leb-true : (a b : ℕ) → leb a b ≡ true → a ≤ b
leb-true a b h = ground arith

pub doubles : (d p : ℕ) → d * (2 * p) ≡ d * p + d * p
doubles d p = grind arith

pub odd_multiple : (h p v : ℕ) → v ≡ h * (2 * p) → v + p ≡ (2 * h + 1) * p
odd_multiple h p v e = rw e (grind arith)

pub even_multiple : (h p v : ℕ) → v ≡ h * (2 * p) → v ≡ 2 * h * p
even_multiple h p v e = rw e (grind arith)

pub sum_moves : (q p d n c t : ℕ) → c ≡ d * p → c ≤ n → q * d + n ≡ t → (q + p) * d + (n - c) ≡ t
sum_moves q p d n c t e le h =
    let spread : (q + p) * d ≡ q * d + d * p = grind arith in omega (arith, e, le, h, spread)

pub one_beyond : (q d r t : ℕ) → q * d + r ≡ t → r < d → t < (q + 1) * d
one_beyond q d r t e lt =
    let spread_out : (q + 1) * d ≡ q * d + d = grind arith in omega (arith, e, lt, spread_out)

pub div_unique : (q d r t : ℕ) → q * d + r ≡ t → r < d → t / d ≡ q
div_unique q d r t e lt =
    div-eq_of_lt-le {k = q} d {m = t} (omega (arith, e)) (one_beyond q d r t e lt)

-- With `n` rounds left: what is still to be divided, and the divisor of the next round.
pub record Dividing (w n total d0 : ℕ) (num cur q : List ℕ) : Type 0 where
  pub num_words : Words w num
  pub cur_words : Words w cur
  pub q_words : Words w q
  pub divisor : (m : ℕ) → n ≡ suc m → value cur ≡ d0 * 2 ^ m
  pub bound : value num < d0 * 2 ^ n
  pub high : ℕ
  pub multiple : value q ≡ high * 2 ^ n
  pub sum : value q * d0 + value num ≡ total

pub divide-go :
    (n : ℕ) (num cur q : List ℕ)
    → divide_loop (suc n) num cur q
      ≡ divide_loop n
          (if at_least num cur then subtract num cur else num)
          (shift_right cur 1)
          (if at_least num cur then or_into (n / 32) (2 ^ (n % 32)) q else q)
unfolding divide_loop
divide-go n num cur q = refl

pub round-Dividing :
    (w n total d0 : ℕ) (num cur q : List ℕ)
    → n < 32 * w
    → Dividing w (suc n) total d0 num cur q
    → Dividing w n total d0
        (if at_least num cur then subtract num cur else num)
        (shift_right cur 1)
        (if at_least num cur then or_into (n / 32) (2 ^ (n % 32)) q else q)
round-Dividing w n total d0 num cur q lt v =
    let now : value cur ≡ d0 * 2 ^ n = v.divisor n refl in
    let (cur_words, halved) = value-shift_right w 1 cur v.cur_words in
    let next : (m : ℕ) → n ≡ suc m → value (shift_right cur 1) ≡ d0 * 2 ^ m = λ m e.
      let twice : d0 * 2 ^ n ≡ d0 * 2 ^ m + d0 * 2 ^ m =
        ap (λ (t : ℕ). d0 * t) (ap (λ (t : ℕ). 2 ^ t) e ∙ pow-succ' 2 m) ∙ doubles d0 (2 ^ m) in
      halved ∙ omega (arith, now, twice) in
    let wide : d0 * 2 ^ suc n ≡ d0 * 2 ^ n + d0 * 2 ^ n =
      ap (λ (t : ℕ). d0 * t) (pow-succ' 2 n) ∙ doubles d0 (2 ^ n) in
    let twofold : value q ≡ v.high * (2 * 2 ^ n) =
      v.multiple ∙ ap (λ (t : ℕ). v.high * t) (pow-succ' 2 n) in
    elim (Bool-cases (leb (value cur) (value num))) [
      | inl fits ↦
          let test : at_least num cur ≡ true =
            at_least-value w num cur v.num_words v.cur_words ∙ fits in
          let le : value cur ≤ value num = leb-true _ _ fits in
          let exact : value (subtract num cur) ≡ value num - value cur =
            subtract-exact w num cur v.num_words v.cur_words le in
          let (words, joined) = or_into-bit w n v.high q v.q_words lt v.multiple in
          rw test (record {
            num_words = subtract-Words w num cur v.num_words v.cur_words;
            cur_words = cur_words;
            q_words = words;
            divisor = next;
            bound = omega (arith, exact, now, wide, v.bound);
            high = 2 * v.high + 1;
            multiple = joined ∙ odd_multiple v.high (2 ^ n) (value q) twofold;
            sum =
                ap₂ (λ (x : ℕ) y. x * d0 + y) joined exact
                ∙ sum_moves (value q) (2 ^ n) d0 (value num) (value cur) total now le v.sum;
          })
      | inr small ↦
          let test : at_least num cur ≡ false =
            at_least-value w num cur v.num_words v.cur_words ∙ small in
          rw test (record {
            num_words = v.num_words;
            cur_words = cur_words;
            q_words = v.q_words;
            divisor = next;
            bound = omega (arith, now, leb-false _ _ small);
            high = 2 * v.high;
            multiple = even_multiple v.high (2 ^ n) (value q) twofold;
            sum = v.sum;
          })
    ]

pub loop-Quotient :
    (w n total d0 : ℕ) (num cur q : List ℕ)
    → n ≤ 32 * w
    → 0 < d0
    → Dividing w n total d0 num cur q
    → Words w (divide_loop n num cur q) × (value (divide_loop n num cur q) ≡ total / d0)
loop-Quotient w zero total d0 num cur q le pos v =
    unfold divide_loop in
    (v.q_words, sym (div_unique (value q) d0 (value num) total v.sum (omega (arith, v.bound))))
loop-Quotient w (suc n) total d0 num cur q le pos v = rw (divide-go n num cur q) (
    loop-Quotient w n total d0 _ _ _ (omega arith) pos
      (round-Dividing w n total d0 num cur q (omega (arith, le)) v))
