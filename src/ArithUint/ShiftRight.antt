-- ===== src/ArithUint/ShiftRight.antt =====
-- primitives/arith_uint256.cpp: what `>>=` computes.
use native.Mathlib.Nat.{
  div-lt_iff_lt-mul, mul-le-mul_left, div-div-eq-div-mul, add-mul-div_left, mul-le-mul_right,
  div-eq_of_lt, zero-div,
}
use gen2_energiminer.Common.{
  ℕ, zero, suc, ◌+◌, ◌-◌, ◌*◌, ◌/◌, ◌%◌, ◌^◌, ◌<◌, ◌≤◌, ◌≡◌, refl, ap, ap₂, ◌∙◌, sym, subst, true,
  false, not, ◌&&◌, List, arith, get_or, take, replicate, pow-add, u32, leb, ◌==◌, if◌then◌else◌,
  Bool-cases, inl, inr, one-le-pow,
}
use gen2_energiminer.ArithUint.Modulus.{
  modulus-pos, modulus-add, modulus_mono, modulus-pow, times_comm, two_pow-pos, word_split,
}
use gen2_energiminer.ArithUint.Value.{value, modulus, Words, length-Words, zeros-Words, value-zeros}
use gen2_energiminer.ArithUint.Divide.{or_into, shift_right_loop, shift_right}
use gen2_energiminer.ArithUint.OrInto.{
  get-or_into_ne, get-Words, get-lt, value-take, take-value-lt, take-all, or_into-above,
}
use gen2_energiminer.ArithUint.RightWord.{
  reorder, adds_none, sums_up, three_ways, swap, leaves, stays, split, leaves-lt, low_word,
  parts_at,
}

module _ (w k s : ℕ) (hs : s < 32) where
  divisor : ℕ
  divisor = modulus k * 2 ^ s

  divisor-pos : 0 < divisor
  unfolding divisor
  divisor-pos = grind (arith, modulus-pos k, two_pow-pos s)

  -- After the words below `i`, the result is what they stand for, shifted.
  record Shifted (i : ℕ) (a pn : List ℕ) : Type 0 where
    words : Words w pn
    holds : value pn ≡ value (take i a) / divisor

  abbrev low_or : ℕ → ℕ → List ℕ → List ℕ
  low_or i x pn =
      if leb (k + 1) i && not (s == 0) then or_into (i - k - 1) (u32 (x * 2 ^ (32 - s))) pn else pn

  abbrev body : ℕ → List ℕ → List ℕ → List ℕ
  body i a pn =
      if leb k i
      then or_into (i - k) (get_or a i 0 / 2 ^ s) (low_or i (get_or a i 0) pn)
      else low_or i (get_or a i 0) pn

  loop-body :
      (left i : ℕ) (a pn : List ℕ)
      → shift_right_loop (suc left) i k s a pn ≡ shift_right_loop left (i + 1) k s a (body i a pn)
  unfolding shift_right_loop
  loop-body left i a pn = refl

  takes :
      (i : ℕ) (a : List ℕ)
      → Words w a
      → i < w
      → value (take (i + 1) a) ≡ value (take i a) + get_or a i 0 * modulus i
  takes i a ha lt =
      let up : i + 1 ≡ suc i = omega arith in
      ap (λ (n : ℕ). value (take n a)) up ∙ value-take i a (omega (arith, length-Words w a ha, lt))

  -- Nothing is left of the words below `k`.
  nothing_below : (i : ℕ) (a : List ℕ) → Words w a → i ≤ k → value (take i a) / divisor ≡ 0
  unfolding divisor
  nothing_below i a ha le =
      let grows : modulus i ≤ modulus k = modulus_mono i k le in
      let wide : modulus k * 1 ≤ modulus k * 2 ^ s = mul-le-mul_left (modulus k) (one-le-pow s) in
      div-eq_of_lt (omega (arith, grows, wide, take-value-lt w i a ha))

  -- From word `k + 1` on, with `m` for the word below.
  module _ (i x : ℕ) (a pn : List ℕ) (ha : Words w a) (v : Shifted i a pn) (hx : x < 2 ^ 32)
      (above : k < i) (hi : i < w) where
    m : ℕ
    m = modulus (i - k - 1)

    next : modulus (i - k) ≡ 2 ^ 32 * m
    unfolding m
    next = let up : i - k ≡ suc (i - k - 1) = omega (arith, above) in ap modulus up

    product : modulus i ≡ divisor * (2 ^ (32 - s) * m)
    unfolding divisor
    product =
        let sum : k + (i - k) ≡ i = omega (arith, above) in
        ap modulus (sym sum)
        ∙ modulus-add k (i - k)
        ∙ ap (λ (t : ℕ). modulus k * t) next
        ∙ reorder (modulus k) (2 ^ s) (2 ^ (32 - s)) m (2 ^ 32) (word_split s hs)

    small : value pn < 2 ^ (32 - s) * m
    small =
        let bound : value (take i a) < 2 ^ (32 - s) * m * divisor =
          omega (arith, take-value-lt w i a ha, product, times_comm (2 ^ (32 - s) * m) divisor) in
        let quotient =
          (div-lt_iff_lt-mul {k = divisor} {x = value (take i a)} {y = 2 ^ (32 - s) * m}
              divisor-pos).1
            bound in
        omega (arith, v.holds, quotient)

    low_adds :
        Words w (low_or i x pn)
        × (value (low_or i x pn) ≡ value pn + leaves s x hs hx * 2 ^ (32 - s) * m)
        × (get_or (low_or i x pn) (i - k) 0 ≡ get_or pn (i - k) 0)
    low_adds = elim (Bool-cases (s == 0)) [
      | inl zero_bits ↦
          let no_shift : s ≡ 0 = ground (arith, zero_bits) in
          let no_bits : 2 ^ s ≡ 1 = ap (λ (t : ℕ). 2 ^ t) no_shift in
          let none_left : leaves s x hs hx ≡ 0 = omega (arith, no_bits, leaves-lt s x hs hx) in
          let skips : (leb (k + 1) i && not (s == 0)) ≡ false = ground (arith, zero_bits) in
          rw skips
            (v.words, adds_none (value pn) (leaves s x hs hx) (2 ^ (32 - s)) m none_left, refl)
      | inr bits ↦
          let taken : (leb (k + 1) i && not (s == 0)) ≡ true = ground (arith, bits, above) in
          let back : 32 - (32 - s) ≡ s = omega (arith, hs) in
          let room : leaves s x hs hx < 2 ^ (32 - (32 - s)) =
            subst (λ (n : ℕ). leaves s x hs hx < 2 ^ n) (sym back) (leaves-lt s x hs hx) in
          let (words, sum) =
            or_into-above w (i - k - 1) (32 - s) (leaves s x hs hx) pn v.words (omega (arith, hi))
              (omega arith) (get-lt (i - k - 1) (2 ^ (32 - s)) pn (unfold m in small)) room in
          rw (taken, low_word s x hs hx)
            (
              words,
              unfold m in sum,
              get-or_into_ne (i - k - 1) (i - k) _ pn (λ e. omega (arith, e, above)),
            )
    ]

    high_adds :
        Words w (or_into (i - k) (x / 2 ^ s) (low_or i x pn))
        × (value (or_into (i - k) (x / 2 ^ s) (low_or i x pn))
            ≡ value (low_or i x pn) + stays s x hs hx * modulus (i - k))
    high_adds =
        let low = low_adds in
        let fewer : 2 ^ (32 - s) * m ≤ 2 ^ 32 * m =
          mul-le-mul_right m (grind (arith, word_split s hs, two_pow-pos s)) in
        let free : get_or (low_or i x pn) (i - k) 0 < 1 =
          omega (arith, low.2, get-lt (i - k) 1 pn (omega (arith, small, fewer, next))) in
        let room : stays s x hs hx < 2 ^ 32 =
          omega (arith, split s x hs hx, hx, mul-le-mul_right (stays s x hs hx) (one-le-pow s)) in
        let (words, sum) =
          or_into-above w (i - k) 0 (stays s x hs hx) (low_or i x pn) low.0 (omega (arith, hi))
            (omega arith) free room in
        let same : stays s x hs hx * 2 ^ 0 ≡ x / 2 ^ s = omega arith in
        (
          subst (λ (y : ℕ). Words w (or_into (i - k) y (low_or i x pn))) same words,
          subst
              (λ (y : ℕ).
                value (or_into (i - k) y (low_or i x pn))
                ≡ value (low_or i x pn) + y * modulus (i - k))
              same sum,
        )

    quotient :
        get_or a i 0 ≡ x → value (take (i + 1) a) / divisor ≡ value pn + x * (2 ^ (32 - s) * m)
    quotient e =
        let gains : value (take (i + 1) a) ≡ value (take i a) + divisor * (x * (2 ^ (32 - s) * m)) =
          takes i a ha hi
          ∙ ap₂ (λ (y : ℕ) z. value (take i a) + y * z) e product
          ∙ ap (λ (t : ℕ). value (take i a) + t) (swap x divisor (2 ^ (32 - s) * m)) in
        ap (λ (t : ℕ). t / divisor) gains
        ∙ add-mul-div_left (value (take i a)) (x * (2 ^ (32 - s) * m)) divisor-pos
        ∙ ap (λ (t : ℕ). t + x * (2 ^ (32 - s) * m)) (sym v.holds)

    above-Shifted : get_or a i 0 ≡ x → Shifted (i + 1) a (body i a pn)
    above-Shifted e =
        let here : leb k i ≡ true = ground (arith, above) in
        let low = low_adds in
        let high = high_adds in
        rw (here, e)
          (record {
            words = high.0;
            holds =
                sums_up (value pn) (leaves s x hs hx * 2 ^ (32 - s)) (stays s x hs hx) m
                  (x * (2 ^ (32 - s) * m)) _ _ _ low.1 high.1 next (parts_at s x hs hx m)
                ∙ sym (quotient e);
          })

  module _ (i : ℕ) (a pn : List ℕ) (ha : Words w a) (v : Shifted i a pn) (hi : i < w) where
    below-Shifted : i < k → Shifted (i + 1) a (body i a pn)
    below-Shifted lt =
        let here : leb k i ≡ false = ground (arith, lt) in
        let skips : (leb (k + 1) i && not (s == 0)) ≡ false = ground (arith, lt) in
        rw (here, skips)
          (record {
            words = v.words;
            holds =
                v.holds
                ∙ nothing_below i a ha (omega (arith, lt))
                ∙ sym (nothing_below (i + 1) a ha (omega (arith, lt)));
          })

    first_quotient : i ≡ k → value (take (i + 1) a) / divisor ≡ get_or a i 0 / 2 ^ s
    unfolding divisor
    first_quotient e =
        let x = get_or a i 0 in
        let same : modulus i ≡ modulus k = ap modulus e in
        let gains : value (take (i + 1) a) ≡ value (take i a) + modulus k * x =
          takes i a ha hi
          ∙ ap (λ (t : ℕ). value (take i a) + t)
              (ap (λ (t : ℕ). x * t) same ∙ times_comm x (modulus k)) in
        let none_below : value (take i a) / modulus k ≡ 0 =
          div-eq_of_lt (omega (arith, same, take-value-lt w i a ha)) in
        let down : (value (take i a) + modulus k * x) / modulus k ≡ x =
          add-mul-div_left (value (take i a)) x (modulus-pos k)
          ∙ ap (λ (t : ℕ). t + x) none_below
          ∙ omega arith in
        rw
          (gains, ← div-div-eq-div-mul (value (take i a) + modulus k * x) (modulus k) (2 ^ s), down)
          refl

    -- At word `k` the bits that stay begin the result.
    at-Shifted : i ≡ k → Shifted (i + 1) a (body i a pn)
    at-Shifted e =
        let x = get_or a i 0 in
        let hx = get-Words w i a ha in
        let here : leb k i ≡ true = ground (arith, e) in
        let skips : (leb (k + 1) i && not (s == 0)) ≡ false = ground (arith, e) in
        let first : i - k ≡ 0 = omega (arith, e) in
        let empty : value pn ≡ 0 = v.holds ∙ nothing_below i a ha (omega (arith, e)) in
        let free : get_or pn 0 0 < 1 = get-lt 0 1 pn (omega (arith, empty)) in
        let room : stays s x hs hx < 2 ^ 32 =
          omega (arith, split s x hs hx, hx, mul-le-mul_right (stays s x hs hx) (one-le-pow s)) in
        let (words, sum) =
          or_into-above w 0 0 (stays s x hs hx) pn v.words (omega (arith, hi)) (omega arith) free
            room in
        let same : stays s x hs hx * 2 ^ 0 ≡ x / 2 ^ s = omega arith in
        rw (here, skips, first)
          (record {
            words = subst (λ (y : ℕ). Words w (or_into 0 y pn)) same words;
            holds =
                subst (λ (y : ℕ). value (or_into 0 y pn) ≡ value pn + y * modulus 0) same sum
                ∙ ap (λ (t : ℕ). t + x / 2 ^ s * 1) empty
                ∙ omega arith
                ∙ sym (first_quotient e);
          })

  body-Shifted :
      (i : ℕ) (a pn : List ℕ) → Words w a → i < w → Shifted i a pn → Shifted (i + 1) a (body i a pn)
  body-Shifted i a pn ha hi v = elim (three_ways i k) [
    | inl lt ↦ below-Shifted i a pn ha v hi lt
    | inr (inl e) ↦ at-Shifted i a pn ha v hi e
    | inr (inr gt) ↦ above-Shifted i (get_or a i 0) a pn ha v (get-Words w i a ha) gt hi refl
  ]

  loop-Shifted :
      (left i : ℕ) (a pn : List ℕ)
      → Words w a
      → i + left ≡ w
      → Shifted i a pn
      → Shifted w a (shift_right_loop left i k s a pn)
  loop-Shifted zero i a pn ha e v =
      let at : i ≡ w = omega (arith, e) in
      unfold shift_right_loop in subst (λ (n : ℕ). Shifted n a pn) at v
  loop-Shifted (suc left) i a pn ha e v = rw (loop-body left i a pn) (
      loop-Shifted left (i + 1) a (body i a pn) ha (omega (arith, e))
        (body-Shifted i a pn ha (omega (arith, e)) v))

divisor-pow : (w k s : ℕ) (hs : s < 32) → divisor w k s hs ≡ 2 ^ (s + 32 * k)
unfolding divisor
divisor-pow w k s hs = rw (modulus-pow k, pow-add s (32 * k)) (grind arith)

whole_shift :
    (w k s n : ℕ) (hs : s < 32) (a : List ℕ)
    → Words w a
    → n ≡ s + 32 * k
    → value (take w a) / divisor w k s hs ≡ value a / 2 ^ n
whole_shift w k s n hs a ha e =
    let all : take w a ≡ a = ap (λ (m : ℕ). take m a) (sym (length-Words w a ha)) ∙ take-all a in
    rw (all, divisor-pow w k s hs, e) refl

-- `a >> n` for an array of `w` words is the number divided by 2 ^ n.
pub value-shift_right :
    (w n : ℕ) (a : List ℕ)
    → Words w a
    → Words w (shift_right a n) × (value (shift_right a n) ≡ value a / 2 ^ n)
unfolding shift_right
value-shift_right w n a ha =
    let k = n / 32 in
    let s = n % 32 in
    let hs : s < 32 = omega arith in
    let len = length-Words w a ha in
    let done = loop-Shifted w k s hs w 0 a (replicate w 0) ha (omega arith) (record {
      words = zeros-Words w;
      holds = value-zeros w ∙ sym (zero-div (divisor w k s hs));
    }) in
    rw len (done.words, done.holds ∙ whole_shift w k s n hs a ha (omega arith))
