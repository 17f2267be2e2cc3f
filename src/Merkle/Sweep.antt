-- ===== src/Merkle/Sweep.antt =====
-- primitives/merkle.cpp: the final sweep as a rule on what its steps keep.
use gen2_energiminer.Common.{
  ℕ, zero, suc, ◌+◌, ◌*◌, ◌/◌, ◌%◌, ◌^◌, ◌<◌, ◌≤◌, ◌≡◌, refl, sym, ◌∙◌, Bool, true, false, List,
  Text, Option, arith, ap, inl, inr, u32, ◌==◌, pow-add,
}
use native.Mathlib.Nat.{pow-succ', mul-div_cancel, mul-le-mul_right}
use gen2_energiminer.Merkle.{has_bit, Walk, rise_step, rise_loop, double_step, sweep_loop}
use gen2_energiminer.Merkle.Absorb.{parity}

two_pow-pos : (level : ℕ) → 0 < 2 ^ level
two_pow-pos zero = omega arith
two_pow-pos (suc level) = omega (arith, two_pow-pos level, pow-succ' 2 level)

-- The counter of a level is that of all leaves shifted.
pub shifted : (c level : ℕ) → c * 2 ^ level / 2 ^ level ≡ c
shifted c level = mul-div_cancel c (two_pow-pos level)

next_level : (c level : ℕ) → (c + c) * 2 ^ level ≡ c * 2 ^ (level + 1)
next_level c level = rw (pow-add level 1) (grind arith)

-- The counter stays in 32 bits.
no_wrap : (c level m : ℕ) → c ≤ 2 ^ m → level + m ≡ 31 → c * 2 ^ level ≤ 2 ^ 31
no_wrap c level m le e =
    let total : m + level ≡ 31 = omega (arith, e) in
    let p : 2 ^ m * 2 ^ level ≡ 2 ^ 31 = sym (pow-add m level) ∙ ap (λ (t : ℕ). 2 ^ t) total in
    omega (arith, p, mul-le-mul_right (2 ^ level) le)

pub halve : (count c level k : ℕ) → count ≡ c * 2 ^ level → c ≡ k + k → count ≡ k * 2 ^ (level + 1)
halve count c level k e d = e ∙ ap (λ (t : ℕ). t * 2 ^ level) d ∙ next_level k level

one_more : (count c level : ℕ) → count ≡ c * 2 ^ level → count + 2 ^ level ≡ (c + 1) * 2 ^ level
one_more count c level e = grind (arith, e)

not_yet : (count n level : ℕ) → count ≡ (n + 1) * 2 ^ level → 0 < n → (count == 2 ^ level) ≡ false
not_yet count n level e h = grind (arith, two_pow-pos level)

one_times : (level : ℕ) → 1 * 2 ^ level ≡ 2 ^ level
one_times level = omega arith

module _ (digest : Text → Text) where
  module _ (wanted : Bool) (inner : List Text) (at : Option ℕ) where
    pub rise-stop :
        (f count : ℕ) (w : Walk)
        → has_bit count w.level ≡ true
        → rise_loop digest f count wanted inner at w ≡ w
    unfolding rise_loop
    rise-stop zero count w e = refl
    rise-stop (suc f) count w e = rw e

    rise-go :
        (f count : ℕ) (w : Walk)
        → has_bit count w.level ≡ false
        → rise_loop digest (suc f) count wanted inner at w
          ≡ rise_loop digest f count wanted inner at (rise_step digest wanted inner at w)
    unfolding rise_loop
    rise-go f count w e = rw e

    sweep-stop :
        (g count : ℕ) (w : Walk)
        → (count == 2 ^ w.level) ≡ true
        → sweep_loop digest (suc g) count wanted inner at w ≡ w
    unfolding sweep_loop
    sweep-stop g count w e = rw e

    sweep-go :
        (g count : ℕ) (w : Walk)
        → (count == 2 ^ w.level) ≡ false
        → sweep_loop digest (suc g) count wanted inner at w
          ≡ sweep_loop digest g (u32 (count + 2 ^ w.level)) wanted inner at (
              rise_loop digest 32
                (u32 (count + 2 ^ w.level))
                wanted
                inner
                at
                (double_step digest wanted w))
    unfolding sweep_loop
    sweep-go g count w e = rw e

    one_hash :
        (f g count : ℕ) (w : Walk)
        → count ≡ 2 ^ w.level
        → sweep_loop digest
            (suc g)
            count
            wanted
            inner
            at
            (rise_loop digest f count wanted inner at w)
          ≡ w
    one_hash f g count w e =
        let c : count / 2 ^ w.level ≡ 1 =
          ap (λ (t : ℕ). t / 2 ^ w.level) e
          ∙ sym (ap (λ (t : ℕ). t / 2 ^ w.level) (one_times w.level))
          ∙ shifted 1 w.level in
        rw (rise-stop f count w (ground (arith, c))) (sweep-stop g count w (ground (arith, e)))

    -- What each kind of step keeps, from a level where `k` hashes stand before the one under way to
    -- the next, holds at the end, where no hash stands before it.
    pub carry_rule :
        (P : ℕ → ℕ → Walk → Type 0)
        → ((m k : ℕ) (w : Walk)
            → k % 2 ≡ 1
            → P (suc m) k w
            → P m (k / 2) (rise_step digest wanted inner at w))
        → ((m k : ℕ) (w : Walk)
            → k % 2 ≡ 0
            → 0 < k
            → P (suc m) k w
            → P m (k / 2) (double_step digest wanted w))
        → (m f g count k : ℕ) (w : Walk) → count ≡ (k + 1) * 2 ^ w.level
        → k + 1 ≤ 2 ^ m
        → w.level + m ≡ 31
        → m < f
        → m < g
        → P m k w
        → (j : ℕ) × P j 0
            (sweep_loop digest g count wanted inner at (rise_loop digest f count wanted inner at w))
    unfolding double_step rise_step
    carry_rule P rises doubles m zero g count k w c fits top hf hg v = absurd (omega (arith, hf))
    carry_rule P rises doubles m (suc f) zero count k w c fits top hf hg v =
        absurd (omega (arith, hg))
    carry_rule P rises doubles m (suc f) (suc g) count zero w c fits top hf hg v =
        (m, rw (one_hash (suc f) g count w (omega (arith, c))) v)
    carry_rule P rises doubles zero (suc f) (suc g) count (suc n) w c fits top hf hg v =
        absurd (omega (arith, fits))
    carry_rule P rises doubles (suc m) (suc f) (suc g) count (suc n) w c fits top hf hg v =
        let k = suc n in
        let bits : count / 2 ^ w.level ≡ k + 1 =
          ap (λ (t : ℕ). t / 2 ^ w.level) c ∙ shifted (k + 1) w.level in
        elim (parity k) [
          | inl even ↦
              let small : k / 2 + 1 ≤ 2 ^ m = omega (arith, even, fits, pow-succ' 2 m) in
              let total : count + 2 ^ w.level ≡ (k / 2 + 1) * 2 ^ (w.level + 1) =
                halve (count + 2 ^ w.level) (k + 1 + 1) w.level (k / 2 + 1)
                  (one_more count (k + 1) w.level c) (omega (arith, even)) in
              let wraps : u32 (count + 2 ^ w.level) ≡ (k / 2 + 1) * 2 ^ (w.level + 1) =
                omega (arith, total, no_wrap (k / 2 + 1) (w.level + 1) m small (omega arith)) in
              let more : (count == 2 ^ w.level) ≡ false = not_yet count k w.level c (omega arith) in
              rw (rise-stop (suc f) count w (ground (arith, bits, even)), sweep-go g count w more)
                (carry_rule P rises doubles m 32 g (u32 (count + 2 ^ w.level)) (k / 2)
                  (double_step digest wanted w) wraps small (omega arith) (omega arith)
                  (omega arith) (doubles m k w even (omega arith) v))
          | inr odd ↦ rw (rise-go f count w (ground (arith, bits, odd))) (
              carry_rule P rises doubles m f (suc g) count (k / 2)
                (rise_step digest wanted inner at w)
                (halve count (k + 1) w.level (k / 2 + 1) c (omega (arith, odd)))
                (omega (arith, odd, fits, pow-succ' 2 m)) (omega arith) (omega arith) (omega arith)
                (rises m k w odd v))
        ]
