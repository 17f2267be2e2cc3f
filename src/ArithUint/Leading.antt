-- ===== src/ArithUint/Leading.antt =====
-- primitives/arith_uint256.cpp: the leading bytes of a number, which `GetCompact` keeps.
use native.Mathlib.Nat.{pow-le-pow_right, div-lt_iff_lt-mul, le-div_iff_mul-le, div-div-eq-div-mul}
use gen2_energiminer.Common.{
  ℕ, zero, suc, ◌+◌, ◌-◌, ◌*◌, ◌/◌, ◌^◌, ◌<◌, ◌≤◌, ◌≡◌, refl, ap, ◌∙◌, sym, arith, leb, false,
  if◌then◌else◌, pow-add,
}
use gen2_energiminer.ArithUint.Modulus.{two_pow-pos}
use gen2_energiminer.ArithUint.Length.{HasBits, none_set, highest}
use gen2_energiminer.ArithUint.Compact.{denoted}

-- The number scaled so that its lowest kept byte is that at 8 * (n - 3).
abbrev pub scaled : ℕ → ℕ → ℕ
scaled v n = if leb n 3 then v * 2 ^ (8 * (3 - n)) else v / 2 ^ (8 * (n - 3))

-- The number takes exactly `n` bytes.
pub data HasBytes (n v : ℕ) : Type 0 where
  no_byte : n ≡ 0 → v ≡ 0 → HasBytes n v
  leading : (k : ℕ) → n ≡ suc k → 2 ^ (8 * k) ≤ v → v < 2 ^ (8 * suc k) → HasBytes n v

pub bytes-HasBytes : (b v : ℕ) → HasBits b v → HasBytes ((b + 7) / 8) v
bytes-HasBytes b v (none_set e z) = no_byte (omega (arith, e)) z
bytes-HasBytes b v (highest c e lo hi) =
    let below : 8 * (c / 8) ≤ c = omega arith in
    let above : suc c ≤ 8 * suc (c / 8) = omega arith in
    let low : 2 ^ (8 * (c / 8)) ≤ 2 ^ c =
      pow-le-pow_right {n = 2} (omega arith) {i = 8 * (c / 8)} {j = c} below in
    let high : 2 ^ suc c ≤ 2 ^ (8 * suc (c / 8)) =
      pow-le-pow_right {n = 2} (omega arith) {i = suc c} {j = 8 * suc (c / 8)} above in
    leading (c / 8) (omega (arith, e)) (omega (arith, low, lo)) (omega (arith, high, hi))

pub scaled_next : (v n : ℕ) → scaled v (n + 1) ≡ scaled v n / 256
scaled_next v zero = omega arith
scaled_next v (suc zero) = omega arith
scaled_next v (suc (suc zero)) = omega arith
scaled_next v (suc (suc (suc zero))) = omega arith
scaled_next v (suc (suc (suc (suc k)))) =
    let n = suc (suc (suc (suc k))) in
    let up : 8 * (n + 1 - 3) ≡ 8 * (n - 3) + 8 = omega arith in
    let split : 2 ^ (8 * (n + 1 - 3)) ≡ 2 ^ (8 * (n - 3)) * 256 =
      ap (λ (t : ℕ). 2 ^ t) up ∙ pow-add (8 * (n - 3)) 8 in
    let after : leb (n + 1) 3 ≡ false = ground arith in
    let before : leb n 3 ≡ false = ground arith in
    rw (after, before)
      (ap (λ (t : ℕ). v / t) split ∙ sym (div-div-eq-div-mul v (2 ^ (8 * (n - 3))) 256))

-- What is left of the number when the bytes below the last kept one are cleared.
abbrev pub kept : ℕ → ℕ → ℕ
kept v n = v / 2 ^ (8 * (n - 3)) * 2 ^ (8 * (n - 3))

pub denoted-scaled : (v n : ℕ) → denoted (scaled v n) n ≡ kept v n
denoted-scaled v zero = omega arith
denoted-scaled v (suc zero) = omega arith
denoted-scaled v (suc (suc zero)) = omega arith
denoted-scaled v (suc (suc (suc zero))) = omega arith
denoted-scaled v (suc (suc (suc (suc k)))) =
    let n = suc (suc (suc (suc k))) in let before : leb n 3 ≡ false = ground arith in rw before refl

-- The three leading bytes.
abbrev pub Leading : ℕ → Type 0
Leading m = (2 ^ 16 ≤ m) × (m < 2 ^ 24)

pub scaled-Leading : (v k : ℕ) → 2 ^ (8 * k) ≤ v → v < 2 ^ (8 * suc k) → Leading (scaled v (suc k))
scaled-Leading v zero lo hi = (omega (arith, lo), omega (arith, hi))
scaled-Leading v (suc zero) lo hi = (omega (arith, lo), omega (arith, hi))
scaled-Leading v (suc (suc zero)) lo hi = (omega (arith, lo), omega (arith, hi))
scaled-Leading v (suc (suc (suc j))) lo hi =
    let n = suc (suc (suc (suc j))) in
    let before : leb n 3 ≡ false = ground arith in
    let p = 2 ^ (8 * (n - 3)) in
    let hp : 0 < p = two_pow-pos (8 * (n - 3)) in
    let low : 2 ^ 16 * p ≡ 2 ^ (8 * suc (suc (suc j))) =
      sym (pow-add 16 (8 * (n - 3))) ∙ ap (λ (t : ℕ). 2 ^ t) (omega arith) in
    let high : 2 ^ 24 * p ≡ 2 ^ (8 * n) =
      sym (pow-add 24 (8 * (n - 3))) ∙ ap (λ (t : ℕ). 2 ^ t) (omega arith) in
    rw before (
      (le-div_iff_mul-le {k = p} {x = 2 ^ 16} {y = v} hp).1 (omega (arith, low, lo)),
      (div-lt_iff_lt-mul {k = p} {x = v} {y = 2 ^ 24} hp).1 (omega (arith, high, hi)),
    )
