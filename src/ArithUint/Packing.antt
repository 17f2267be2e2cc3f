-- ===== src/ArithUint/Packing.antt =====
-- primitives/arith_uint256.cpp: how `GetCompact` packs a mantissa and a size.
use Prim.Native.Nat.{bit_and, bit_or}
use gen2_energiminer.Common.{
  ℕ, ◌+◌, ◌*◌, ◌/◌, ◌%◌, ◌^◌, ◌<◌, ◌≤◌, ◌≡◌, refl, ap, ◌∙◌, sym, arith, Bool, true, not, ◌&&◌,
  Option, none, some, ltb, ◌==◌, if◌then◌else◌, Bool-cases, inl, inr, u32, bit_and_bit,
  bit_and_mask, bit_or_above, bit_or_below, bit_or_bit,
}
use gen2_energiminer.ArithUint.Leading.{
  scaled, HasBytes, no_byte, leading, scaled_next, scaled-Leading,
}

-- The mantissa and the size that the word holds.
pub record Encoded (c w n : ℕ) : Type 0 where
  pub below : c < 2 ^ 32
  pub mantissa : c % 2 ^ 23 ≡ w
  pub size : c / 2 ^ 24 ≡ n

-- The last step, which sets bit 23 of a negative number.
abbrev pub signed : Bool → ℕ → ℕ
signed negative p = bit_or p (if negative && not (bit_and p 0x007fffff == 0) then 0x00800000 else 0)

module _ (negative : Bool) (w n : ℕ) (hw : w < 2 ^ 23) (hn : n < 256) where
  packed : bit_or w (u32 (n * 2 ^ 24)) ≡ w + n * 2 ^ 24
  packed =
      let fits : u32 (n * 2 ^ 24) ≡ n * 2 ^ 24 = omega (arith, hn) in
      ap (λ t. bit_or w t) fits ∙ bit_or_above 24 w n (omega (arith, hw))

  signed-Encoded : Encoded (signed negative (w + n * 2 ^ 24)) w n
  signed-Encoded =
      let p = w + n * 2 ^ 24 in
      elim (Bool-cases (negative && not (bit_and p 0x007fffff == 0))) [
        | inl e ↦
            let sum : bit_or p (2 ^ 23) ≡ p + 2 ^ 23 = bit_or_bit 23 p (omega (arith, hw)) in
            rw (e, sum)
              (record {
                below = omega (arith, hw, hn);
                mantissa = omega (arith, hw);
                size = omega (arith, hw);
              })
        | inr e ↦
            let same : bit_or p 0 ≡ p =
              bit_or_below 0 p 0 (omega arith) (omega arith) ∙ omega arith in
            rw (e, same)
              (record {
                below = omega (arith, hw, hn);
                mantissa = omega (arith, hw);
                size = omega (arith, hw);
              })
      ]

-- The word and size that the test for bit 23 leaves.
abbrev pub settled_word : ℕ → ℕ
settled_word c = if not (bit_and c 0x00800000 == 0) then c / 2 ^ 8 else c

abbrev pub settled_size : ℕ → ℕ → ℕ
settled_size c n = if not (bit_and c 0x00800000 == 0) then n + 1 else n

abbrev pub pack : Bool → ℕ → ℕ → Option ℕ
pack negative w n =
    if w == bit_and w 0x007fffff && ltb n 256
    then some (signed negative (bit_or w (u32 (n * 2 ^ 24))))
    else none

-- A number is given, and it holds the mantissa and the size.
abbrev pub Packs : Option ℕ → ℕ → ℕ → Type 0
Packs r w n = (c : ℕ) × (r ≡ some c) × Encoded c w n

pub pack-Packs : (negative : Bool) (w n : ℕ) → w < 2 ^ 23 → n < 256 → Packs (pack negative w n) w n
pack-Packs negative w n hw hn =
    let masked : bit_and w 0x007fffff ≡ w = bit_and_mask 23 w ∙ omega (arith, hw) in
    let fits : (w == bit_and w 0x007fffff && ltb n 256) ≡ true = ground (arith, masked, hn) in
    let sum = packed negative w n hw hn in
    (signed negative (w + n * 2 ^ 24), rw (fits, sum) refl, signed-Encoded negative w n hw hn)

-- The three leading bytes of `v`, of `n` bytes, make a word of 23 bits, moved by a byte if need be.
pub record Settled (v w n : ℕ) : Type 0 where
  pub word : w ≡ scaled v n
  pub fits : w < 2 ^ 23
  pub full : 0 < v → 2 ^ 15 ≤ w

pub settles : (v n : ℕ) → HasBytes n v → (scaled v n < 2 ^ 24) × (0 < v → 2 ^ 16 ≤ scaled v n)
settles v n (no_byte e z) = rw (e, z) (omega arith, λ (h : 0 < 0). absurd (omega (arith, h)))
settles v n (leading k e lo hi) =
    let (low, high) = scaled-Leading v k lo hi in rw e (high, λ h. low)

pub scaled-Settled :
    (v n : ℕ) → HasBytes n v → Settled v (settled_word (scaled v n)) (settled_size (scaled v n) n)
scaled-Settled v n h =
    let c = scaled v n in
    let (high, low) = settles v n h in
    let bit : bit_and c 0x00800000 ≡ c / 2 ^ 23 % 2 * 2 ^ 23 = bit_and_bit 23 c in
    elim (Bool-cases (not (bit_and c 0x00800000 == 0))) [
      | inl e ↦
          let big : 2 ^ 23 ≤ c = ground (arith, e, bit, high) in
          rw e (record {
            word = sym (scaled_next v n);
            fits = omega (arith, high);
            full = λ some_left. omega (arith, big);
          })
      | inr e ↦
          let less : c < 2 ^ 23 = ground (arith, e, bit, high) in
          rw e
            (record { word = refl; fits = less; full = λ some_left. omega (arith, low some_left) })
    ]
