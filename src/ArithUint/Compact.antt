-- ===== src/ArithUint/Compact.antt =====
-- primitives/arith_uint256.cpp: the number that `SetCompact` sets and its flag for overflow.
use native.Mathlib.Nat.{pow-le-pow_right, div-le_self, mul-le-mul_left}
use gen2_energiminer.Common.{
  List, ℕ, ◌-◌, ◌*◌, ◌/◌, ◌%◌, ◌^◌, ◌<◌, ◌≤◌, ◌≡◌, Bool, true, false, not, ◌&&◌, ◌||◌, ap, arith,
  ltb, leb, ◌==◌, if◌then◌else◌, Bool-cases, ◌⊎◌, inl, inr, u32, bit_and_mask, ◌∙◌,
}
use Prim.Native.Nat.{bit_and}
use gen2_energiminer.ArithUint.{from_u64}
use gen2_energiminer.ArithUint.Value.{value, modulus, Words, zeros-Words, value-zeros}
use gen2_energiminer.ArithUint.ShiftLeft.{value-shift_left}
use gen2_energiminer.ArithUint.Divide.{set_compact, shift_left}

-- The number that a compact form stands for: its low 23 bits times 256 ^ (size - 3), rounded down.
abbrev pub denoted : ℕ → ℕ → ℕ
denoted w n = if leb n 3 then w / 2 ^ (8 * (3 - n)) else w * 2 ^ (8 * (n - 3))

-- The flag as the source tests it.
abbrev flag : ℕ → ℕ → Bool
flag w n = not (w == 0) && (ltb 34 n || ltb 0xff w && ltb 33 n || ltb 0xffff w && ltb 32 n)

-- The flag is right about the word `w` and the size `n`.
abbrev pub Decided : Bool → ℕ → Type 0
Decided f v = ((f ≡ true) × (2 ^ 256 ≤ v)) ⊎ ((f ≡ false) × (v < 2 ^ 256))

small : (w n : ℕ) → w < 2 ^ 23 → n ≤ 32 → flag w n ≡ false
small w n hw le = ground (arith, hw, le)

module _ (w : ℕ) (hw : w < 2 ^ 23) where
  up_to_32 : (n : ℕ) → n ≤ 32 → Decided (flag w n) (w * 2 ^ (8 * (n - 3)))
  up_to_32 n le =
      let at_most : 8 * (n - 3) ≤ 232 = omega (arith, le) in
      let power : 2 ^ (8 * (n - 3)) ≤ 2 ^ 232 =
        pow-le-pow_right {n = 2} (omega arith) {i = 8 * (n - 3)} {j = 232} at_most in
      let product = mul-le-mul_left w power in inr (small w n hw le, omega (arith, product, hw))

  at_33 : Decided (flag w 33) (w * 2 ^ 240)
  at_33 = elim (Bool-cases (flag w 33)) [
    | inl e ↦ inl (e, ground (arith, e))
    | inr e ↦ inr (e, ground (arith, e))
  ]

  at_34 : Decided (flag w 34) (w * 2 ^ 248)
  at_34 = elim (Bool-cases (flag w 34)) [
    | inl e ↦ inl (e, ground (arith, e))
    | inr e ↦ inr (e, ground (arith, e))
  ]

  from_35 : (n : ℕ) → 35 ≤ n → Decided (flag w n) (w * 2 ^ (8 * (n - 3)))
  from_35 n le =
      let at_least : 256 ≤ 8 * (n - 3) = omega (arith, le) in
      let power : 2 ^ 256 ≤ 2 ^ (8 * (n - 3)) =
        pow-le-pow_right {n = 2} (omega arith) {i = 256} {j = 8 * (n - 3)} at_least in
      let product = mul-le-mul_left w power in
      elim (Bool-cases (w == 0)) [
        | inl e ↦
            let none_left : w ≡ 0 = ground (arith, e) in
            inr (ground (arith, e), rw none_left (omega arith))
        | inr e ↦
            let some_left : 0 < w = ground (arith, e) in
            inl (ground (arith, e, le), omega (arith, product, some_left))
      ]

  shifted_up : (n : ℕ) → Decided (flag w n) (w * 2 ^ (8 * (n - 3)))
  shifted_up n = elim (Bool-cases (ltb 32 n)) [
    | inr f ↦ up_to_32 n (ground (arith, f))
    | inl f ↦ elim (Bool-cases (ltb 34 n)) [
      | inl g ↦ from_35 n (ground (arith, g))
      | inr g ↦ elim (Bool-cases (n == 33)) [
        | inl e ↦ let same : n ≡ 33 = ground (arith, e) in rw same at_33
        | inr e ↦ let same : n ≡ 34 = ground (arith, e, f, g) in rw same at_34
      ]
    ]
  ]

  word_value : Words 8 (from_u64 8 w) × (value (from_u64 8 w) ≡ w)
  unfolding from_u64
  word_value =
      let low : u32 w ≡ w = omega (arith, hw) in
      let high : u32 (w / 2 ^ 32) ≡ 0 = omega (arith, hw) in
      ((omega arith, (omega arith, zeros-Words 6)), omega (arith, low, high, value-zeros 6))

-- The fields that `set_compact` computes, for the bits `w` of the mantissa and the size `n`.
abbrev Sets : List ℕ → Bool → ℕ → ℕ → Type 0
Sets target f w n =
    Words 8 target × (value target ≡ denoted w n % modulus 8) × Decided f (denoted w n)

abbrev word : ℕ → ℕ → ℕ
word w n = if leb n 3 then w / 2 ^ (8 * (3 - n)) else w

by_size :
    (w n : ℕ)
    → w < 2 ^ 23
    → Sets
        (if leb n 3
          then from_u64 8 (word w n)
          else shift_left (from_u64 8 (word w n)) (8 * (n - 3)))
        (flag (word w n) n)
        w
        n
by_size w n hw = elim (Bool-cases (leb n 3)) [
  | inl e ↦
      let d = w / 2 ^ (8 * (3 - n)) in
      let hd : d < 2 ^ 23 = omega (arith, div-le_self w (2 ^ (8 * (3 - n))), hw) in
      let (words, holds) = word_value d hd in
      rw e
        (words, omega (arith, holds, hd), inr (small d n hd (ground (arith, e)), omega (arith, hd)))
  | inr e ↦
      let (words, holds) = word_value w hw in
      let (shifted, product) = value-shift_left 8 (8 * (n - 3)) (from_u64 8 w) words in
      rw e (shifted, product ∙ ap (λ t. t * 2 ^ (8 * (n - 3)) % modulus 8) holds, shifted_up w hw n)
]

-- The 8 words that `SetCompact` sets are the number that the compact form denotes, modulo 2 ^ 256,
-- and the flag for overflow is set exactly if that number does not fit in 256 bits.
pub value-set_compact :
    (c : ℕ)
    → Words 8 (set_compact c).target
      × (value (set_compact c).target ≡ denoted (c % 2 ^ 23) (c / 2 ^ 24) % modulus 8)
      × Decided (set_compact c).overflow (denoted (c % 2 ^ 23) (c / 2 ^ 24))
unfolding set_compact
value-set_compact c =
    let masked : bit_and c 0x007fffff ≡ c % 2 ^ 23 = bit_and_mask 23 c in
    rw masked (by_size (c % 2 ^ 23) (c / 2 ^ 24) (omega arith))
