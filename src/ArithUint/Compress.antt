-- ===== src/ArithUint/Compress.antt =====
-- primitives/arith_uint256.cpp: `GetCompact` against `SetCompact`.
use Prim.Native.Nat.{bit_and}
use gen2_energiminer.Common.{
  ℕ, suc, ◌+◌, ◌-◌, ◌*◌, ◌/◌, ◌%◌, ◌^◌, ◌<◌, ◌≤◌, ◌≡◌, ap, ◌∙◌, sym, arith, Bool, false, not, List,
  [], ◌∷◌, some, ltb, leb, ◌==◌, if◌then◌else◌, Bool-cases, inl, inr, u32, u64, bit_or_above,
  one-le-pow, subst, ap₂, ◌⊎◌,
}
use native.Mathlib.Nat.{pow-le-pow_right, mul-le-mul_left, mod-add-div}
use gen2_energiminer.ArithUint.{low64}
use gen2_energiminer.ArithUint.Modulus.{times_comm}
use gen2_energiminer.ArithUint.Value.{value, modulus, Words, value-lt}
use gen2_energiminer.ArithUint.Divide.{get_compact, set_compact, shift_right, bits}
use gen2_energiminer.ArithUint.ShiftRight.{value-shift_right}
use gen2_energiminer.ArithUint.Length.{bits-HasBits}
use gen2_energiminer.ArithUint.Compact.{denoted, Decided, value-set_compact}
use gen2_energiminer.ArithUint.Leading.{
  scaled, HasBytes, no_byte, leading, bytes-HasBytes, kept, denoted-scaled,
}
use gen2_energiminer.ArithUint.Packing.{
  Encoded, settled_word, settled_size, Packs, pack-Packs, Settled, settles, scaled-Settled,
}

low64-value : (w : ℕ) (xs : List ℕ) → Words (suc (suc w)) xs → low64 xs ≡ value xs % 2 ^ 64
unfolding low64
low64-value w [] h = absurd h
low64-value w (x ∷ []) h = absurd h.1
low64-value w (x ∷ y ∷ rest) (hx, (hy, more)) =
    let high : u64 (y * 2 ^ 32) ≡ y * 2 ^ 32 = omega (arith, hy) in
    rw (high, bit_or_above 32 x y hx) (omega (arith, hx, hy))

le-mul-pow : (v k : ℕ) → v ≤ v * 2 ^ k
le-mul-pow v k =
    let grows : v * 1 ≤ v * 2 ^ k = mul-le-mul_left v (one-le-pow k) in omega (arith, grows)

-- The three leading bytes as `get_compact` computes them.
abbrev leading_word : List ℕ → ℕ → ℕ
leading_word xs n =
    if leb n 3
    then u32 (low64 xs * 2 ^ (8 * (3 - n)))
    else u32 (low64 (shift_right xs (8 * (n - 3))))

leading_word-scaled :
    (xs : List ℕ) (n : ℕ)
    → Words 8 xs
    → HasBytes n (value xs)
    → leading_word xs n ≡ scaled (value xs) n
leading_word-scaled xs n hx h =
    let v = value xs in
    let (high, low) = settles v n h in
    elim (Bool-cases (leb n 3)) [
      | inl e ↦
          let kept_high : v * 2 ^ (8 * (3 - n)) < 2 ^ 24 =
            subst
              (λ (b : Bool). (if b then v * 2 ^ (8 * (3 - n)) else v / 2 ^ (8 * (n - 3))) < 2 ^ 24)
              e high in
          let few = le-mul-pow v (8 * (3 - n)) in
          let all : low64 xs ≡ v = low64-value 6 xs hx ∙ omega (arith, kept_high, few) in
          rw (e, all) (omega (arith, kept_high))
      | inr e ↦
          let kept_high : v / 2 ^ (8 * (n - 3)) < 2 ^ 24 =
            subst
              (λ (b : Bool). (if b then v * 2 ^ (8 * (3 - n)) else v / 2 ^ (8 * (n - 3))) < 2 ^ 24)
              e high in
          let (words, holds) = value-shift_right 8 (8 * (n - 3)) xs hx in
          let all : low64 (shift_right xs (8 * (n - 3))) ≡ v / 2 ^ (8 * (n - 3)) =
            low64-value 6 (shift_right xs (8 * (n - 3))) words
            ∙ ap (λ (t : ℕ). t % 2 ^ 64) holds
            ∙ omega (arith, kept_high) in
          rw (e, all) (omega (arith, kept_high))
    ]

few_bytes : (n v : ℕ) → v < 2 ^ 256 → HasBytes n v → n ≤ 32
few_bytes n v hv (no_byte e z) = omega (arith, e)
few_bytes n v hv (leading k e lo hi) = elim (Bool-cases (ltb k 32)) [
  | inl lt ↦ ground (arith, lt, e)
  | inr ge ↦
      let many : 256 ≤ 8 * k = ground (arith, ge) in
      let power : 2 ^ 256 ≤ 2 ^ (8 * k) =
        pow-le-pow_right {n = 2} (omega arith) {i = 256} {j = 8 * k} many in
      absurd (omega (arith, power, lo, hv))
]

settled_size-lt : (c n : ℕ) → n ≤ 32 → settled_size c n < 256
settled_size-lt c n few = elim (Bool-cases (not (bit_and c 0x00800000 == 0))) [
  | inl e ↦ rw e (omega (arith, few))
  | inr e ↦ rw e (omega (arith, few))
]

-- `get_compact` gives a word that holds the settled mantissa and size.
get_compact-Packs :
    (xs : List ℕ) (negative : Bool)
    → Words 8 xs
    → (w : ℕ) × (n : ℕ) × Settled (value xs) w n × Packs (get_compact xs negative) w n
unfolding get_compact
get_compact-Packs xs negative hx =
    let v = value xs in
    let n = (bits xs + 7) / 8 in
    let h = bytes-HasBytes (bits xs) v (bits-HasBits 8 xs hx) in
    let few = few_bytes n v (omega (arith, value-lt 8 xs hx)) h in
    let settled = scaled-Settled v n h in
    let c = scaled v n in
    let small_size = settled_size-lt c n few in
    (
      settled_word c,
      settled_size c n,
      settled,
      rw (leading_word-scaled xs n hx h)
          (pack-Packs negative (settled_word c) (settled_size c n) settled.fits small_size),
    )

kept-le : (v n : ℕ) → kept v n ≤ v
kept-le v n =
    let p = 2 ^ (8 * (n - 3)) in
    let split : v % p + p * (v / p) ≡ v = mod-add-div v p in
    let same : p * (v / p) ≡ v / p * p = times_comm p (v / p) in omega (arith, split, same)

fits_in : (f : Bool) (v : ℕ) → v < 2 ^ 256 → Decided f v → f ≡ false
fits_in f v hv (inl (e, big)) = absurd (omega (arith, hv, big))
fits_in f v hv (inr (e, less)) = e

-- What `set_compact` reads back from a word that keeps the leading bytes of `v`.
abbrev pub ReadsBack : ℕ → ℕ → Type 0
ReadsBack c v =
    (value (set_compact c).target ≡ kept v (c / 2 ^ 24))
    × ((set_compact c).overflow ≡ false)
    × ((v ≡ 0) ⊎ (2 ^ 15 ≤ c % 2 ^ 23))

Encoded-ReadsBack : (c w n v : ℕ) → v < 2 ^ 256 → Settled v w n → Encoded c w n → ReadsBack c v
Encoded-ReadsBack c w n v hv settled e =
    let (words, holds, decided) = value-set_compact c in
    let mantissa_size : denoted (c % 2 ^ 23) (c / 2 ^ 24) ≡ kept v n =
      ap₂ denoted (e.mantissa ∙ settled.word) e.size ∙ denoted-scaled v n in
    let less : kept v n < 2 ^ 256 = omega (arith, kept-le v n, hv) in
    (
      holds
          ∙ ap (λ (t : ℕ). t % modulus 8) mantissa_size
          ∙ omega (arith, less)
          ∙ ap (λ (t : ℕ). kept v t) (sym e.size),
      fits_in (set_compact c).overflow (denoted (c % 2 ^ 23) (c / 2 ^ 24))
          (omega (arith, mantissa_size, less)) decided,
      elim (Bool-cases (v == 0)) [
        | inl z ↦ inl (ground (arith, z))
        | inr nz ↦
            let some_left : 0 < v = ground (arith, nz) in
            inr (omega (arith, e.mantissa, settled.full some_left))
      ],
    )

-- On every 256-bit number, `GetCompact` gives a word, whose assertions hold; `SetCompact` of it gives
-- the number without the bytes below the last kept one and no overflow; and unless the number is 0,
-- at least 16 of its leading bits are kept.
pub get_compact-ReadsBack :
    (xs : List ℕ) (negative : Bool)
    → Words 8 xs
    → (c : ℕ) × (get_compact xs negative ≡ some c) × ReadsBack c (value xs)
get_compact-ReadsBack xs negative hx =
    let (w, n, settled, packs) = get_compact-Packs xs negative hx in
    let (c, given, encoded) = packs in
    (c, given, Encoded-ReadsBack c w n (value xs) (omega (arith, value-lt 8 xs hx)) settled encoded)
