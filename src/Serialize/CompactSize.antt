-- ===== src/Serialize/CompactSize.antt =====
-- common/serialize.h: the compact form of a size is read back, and has one form only.
use native.Mathlib.Nat.{pow-succ'}
use gen2_energiminer.Common.{
  ℕ, zero, suc, ◌+◌, ◌*◌, ◌/◌, ◌%◌, ◌^◌, ◌<◌, ◌≡◌, refl, ap, ◌∙◌, List, [], ◌∷◌, ◌++◌, none, some,
  ltb, leb, true, false, Bool-cases, inl, inr, arith, length, if◌then◌else◌,
}
use gen2_energiminer.Serialize.{
  write_data, read_data, size_of_compact_size, write_compact_size, read_compact_size, within_limit,
  read_size, canonical, max_size, above,
}

read_data-write_data :
    (k n : ℕ) (rest : List ℕ) → n < 256 ^ k → read_data k (write_data k n ++ rest) ≡ some (n, rest)
unfolding read_data write_data above
read_data-write_data zero n rest h =
    let none_left : 0 ≡ n = omega (arith, h) in ap (λ (t : ℕ). some (t, rest)) none_left
read_data-write_data (suc k) n rest h =
    let less : n / 256 < 256 ^ k = omega (arith, h, pow-succ' 256 k) in
    let whole : n % 256 + 256 * (n / 256) ≡ n = omega arith in
    rw (read_data-write_data k (n / 256) rest less) (ap (λ (t : ℕ). some (t, rest)) whole)

small_byte :
    (n : ℕ) (rest : List ℕ) → n < 256 → read_data 1 (write_data 1 n ++ rest) ≡ some (n, rest)
small_byte n rest h = read_data-write_data 1 n rest (omega (arith, h))

pub append_assoc : (xs ys zs : List ℕ) → (xs ++ ys) ++ zs ≡ xs ++ (ys ++ zs)
append_assoc [] ys zs = refl
append_assoc (x ∷ xs) ys zs = ap (λ t. x ∷ t) (append_assoc xs ys zs)

long_form :
    (tag k n : ℕ) (rest : List ℕ)
    → tag < 256
    → n < 256 ^ k
    → read_compact_size ((write_data 1 tag ++ write_data k n) ++ rest)
      ≡ within_limit (read_size (some (tag, write_data k n ++ rest)))
unfolding read_compact_size
long_form tag k n rest ht hn =
    rw
      (
        append_assoc (write_data 1 tag) (write_data k n) rest,
        small_byte tag (write_data k n ++ rest) ht,
      )
      refl

canonical-read :
    (k least n : ℕ) (rest : List ℕ)
    → n < 256 ^ k
    → ltb n least ≡ false
    → canonical least (read_data k (write_data k n ++ rest)) ≡ some (n, rest)
unfolding canonical
canonical-read k least n rest hn h = rw (read_data-write_data k n rest hn, h) refl

two_bytes :
    (n : ℕ) (rest : List ℕ)
    → n < 256 ^ 2
    → ltb n 253 ≡ false
    → read_size (some (253, write_data 2 n ++ rest)) ≡ some (n, rest)
unfolding read_size
two_bytes n rest hn h = canonical-read 2 253 n rest hn h

four_bytes :
    (n : ℕ) (rest : List ℕ)
    → n < 256 ^ 4
    → ltb n 0x10000 ≡ false
    → read_size (some (254, write_data 4 n ++ rest)) ≡ some (n, rest)
unfolding read_size
four_bytes n rest hn h = canonical-read 4 0x10000 n rest hn h

eight_bytes :
    (n : ℕ) (rest : List ℕ)
    → n < 256 ^ 8
    → ltb n 0x100000000 ≡ false
    → read_size (some (255, write_data 8 n ++ rest)) ≡ some (n, rest)
unfolding read_size
eight_bytes n rest hn h = canonical-read 8 0x100000000 n rest hn h

one_byte :
    (n : ℕ) (rest : List ℕ)
    → ltb n 253 ≡ true
    → read_compact_size (write_data 1 n ++ rest) ≡ within_limit (some (n, rest))
unfolding read_compact_size read_size
one_byte n rest h = rw (small_byte n rest (ground (arith, h)), h) refl

-- Every 64-bit size that `WriteCompactSize` writes is read back by `ReadCompactSize`, with what follows
-- it left in the stream, if it is at most MAX_SIZE; else reading fails.
pub read_compact_size-write_compact_size :
    (n : ℕ) (rest : List ℕ)
    → n < 2 ^ 64
    → read_compact_size (write_compact_size n ++ rest)
      ≡ (if ltb max_size n then none else some (n, rest))
unfolding write_compact_size within_limit
read_compact_size-write_compact_size n rest hn = elim (Bool-cases (ltb n 253)) [
  | inl a ↦ rw a (one_byte n rest a)
  | inr a ↦ elim (Bool-cases (leb n 0xffff)) [
    | inl b ↦
        rw (a, b)
          (long_form 253 2 n rest (omega arith) (ground (arith, b))
            ∙ ap within_limit (two_bytes n rest (ground (arith, b)) a))
    | inr b ↦ elim (Bool-cases (leb n 0xffffffff)) [
      | inl c ↦
          rw (a, b, c)
            (long_form 254 4 n rest (omega arith) (ground (arith, c))
              ∙ ap within_limit (four_bytes n rest (ground (arith, c)) (ground (arith, b))))
      | inr c ↦
          rw (a, b, c)
            (long_form 255 8 n rest (omega arith) (omega (arith, hn))
              ∙ ap within_limit (eight_bytes n rest (omega (arith, hn)) (ground (arith, c))))
    ]
  ]
]

-- `GetSizeOfCompactSize` is the number of bytes that `WriteCompactSize` writes.
pub length-write_compact_size : (n : ℕ) → length (write_compact_size n) ≡ size_of_compact_size n
unfolding write_compact_size size_of_compact_size write_data
length-write_compact_size n = elim (Bool-cases (ltb n 253)) [
  | inl a ↦ rw a refl
  | inr a ↦ elim (Bool-cases (leb n 0xffff)) [
    | inl b ↦ rw (a, b) refl
    | inr b ↦ elim (Bool-cases (leb n 0xffffffff)) [
      | inl c ↦ rw (a, b, c) refl
      | inr c ↦ rw (a, b, c) refl
    ]
  ]
]
