-- ===== src/ArithUint/LeftWord.antt =====
-- primitives/arith_uint256.cpp: one word under `<<=`.
use native.Mathlib.Nat.{
  lt_of_mul-lt-mul_left, mul-lt-mul_of_pos_right, mod-add-div, mod-lt, add-mul-mod_self_left,
}
use gen2_energiminer.Common.{
  ℕ, ◌+◌, ◌-◌, ◌*◌, ◌/◌, ◌%◌, ◌^◌, ◌<◌, ◌≤◌, ◌≡◌, ap, ◌∙◌, sym, arith, u32, ltb, Bool-cases, ◌⊎◌,
  inl, inr, mod_unique, one-le-pow,
}
use gen2_energiminer.ArithUint.Modulus.{two_pow-pos, word_split}

pub spread : (v x m p q : ℕ) → (v + x * m) * p * q ≡ v * p * q + x * p * (m * q)
spread v x m p q = grind arith

pub three_ways : (j w : ℕ) → (j + 1 < w) ⊎ ((j + 1 ≡ w) ⊎ (w ≤ j))
three_ways j w = elim (Bool-cases (ltb (j + 1) w)) [
  | inl e ↦ inl (ground (arith, e))
  | inr e ↦ elim (Bool-cases (ltb j w)) [
    | inl f ↦ inr (inl (ground (arith, e, f)))
    | inr f ↦ inr (inr (ground (arith, f)))
  ]
]

pub inner_sum :
    (v st l m m1 mw v' vh t f : ℕ)
    → v' ≡ vh + st * m
    → vh ≡ v + l * m1
    → m1 ≡ 2 ^ 32 * m
    → st * m + l * (2 ^ 32 * m) ≡ t
    → f ≡ v + t
    → v' + mw * 0 ≡ f
inner_sum v st l m m1 mw v' vh t f a b c d e = rw (a, b, c, e, ← d) (grind arith)

pub last_sum :
    (v st l m mw v' t f : ℕ)
    → v' ≡ v + st * m
    → mw ≡ 2 ^ 32 * m
    → st * m + l * (2 ^ 32 * m) ≡ t
    → f ≡ v + t
    → v' + mw * l ≡ f
last_sum v st l m mw v' t f a b c d = rw (a, b, d, ← c) (grind arith)

pub drops_out : (f y j m r : ℕ) → j ≡ m * r → (f + y * j) % m ≡ f % m
drops_out f y j m r e =
    let out : y * (m * r) ≡ m * (y * r) = grind arith in
    rw (e, out) (add-mul-mod_self_left f m (y * r))

pub below : (v m p q r : ℕ) → v < m → r ≡ m * q → 0 < p → 0 < q → v * p * q < p * r
below v m p q r h e hp hq =
    let first : v * (p * q) < m * (p * q) = mul-lt-mul_of_pos_right h (grind (arith, hp, hq)) in
    rw e (grind (arith, first))

pub both : (a l q m : ℕ) → a * m + l * (q * m) ≡ (a + q * l) * m
both a l q m = grind arith

pub regroup : (p q l st : ℕ) → st * p + q * p * l ≡ (st + q * l) * p
regroup p q l st = grind arith

-- A word shifted by `s` bits: the bits that leave it, and those that stay.
module _ (s x : ℕ) (hs : s < 32) (hx : x < 2 ^ 32) where
  abbrev pub leaves : ℕ
  leaves = x / 2 ^ (32 - s)

  abbrev pub stays : ℕ
  stays = x % 2 ^ (32 - s)

  pub split : stays + 2 ^ (32 - s) * leaves ≡ x
  split = mod-add-div x (2 ^ (32 - s))

  pub stays-lt : stays < 2 ^ (32 - s)
  stays-lt = mod-lt x (omega (arith, one-le-pow (32 - s)))

  pub parts : stays * 2 ^ s + 2 ^ 32 * leaves ≡ x * 2 ^ s
  parts =
      ap (λ (t : ℕ). stays * 2 ^ s + t * leaves) (sym (word_split s hs))
      ∙ regroup (2 ^ s) (2 ^ (32 - s)) leaves stays
      ∙ ap (λ (t : ℕ). t * 2 ^ s) split

  pub parts_at : (m : ℕ) → stays * 2 ^ s * m + leaves * (2 ^ 32 * m) ≡ x * 2 ^ s * m
  parts_at m = both (stays * 2 ^ s) leaves (2 ^ 32) m ∙ ap (λ (t : ℕ). t * m) parts

  pub low_word : u32 (x * 2 ^ s) ≡ stays * 2 ^ s
  low_word =
      let fits : stays * 2 ^ s < 2 ^ 32 =
        omega (arith, word_split s hs, mul-lt-mul_of_pos_right stays-lt (two_pow-pos s)) in
      sym (mod_unique (stays * 2 ^ s) leaves (2 ^ 32) (x * 2 ^ s) parts fits)

  pub leaves-lt : leaves < 2 ^ s
  leaves-lt =
      let bound : 2 ^ (32 - s) * leaves < 2 ^ (32 - s) * 2 ^ s =
        omega (arith, split, word_split s hs, hx) in
      lt_of_mul-lt-mul_left (2 ^ (32 - s)) bound
