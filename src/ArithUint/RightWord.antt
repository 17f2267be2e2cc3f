-- ===== src/ArithUint/RightWord.antt =====
-- primitives/arith_uint256.cpp: one word under `>>=`.
use native.Mathlib.Nat.{mul-lt-mul_of_pos_right, mod-add-div, mod-lt, lt_of_mul-lt-mul_left}
use gen2_energiminer.Common.{
  ℕ, ◌+◌, ◌-◌, ◌*◌, ◌/◌, ◌%◌, ◌^◌, ◌<◌, ◌≡◌, ap, sym, arith, u32, ltb, ◌==◌, Bool-cases, ◌⊎◌, inl,
  inr, mod_unique,
}
use gen2_energiminer.ArithUint.Modulus.{two_pow-pos, word_split}

pub regroup_right : (q p l st x w : ℕ) → q * p ≡ w → l + p * st ≡ x → l * q + w * st ≡ x * q
regroup_right q p l st x w e h = rw (← e, ← h) (grind arith)

pub both_right : (a l q m x r : ℕ) → a + q * l ≡ x * r → a * m + l * (q * m) ≡ x * (r * m)
both_right a l q m x r h =
    let scaled : (a + q * l) * m ≡ x * r * m = ap (λ (t : ℕ). t * m) h in grind (arith, scaled)

pub reorder : (mk p q m w : ℕ) → q * p ≡ w → mk * (w * m) ≡ mk * p * (q * m)
reorder mk p q m w e = rw (← e) (grind arith)

pub adds_none : (v l q m : ℕ) → l ≡ 0 → v ≡ v + l * q * m
adds_none v l q m e = rw e (omega arith)

pub sums_up :
    (v a l m t vl vh mj : ℕ)
    → vl ≡ v + a * m
    → vh ≡ vl + l * mj
    → mj ≡ 2 ^ 32 * m
    → a * m + l * (2 ^ 32 * m) ≡ t
    → vh ≡ v + t
sums_up v a l m t vl vh mj p q r e = rw (q, p, r, ← e) (omega arith)

pub three_ways : (i k : ℕ) → (i < k) ⊎ ((i ≡ k) ⊎ (k < i))
three_ways i k = elim (Bool-cases (ltb i k)) [
  | inl e ↦ inl (ground (arith, e))
  | inr e ↦ elim (Bool-cases (i == k)) [
    | inl f ↦ inr (inl (ground (arith, f)))
    | inr f ↦ inr (inr (ground (arith, e, f)))
  ]
]

pub swap : (x d e : ℕ) → x * (d * e) ≡ d * (x * e)
swap x d e = grind arith

-- A word shifted right by `s` bits: the bits that leave it, and those that stay.
module _ (s x : ℕ) (hs : s < 32) (hx : x < 2 ^ 32) where
  abbrev pub stays : ℕ
  stays = x / 2 ^ s

  abbrev pub leaves : ℕ
  leaves = x % 2 ^ s

  pub split : leaves + 2 ^ s * stays ≡ x
  split = mod-add-div x (2 ^ s)

  pub leaves-lt : leaves < 2 ^ s
  leaves-lt = mod-lt x (two_pow-pos s)

  pub stays-lt : stays < 2 ^ (32 - s)
  stays-lt =
      let bound : 2 ^ s * stays < 2 ^ s * 2 ^ (32 - s) =
        grind (arith, split, word_split s hs, hx) in
      lt_of_mul-lt-mul_left (2 ^ s) bound

  pub parts : leaves * 2 ^ (32 - s) + 2 ^ 32 * stays ≡ x * 2 ^ (32 - s)
  parts = regroup_right (2 ^ (32 - s)) (2 ^ s) leaves stays x (2 ^ 32) (word_split s hs) split

  pub low_word : u32 (x * 2 ^ (32 - s)) ≡ leaves * 2 ^ (32 - s)
  low_word =
      let fits : leaves * 2 ^ (32 - s) < 2 ^ s * 2 ^ (32 - s) =
        mul-lt-mul_of_pos_right leaves-lt (two_pow-pos (32 - s)) in
      let fits32 : leaves * 2 ^ (32 - s) < 2 ^ 32 = grind (arith, fits, word_split s hs) in
      sym (mod_unique (leaves * 2 ^ (32 - s)) stays (2 ^ 32) (x * 2 ^ (32 - s)) parts fits32)

  pub parts_at : (m : ℕ) → leaves * 2 ^ (32 - s) * m + stays * (2 ^ 32 * m) ≡ x * (2 ^ (32 - s) * m)
  parts_at m = both_right (leaves * 2 ^ (32 - s)) stays (2 ^ 32) m x (2 ^ (32 - s)) parts
