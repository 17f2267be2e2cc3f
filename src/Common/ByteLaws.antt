-- ===== src/Common/ByteLaws.antt =====
-- Bytes: facts on the bit operations that are checked at each value.
use Prim.Native.Nat.{ℕ, zero, suc, ◌+◌, ◌-◌, ◌*◌, ◌/◌, ◌%◌, ◌^◌, ◌<◌, bit_or, bit_and}
use mathlib.Core.Path.{◌≡◌, refl, ap, ◌∙◌, subst}
use mathlib.Core.Logic.{inl, inr}
use mathlib.Core.Bool.{Bool, true, false, ◌&&◌}
use mathlib.Core.Option.{Option, none, some}
use mathlib.Core.List.{List, [], ◌∷◌}
use native.Mathlib.Omega.{arith}
use gen2_energiminer.Common.Tests.{◌==◌, Bool-cases, ==_iff}

-- Each number is a byte.
abbrev pub Bytes : List ℕ → Type 0
Bytes [] = Unit {0}
Bytes (b ∷ bs) = (b < 2 ^ 8) × Bytes bs

-- The test holds of each number below `n`.
unfoldable pub holds_below : ℕ → (ℕ → Bool) → Bool
holds_below zero p = true
holds_below (suc n) p = p n && holds_below n p

pub below_holds : (n : ℕ) (p : ℕ → Bool) (b : ℕ) → holds_below n p ≡ true → b < n → p b ≡ true
unfolding holds_below
below_holds zero p b h lt = absurd (omega (arith, lt))
below_holds (suc n) p b h lt = elim (Bool-cases (b == n)) [
  | inl e ↦ let same : b ≡ n = ground (arith, e) in rw same (ground (arith, h))
  | inr ne ↦ below_holds n p b (ground (arith, h)) (ground (arith, lt, ne))
]

-- A byte is put together from its high bits and its low bits.
abbrev splits_at : ℕ → ℕ → Bool
splits_at k n = bit_or (n / 2 ^ k * 2 ^ k) (n % 2 ^ k) == n

splits : holds_below 8 (λ k. holds_below 256 (splits_at k)) ≡ true
unfolding holds_below
splits = refl

bit_or_split : (k n : ℕ) → k < 8 → n < 2 ^ 8 → bit_or (n / 2 ^ k * 2 ^ k) (n % 2 ^ k) ≡ n
bit_or_split k n hk hn = (==_iff _ n).0 (
    below_holds 256 (splits_at k) n (below_holds 8 (λ j. holds_below 256 (splits_at j)) k splits hk)
      hn)

digits_apart : (m hi lo : ℕ) → lo < m → ((hi * m + lo) / m ≡ hi) × ((hi * m + lo) % m ≡ lo)
digits_apart m hi lo h = grind arith

-- `(hi << k) | lo` is a sum within a byte.
pub bit_or_fields :
    (k hi lo : ℕ)
    → k < 8
    → lo < 2 ^ k
    → hi * 2 ^ k + lo < 2 ^ 8
    → bit_or (hi * 2 ^ k) lo ≡ hi * 2 ^ k + lo
bit_or_fields k hi lo hk hlo h =
    let (d, m) = digits_apart (2 ^ k) hi lo hlo in
    subst (λ t. bit_or (t * 2 ^ k) lo ≡ hi * 2 ^ k + lo) d
      (subst (λ t. bit_or ((hi * 2 ^ k + lo) / 2 ^ k * 2 ^ k) t ≡ hi * 2 ^ k + lo) m
        (bit_or_split k (hi * 2 ^ k + lo) hk h))

abbrev masks_at : ℕ → ℕ → Bool
masks_at k n = bit_and n (2 ^ k - 1) == n % 2 ^ k

masks : holds_below 9 (λ k. holds_below 256 (masks_at k)) ≡ true
unfolding holds_below
masks = refl

-- `n & (2 ^ k - 1)` of a byte.
pub bit_and_low : (k n : ℕ) → k < 9 → n < 2 ^ 8 → bit_and n (2 ^ k - 1) ≡ n % 2 ^ k
bit_and_low k n hk hn = (==_iff _ (n % 2 ^ k)).0 (
    below_holds 256 (masks_at k) n (below_holds 9 (λ j. holds_below 256 (masks_at j)) k masks hk)
      hn)

-- The low bits of a byte, shifted, with further bits below them.
pub bit_or_masked :
    (i k b lo : ℕ)
    → i < 9
    → k < 8
    → b < 2 ^ 8
    → lo < 2 ^ k
    → b % 2 ^ i * 2 ^ k + lo < 2 ^ 8
    → bit_or (bit_and b (2 ^ i - 1) * 2 ^ k) lo ≡ b % 2 ^ i * 2 ^ k + lo
bit_or_masked i k b lo hi hk hb hlo h =
    ap (λ (t : ℕ). bit_or (t * 2 ^ k) lo) (bit_and_low i b hi hb)
    ∙ bit_or_fields k (b % 2 ^ i) lo hk hlo h

-- A table gives the number.
abbrev pub gives : ℕ → Option ℕ → Bool
gives n none = false
gives n (some d) = d == n

pub gives→eq : (n : ℕ) (o : Option ℕ) → gives n o ≡ true → o ≡ some n
gives→eq n none h = cc
gives→eq n (some d) h = ground (arith, h)
