-- ===== src/MinePlant/Nonces.antt =====
-- `getStartNonce` of nrgcore/mineplant.cpp: the miners search disjoint ranges of nonces.
use gen2_energiminer.Common.{
  ℕ, suc, ◌+◌, ◌-◌, ◌*◌, ◌/◌, ◌^◌, ◌≤◌, ◌<◌, ◌≡◌, refl, none, some, arith, length, ◌==◌, u64, ◌∙◌,
  ap, false,
}
use native.Mathlib.Nat.{mul-le-mul_left, mod-eq_of_lt}
use gen2_energiminer.Work.{Work}
use gen2_energiminer.MinePlant.{Plant, get_start_nonce}

-- The range that a plant of `n` miners shares out.
abbrev pub share : ℕ → ℕ
share n = (2 ^ 64 - 1) / n

share_fits : (n i : ℕ) → i < n → share n * i + share n ≤ share n * n
share_fits n i h =
    let e : share n * suc i ≤ share n * n = mul-le-mul_left (share n) h in grind (arith, e)

share_order : (n i j : ℕ) → i < j → share n * i + share n ≤ share n * j
share_order n i j h =
    let e : share n * suc i ≤ share n * j = mul-le-mul_left (share n) h in grind (arith, e)

-- The plant once its range is initialised.
abbrev pub with_range : Plant → Plant
with_range p = record p { range = some (share (length p.miners)) }

first_start :
    (w : Work) (i : ℕ) (p : Plant)
    → p.range ≡ none
    → 0 < length p.miners
    → get_start_nonce w i p ≡ some (with_range p, u64 (w.start_nonce + share (length p.miners) * i))
unfolding get_start_nonce
first_start w i p r h =
    let some_miner : (length p.miners == 0) ≡ false = ground (arith, h) in rw (r, some_miner) refl

later_start :
    (w : Work) (i n : ℕ) (p : Plant)
    → p.range ≡ some n
    → get_start_nonce w i p ≡ some (p, u64 (w.start_nonce + n * i))
unfolding get_start_nonce
later_start w i n p r = rw r refl

-- The starts that `getStartNonce` gives for two indices `i < j`, of a plant that initialises its range
-- for the first of them, are at least the
-- range apart, and there is a whole range of nonces, without wrapping, from each of them on, when
-- the work's own start leaves room for the ranges of all miners.
pub starts_disjoint :
    (w : Work) (i j : ℕ) (p : Plant)
    → p.range ≡ none
    → i < j
    → j < length p.miners
    → w.start_nonce + share (length p.miners) * length p.miners < 2 ^ 64
    → (a b : ℕ) × (get_start_nonce w i p ≡ some (with_range p, a))
      × (get_start_nonce w j (with_range p) ≡ some (with_range p, b))
      × (a + share (length p.miners) ≤ b)
      × (b + share (length p.miners) < 2 ^ 64)
starts_disjoint w i j p r lt h room =
    let n = length p.miners in
    let order = share_order n i j lt in
    let fits = share_fits n j h in
    (
      w.start_nonce + share n * i,
      w.start_nonce + share n * j,
      first_start w i p r (omega (arith, h))
          ∙ ap (λ a. some (with_range p, a)) (mod-eq_of_lt (omega (arith, order, fits, room))),
      later_start w j (share n) (with_range p) refl
          ∙ ap (λ b. some (with_range p, b)) (mod-eq_of_lt (omega (arith, order, fits, room))),
      omega (arith, order),
      omega (arith, fits, room),
    )

next_wraps : (s j : ℕ) → u64 (u64 (s + (2 ^ 64 - 1) * suc j) + 1) ≡ u64 (s + (2 ^ 64 - 1) * j)
next_wraps s j = omega arith

-- The range stays the one of the first call: if the plant then had one miner, then with any number
-- of miners the miner `j + 1` starts one nonce before the miner `j`, and searches what that one
-- searches from its second nonce on.
pub starts_overlap :
    (w : Work) (j : ℕ) (p : Plant)
    → p.range ≡ some (share 1)
    → (a b : ℕ) × (get_start_nonce w j p ≡ some (p, a))
      × (get_start_nonce w (suc j) p ≡ some (p, b))
      × (u64 (b + 1) ≡ a)
starts_overlap w j p r = (
  u64 (w.start_nonce + share 1 * j),
  u64 (w.start_nonce + share 1 * suc j),
  later_start w j (share 1) p r,
  later_start w (suc j) (share 1) p r,
  next_wraps w.start_nonce j,
)
