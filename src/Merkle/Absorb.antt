-- ===== src/Merkle/Absorb.antt =====
-- primitives/merkle.cpp: what the array `inner` holds while the leaves are taken in.
use gen2_energiminer.Common.{
  ℕ, zero, suc, ◌+◌, ◌*◌, ◌/◌, ◌%◌, ◌^◌, ◌<◌, ◌≤◌, ◌≡◌, sym, ◌∙◌, subst, Bool, true, false, List,
  [], ◌∷◌, ◌++◌, Text, Option, none, some, arith, get_or, set, length, ap, get_or-set_self,
  get_or-set_ne, ◌⊎◌, inl, inr, ◌==◌, Bool-cases,
}
use native.Mathlib.Nat.{div-div-eq-div-mul, pow-suc, pow-succ'}
use gen2_energiminer.Merkle.{null_hash, has_bit, Walk, rise_step, absorb_step, absorb_loop}
use gen2_energiminer.Merkle.Levels.{
  leftover, pairs, pairs-snoc_even, pairs-snoc_odd, length-pairs, leftover-even, leftover-odd,
  leftover-snoc_even, leftover-snoc_odd,
}

abbrev pub Stored : List Text → ℕ → Option Text → Type 0
Stored inner level none = Unit {0}
Stored inner level (some x) = get_or inner level null_hash ≡ x

pub parity : (n : ℕ) → (n % 2 ≡ 0) ⊎ (n % 2 ≡ 1)
parity n = elim (Bool-cases (n % 2 == 0)) [
  | inl e ↦ inl (ground arith)
  | inr e ↦ inr (ground arith)
]

-- The shifted counter of the next level.
pub next_count : (count level c : ℕ) → count / 2 ^ level ≡ c → count / 2 ^ (level + 1) ≡ c / 2
next_count count level c e =
    let up : level + 1 ≡ suc level = omega arith in
    let p : 2 ^ (level + 1) ≡ 2 ^ level * 2 = ap (λ (t : ℕ). 2 ^ t) up ∙ pow-suc 2 level in
    rw (p, ← div-div-eq-div-mul count (2 ^ level) 2, e)

Stored-set :
    (inner : List Text) (level at : ℕ) (h : Text) (o : Option Text)
    → at < level
    → Stored inner level o
    → Stored (set inner at h) level o
Stored-set inner level at h none lt s = tt
Stored-set inner level at h (some x) lt s =
    get_or-set_ne inner at level h null_hash (λ e. omega arith) ∙ s

module _ (digest : Text → Text) where
  -- From `level` on, `n` levels hold the ends of the levels above `items`.
  abbrev pub Holds : ℕ → ℕ → List Text → List Text → Type 0
  Holds zero level items inner = items ≡ []
  Holds (suc n) level items inner =
      Stored inner level (leftover items) × Holds n (level + 1) (pairs digest items) inner

  Holds-set :
      (n level at : ℕ) (items inner : List Text) (h : Text)
      → at < level
      → Holds n level items inner
      → Holds n level items (set inner at h)
  Holds-set zero level at items inner h lt v = v
  Holds-set (suc n) level at items inner h lt v = (
    Stored-set inner level at h (leftover items) lt v.0,
    Holds-set n (level + 1) at (pairs digest items) inner h (omega arith) v.1,
  )

  module _ (count : ℕ) (wanted : Bool) (inner : List Text) (at : Option ℕ) where
    pub absorb-stop :
        (f : ℕ) (w : Walk)
        → has_bit count w.level ≡ true
        → absorb_loop digest (suc f) count wanted inner at w ≡ w
    unfolding absorb_loop
    absorb-stop f w e = rw e

    pub absorb-go :
        (f : ℕ) (w : Walk)
        → has_bit count w.level ≡ false
        → absorb_loop digest (suc f) count wanted inner at w
          ≡ absorb_loop digest f count wanted inner at (absorb_step digest wanted inner at w)
    unfolding absorb_loop
    absorb-go f w e = rw e

    -- The walk ends at a level where the new hash may be stored.
    pub absorb-Holds :
        (n : ℕ) (items : List Text) (w : Walk)
        → count / 2 ^ w.level ≡ length items + 1
        → length items + 2 ≤ 2 ^ n
        → w.level + n ≡ length inner
        → Holds n w.level items inner
        → (w.level ≤ (absorb_loop digest n count wanted inner at w).level)
          × ((absorb_loop digest n count wanted inner at w).level < length inner)
          × Holds n w.level (items ++ (w.h ∷ [])) (
              set inner
                (absorb_loop digest n count wanted inner at w).level
                (absorb_loop digest n count wanted inner at w).h)
    unfolding absorb_step rise_step
    absorb-Holds zero items w c fits top v = absurd (omega arith)
    absorb-Holds (suc n) items w c fits top v = elim (parity (length items)) [
      | inl even ↦
          let none_left = leftover-even items even in
          rw (absorb-stop n w (ground (arith, c, even))) (
            omega arith,
            omega arith,
            (
              subst (Stored (set inner w.level w.h) w.level)
                  (sym (leftover-snoc_even items w.h none_left))
                  (get_or-set_self inner w.level w.h null_hash (omega arith)),
              subst (λ t. Holds n (w.level + 1) t (set inner w.level w.h))
                  (sym (pairs-snoc_even digest items w.h none_left))
                  (Holds-set n (w.level + 1) w.level (pairs digest items) inner w.h (omega arith)
                    v.1),
            ),
          )
      | inr odd ↦
          let (x, left) = leftover-odd items odd in
          let stored : get_or inner w.level null_hash ≡ x = subst (Stored inner w.level) left v.0 in
          let len = length-pairs digest items in
          let rest =
            absorb-Holds n (pairs digest items) (absorb_step digest wanted inner at w)
              (next_count count w.level (length items + 1) c ∙ omega (arith, len, odd))
              (omega (arith, len, odd, fits, pow-succ' 2 n)) (omega arith) v.1 in
          let end =
            absorb_loop digest n count wanted inner at (absorb_step digest wanted inner at w) in
          let joined : pairs digest items ++ (digest (get_or inner w.level null_hash ++ w.h) ∷ [])
              ≡ pairs digest (items ++ (w.h ∷ [])) =
            ap (λ t. pairs digest items ++ (digest (t ++ w.h) ∷ [])) stored
            ∙ sym (pairs-snoc_odd digest items x w.h left) in
          rw (absorb-go n w (ground (arith, c, odd))) (
            omega (arith, rest.0),
            rest.1,
            (
              subst (Stored (set inner end.level end.h) w.level)
                  (sym (leftover-snoc_odd items x w.h left)) tt,
              subst (λ t. Holds n (w.level + 1) t (set inner end.level end.h)) joined rest.2,
            ),
          )
    ]
