-- ===== src/Merkle/Carry.antt =====
-- primitives/merkle.cpp: the final sweep reduces what `inner` holds to the root of the leaves.
use gen2_energiminer.Common.{
  ℕ, suc, ◌/◌, ◌%◌, ◌<◌, ◌≤◌, ◌≡◌, refl, sym, ◌∙◌, subst, Bool, List, [], ◌∷◌, ◌++◌, Text, Option,
  arith, get_or, length, ap, length-append,
}
use gen2_energiminer.Merkle.{null_hash, Walk, rise_step, double_step}
use gen2_energiminer.Merkle.Levels.{
  pairs, level_up, RootOf, one, up, length-pairs, leftover-even, leftover-odd, level_up-snoc_even,
  level_up-snoc_odd,
}
use gen2_energiminer.Merkle.Absorb.{Stored, Holds}

no_hashes : (xs : List Text) → length xs ≡ 0 → xs ≡ []
no_hashes [] e = refl
no_hashes (x ∷ xs) e = absurd (omega (arith, e))

module _ (digest : Text → Text) where
  RootOf-up :
      (ys : List Text) (r : Text)
      → 2 ≤ length ys
      → RootOf digest (level_up digest ys) r
      → RootOf digest ys r
  RootOf-up [] r two h = absurd (omega arith)
  RootOf-up (x ∷ []) r two h = absurd (omega arith)
  RootOf-up (x ∷ y ∷ rest) r two h = up x y rest r h

  pub RootOf-step :
      (ys zs : List Text) (r : Text)
      → 2 ≤ length ys
      → zs ≡ level_up digest ys
      → RootOf digest zs r
      → RootOf digest ys r
  RootOf-step ys zs r two e h = RootOf-up ys r two (subst (λ t. RootOf digest t r) e h)

  module _ (wanted : Bool) (inner : List Text) (at : Option ℕ) (goal : List Text) where
    -- The level ends in the hash under way, and its root is that of the leaves.
    pub record Level (m k : ℕ) (w : Walk) : Type 0 where
      pub before : List Text
      pub counted : length before ≡ k
      pub held : Holds digest (suc m) w.level before inner
      pub leads : (r : Text) → RootOf digest (before ++ (w.h ∷ [])) r → RootOf digest goal r

    pub Level-rise :
        (m k : ℕ) (w : Walk)
        → k % 2 ≡ 1
        → Level (suc m) k w
        → Level m (k / 2) (rise_step digest wanted inner at w)
    unfolding rise_step
    Level-rise m k w odd v =
        let xs = v.before in
        let n = v.counted in
        let (l, left) = leftover-odd xs (omega (arith, n, odd)) in
        let held = v.held in
        let stored : get_or inner w.level null_hash ≡ l =
          subst (Stored inner w.level) left held.0 in
        let joined : pairs digest xs ++ (digest (get_or inner w.level null_hash ++ w.h) ∷ [])
            ≡ level_up digest (xs ++ (w.h ∷ [])) =
          ap (λ t. pairs digest xs ++ (digest (t ++ w.h) ∷ [])) stored
          ∙ sym (level_up-snoc_odd digest xs l w.h left) in
        record {
          before = pairs digest xs;
          counted = omega (arith, n, length-pairs digest xs);
          held = held.1;
          leads = λ r h.
              v.leads r
                (RootOf-step _ _ r (omega (arith, n, odd, length-append xs (w.h ∷ []))) joined h);
        }

    pub Level-double :
        (m k : ℕ) (w : Walk)
        → k % 2 ≡ 0
        → 0 < k
        → Level (suc m) k w
        → Level m (k / 2) (double_step digest wanted w)
    unfolding double_step
    Level-double m k w even some_left v =
        let xs = v.before in
        let n = v.counted in
        let held = v.held in
        record {
          before = pairs digest xs;
          counted = omega (arith, n, length-pairs digest xs);
          held = held.1;
          leads = λ r h. v.leads r (
              RootOf-step _ _ r (omega (arith, n, some_left, even, length-append xs (w.h ∷ [])))
                (sym (level_up-snoc_even digest xs w.h (leftover-even xs (omega (arith, n, even)))))
                h);
        }

    pub Level-end : (m : ℕ) (w : Walk) → Level m 0 w → RootOf digest goal w.h
    Level-end m w v = v.leads w.h (
        subst (λ u. RootOf digest (u ++ (w.h ∷ [])) w.h) (sym (no_hashes v.before v.counted))
          (one w.h))
