-- ===== src/Merkle/Leads.antt =====
-- primitives/merkle.cpp: a branch that leads from its leaf to a hash.
use gen2_energiminer.Common.{
  ℕ, suc, ◌+◌, ◌/◌, ◌%◌, ◌^◌, ◌≡◌, sym, ◌∙◌, true, false, List, [], ◌∷◌, ◌++◌, Text, Option, arith,
  get_or, length, ap, length-append, ◌==◌, if◌then◌else◌,
}
use native.Mathlib.Nat.{div-div-eq-div-mul, pow-succ'}
use gen2_energiminer.Merkle.{null_hash, is_at, note, Walk, root_from_branch}

module _ (inner : List Text) (at : Option ℕ) (w : Walk) where
  pub note-matched :
      w.matched ≡ true
      → ((note true inner at w).matched ≡ true)
        × ((note true inner at w).branch ≡ w.branch ++ (get_or inner w.level null_hash ∷ []))
  unfolding note
  note-matched m = ground arith

  pub note-here :
      w.matched ≡ false
      → is_at at w.level ≡ true
      → ((note true inner at w).matched ≡ true)
        × ((note true inner at w).branch ≡ w.branch ++ (w.h ∷ []))
  unfolding note
  note-here m e = ground arith

  pub note-later :
      w.matched ≡ false
      → is_at at w.level ≡ false
      → ((note true inner at w).matched ≡ false) × ((note true inner at w).branch ≡ w.branch)
  unfolding note
  note-later m e = ground arith

module _ (digest : Text → Text) where
  -- The last hash of a branch is taken at the side that the index has at its level.
  abbrev join : ℕ → Text → Text → Text
  join index r side = digest (if index % 2 == 1 then side ++ r else r ++ side)

  root_from_branch-snoc :
      (branch : List Text) (h side : Text) (index : ℕ)
      → root_from_branch digest h (branch ++ (side ∷ [])) index
        ≡ join (index / 2 ^ length branch) (root_from_branch digest h branch index) side
  unfolding root_from_branch
  root_from_branch-snoc [] h side index = ap (λ n. join n h side) (omega arith)
  root_from_branch-snoc (b ∷ rest) h side index =
      let p : index / 2 / 2 ^ length rest ≡ index / 2 ^ suc (length rest) =
        div-div-eq-div-mul index 2 (2 ^ length rest)
        ∙ ap (λ (n : ℕ). index / n) (sym (pow-succ' 2 (length rest))) in
      root_from_branch-snoc rest _ side (index / 2)
      ∙ ap
          (λ n.
            join n
              (root_from_branch digest (digest (if index % 2 == 1 then b ++ h else h ++ b)) rest
                (index / 2))
              side)
          p

  module _ (leaf : Text) (position : ℕ) where
    -- The branch has a hash for each level below `level`, and leads to `h`.
    pub record Leads (level : ℕ) (branch : List Text) (h : Text) : Type 0 where
      pub long : length branch ≡ level
      pub root : root_from_branch digest leaf branch position ≡ h

    pub Leads-even :
        (level : ℕ) (branch : List Text) (h side : Text)
        → position / 2 ^ level % 2 ≡ 0
        → Leads level branch h
        → Leads (level + 1) (branch ++ (side ∷ [])) (digest (h ++ side))
    Leads-even level branch h side even v = record {
      long = omega (arith, length-append branch (side ∷ []), v.long);
      root =
          root_from_branch-snoc branch leaf side position
          ∙ rw (v.long, v.root) (ground (arith, even));
    }

    pub Leads-odd :
        (level : ℕ) (branch : List Text) (h side : Text)
        → position / 2 ^ level % 2 ≡ 1
        → Leads level branch h
        → Leads (level + 1) (branch ++ (side ∷ [])) (digest (side ++ h))
    Leads-odd level branch h side odd v = record {
      long = omega (arith, length-append branch (side ∷ []), v.long);
      root =
          root_from_branch-snoc branch leaf side position
          ∙ rw (v.long, v.root) (ground (arith, odd));
    }
