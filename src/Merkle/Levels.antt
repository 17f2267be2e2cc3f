-- ===== src/Merkle/Levels.antt =====
-- primitives/merkle.cpp: the tree level by level, as an independent description of the root.
use gen2_energiminer.Common.{
  ◌/◌, ◌%◌, ◌≡◌, refl, List, [], ◌∷◌, ◌++◌, Text, Option, none, some, arith, length, ap,
}

-- The hash at an odd end of a level.
unfoldable pub leftover : List Text → Option Text
leftover [] = none
leftover (x ∷ []) = some x
leftover (x ∷ y ∷ rest) = leftover rest

module _ (digest : Text → Text) where
  -- The hashes of the full pairs.
  unfoldable pub pairs : List Text → List Text
  pairs [] = []
  pairs (x ∷ []) = []
  pairs (x ∷ y ∷ rest) = digest (x ++ y) ∷ pairs rest

  -- The next level: a hash at an odd end is paired with itself.
  unfoldable pub level_up : List Text → List Text
  level_up [] = []
  level_up (x ∷ []) = digest (x ++ x) ∷ []
  level_up (x ∷ y ∷ rest) = digest (x ++ y) ∷ level_up rest

  -- The root of a tree with these leaves.
  pub data RootOf : List Text → Text → Type 0 where
    one : (x : Text) → RootOf (x ∷ []) x
    up :
        (x y : Text) (rest : List Text) (r : Text)
        → RootOf (level_up (x ∷ y ∷ rest)) r
        → RootOf (x ∷ y ∷ rest) r

  pub level_up-even : (xs : List Text) → leftover xs ≡ none → level_up xs ≡ pairs xs
  unfolding pairs level_up leftover
  level_up-even [] e = refl
  level_up-even (x ∷ []) e = cc
  level_up-even (x ∷ y ∷ rest) e = ap (λ t. digest (x ++ y) ∷ t) (level_up-even rest e)

  pub pairs-snoc_even :
      (xs : List Text) (h : Text) → leftover xs ≡ none → pairs (xs ++ (h ∷ [])) ≡ pairs xs
  unfolding pairs leftover
  pairs-snoc_even [] h e = refl
  pairs-snoc_even (x ∷ []) h e = cc
  pairs-snoc_even (x ∷ y ∷ rest) h e = ap (λ t. digest (x ++ y) ∷ t) (pairs-snoc_even rest h e)

  pub pairs-snoc_odd :
      (xs : List Text) (x h : Text)
      → leftover xs ≡ some x
      → pairs (xs ++ (h ∷ [])) ≡ pairs xs ++ (digest (x ++ h) ∷ [])
  unfolding pairs leftover
  pairs-snoc_odd [] x h e = cc
  pairs-snoc_odd (z ∷ []) x h e = ground arith
  pairs-snoc_odd (z ∷ y ∷ rest) x h e = ap (λ t. digest (z ++ y) ∷ t) (pairs-snoc_odd rest x h e)

  pub level_up-snoc_even :
      (xs : List Text) (h : Text)
      → leftover xs ≡ none
      → level_up (xs ++ (h ∷ [])) ≡ pairs xs ++ (digest (h ++ h) ∷ [])
  unfolding pairs level_up leftover
  level_up-snoc_even [] h e = refl
  level_up-snoc_even (x ∷ []) h e = cc
  level_up-snoc_even (x ∷ y ∷ rest) h e =
      ap (λ t. digest (x ++ y) ∷ t) (level_up-snoc_even rest h e)

  pub level_up-snoc_odd :
      (xs : List Text) (x h : Text)
      → leftover xs ≡ some x
      → level_up (xs ++ (h ∷ [])) ≡ pairs xs ++ (digest (x ++ h) ∷ [])
  unfolding pairs level_up leftover
  level_up-snoc_odd [] x h e = cc
  level_up-snoc_odd (z ∷ []) x h e = ground arith
  level_up-snoc_odd (z ∷ y ∷ rest) x h e =
      ap (λ t. digest (z ++ y) ∷ t) (level_up-snoc_odd rest x h e)

  pub length-pairs : (xs : List Text) → length (pairs xs) ≡ length xs / 2
  unfolding pairs
  length-pairs [] = refl
  length-pairs (x ∷ []) = refl
  length-pairs (x ∷ y ∷ rest) = omega (arith, length-pairs rest)

pub leftover-even : (xs : List Text) → length xs % 2 ≡ 0 → leftover xs ≡ none
unfolding leftover
leftover-even [] e = refl
leftover-even (x ∷ []) e = absurd (omega arith)
leftover-even (x ∷ y ∷ rest) e = leftover-even rest (omega arith)

pub leftover-odd : (xs : List Text) → length xs % 2 ≡ 1 → (x : Text) × (leftover xs ≡ some x)
unfolding leftover
leftover-odd [] e = absurd (omega arith)
leftover-odd (x ∷ []) e = (x, refl)
leftover-odd (x ∷ y ∷ rest) e = leftover-odd rest (omega arith)

pub leftover-snoc_even :
    (xs : List Text) (h : Text) → leftover xs ≡ none → leftover (xs ++ (h ∷ [])) ≡ some h
unfolding leftover
leftover-snoc_even [] h e = refl
leftover-snoc_even (x ∷ []) h e = cc
leftover-snoc_even (x ∷ y ∷ rest) h e = leftover-snoc_even rest h e

pub leftover-snoc_odd :
    (xs : List Text) (x h : Text) → leftover xs ≡ some x → leftover (xs ++ (h ∷ [])) ≡ none
unfolding leftover
leftover-snoc_odd [] x h e = cc
leftover-snoc_odd (z ∷ []) x h e = refl
leftover-snoc_odd (z ∷ y ∷ rest) x h e = leftover-snoc_odd rest x h e

-- An odd level ends in its leftover.
pub leftover-split :
    (xs : List Text) (x : Text)
    → leftover xs ≡ some x
    → (ys : List Text) × (xs ≡ ys ++ (x ∷ [])) × (leftover ys ≡ none)
unfolding leftover
leftover-split [] x e = cc
leftover-split (z ∷ []) x e = ([], ground arith, refl)
leftover-split (z ∷ y ∷ rest) x e =
    let (ys, d, n) = leftover-split rest x e in (z ∷ y ∷ ys, ap (λ t. z ∷ y ∷ t) d, n)
