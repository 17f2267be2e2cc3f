-- ===== src/Merkle/Examples.antt =====
-- primitives/merkle.cpp on concrete leaves.
use gen2_energiminer.Common.{◌≡◌, refl, List, [], ◌∷◌, ◌++◌, Text, true, false, arith, get_or}
use gen2_energiminer.Merkle.{
  compute_merkle_root, compute_merkle_branch, root_from_branch, null_hash,
}
use gen2_energiminer.Merkle.Levels.{RootOf}
use gen2_energiminer.Merkle.Membership.{branch-RootOf}
use gen2_energiminer.Merkle.Root.{compute_merkle_root-RootOf}

-- A digest that shows the tree: its input in brackets.
abbrev shown : Text → Text
shown s = (1 ∷ s) ++ (2 ∷ [])

abbrev five : List Text
five = (3 ∷ []) ∷ (4 ∷ []) ∷ (5 ∷ []) ∷ (6 ∷ []) ∷ (7 ∷ []) ∷ []

-- ((34)(56)) and ((77)(77)).
abbrev top : Text
top = 1 ∷ 1 ∷ 1 ∷ 3 ∷ 4 ∷ 2 ∷ 1 ∷ 5 ∷ 6 ∷ 2 ∷ 2 ∷ 1 ∷ 1 ∷ 7 ∷ 7 ∷ 2 ∷ 1 ∷ 7 ∷ 7 ∷ 2 ∷ 2 ∷ 2 ∷ []

root_of_five : compute_merkle_root shown five ≡ (top, false)
unfolding compute_merkle_root
root_of_five = refl

-- The flag shows the repetition of the last leaf, which has the same root.
root_of_repeated : compute_merkle_root shown (five ++ ((7 ∷ []) ∷ [])) ≡ (top, true)
unfolding compute_merkle_root
root_of_repeated = refl

-- The branch of the third leaf.
branch_of_five :
    compute_merkle_branch shown five 2
    ≡ (6 ∷ []) ∷ (1 ∷ 3 ∷ 4 ∷ 2 ∷ []) ∷ (1 ∷ 1 ∷ 7 ∷ 7 ∷ 2 ∷ 1 ∷ 7 ∷ 7 ∷ 2 ∷ 2 ∷ []) ∷ []
unfolding compute_merkle_branch
branch_of_five = refl

checked_branch : root_from_branch shown (5 ∷ []) (compute_merkle_branch shown five 2) 2 ≡ top
unfolding compute_merkle_branch root_from_branch
checked_branch = refl

compute_merkle_root-RootOf_example : RootOf shown five (compute_merkle_root shown five).0
compute_merkle_root-RootOf_example =
    compute_merkle_root-RootOf shown (3 ∷ []) ((4 ∷ []) ∷ (5 ∷ []) ∷ (6 ∷ []) ∷ (7 ∷ []) ∷ [])
      (omega arith)

branch-RootOf_example :
    RootOf shown five
      (root_from_branch shown (get_or five 2 null_hash) (compute_merkle_branch shown five 2) 2)
branch-RootOf_example = branch-RootOf shown five 2 (omega arith) (omega arith)
