-- ===== src/Merkle/Leaves.antt =====
-- primitives/merkle.cpp: what the tree holds once the leaves are taken in.
use gen2_energiminer.Common.{
  ℕ, zero, suc, ◌+◌, ◌/◌, ◌^◌, ◌≤◌, ◌≡◌, refl, sym, ◌∙◌, subst, Bool, List, [], ◌∷◌, ◌++◌, Text,
  arith, length, u32, ◌==◌, length-append, length-set, length-replicate,
}
use mathlib.Core.List.{append_assoc, append-nil}
use gen2_energiminer.Merkle.{null_hash, Walk, Tree, add_leaf, add_leaves, empty_tree}
use gen2_energiminer.Merkle.Levels.{leftover, pairs}
use gen2_energiminer.Merkle.Absorb.{Holds, absorb-Holds}

module _ (digest : Text → Text) (position : ℕ) (wanted : Bool) where
  -- The tree has taken in these leaves.
  pub record Has (items : List Text) (t : Tree) : Type 0 where
    pub counted : t.count ≡ length items
    pub wide : length t.inner ≡ 32
    pub held : Holds digest 32 0 items t.inner

  over_one : (n : ℕ) → n / 2 ^ 0 ≡ n
  over_one n = omega arith

  pub add_leaf-Has :
      (items : List Text) (t : Tree) (leaf : Text)
      → length items + 2 ≤ 2 ^ 32
      → Has items t
      → Has (items ++ (leaf ∷ [])) (add_leaf digest position wanted t leaf)
  unfolding add_leaf
  add_leaf-Has items t leaf fits h =
      let w : Walk = record {
        h = leaf;
        matched = t.count == position;
        level = 0;
        mutated = t.mutated;
        branch = t.branch;
      } in
      let count : u32 (t.count + 1) ≡ length items + 1 = omega (arith, h.counted, fits) in
      let kept =
        absorb-Holds digest (u32 (t.count + 1)) wanted t.inner t.match_level 32 items w
          (over_one _ ∙ count) fits (omega (arith, h.wide)) h.held in
      record {
        counted = omega (arith, count, length-append items (leaf ∷ []));
        wide = length-set t.inner _ _ ∙ h.wide;
        held = kept.2;
      }

  pub add_leaves-Has :
      (leaves items : List Text) (t : Tree)
      → length items + length leaves + 1 ≤ 2 ^ 32
      → Has items t
      → Has (items ++ leaves) (add_leaves digest position wanted t leaves)
  unfolding add_leaves
  add_leaves-Has [] items t fits h = subst (λ u. Has u t) (sym (append-nil items)) h
  add_leaves-Has (leaf ∷ rest) items t fits h =
      subst
        (λ u.
          Has u (add_leaves digest position wanted (add_leaf digest position wanted t leaf) rest))
        (append_assoc items (leaf ∷ []) rest)
        (add_leaves-Has rest (items ++ (leaf ∷ [])) (add_leaf digest position wanted t leaf)
          (omega (arith, length-append items (leaf ∷ [])))
          (add_leaf-Has items t leaf (omega arith) h))

  Holds-empty : (n level : ℕ) (inner : List Text) → Holds digest n level [] inner
  unfolding leftover pairs
  Holds-empty zero level inner = refl
  Holds-empty (suc n) level inner = (tt, Holds-empty n (level + 1) inner)

  pub empty_tree-Has : Has [] empty_tree
  empty_tree-Has = record {
    counted = refl;
    wide = length-replicate 32 null_hash;
    held = Holds-empty 32 0 empty_tree.inner;
  }
