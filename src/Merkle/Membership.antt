-- ===== src/Merkle/Membership.antt =====
-- primitives/merkle.cpp: a branch of `ComputeMerkleBranch` proves that its leaf is in the tree.
use gen2_energiminer.Common.{
  ℕ, suc, ◌+◌, ◌-◌, ◌/◌, ◌%◌, ◌^◌, ◌<◌, ◌≤◌, ◌≡◌, refl, sym, subst, true, List, [], ◌∷◌, Text,
  Option, arith, get_or, length, ap, inl, inr, length-replicate,
}
use gen2_energiminer.Merkle.{
  null_hash, Walk, Tree, sweep, add_leaves, empty_tree, merkle_computation, compute_merkle_branch,
  root_from_branch,
}
use gen2_energiminer.Merkle.Levels.{RootOf}
use gen2_energiminer.Merkle.Leaves.{add_leaves-Has, empty_tree-Has}
use gen2_energiminer.Merkle.Rule.{started, sweep_rule}
use gen2_energiminer.Merkle.Root.{root-RootOf}
use gen2_energiminer.Merkle.Branch.{
  Tracked, Tracked-later, Tracked-zero, carried, stored, Sees, rise-Sees, double-Sees,
}
use gen2_energiminer.Merkle.Follows.{Follows, add_leaves-Follows}

module _ (digest : Text → Text) (leaf : Text) (position : ℕ) where
  seen_at_top :
      (n : ℕ) (at : Option ℕ) (inner : List Text) (w : Walk)
      → Sees digest leaf position n 0 at inner w
      → root_from_branch digest leaf w.branch position ≡ w.h
  seen_at_top n at inner w (carried m p v) = v.root
  seen_at_top n at inner w (stored m v) =
      absurd (Tracked-zero digest leaf position n w.level at inner w.branch v)

  module _ (t : Tree) where
    start-Sees :
        (m level k : ℕ)
        → (k + 1) % 2 ≡ 1
        → Tracked digest leaf position (suc m) level (k + 1) t.match_level t.inner t.branch
        → Sees digest leaf position (suc m) k t.match_level t.inner (started digest true t level)
    start-Sees m level k odd (inl v) =
        carried (rw v.marked (ground arith)) (omega (arith, v.last)) v.way
    start-Sees m level k odd (inr v) =
        let half : (k + 1) / 2 ≡ k / 2 = omega (arith, odd) in
        stored
          (Tracked-later digest leaf position m (level + 1) level ((k + 1) / 2) t.match_level
            t.inner t.branch (omega arith) v)
          (inr (
            subst
              (λ (n : ℕ).
                Tracked digest leaf position m (level + 1) n t.match_level t.inner t.branch)
              half v))

    skip-Tracked :
        (m level k : ℕ)
        → k % 2 ≡ 0
        → 0 < k
        → Tracked digest leaf position (suc (suc m)) level k t.match_level t.inner t.branch
        → Tracked digest leaf position (suc m) (level + 1) (k / 2) t.match_level t.inner t.branch
    skip-Tracked m level k even some_left (inl v) = absurd (omega (arith, v.odd, even))
    skip-Tracked m level k even some_left (inr v) = v

    sweep-Leads :
        0 < t.count
        → t.count ≤ 2 ^ 31
        → Tracked digest leaf position 32 0 t.count t.match_level t.inner t.branch
        → root_from_branch digest leaf (sweep digest true t).branch position
          ≡ (sweep digest true t).h
    sweep-Leads some_left fits v =
        let (j, last) =
          sweep_rule digest true t
            (λ m level k.
              Tracked digest leaf position (suc m) level k t.match_level t.inner t.branch)
            (λ m k w. Sees digest leaf position (suc m) k t.match_level t.inner w) skip-Tracked
            start-Sees (λ m k w. rise-Sees digest leaf position (suc m) k t.match_level t.inner w)
            (λ m k w even pos.
              double-Sees digest leaf position (suc m) k t.match_level t.inner w even)
            some_left fits v in
        seen_at_top (suc j) t.match_level t.inner (sweep digest true t) last

  way :
      (t : Tree)
      → 0 < t.count
      → t.count ≤ 2 ^ 31
      → position < t.count
      → Follows digest leaf position t
      → root_from_branch digest leaf (sweep digest true t).branch position ≡ (sweep digest true t).h
  unfolding Follows
  way t some_left fits lt (inl v) = absurd (omega (arith, lt, v.0))
  way t some_left fits lt (inr v) = sweep-Leads t some_left fits v.1

  empty_tree-Follows : Follows digest leaf position empty_tree
  unfolding Follows
  empty_tree-Follows = inl (omega arith, refl, refl)

-- For at most 2 ^ 31 leaves and the position of one of them, the branch that `ComputeMerkleBranch`
-- gives for the position leads, by `ComputeMerkleRootFromBranch`, from the leaf there to the root of
-- the tree over the leaves.
pub branch-RootOf :
    (digest : Text → Text) (leaves : List Text) (position : ℕ)
    → length leaves ≤ 2 ^ 31
    → position < length leaves
    → RootOf digest leaves (
        root_from_branch digest
          (get_or leaves position null_hash)
          (compute_merkle_branch digest leaves position)
          position)
unfolding compute_merkle_branch merkle_computation
branch-RootOf digest [] position fits lt = absurd (omega (arith, lt))
branch-RootOf digest (x ∷ rest) position fits lt =
    let leaf = get_or (x ∷ rest) position null_hash in
    let t = add_leaves digest position true empty_tree (x ∷ rest) in
    let less : position - 0 ≡ position = omega arith in
    let from_zero : get_or (x ∷ rest) (position - 0) null_hash ≡ leaf =
      ap (λ (i : ℕ). get_or (x ∷ rest) i null_hash) less in
    let h =
      add_leaves-Has digest position true (x ∷ rest) [] empty_tree (omega (arith, fits))
        (empty_tree-Has digest position true) in
    subst (RootOf digest (x ∷ rest))
      (sym (
        way digest leaf position t (omega (arith, h.counted)) (omega (arith, h.counted, fits))
          (omega (arith, h.counted, lt))
          (add_leaves-Follows digest leaf position (x ∷ rest) empty_tree
            (length-replicate 32 null_hash) (omega (arith, fits)) (λ le. from_zero)
            (empty_tree-Follows digest leaf position))))
      (root-RootOf digest position true x rest fits)
