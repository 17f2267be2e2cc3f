-- ===== src/Merkle/Root.antt =====
-- primitives/merkle.cpp: `ComputeMerkleRoot` gives the root of the tree over its leaves.
use gen2_energiminer.Common.{
  ℕ, suc, ◌+◌, ◌-◌, ◌/◌, ◌%◌, ◌^◌, ◌<◌, ◌≤◌, ◌≡◌, sym, ◌∙◌, subst, Bool, false, List, [], ◌∷◌, ◌++◌,
  Text, arith, get_or, length, ap, length-append,
}
use gen2_energiminer.Merkle.{
  null_hash, Tree, sweep, add_leaves, empty_tree, merkle_computation, compute_merkle_root,
}
use gen2_energiminer.Merkle.Levels.{
  pairs, RootOf, pairs-snoc_even, length-pairs, leftover-even, leftover-odd, leftover-split,
  level_up-even,
}
use gen2_energiminer.Merkle.Absorb.{Stored, Holds}
use gen2_energiminer.Merkle.Leaves.{add_leaves-Has, empty_tree-Has}
use gen2_energiminer.Merkle.Carry.{RootOf-step, Level, Level-rise, Level-double, Level-end}
use gen2_energiminer.Merkle.Rule.{started, sweep_rule}

module _ (digest : Text → Text) (t : Tree) (goal : List Text) where
  -- A level whose root is that of the leaves.
  record Whole (m level k : ℕ) : Type 0 where
    items : List Text
    counted : length items ≡ k
    held : Holds digest (suc m) level items t.inner
    leads : (r : Text) → RootOf digest items r → RootOf digest goal r

  Whole-skip :
      (m level k : ℕ) → k % 2 ≡ 0 → 0 < k → Whole (suc m) level k → Whole m (level + 1) (k / 2)
  Whole-skip m level k even some_left v =
      let n = v.counted in
      let held = v.held in
      record {
        items = pairs digest v.items;
        counted = omega (arith, n, length-pairs digest v.items);
        held = held.1;
        leads = λ r h. v.leads r (
            RootOf-step digest v.items (pairs digest v.items) r (omega (arith, n, even, some_left))
              (sym (level_up-even digest v.items (leftover-even v.items (omega (arith, n, even)))))
              h);
      }

  -- At a level with an odd end the sweep starts from that hash.
  Whole-start :
      (wanted : Bool) (m level k : ℕ)
      → (k + 1) % 2 ≡ 1
      → Whole m level (k + 1)
      → Level digest wanted t.inner t.match_level goal m k (started digest wanted t level)
  Whole-start wanted m level k odd v =
      let (x, left) = leftover-odd v.items (omega (arith, v.counted, odd)) in
      let (xs, split, rest) = leftover-split v.items x left in
      let held = v.held in
      let stored : get_or t.inner level null_hash ≡ x = subst (Stored t.inner level) left held.0 in
      let len : length v.items ≡ length xs + 1 = ap length split ∙ length-append xs (x ∷ []) in
      let above : Holds digest m (level + 1) (pairs digest xs) t.inner =
        subst (λ u. Holds digest m (level + 1) u t.inner)
          (ap (pairs digest) split ∙ pairs-snoc_even digest xs x rest) held.1 in
      let same : xs ++ (get_or t.inner level null_hash ∷ []) ≡ v.items =
        ap (λ h. xs ++ (h ∷ [])) stored ∙ sym split in
      record {
        before = xs;
        counted = omega (arith, len, v.counted);
        held = (subst (Stored t.inner level) (sym rest) tt, above);
        leads = λ r h. v.leads r (subst (λ u. RootOf digest u r) same h);
      }

  sweep-RootOf :
      (wanted : Bool)
      → 0 < t.count
      → t.count ≤ 2 ^ 31
      → Whole 31 0 t.count
      → RootOf digest goal (sweep digest wanted t).h
  sweep-RootOf wanted some_left fits v =
      let (j, last) =
        sweep_rule digest wanted t Whole (Level digest wanted t.inner t.match_level goal) Whole-skip
          (Whole-start wanted) (Level-rise digest wanted t.inner t.match_level goal)
          (Level-double digest wanted t.inner t.match_level goal) some_left fits v in
      Level-end digest wanted t.inner t.match_level goal j _ last

module _ (digest : Text → Text) (position : ℕ) (wanted : Bool) where
  pub root-RootOf :
      (leaf : Text) (rest : List Text)
      → length (leaf ∷ rest) ≤ 2 ^ 31
      → RootOf digest (leaf ∷ rest) (merkle_computation digest (leaf ∷ rest) position wanted).root
  unfolding merkle_computation
  root-RootOf leaf rest fits =
      let t = add_leaves digest position wanted empty_tree (leaf ∷ rest) in
      let h =
        add_leaves-Has digest position wanted (leaf ∷ rest) [] empty_tree (omega (arith, fits))
          (empty_tree-Has digest position wanted) in
      sweep-RootOf digest t (leaf ∷ rest) wanted (omega (arith, h.counted))
        (omega (arith, h.counted, fits))
        (record { items = leaf ∷ rest; counted = sym h.counted; held = h.held; leads = λ r v. v })

-- For at least one leaf and at most 2 ^ 31 of them, `ComputeMerkleRoot` gives the hash that the tree
-- over them has at its root, in which the last hash of a level of odd length, if it is not the only
-- one, is paired with itself.
pub compute_merkle_root-RootOf :
    (digest : Text → Text) (leaf : Text) (rest : List Text)
    → length (leaf ∷ rest) ≤ 2 ^ 31
    → RootOf digest (leaf ∷ rest) (compute_merkle_root digest (leaf ∷ rest)).0
unfolding compute_merkle_root
compute_merkle_root-RootOf digest leaf rest fits =
    root-RootOf digest (2 ^ 32 - 1) false leaf rest fits
