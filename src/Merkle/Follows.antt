-- ===== src/Merkle/Follows.antt =====
-- primitives/merkle.cpp: the tree keeps track of the leaf of the branch.
use gen2_energiminer.Common.{
  ℕ, zero, suc, ◌+◌, ◌-◌, ◌^◌, ◌<◌, ◌≤◌, ◌≡◌, refl, sym, ◌∙◌, subst, true, false, List, [], ◌∷◌,
  Text, none, some, arith, get_or, set, length, ap, ◌⊎◌, inl, inr, u32, ◌==◌, if◌then◌else◌,
  Bool-cases, length-set,
}
use gen2_energiminer.Merkle.{
  null_hash, note, Walk, Tree, rise_step, absorb_step, absorb_loop, add_leaf, add_leaves,
  root_from_branch,
}
use gen2_energiminer.Merkle.Branch.{Tracked, carried, stored, Sees, absorb-Tracked}

module _ (digest : Text → Text) (leaf : Text) (position : ℕ) where
  unfoldable pub Follows : Tree → Type 0
  Follows t =
      ((t.count ≤ position) × (t.match_level ≡ none) × (t.branch ≡ []))
      ⊎ ((position < t.count)
          × Tracked digest leaf position 32 0 t.count t.match_level t.inner t.branch)

  module _ (count : ℕ) (inner : List Text) where
    absorb_unseen :
        (n : ℕ) (w : Walk)
        → w.matched ≡ false
        → ((absorb_loop digest n count true inner none w).matched ≡ false)
          × ((absorb_loop digest n count true inner none w).branch ≡ w.branch)
    unfolding absorb_loop absorb_step rise_step note
    absorb_unseen zero w m = (m, refl)
    absorb_unseen (suc n) w m =
        ground (arith, absorb_unseen n (absorb_step digest true inner none w))

  counts :
      (t : Tree) (x : Text)
      → t.count + 2 ≤ 2 ^ 32
      → (add_leaf digest position true t x).count ≡ t.count + 1
  unfolding add_leaf
  counts t x fits = omega (arith, fits)

  widths : (t : Tree) (x : Text) → length (add_leaf digest position true t x).inner ≡ length t.inner
  unfolding add_leaf
  widths t x = length-set t.inner _ _

  at_first :
      (x : Text) (rest : List Text) (n : ℕ)
      → n ≡ position
      → get_or (x ∷ rest) (position - n) null_hash ≡ leaf
      → x ≡ leaf
  at_first x rest n e h =
      let zero_left : position - n ≡ 0 = omega (arith, e) in
      subst (λ (i : ℕ). get_or (x ∷ rest) i null_hash ≡ leaf) zero_left h

  at_rest :
      (x : Text) (rest : List Text) (n n' : ℕ)
      → n' ≡ n + 1
      → n' ≤ position
      → get_or (x ∷ rest) (position - n) null_hash ≡ leaf
      → get_or rest (position - n') null_hash ≡ leaf
  at_rest x rest n n' e le h =
      let one_left : position - n ≡ suc (position - n') = omega (arith, e, le) in
      subst (λ (i : ℕ). get_or (x ∷ rest) i null_hash ≡ leaf) one_left h

  abbrev begun : Tree → Text → Walk
  begun t x = record {
    h = x;
    matched = t.count == position;
    level = 0;
    mutated = t.mutated;
    branch = t.branch;
  }

  abbrev built : Tree → Walk → Tree
  built t w = record {
    inner = set t.inner w.level w.h;
    count = u32 (t.count + 1);
    mutated = w.mutated;
    match_level = if w.matched then some w.level else t.match_level;
    branch = w.branch;
  }

  add_leaf-built :
      (t : Tree) (x : Text)
      → add_leaf digest position true t x
        ≡ built t (absorb_loop digest 32 (u32 (t.count + 1)) true t.inner t.match_level (begun t x))
  unfolding add_leaf
  add_leaf-built t x = refl

  tracks :
      (t : Tree) (x : Text)
      → length t.inner ≡ 32
      → t.count + 2 ≤ 2 ^ 32
      → position ≤ t.count
      → Sees digest leaf position 32 t.count t.match_level t.inner (begun t x)
      → Follows (add_leaf digest position true t x)
  unfolding Follows
  tracks t x wide fits le s =
      let count : u32 (t.count + 1) ≡ t.count + 1 = omega (arith, fits) in
      let (r, e, tracked) =
        absorb-Tracked digest leaf position (u32 (t.count + 1)) 32 t.count t.match_level t.inner
          (begun t x) (omega (arith, count)) fits (omega (arith, wide)) s in
      subst Follows (sym (add_leaf-built t x ∙ ap (built t) e)) (
        inr (
          omega (arith, count, le),
          subst
              (λ (n : ℕ).
                Tracked digest leaf position 32 0 n (built t r).match_level (built t r).inner
                  r.branch)
              (sym count) tracked,
        ))

  add_leaf-Follows :
      (t : Tree) (x : Text)
      → length t.inner ≡ 32
      → t.count + 2 ≤ 2 ^ 32
      → (t.count ≡ position → x ≡ leaf)
      → Follows t
      → Follows (add_leaf digest position true t x)
  unfolding Follows
  add_leaf-Follows t x wide fits mine (inl v) = elim (Bool-cases (t.count == position)) [
    | inl e ↦
        let same : t.count ≡ position = ground (arith, e) in
        tracks t x wide fits (omega (arith, same)) (
          carried e (omega (arith, same)) (record {
            long = ap length v.2;
            root = rw (v.2) (unfold root_from_branch in sym (mine same));
          }))
    | inr e ↦
        let w = begun t x in
        let other : absorb_loop digest 32 (u32 (t.count + 1)) true t.inner t.match_level w
            ≡ absorb_loop digest 32 (u32 (t.count + 1)) true t.inner none w =
          ap (λ o. absorb_loop digest 32 (u32 (t.count + 1)) true t.inner o w) v.1 in
        let (m, b) = absorb_unseen (u32 (t.count + 1)) t.inner 32 w e in
        subst Follows (sym (add_leaf-built t x ∙ ap (built t) other))
          (inl (ground (arith, v.0, e, fits), rw m (v.1), b ∙ v.2))
  ]
  add_leaf-Follows t x wide fits mine (inr v) =
      tracks t x wide fits (omega (arith, v.0)) (stored (ground (arith, v.0)) v.1)

  pub add_leaves-Follows :
      (leaves : List Text) (t : Tree)
      → length t.inner ≡ 32
      → t.count + length leaves + 1 ≤ 2 ^ 32
      → (t.count ≤ position → get_or leaves (position - t.count) null_hash ≡ leaf)
      → Follows t
      → Follows (add_leaves digest position true t leaves)
  unfolding add_leaves
  add_leaves-Follows [] t wide fits mine v = v
  add_leaves-Follows (x ∷ rest) t wide fits mine v =
      let t' = add_leaf digest position true t x in
      let count : t'.count ≡ t.count + 1 = counts t x (omega (arith, fits)) in
      add_leaves-Follows rest t' (widths t x ∙ wide) (omega (arith, count, fits))
        (λ le. at_rest x rest t.count t'.count count le (mine (omega (arith, count, le))))
        (add_leaf-Follows t x wide (omega (arith, fits))
          (λ e. at_first x rest t.count e (mine (omega (arith, e)))) v)
