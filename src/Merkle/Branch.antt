-- ===== src/Merkle/Branch.antt =====
-- primitives/merkle.cpp: the branch that is collected leads from its leaf to the hash that depends on it.
use gen2_energiminer.Common.{
  ℕ, zero, suc, ◌+◌, ◌-◌, ◌&&◌, ◌/◌, ◌%◌, ◌^◌, ◌<◌, ◌≤◌, ◌≡◌, sym, ◌∙◌, subst, Bool, true, false,
  List, [], ◌∷◌, ◌++◌, Text, Option, some, arith, get_or, set, length, ◌⊎◌, inl, inr, if◌then◌else◌,
  get_or-set_self, get_or-set_ne,
}
use native.Mathlib.Nat.{pow-succ'}
use gen2_energiminer.Merkle.{
  null_hash, is_at, Walk, rise_step, absorb_step, absorb_loop, double_step,
}
use gen2_energiminer.Merkle.Absorb.{parity, next_count, absorb-stop, absorb-go}
use gen2_energiminer.Merkle.Leads.{
  note-matched, note-here, note-later, Leads, Leads-even, Leads-odd,
}

module _ (digest : Text → Text) where
  module _ (leaf : Text) (position : ℕ) where
    -- At `level`, of `k` hashes, the stored one is the one that the leaf leads to.
    pub record Here (inner : List Text) (branch : List Text) (level k : ℕ) (at : Option ℕ)
        : Type 0 where
      pub marked : at ≡ some level
      pub odd : k % 2 ≡ 1
      pub last : position / 2 ^ level + 1 ≡ k
      pub way : Leads digest leaf position level branch (get_or inner level null_hash)

    -- At one of the `n` levels from `level` on.
    abbrev pub Tracked : ℕ → ℕ → ℕ → Option ℕ → List Text → List Text → Type 0
    Tracked zero level k at inner branch = ⊥
    Tracked (suc n) level k at inner branch =
        Here inner branch level k at ⊎ Tracked n (level + 1) (k / 2) at inner branch

    -- The walk with `k` hashes before the one under way: that one depends on the leaf, or a stored one does.
    pub data Seen (n k : ℕ) (at : Option ℕ) (inner : List Text) (level : ℕ) (matched : Bool)
        (branch : List Text) (h : Text) : Type 0 where
      carried :
          matched ≡ true
          → position / 2 ^ level ≡ k
          → Leads digest leaf position level branch h
          → Seen n k at inner level matched branch h
      stored :
          matched ≡ false
          → Tracked n level k at inner branch
          → Seen n k at inner level matched branch h

    pub Tracked-later :
        (n level j k : ℕ) (at : Option ℕ) (inner branch : List Text)
        → j < level
        → Tracked n level k at inner branch
        → is_at at j ≡ false
    Tracked-later zero level j k at inner branch lt v = absurd v
    Tracked-later (suc n) level j k at inner branch lt (inl v) = rw v.marked (ground arith)
    Tracked-later (suc n) level j k at inner branch lt (inr v) =
        Tracked-later n (level + 1) j (k / 2) at inner branch (omega arith) v

    pub Tracked-zero :
        (n level : ℕ) (at : Option ℕ) (inner branch : List Text)
        → Tracked n level 0 at inner branch
        → ⊥
    Tracked-zero zero level at inner branch v = v
    Tracked-zero (suc n) level at inner branch (inl v) = absurd (omega (arith, v.odd))
    Tracked-zero (suc n) level at inner branch (inr v) =
        Tracked-zero n (level + 1) at inner branch v

    Tracked-set :
        (n level j k : ℕ) (h : Text) (at : Option ℕ) (inner branch : List Text)
        → j < level
        → Tracked n level k at inner branch
        → Tracked n level k at (set inner j h) branch
    Tracked-set zero level j k h at inner branch lt v = v
    Tracked-set (suc n) level j k h at inner branch lt (inl v) =
        let same : get_or (set inner j h) level null_hash ≡ get_or inner level null_hash =
          get_or-set_ne inner j level h null_hash (λ e. omega arith) in
        inl (record {
          marked = v.marked;
          odd = v.odd;
          last = v.last;
          way = subst (Leads digest leaf position level branch) (sym same) v.way;
        })
    Tracked-set (suc n) level j k h at inner branch lt (inr v) =
        inr (Tracked-set n (level + 1) j (k / 2) h at inner branch (omega arith) v)

    abbrev pub Sees : ℕ → ℕ → Option ℕ → List Text → Walk → Type 0
    Sees n k at inner w = Seen n k at inner w.level w.matched w.branch w.h

    pub rise-Sees :
        (n k : ℕ) (at : Option ℕ) (inner : List Text) (w : Walk)
        → k % 2 ≡ 1
        → Sees (suc n) k at inner w
        → Sees n (k / 2) at inner (rise_step digest true inner at w)
    unfolding rise_step
    rise-Sees n k at inner w odd (carried m p v) =
        let (m', b) = note-matched inner at w m in
        carried m' (next_count position w.level k p) (
          subst
            (λ u.
              Leads digest leaf position (w.level + 1) u
                (digest (get_or inner w.level null_hash ++ w.h)))
            (sym b)
            (Leads-odd digest leaf position w.level w.branch w.h _ (omega (arith, p, odd)) v))
    rise-Sees n k at inner w odd (stored m (inl v)) =
        let (m', b) = note-here inner at w m (rw v.marked (ground arith)) in
        let before : position / 2 ^ w.level ≡ suc (k / 2 + k / 2) - 1 =
          omega (arith, v.last, odd) in
        carried m' (next_count position w.level _ before ∙ omega arith) (
          subst
            (λ u.
              Leads digest leaf position (w.level + 1) u
                (digest (get_or inner w.level null_hash ++ w.h)))
            (sym b)
            (Leads-even digest leaf position w.level w.branch _ w.h (omega (arith, before)) v.way))
    rise-Sees n k at inner w odd (stored m (inr v)) =
        let (m', b) =
          note-later inner at w m
            (Tracked-later n (w.level + 1) w.level (k / 2) at inner w.branch (omega arith) v) in
        stored m' (subst (Tracked n (w.level + 1) (k / 2) at inner) (sym b) v)

    pub double-Sees :
        (n k : ℕ) (at : Option ℕ) (inner : List Text) (w : Walk)
        → k % 2 ≡ 0
        → Sees (suc n) k at inner w
        → Sees n (k / 2) at inner (double_step digest true w)
    unfolding double_step
    double-Sees n k at inner w even (carried m p v) =
        let b : (if true && w.matched then w.branch ++ (w.h ∷ []) else w.branch)
            ≡ w.branch ++ (w.h ∷ []) =
          ground (arith, m) in
        carried m (next_count position w.level k p) (
          subst (λ u. Leads digest leaf position (w.level + 1) u (digest (w.h ++ w.h))) (sym b)
            (Leads-even digest leaf position w.level w.branch w.h w.h (omega (arith, p, even)) v))
    double-Sees n k at inner w even (stored m (inl v)) = absurd (omega (arith, v.odd, even))
    double-Sees n k at inner w even (stored m (inr v)) =
        let b : (if true && w.matched then w.branch ++ (w.h ∷ []) else w.branch) ≡ w.branch =
          ground (arith, m) in
        stored m (subst (Tracked n (w.level + 1) (k / 2) at inner) (sym b) v)

    ends :
        (n k : ℕ) (at : Option ℕ) (inner : List Text) (w : Walk)
        → k % 2 ≡ 0
        → w.level < length inner
        → Sees (suc n) k at inner w
        → Tracked
            (suc n)
            w.level
            (k + 1)
            (if w.matched then some w.level else at)
            (set inner w.level w.h)
            w.branch
    ends n k at inner w even lt (carried m p v) = inl (record {
      marked = ground (arith, m);
      odd = omega (arith, even);
      last = omega (arith, p);
      way =
          subst (Leads digest leaf position w.level w.branch)
            (sym (get_or-set_self inner w.level w.h null_hash lt)) v;
    })
    ends n k at inner w even lt (stored m (inl v)) = absurd (omega (arith, v.odd, even))
    ends n k at inner w even lt (stored m (inr v)) =
        let half : k / 2 ≡ (k + 1) / 2 = omega (arith, even) in
        let keeps : at ≡ (if w.matched then some w.level else at) = ground (arith, m) in
        let moved =
          Tracked-set n (w.level + 1) w.level (k / 2) w.h at inner w.branch (omega arith) v in
        inr (
          subst
            (λ (j : ℕ).
              Tracked n (w.level + 1) j (if w.matched then some w.level else at)
                (set inner w.level w.h) w.branch)
            half
            (subst (λ o. Tracked n (w.level + 1) (k / 2) o (set inner w.level w.h) w.branch) keeps
              moved))

    -- Where the walk that takes in a leaf ends, the tree tracks the leaf of the branch.
    pub absorb-Tracked :
        (count n k : ℕ) (at : Option ℕ) (inner : List Text) (w : Walk)
        → count / 2 ^ w.level ≡ k + 1
        → k + 2 ≤ 2 ^ n
        → w.level + n ≡ length inner
        → Sees n k at inner w
        → (r : Walk) × (absorb_loop digest n count true inner at w ≡ r)
          × Tracked n w.level
              (k + 1)
              (if r.matched then some r.level else at)
              (set inner r.level r.h)
              r.branch
    unfolding absorb_step rise_step
    absorb-Tracked count zero k at inner w c fits top v = absurd (omega arith)
    absorb-Tracked count (suc n) k at inner w c fits top v = elim (parity k) [
      | inl even ↦ (
        w,
        absorb-stop digest count true inner at n w (ground (arith, c, even)),
        ends n k at inner w even (omega arith) v,
      )
      | inr odd ↦
          let (r, e, t) =
            absorb-Tracked count n (k / 2) at inner (absorb_step digest true inner at w)
              (next_count count w.level (k + 1) c ∙ omega (arith, odd))
              (omega (arith, odd, fits, pow-succ' 2 n)) (omega arith)
              (rise-Sees n k at inner w odd v) in
          let half : k / 2 + 1 ≡ (k + 1) / 2 = omega (arith, odd) in
          (
            r,
            absorb-go digest count true inner at n w (ground (arith, c, odd)) ∙ e,
            inr (
                subst
                  (λ (j : ℕ).
                    Tracked n (w.level + 1) j (if r.matched then some r.level else at)
                      (set inner r.level r.h) r.branch)
                  half t),
          )
    ]
