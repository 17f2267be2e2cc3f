-- ===== src/Merkle/Rule.antt =====
-- primitives/merkle.cpp: the whole sweep, as a rule on what its steps keep.
use gen2_energiminer.Common.{
  ℕ, zero, suc, ◌+◌, ◌-◌, ◌*◌, ◌/◌, ◌%◌, ◌^◌, ◌<◌, ◌≤◌, ◌≡◌, refl, ◌∙◌, subst, Bool, true, false,
  Text, arith, get_or, ap, inl, inr,
}
use native.Mathlib.Nat.{pow-succ'}
use gen2_energiminer.Merkle.{
  null_hash, has_bit, is_at, Walk, Tree, rise_step, double_step, sweep_loop, first_level, sweep,
}
use gen2_energiminer.Merkle.Absorb.{parity}
use gen2_energiminer.Merkle.Sweep.{shifted, halve, rise-stop, carry_rule}

module _ (count : ℕ) where
  first-go :
      (f level : ℕ)
      → has_bit count level ≡ false
      → first_level (suc f) count level ≡ first_level f count (level + 1)
  unfolding first_level
  first-go f level e = rw e

  first-stop : (f level : ℕ) → has_bit count level ≡ true → first_level (suc f) count level ≡ level
  unfolding first_level
  first-stop f level e = rw e

  module _ (P : ℕ → ℕ → ℕ → Type 0) where
    -- The level with the first odd end, of `k` hashes.
    record First (level : ℕ) : Type 0 where
      room : ℕ
      k : ℕ
      bits : count ≡ k * 2 ^ level
      odd : k % 2 ≡ 1
      fits : k ≤ 2 ^ room
      top : level + room ≡ 31
      kept : P room level k

    first_level-First :
        ((m level k : ℕ) → k % 2 ≡ 0 → 0 < k → P (suc m) level k → P m (level + 1) (k / 2))
        → (m f level k : ℕ) → count ≡ k * 2 ^ level
        → 0 < k
        → k ≤ 2 ^ m
        → level + m ≡ 31
        → m < f
        → P m level k
        → First (first_level f count level)
    first_level-First skips m zero level k c some_left fits top hf v = absurd (omega (arith, hf))
    first_level-First skips zero (suc f) level k c some_left fits top hf v =
        let one_left : k ≡ 1 = omega (arith, some_left, fits) in
        let bits : count / 2 ^ level ≡ k = ap (λ (n : ℕ). n / 2 ^ level) c ∙ shifted k level in
        rw (first-stop f level (ground (arith, bits, one_left))) (record {
          room = zero;
          k = k;
          bits = c;
          odd = omega (arith, one_left);
          fits = fits;
          top = top;
          kept = v;
        })
    first_level-First skips (suc m) (suc f) level k c some_left fits top hf v =
        let bits : count / 2 ^ level ≡ k = ap (λ (n : ℕ). n / 2 ^ level) c ∙ shifted k level in
        elim (parity k) [
          | inl even ↦ rw (first-go f level (ground (arith, bits, even))) (
              first_level-First skips m f (level + 1) (k / 2)
                (halve count k level (k / 2) c (omega (arith, even)))
                (omega (arith, even, some_left)) (omega (arith, even, fits, pow-succ' 2 m))
                (omega (arith, top)) (omega arith) (skips m level k even some_left v))
          | inr odd ↦ rw (first-stop f level (ground (arith, bits, odd))) (record {
            room = suc m;
            k = k;
            bits = c;
            odd = odd;
            fits = fits;
            top = top;
            kept = v;
          })
        ]

module _ (digest : Text → Text) (wanted : Bool) (t : Tree) where
  -- The walk that the sweep begins with.
  abbrev pub started : ℕ → Walk
  started level = record {
    h = get_or t.inner level null_hash;
    matched = is_at t.match_level level;
    level = level;
    mutated = t.mutated;
    branch = t.branch;
  }

  -- `P` is kept over the even levels, turns into `Q` at the first odd one, and `Q` is kept by the steps.
  pub sweep_rule :
      (P : ℕ → ℕ → ℕ → Type 0) (Q : ℕ → ℕ → Walk → Type 0)
      → ((m level k : ℕ) → k % 2 ≡ 0 → 0 < k → P (suc m) level k → P m (level + 1) (k / 2))
      → ((m level k : ℕ) → (k + 1) % 2 ≡ 1 → P m level (k + 1) → Q m k (started level))
      → ((m k : ℕ) (w : Walk)
          → k % 2 ≡ 1
          → Q (suc m) k w
          → Q m (k / 2) (rise_step digest wanted t.inner t.match_level w))
      → ((m k : ℕ) (w : Walk)
          → k % 2 ≡ 0
          → 0 < k
          → Q (suc m) k w
          → Q m (k / 2) (double_step digest wanted w))
      → 0 < t.count
      → t.count ≤ 2 ^ 31
      → P 31 0 t.count
      → (j : ℕ) × Q j 0 (sweep digest wanted t)
  unfolding sweep
  sweep_rule P Q skips start rises doubles some_left fits v =
      let level = first_level 32 t.count 0 in
      let first =
        first_level-First t.count P skips 31 32 0 t.count (omega arith) some_left fits refl
          (omega arith) v in
      let bits : t.count / 2 ^ level ≡ first.k =
        ap (λ (n : ℕ). n / 2 ^ level) first.bits ∙ shifted first.k level in
      let before : first.k ≡ (first.k - 1) + 1 = omega (arith, first.odd) in
      let stays =
        rise-stop digest wanted t.inner t.match_level 32 t.count (started level)
          (ground (arith, bits, first.odd)) in
      let found =
        carry_rule digest wanted t.inner t.match_level Q rises doubles first.room 32 32 t.count
          (first.k - 1) (started level) (first.bits ∙ ap (λ (n : ℕ). n * 2 ^ level) before)
          (omega (arith, before, first.fits)) first.top (omega (arith, first.top))
          (omega (arith, first.top))
          (start first.room level (first.k - 1) (omega (arith, before, first.odd))
            (subst (P first.room level) before first.kept)) in
      subst
        (λ (w : Walk).
          (j : ℕ) × Q j 0 (sweep_loop digest 32 t.count wanted t.inner t.match_level w))
        stays found
