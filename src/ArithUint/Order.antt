-- ===== src/ArithUint/Order.antt =====
-- primitives/arith_uint256.cpp: what `CompareTo` of `base_uint` decides.
use gen2_energiminer.Common.{ℕ, zero, suc, ◌≡◌, refl, List, [], ◌∷◌, arith}
use Prim.Native.Nat.{Ordering, compare}
use gen2_energiminer.ArithUint.{compare_loop, compare_to}
use gen2_energiminer.ArithUint.Value.{value, Words, length-Words}

-- The loop seen from the lowest word, which decides last.
compare_loop-suc :
    (i x y : ℕ) (xs ys : List ℕ)
    → compare_loop (suc i) (x ∷ xs) (y ∷ ys)
      ≡ elim (compare_loop i xs ys) [ Ordering.eq ↦ compare x y | o ↦ o ]
unfolding compare_loop
compare_loop-suc zero x y xs ys = ground arith
compare_loop-suc (suc i) x y xs ys = ground (arith, compare_loop-suc i x y xs ys)

compare_loop-value :
    (w : ℕ) (xs ys : List ℕ)
    → Words w xs
    → Words w ys
    → compare_loop w xs ys ≡ compare (value xs) (value ys)
compare_loop-value zero [] [] hx hy = unfold compare_loop in refl
compare_loop-value zero (x ∷ xs) ys hx hy = absurd hx
compare_loop-value zero [] (y ∷ ys) hx hy = absurd hy
compare_loop-value (suc w) [] ys hx hy = absurd hx
compare_loop-value (suc w) (x ∷ xs) [] hx hy = absurd hy
compare_loop-value (suc w) (x ∷ xs) (y ∷ ys) hx hy =
    rw (compare_loop-suc w x y xs ys, compare_loop-value w xs ys hx.1 hy.1) (ground arith)

-- `CompareTo` orders two arrays of `w` words as the numbers that they stand for.
pub compare_to-value :
    (w : ℕ) (xs ys : List ℕ)
    → Words w xs
    → Words w ys
    → compare_to xs ys ≡ compare (value xs) (value ys)
unfolding compare_to
compare_to-value w xs ys hx hy = rw (length-Words w xs hx) (compare_loop-value w xs ys hx hy)
