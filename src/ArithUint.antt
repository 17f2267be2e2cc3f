-- ===== src/ArithUint.antt =====
-- primitives/arith_uint256.h and primitives/arith_uint256.cpp: `base_uint<BITS>`.
-- The array `pn` of `WIDTH` words is a list, lowest word first; a loop over `i` from 0 is a
-- recursion on the list, and a 64-bit intermediate keeps its wrap-around.
pub mod Value
pub mod Sum
pub mod Product
pub mod Order
pub mod Equal
pub mod Divide
pub mod Modulus
pub mod OrInto
pub mod LeftWord
pub mod ShiftLeft
pub mod RightWord
pub mod ShiftRight
pub mod Length
pub mod QuotientBit
pub mod QuotientLoop
pub mod Quotient
pub mod Compact
pub mod Leading
pub mod Packing
pub mod Compress
pub mod Difficulty
mod Examples
use gen2_energiminer.Common.{
  ℕ, zero, suc, ◌+◌, ◌-◌, ◌*◌, ◌/◌, ◌%◌, ◌^◌, Bool, true, ◌&&◌, List, [], ◌∷◌, map, u32, u64, ltb,
  ◌==◌, if◌then◌else◌, get_or, set, replicate, length,
}
use Prim.Native.Nat.{Ordering, bit_or}

-- The constructor from `uint64_t`, for `WIDTH` words.
pub from_u64 : ℕ → ℕ → List ℕ
from_u64 zero b = []
from_u64 (suc zero) b = u32 b ∷ []
from_u64 (suc (suc w)) b = u32 b ∷ u32 (b / 2 ^ 32) ∷ replicate w 0

-- `operator!`.
pub is_zero : List ℕ → Bool
is_zero [] = true
is_zero (x ∷ xs) = x == 0 && is_zero xs

-- `operator~`.
pub complement : List ℕ → List ℕ
complement = map (λ x. 2 ^ 32 - 1 - x)

-- Prefix `operator++`: go on to the next word while the incremented one has wrapped to 0.
pub increment : List ℕ → List ℕ
increment [] = []
increment (x ∷ xs) = let y = u32 (x + 1) in if y == 0 then y ∷ increment xs else y ∷ xs

-- Prefix `operator--`: go on while the decremented word has wrapped to 2 ^ 32 - 1.
pub decrement : List ℕ → List ℕ
decrement [] = []
decrement (x ∷ xs) =
    let y = u32 (x + 2 ^ 32 - 1) in if y == 2 ^ 32 - 1 then y ∷ decrement xs else y ∷ xs

-- Unary `operator-`.
pub negate : List ℕ → List ℕ
unfolding complement increment
negate xs = increment (complement xs)

-- The loop of `operator+=`.
pub add_loop : ℕ → List ℕ → List ℕ → List ℕ
add_loop carry [] ys = []
add_loop carry (x ∷ xs) [] = []
add_loop carry (x ∷ xs) (y ∷ ys) =
    let n = u64 (carry + x + y) in n % 2 ^ 32 ∷ add_loop (n / 2 ^ 32) xs ys

pub add : List ℕ → List ℕ → List ℕ
unfolding add_loop
add xs ys = add_loop 0 xs ys

pub subtract : List ℕ → List ℕ → List ℕ
unfolding add negate
subtract xs ys = add xs (negate ys)

-- The loop of `operator*=(uint32_t)`.
pub scale_loop : ℕ → ℕ → List ℕ → List ℕ
scale_loop carry b [] = []
scale_loop carry b (x ∷ xs) =
    let n = u64 (carry + b * x) in n % 2 ^ 32 ∷ scale_loop (n / 2 ^ 32) b xs

pub scale : List ℕ → ℕ → List ℕ
unfolding scale_loop
scale xs b = scale_loop 0 b xs

-- The inner loop of `operator*=`, over the words of the result from `j` up: it ends with them, so
-- it leaves out the words of `b` that `i + j < WIDTH` leaves out.
pub row_loop : ℕ → ℕ → List ℕ → List ℕ → List ℕ
row_loop carry a [] bs = []
row_loop carry a (p ∷ ps) [] = p ∷ ps
row_loop carry a (p ∷ ps) (b ∷ bs) =
    let n = u64 (carry + p + a * b) in n % 2 ^ 32 ∷ row_loop (n / 2 ^ 32) a ps bs

-- Keeps the lowest word, and goes on with the others.
settle : (List ℕ → List ℕ) → List ℕ → List ℕ
settle rest [] = []
settle rest (q ∷ qs) = q ∷ rest qs

-- The outer loop: a round at `j` settles the word `j` of the result.
pub multiply_loop : List ℕ → List ℕ → List ℕ → List ℕ
multiply_loop bs [] ps = ps
multiply_loop bs (a ∷ rest) ps = settle (multiply_loop bs rest) (row_loop 0 a ps bs)

pub multiply : List ℕ → List ℕ → List ℕ
unfolding multiply_loop row_loop settle
multiply xs bs = multiply_loop bs xs (replicate (length xs) 0)

-- `x *= x`: `b` is the object itself, whose array `pn` the loops read and write. The inner loop for
-- the word `a` of the copy, from `i` on.
pub square_row : ℕ → ℕ → ℕ → ℕ → ℕ → List ℕ → List ℕ
square_row zero i j carry a pn = pn
square_row (suc left) i j carry a pn =
    let n = u64 (carry + get_or pn (i + j) 0 + a * get_or pn i 0) in
    square_row left (i + 1) j (n / 2 ^ 32) a (set pn (i + j) (u32 n))

-- The outer loop from `j` on, over the words of the copy.
pub square_loop : List ℕ → ℕ → List ℕ → List ℕ
unfolding square_row
square_loop [] j pn = pn
square_loop (a ∷ rest) j pn = square_loop rest (j + 1) (square_row (length pn - j) 0 j 0 a pn)

-- The copy is made, and then the object is set to 0.
pub multiply_in_place : List ℕ → List ℕ
unfolding square_loop
multiply_in_place xs = square_loop xs 0 (replicate (length xs) 0)

-- `CompareTo`, from the word `i - 1` down.
pub compare_loop : ℕ → List ℕ → List ℕ → Ordering
compare_loop zero xs ys = Ordering.eq
compare_loop (suc i) xs ys =
    let rest = compare_loop i xs ys in
    if ltb (get_or xs i 0) (get_or ys i 0)
    then Ordering.lt
    else (if ltb (get_or ys i 0) (get_or xs i 0) then Ordering.gt else rest)

pub compare_to : List ℕ → List ℕ → Ordering
unfolding compare_loop
compare_to xs ys = compare_loop (length xs) xs ys

-- The loop of `EqualTo` over the words from `i + 1` down to 2.
pub high_zero : ℕ → List ℕ → Bool
high_zero zero xs = true
high_zero (suc i) xs = get_or xs (i + 2) 0 == 0 && high_zero i xs

pub equal_to : List ℕ → ℕ → Bool
unfolding high_zero
equal_to xs b =
    high_zero (length xs - 2) xs && get_or xs 1 0 == b / 2 ^ 32 && get_or xs 0 0 == b % 2 ^ 32

-- `GetLow64`.
pub low64 : List ℕ → ℕ
low64 xs = bit_or (get_or xs 0 0) (u64 (get_or xs 1 0 * 2 ^ 32))
