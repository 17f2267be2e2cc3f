-- ===== src/ArithUint/Examples.antt =====
-- primitives/arith_uint256.cpp on concrete numbers.
use gen2_energiminer.Common.{
  true, ℕ, ◌-◌, ◌/◌, ◌%◌, ◌<◌, ◌⊎◌, none, ◌+◌, ◌*◌, ◌^◌, ◌≡◌, refl, List, [], ◌∷◌, some, arith,
  false,
}
use Prim.Native.Nat.{Ordering}
use gen2_energiminer.ArithUint.{equal_to, multiply, multiply_in_place, compare_to}
use gen2_energiminer.ArithUint.Value.{value, Words, modulus}
use gen2_energiminer.ArithUint.Product.{value-multiply, value-multiply_in_place}
use gen2_energiminer.ArithUint.Order.{compare_to-value}
use gen2_energiminer.ArithUint.Equal.{equal_to-value}
use gen2_energiminer.ArithUint.Quotient.{divide-value}
use gen2_energiminer.ArithUint.Difficulty.{diff1, value-diff_to_target}
use gen2_energiminer.ArithUint.Compress.{ReadsBack, get_compact-ReadsBack}
use gen2_energiminer.ArithUint.Compact.{denoted, Decided, value-set_compact}
use gen2_energiminer.ArithUint.Divide.{set_compact, get_compact, divide, diff_to_target}

-- 2 ^ 32 + 7, as two words.
abbrev seven_one : List ℕ
seven_one = 7 ∷ 1 ∷ []

-- 2 ^ 64 - 1.
abbrev largest : List ℕ
largest = 0xffffffff ∷ 0xffffffff ∷ []

seven_one-Words : Words 2 seven_one
seven_one-Words = (omega arith, (omega arith, tt))

largest-Words : Words 2 largest
largest-Words = (omega arith, (omega arith, tt))

value-multiply_example : value (multiply seven_one seven_one) ≡ 14 * 2 ^ 32 + 49
value-multiply_example = value-multiply 2 seven_one seven_one seven_one-Words seven_one-Words

value-multiply_in_place_example : value (multiply_in_place seven_one) ≡ 0
value-multiply_in_place_example = value-multiply_in_place 2 seven_one seven_one-Words

compare_to-value_example : compare_to seven_one largest ≡ Ordering.lt
compare_to-value_example = compare_to-value 2 seven_one largest seven_one-Words largest-Words

divide-value_example :
    ((2 ^ 32 + 7 ≡ 0) × (divide largest seven_one ≡ none))
    ⊎ ((0 < 2 ^ 32 + 7)
        × ((q : List ℕ) × (divide largest seven_one ≡ some q)
            × Words 2 q
            × (value q ≡ (2 ^ 64 - 1) / (2 ^ 32 + 7))))
divide-value_example = divide-value 2 largest seven_one largest-Words seven_one-Words

-- 0x1b0404cb is the compact form of 0x404cb * 2 ^ (8 * 24), as a well-known target has it.
set_compact_runs : (set_compact 0x1b0404cb).target ≡ 0 ∷ 0 ∷ 0 ∷ 0 ∷ 0 ∷ 0 ∷ 0x000404cb ∷ 0 ∷ []
unfolding set_compact
set_compact_runs = refl

get_compact_runs : get_compact (0 ∷ 0 ∷ 0 ∷ 0 ∷ 0 ∷ 0 ∷ 0x000404cb ∷ 0 ∷ []) false ≡ some 0x1b0404cb
unfolding get_compact
get_compact_runs = refl

divide_runs : divide (7 ∷ 0 ∷ 5 ∷ []) (3 ∷ 0 ∷ 0 ∷ []) ≡ some (2863311533 ∷ 2863311530 ∷ 1 ∷ [])
unfolding divide
divide_runs = refl

value-set_compact_example :
    Words 8 (set_compact 0x1b0404cb).target
    × (value (set_compact 0x1b0404cb).target ≡ denoted 0x0404cb 0x1b % modulus 8)
    × Decided (set_compact 0x1b0404cb).overflow (denoted 0x0404cb 0x1b)
value-set_compact_example = value-set_compact 0x1b0404cb

-- The target of 0x1b0404cb, with bits below those that are kept.
abbrev fine_target : List ℕ
fine_target = 5 ∷ 0 ∷ 0 ∷ 0 ∷ 0 ∷ 0 ∷ 0x000404cb ∷ 0 ∷ []

fine_target-Words : Words 8 fine_target
fine_target-Words = (
  omega arith,
  (
    omega arith,
    (omega arith, (omega arith, (omega arith, (omega arith, (omega arith, (omega arith, tt)))))),
  ),
)

get_compact-ReadsBack_example :
    (c : ℕ) × (get_compact fine_target false ≡ some c) × ReadsBack c (value fine_target)
get_compact-ReadsBack_example = get_compact-ReadsBack fine_target false fine_target-Words

-- The difficulty 1, times 100000.
abbrev unit_difficulty : ℕ
unit_difficulty = 100000

value-diff_to_target_example :
    ((unit_difficulty ≡ 0) × (diff_to_target unit_difficulty ≡ none))
    ⊎ ((0 < unit_difficulty)
        × ((t : List ℕ) × (diff_to_target unit_difficulty ≡ some t)
            × (value t ≡ diff1 / unit_difficulty * 100000)))
value-diff_to_target_example = value-diff_to_target unit_difficulty (omega arith)

equal_to-value_example : equal_to seven_one 0x100000007 ≡ true
equal_to-value_example =
    equal_to-value 2 seven_one 0x100000007 (omega arith) seven_one-Words (omega arith)
