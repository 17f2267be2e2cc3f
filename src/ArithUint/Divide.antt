-- ===== src/ArithUint/Divide.antt =====
-- primitives/arith_uint256.cpp: the shifts, `bits`, division, and the compact form of a target.
use Prim.Native.Nat.{Ordering, bit_and, bit_or}
use gen2_energiminer.Common.{
  ℕ, zero, suc, ◌+◌, ◌-◌, ◌*◌, ◌/◌, ◌%◌, ◌^◌, Bool, true, false, ◌&&◌, ◌||◌, not, List, [], ◌∷◌,
  Option, none, some, u32, ltb, leb, ◌==◌, if◌then◌else◌, get_or, set, replicate, length,
}
use gen2_energiminer.ArithUint.{subtract, compare_to, scale, from_u64, low64}

-- `pn[j] |= x`.
unfoldable pub or_into : ℕ → ℕ → List ℕ → List ℕ
or_into j x pn = set pn j (bit_or (get_or pn j 0) x)

-- The loop of `<<=` from `i` on, `k` whole words and `s` bits; `a` is the copy of the operand.
unfoldable pub shift_left_loop : ℕ → ℕ → ℕ → ℕ → List ℕ → List ℕ → List ℕ
unfolding or_into
shift_left_loop zero i k s a pn = pn
shift_left_loop (suc left) i k s a pn =
    let w = length pn in
    let x = get_or a i 0 in
    let high =
      if ltb (i + k + 1) w && not (s == 0) then or_into (i + k + 1) (x / 2 ^ (32 - s)) pn else pn in
    let low = if ltb (i + k) w then or_into (i + k) (u32 (x * 2 ^ s)) high else high in
    shift_left_loop left (i + 1) k s a low

unfoldable pub shift_left : List ℕ → ℕ → List ℕ
unfolding shift_left_loop
shift_left a n = shift_left_loop (length a) 0 (n / 32) (n % 32) a (replicate (length a) 0)

-- The loop of `>>=`; `i - k - 1 >= 0` is a comparison of signed numbers.
unfoldable pub shift_right_loop : ℕ → ℕ → ℕ → ℕ → List ℕ → List ℕ → List ℕ
unfolding or_into
shift_right_loop zero i k s a pn = pn
shift_right_loop (suc left) i k s a pn =
    let x = get_or a i 0 in
    let low =
      if leb (k + 1) i && not (s == 0)
      then or_into (i - k - 1) (u32 (x * 2 ^ (32 - s))) pn
      else pn in
    let high = if leb k i then or_into (i - k) (x / 2 ^ s) low else low in
    shift_right_loop left (i + 1) k s a high

unfoldable pub shift_right : List ℕ → ℕ → List ℕ
unfolding shift_right_loop
shift_right a n = shift_right_loop (length a) 0 (n / 32) (n % 32) a (replicate (length a) 0)

-- The inner loop of `bits`, from bit `b` down to bit 1.
unfoldable pub top_bit : ℕ → ℕ → ℕ
top_bit zero x = 1
top_bit (suc b) x = let rest = top_bit b x in if bit_and x (2 ^ suc b) == 0 then rest else suc b + 1

-- The outer loop of `bits`, over the words below `pos`.
unfoldable pub bits_loop : ℕ → List ℕ → ℕ
unfolding top_bit
bits_loop zero xs = 0
bits_loop (suc pos) xs =
    let rest = bits_loop pos xs in
    if get_or xs pos 0 == 0 then rest else 32 * pos + top_bit 31 (get_or xs pos 0)

unfoldable pub bits : List ℕ → ℕ
unfolding bits_loop
bits xs = bits_loop (length xs) xs

-- `num >= div`.
unfoldable pub at_least : List ℕ → List ℕ → Bool
unfolding compare_to
at_least xs ys = elim (compare_to xs ys) [ Ordering.lt ↦ false | _ ↦ true ]

-- The loop of `/=`, with `shift + 1` rounds left; the last argument is the quotient.
unfoldable pub divide_loop : ℕ → List ℕ → List ℕ → List ℕ → List ℕ
unfolding at_least subtract shift_right or_into
divide_loop zero num div q = q
divide_loop (suc shift) num div q =
    let fits = at_least num div in
    divide_loop shift (if fits then subtract num div else num) (shift_right div 1)
      (if fits then or_into (shift / 32) (2 ^ (shift % 32)) q else q)

-- `operator/=`; `none` is the exception "Division by zero".
unfoldable pub divide : List ℕ → List ℕ → Option (List ℕ)
unfolding divide_loop bits shift_left
divide num div =
    let q = replicate (length num) 0 in
    if bits div == 0
    then none
    else (if ltb (bits num) (bits div)
        then some q
        else some
            (divide_loop (suc (bits num - bits div)) num (shift_left div (bits num - bits div)) q))

pub record Compact : Type 0 where
  pub target : List ℕ
  pub negative : Bool
  pub overflow : Bool

-- `SetCompact` of the 256-bit number, with both of its flags.
unfoldable pub set_compact : ℕ → Compact
unfolding shift_left from_u64
set_compact c =
    let size = c / 2 ^ 24 in
    let mantissa = bit_and c 0x007fffff in
    let word = if leb size 3 then mantissa / 2 ^ (8 * (3 - size)) else mantissa in
    record {
      target =
          if leb size 3 then from_u64 8 word else shift_left (from_u64 8 word) (8 * (size - 3));
      negative = not (word == 0) && not (bit_and c 0x00800000 == 0);
      overflow =
          not (word == 0)
          && (ltb 34 size || ltb 0xff word && ltb 33 size || ltb 0xffff word && ltb 32 size);
    }

-- `GetCompact`; `none` is a failed assertion.
unfoldable pub get_compact : List ℕ → Bool → Option ℕ
unfolding bits shift_right low64
get_compact xs negative =
    let size = (bits xs + 7) / 8 in
    let c =
      if leb size 3
      then u32 (low64 xs * 2 ^ (8 * (3 - size)))
      else u32 (low64 (shift_right xs (8 * (size - 3)))) in
    let carries = not (bit_and c 0x00800000 == 0) in
    let c' = if carries then c / 2 ^ 8 else c in
    let size' = if carries then size + 1 else size in
    if c' == bit_and c' 0x007fffff && ltb size' 256
    then (let packed = bit_or c' (u32 (size' * 2 ^ 24)) in
        some (
          bit_or packed
            (if negative && not (bit_and packed 0x007fffff == 0) then 0x00800000 else 0)))
    else none

-- `DIFF1_TARGET`.
abbrev pub diff1_target : List ℕ
diff1_target = 0 ∷ 0 ∷ 0 ∷ 0 ∷ 0 ∷ 0 ∷ 0xffff0000 ∷ 0 ∷ []

-- protocol/stratum/StratumClient.cpp: `diffToTarget`, of the difficulty times `DIFF_MULT`.
unfoldable pub diff_to_target : ℕ → Option (List ℕ)
unfolding divide scale from_u64
diff_to_target mdiff = elim (divide diff1_target (from_u64 8 mdiff)) [
  | none ↦ none
  | some q ↦ some (scale q 100000)
]
