-- ===== src/Hex.antt =====
-- common/utilstrencodings.h and common/utilstrencodings.cpp: `HexStr`, `ParseHex` and `IsHex`.
-- Characters and bytes are numbers below 256.
pub mod Back
mod Examples
use Prim.Native.Nat.{bit_or, bit_and}
use gen2_energiminer.Common.{
  ℕ, suc, ◌+◌, ◌-◌, ◌*◌, ◌/◌, ◌%◌, ◌^◌, Bool, true, false, ◌&&◌, ◌||◌, not, List, [], ◌∷◌, ◌++◌,
  Text, codes, Option, none, some, ltb, leb, ◌==◌, if◌then◌else◌, get_or, length,
}

-- `hexmap`.
abbrev pub hexmap : Text
hexmap = codes "0123456789abcdef"

-- `HexStr`; the flags say whether spaces are wanted and whether this byte is the first.
unfoldable pub hex_loop : Bool → Bool → List ℕ → Text
hex_loop spaces first [] = []
hex_loop spaces first (val ∷ rest) =
    (if spaces && not first then 32 ∷ [] else [])
    ++ get_or hexmap (val / 2 ^ 4) 0 ∷ get_or hexmap (bit_and val 15) 0 ∷ hex_loop spaces false rest

unfoldable pub hex_str : Bool → List ℕ → Text
unfolding hex_loop
hex_str spaces bytes = hex_loop spaces true bytes

-- `HexDigit`, where `none` is -1; the table is given by its three runs.
unfoldable pub hex_digit : ℕ → Option ℕ
hex_digit c =
    if leb b'0' c && leb c b'9'
    then some (c - b'0')
    else (if leb b'A' c && leb c b'F'
        then some (c - b'A' + 10)
        else (if leb b'a' c && leb c b'f' then some (c - b'a' + 10) else none))

-- `isspace`.
abbrev pub is_space : ℕ → Bool
is_space c = c == 32 || leb 9 c && leb c 13

-- The loop of `ParseHex`, with the first digit of a byte once it is read.
unfoldable pub parse_loop : Option ℕ → Text → List ℕ
unfolding hex_digit
parse_loop none [] = []
parse_loop none (c ∷ s) =
    if is_space c
    then parse_loop none s
    else elim (hex_digit c) [ none ↦ [] | some d ↦ parse_loop (some d) s ]
parse_loop (some d) [] = []
parse_loop (some d) (c ∷ s) = elim (hex_digit c) [
  | none ↦ []
  | some e ↦ bit_or (d * 2 ^ 4 % 2 ^ 8) e ∷ parse_loop none s
]

unfoldable pub parse_hex : Text → List ℕ
unfolding parse_loop
parse_hex s = parse_loop none s

unfoldable pub all_digits : Text → Bool
unfolding hex_digit
all_digits [] = true
all_digits (c ∷ s) = elim (hex_digit c) [ none ↦ false | some d ↦ true ] && all_digits s

-- `IsHex`.
unfoldable pub is_hex : Text → Bool
unfolding all_digits
is_hex s = all_digits s && ltb 0 (length s) && length s % 2 == 0
