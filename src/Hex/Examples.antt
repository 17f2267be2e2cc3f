-- ===== src/Hex/Examples.antt =====
-- common/utilstrencodings.cpp on three bytes.
use gen2_energiminer.Common.{◌≡◌, refl, true, [], ◌∷◌, codes, arith}
use gen2_energiminer.Hex.{hex_str, parse_hex, is_hex, hex_loop, parse_loop, hex_digit, all_digits}
use gen2_energiminer.Hex.Back.{parse_hex-hex_str}

hex_str_runs : hex_str true (0x0f ∷ 0xa0 ∷ 7 ∷ []) ≡ codes "0f a0 07"
unfolding hex_str hex_loop
hex_str_runs = refl

is_hex_runs : is_hex (codes "0fa0") ≡ true
unfolding is_hex all_digits hex_digit
is_hex_runs = refl

-- An odd digit at the end is dropped.
parse_hex_runs : parse_hex (codes " 0fA") ≡ 0x0f ∷ []
unfolding parse_hex parse_loop hex_digit
parse_hex_runs = refl

parse_hex-hex_str_example : parse_hex (hex_str true (0x0f ∷ 0xa0 ∷ 7 ∷ [])) ≡ 0x0f ∷ 0xa0 ∷ 7 ∷ []
parse_hex-hex_str_example =
    parse_hex-hex_str true (0x0f ∷ 0xa0 ∷ 7 ∷ []) (omega arith, (omega arith, (omega arith, tt)))
