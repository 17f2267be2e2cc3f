-- ===== src/PoolUri/Parse.antt =====
-- protocol/PoolURI.cpp: `urlDecode` and the constructor of `URI`, on the text up to its end.
use gen2_energiminer.Common.{
  ℕ, zero, suc, ◌+◌, ◌-◌, ◌*◌, ◌%◌, ◌^◌, Bool, true, false, ◌&&◌, ◌||◌, not, [], ◌∷◌, Text, Option,
  none, some, leb, ◌==◌, if◌then◌else◌, take,
}

abbrev pub between : ℕ → ℕ → ℕ → Bool
between a b c = leb a c && leb c b

abbrev pub is_digit : ℕ → Bool
is_digit c = between b'0' b'9' c

abbrev pub is_upper : ℕ → Bool
is_upper c = between b'A' b'Z' c

abbrev pub is_lower : ℕ → Bool
is_lower c = between b'a' b'z' c

-- `isspace`.
abbrev pub is_space : ℕ → Bool
is_space c = c == 32 || between 9 13 c

-- The text before the first character that stops, and the rest from that one on.
unfoldable pub span : (ℕ → Bool) → Text → Text × Text
span stops [] = ([], [])
span stops (c ∷ s) = let (a, b) = span stops s in if stops c then ([], c ∷ s) else (c ∷ a, b)

unfoldable pub any : (ℕ → Bool) → Text → Bool
any test [] = false
any test (c ∷ s) = test c || any test s

unfoldable pub skip_spaces : Text → Text
skip_spaces [] = []
skip_spaces (c ∷ s) = let rest = skip_spaces s in if is_space c then rest else c ∷ s

-- An optional sign: whether it is a minus, and what follows it.
unfoldable pub read_sign : Text → Bool × Text
read_sign [] = (false, [])
read_sign (c ∷ s) =
    if c == b'-' then (true, s) else (if c == b'+' then (false, s) else (false, c ∷ s))

abbrev pub hex_digit : ℕ → Option ℕ
hex_digit c =
    if is_digit c
    then some (c - b'0')
    else (if between b'a' b'f' c
        then some (c - b'a' + 10)
        else (if between b'A' b'F' c then some (c - b'A' + 10) else none))

-- The hexadecimal digits at the front, after those that were read as `n`.
unfoldable pub hex_digits : ℕ → Text → ℕ
hex_digits n [] = n
hex_digits n (c ∷ s) = elim (hex_digit c) [ none ↦ n | some d ↦ hex_digits (16 * n + d) s ]

abbrev pub starts_hex : Text → Bool
starts_hex s = elim s [ [] ↦ false | c ∷ t ↦ elim (hex_digit c) [ none ↦ false | some d ↦ true ] ]

-- Two characters "0x" are the beginning of a number that never comes.
abbrev pub is_prefix : Text → Bool
is_prefix s = elim s [
  | [] ↦ false
  | a ∷ t ↦ elim t [ [] ↦ false | b ∷ u ↦ a == b'0' && (b == b'x' || b == b'X') ]
]

-- `sscanf(s, "%x", &ii)` of at most two characters, for the value that `ii` had: without a number
-- `ii` keeps it.
unfoldable pub scan_hex : ℕ → Text → ℕ
unfolding skip_spaces read_sign hex_digits
scan_hex ii s =
    let (minus, t) = read_sign (skip_spaces s) in
    let n = hex_digits 0 t in
    if starts_hex t && not (is_prefix t) then (if minus then (2 ^ 32 - n) % 2 ^ 32 else n) else ii

-- One character of `urlDecode`: the new value of `ii`, how many of the next ones are left out, and
-- the character put out.
abbrev pub decode_step : ℕ → ℕ → Text → ℕ × ℕ × ℕ
decode_step ii c s =
    if c == b'%'
    then (scan_hex ii (take 2 s), 2, scan_hex ii (take 2 s) % 2 ^ 8)
    else (ii, 0, if c == b'+' then 32 else c)

-- The loop of `urlDecode`, for the value that `ii` has; at the first `%` that is that of an
-- uninitialised variable.
unfoldable pub decode_loop : ℕ → ℕ → Text → Text
unfolding scan_hex
decode_loop ii skipped [] = []
decode_loop ii (suc k) (c ∷ s) = decode_loop ii k s
decode_loop ii zero (c ∷ s) =
    let (jj, skipped, out) = decode_step ii c s in out ∷ decode_loop jj skipped s

unfoldable pub url_decode : ℕ → Text → Text
unfolding decode_loop
url_decode junk s = decode_loop junk 0 s
