-- ===== src/PoolUri/Constructor.antt =====
-- protocol/PoolURI.cpp: the constructor `URI::URI`, part by part. Each part is given the text from
-- its place on, and an early return leaves the members as they are. `junk` is the value that the
-- uninitialised variable of `urlDecode` has.
use gen2_energiminer.Common.{
  ℕ, ◌+◌, ◌-◌, ◌*◌, ◌%◌, ◌^◌, Bool, true, false, ◌&&◌, ◌||◌, not, [], ◌∷◌, map, Text, ltb, ◌==◌,
  if◌then◌else◌, drop,
}
use gen2_energiminer.PoolUri.{Uri}
use gen2_energiminer.PoolUri.Parse.{
  span, any, is_digit, is_upper, is_lower, skip_spaces, read_sign, url_decode,
}

abbrev pub starts_with : ℕ → Text → Bool
starts_with c s = elim s [ [] ↦ false | d ∷ t ↦ d == c ]

abbrev pub is_one : ℕ → ℕ → Bool
is_one a c = c == a

abbrev pub is_either : ℕ → ℕ → ℕ → Bool
is_either a b c = c == a || c == b

-- The decimal digits at the front, after those that were read as `n`.
unfoldable pub decimal_digits : ℕ → Text → ℕ
decimal_digits n [] = n
decimal_digits n (c ∷ s) =
    let rest = decimal_digits (10 * n + (c - b'0')) s in if is_digit c then rest else n

abbrev pub starts_digit : Text → Bool
starts_digit s = elim s [ [] ↦ false | c ∷ t ↦ is_digit c ]

-- `ss >> m_port` of an `unsigned short`: the value, and whether it was read.
unfoldable pub scan_port : Text → ℕ × Bool
unfolding skip_spaces read_sign decimal_digits
scan_port s =
    let (minus, t) = read_sign (skip_spaces s) in
    let n = decimal_digits 0 t in
    if starts_digit t
    then (if ltb 65535 n
        then (65535, false)
        else (if minus then (2 ^ 16 - n) % 2 ^ 16 else n, true))
    else (0, false)

unfoldable pub read_fragment : ℕ → Text → Uri → Uri
unfolding url_decode
read_fragment junk s u =
    if starts_with b'#' s
    then record u { fragment = url_decode junk (drop 1 s); valid = true }
    else record u { valid = true }

unfoldable pub read_query : ℕ → Text → Uri → Uri
unfolding url_decode span read_fragment
read_query junk s u =
    let (q, rest) = span (is_one b'#') (drop 1 s) in
    if starts_with b'?' s
    then read_fragment junk rest (record u { query = url_decode junk q })
    else read_fragment junk s u

unfoldable pub read_path : ℕ → Text → Uri → Uri
unfolding url_decode span read_query
read_path junk s u =
    let (p, rest) = span (is_either b'#' b'?') s in
    read_query junk rest
      (elim p [ [] ↦ u | c ∷ t ↦ record u { path = url_decode junk (b'/' ∷ c ∷ t) } ])

-- "End of the string", or the path.
unfoldable pub after_port : ℕ → Text → Uri → Uri
unfolding read_path
after_port junk [] u = record u { valid = true }
after_port junk (c ∷ s) u = if c == b'/' then read_path junk s u else u

unfoldable pub read_port : ℕ → Text → Uri → Uri
unfolding span scan_port after_port
read_port junk s u =
    let (t, rest) = span (is_one b'/') s in
    let (port, read) = scan_port t in
    let u' = record u { port = port } in if read then after_port junk rest u' else u'

-- An IPv6 address up to its bracket, that one included.
unfoldable pub span_bracket : Text → Text × Text
span_bracket [] = ([], [])
span_bracket (c ∷ s) = let (a, b) = span_bracket s in if c == b']' then (c ∷ [], s) else (c ∷ a, b)

abbrev pub span_host : Text → Text × Text
span_host s = if starts_with b'[' s then span_bracket s else span (is_either b':' b'/') s

unfoldable pub read_host : ℕ → Text → Uri → Uri
unfolding span span_bracket url_decode read_port after_port
read_host junk s u =
    let (h, rest) = span_host s in
    let u' = record u { host = url_decode junk h } in
    if starts_with b':' rest then read_port junk (drop 1 rest) u' else after_port junk rest u'

-- `userpass_flag`: whether an `@` comes before a `/`.
unfoldable pub has_userpass : Text → Bool
has_userpass [] = false
has_userpass (c ∷ s) =
    let rest = has_userpass s in if c == b'@' then true else (if c == b'/' then false else rest)

abbrev pub read_at : ℕ → Text → Uri → Uri
read_at junk s u = if starts_with b'@' s then read_host junk (drop 1 s) u else u

unfoldable pub read_user : ℕ → Text → Uri → Uri
unfolding span url_decode read_host
read_user junk s u =
    let (name, rest) = span (is_either b':' b'@') s in
    let u' = record u { username = url_decode junk name } in
    let (pass, after) = span (is_one b'@') (drop 1 rest) in
    if starts_with b':' rest
    then read_at junk after (record u' { password = url_decode junk pass })
    else read_at junk rest u'

unfoldable pub after_slashes : ℕ → Text → Uri → Uri
unfolding has_userpass read_user read_host
after_slashes junk s u = if has_userpass s then read_user junk s u else read_host junk s u

abbrev pub to_lower : ℕ → ℕ
to_lower c = if is_upper c then c + 32 else c

abbrev pub is_scheme_char : ℕ → Bool
is_scheme_char c = is_lower c || is_upper c || is_digit c || c == b'+' || c == b'-' || c == b'.'

abbrev pub blank : Text → Uri
blank s = record {
  scheme = [];
  host = [];
  path = [];
  query = [];
  fragment = [];
  username = [];
  password = [];
  uri = s;
  stratum_mode = 999;
  port = 0;
  valid = false;
  stratum_mode_confirmed = false;
  unrecoverable = false;
}

-- `c_str` as the pointers of the constructor read it: up to the first NUL.
unfoldable pub c_string : Text → Text
c_string [] = []
c_string (c ∷ s) = let rest = c_string s in if c == 0 then [] else c ∷ rest

-- `URI::URI`.
unfoldable pub new_uri : ℕ → Text → Uri
unfolding span any after_slashes c_string
new_uri junk s =
    let (written, rest) = span (is_one b':') (c_string s) in
    let scheme = map to_lower written in
    let u = record (blank s) { scheme = scheme } in
    if not (starts_with b':' rest)
    then blank s
    else (if any (λ c. not (is_scheme_char c)) scheme
        then u
        else (if starts_with b'/' (drop 1 rest) && starts_with b'/' (drop 2 rest)
            then after_slashes junk (drop 3 rest) u
            else u))
