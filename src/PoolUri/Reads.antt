-- ===== src/PoolUri/Reads.antt =====
-- protocol/PoolURI.cpp: what the scans and loops of the constructor do with characters that have no
-- meaning in an endpoint.
use gen2_energiminer.Common.{
  ℕ, suc, ◌+◌, ◌-◌, ◌*◌, ◌^◌, ◌≤◌, ◌<◌, ◌≡◌, refl, Bool, true, false, ◌||◌, not, [], ◌∷◌, ◌++◌, map,
  Text, length, ◌==◌, arith, sym, ap, ap₂, ◌∙◌, ltb,
}
use native.Mathlib.Nat.{pow-succ'}
use gen2_energiminer.PoolUri.Parse.{
  span, any, is_digit, is_space, is_lower, skip_spaces, read_sign, url_decode, decode_loop,
}
use gen2_energiminer.PoolUri.Constructor.{
  c_string, decimal_digits, scan_port, has_userpass, to_lower, is_scheme_char,
}

-- Each character passes the test.
abbrev pub Every : (ℕ → Bool) → Text → Type 0
Every test [] = Unit {0}
Every test (c ∷ s) = (test c ≡ true) × Every test s

-- A character that has no meaning in an endpoint, and does not end it.
abbrev pub is_plain : ℕ → Bool
is_plain c =
    not (c == b':' || c == b'@' || c == b'/' || c == b'%' || c == b'+' || c == b'[' || c == 0)

-- The number that decimal digits are written for.
abbrev pub number : Text → ℕ
number [] = 0
number (c ∷ s) = (c - b'0') * 10 ^ length s + number s

pub Every-weaken :
    (p q : ℕ → Bool) (s : Text) → ((c : ℕ) → p c ≡ true → q c ≡ true) → Every p s → Every q s
Every-weaken p q [] f h = tt
Every-weaken p q (c ∷ s) f h = (f c h.0, Every-weaken p q s f h.1)

-- The tests that such a character does not pass.
pub plain_char :
    (c : ℕ)
    → is_plain c ≡ true
    → ((c == b':') ≡ false)
      × ((c == b'@') ≡ false)
      × ((c == b'/') ≡ false)
      × ((c == b'%') ≡ false)
      × ((c == b'+') ≡ false)
      × ((c == b'[') ≡ false)
plain_char c h = ground arith

-- A text in front without NUL is read whole.
pub c_string_front :
    (s rest : Text) → Every (λ c. not (c == 0)) s → c_string (s ++ rest) ≡ s ++ c_string rest
unfolding c_string
c_string_front [] rest h = refl
c_string_front (c ∷ s) rest h =
    let no : (c == 0) ≡ false = ground (arith, h.0) in
    rw no (ap (λ t. c ∷ t) (c_string_front s rest h.1))

pub c_string_plain : (s rest : Text) → Every is_plain s → c_string (s ++ rest) ≡ s ++ c_string rest
c_string_plain s rest h =
    c_string_front s rest (Every-weaken is_plain (λ c. not (c == 0)) s (λ c e. ground (arith, e)) h)

pub lower_char : (c : ℕ) → is_lower c ≡ true → (to_lower c ≡ c) × (is_scheme_char c ≡ true)
lower_char c h = ground arith

pub span_stop :
    (stops : ℕ → Bool) (s rest : Text) (c : ℕ)
    → Every (λ d. not (stops d)) s
    → stops c ≡ true
    → span stops (s ++ c ∷ rest) ≡ (s, c ∷ rest)
unfolding span
span_stop stops [] rest c h e = rw e refl
span_stop stops (d ∷ s) rest c h e =
    let no : stops d ≡ false = ground (arith, h.0) in rw (no, span_stop stops s rest c h.1 e) refl

pub span_end : (stops : ℕ → Bool) (s : Text) → Every (λ d. not (stops d)) s → span stops s ≡ (s, [])
unfolding span
span_end stops [] h = refl
span_end stops (d ∷ s) h =
    let no : stops d ≡ false = ground (arith, h.0) in rw (no, span_end stops s h.1) refl

pub decode_plain : (junk : ℕ) (s : Text) → Every is_plain s → url_decode junk s ≡ s
unfolding url_decode decode_loop
decode_plain junk [] h = refl
decode_plain junk (c ∷ s) h =
    let (_, _, _, percent, plus, _) = plain_char c h.0 in
    rw (percent, plus) (ap (λ t. c ∷ t) (decode_plain junk s h.1))

pub lower_scheme : (s : Text) → Every is_lower s → map to_lower s ≡ s
lower_scheme [] h = refl
lower_scheme (c ∷ s) h = ap₂ (λ d t. d ∷ t) (lower_char c h.0).0 (lower_scheme s h.1)

pub scheme_allowed : (s : Text) → Every is_lower s → any (λ c. not (is_scheme_char c)) s ≡ false
unfolding any
scheme_allowed [] h = refl
scheme_allowed (c ∷ s) h = rw ((lower_char c h.0).1, scheme_allowed s h.1) refl

pub userpass_plain :
    (s rest : Text) → Every is_plain s → has_userpass (s ++ rest) ≡ has_userpass rest
unfolding has_userpass
userpass_plain [] rest h = refl
userpass_plain (c ∷ s) rest h =
    let (_, at, slash, _, _, _) = plain_char c h.0 in rw (at, slash) (userpass_plain s rest h.1)

horner : (n d p m : ℕ) → (10 * n + d) * p + m ≡ n * (10 * p) + (d * p + m)
horner n d p m = grind arith

ten_pow : (k : ℕ) → 10 ^ suc k ≡ 10 * 10 ^ k
ten_pow k = pow-succ' 10 k

decimal_digits-number :
    (n : ℕ) (s : Text) → Every is_digit s → decimal_digits n s ≡ n * 10 ^ length s + number s
unfolding decimal_digits
decimal_digits-number n [] h = omega arith
decimal_digits-number n (c ∷ s) h = rw h.0 (
    decimal_digits-number (10 * n + (c - b'0')) s h.1
    ∙ horner n (c - b'0') (10 ^ length s) (number s)
    ∙ ap (λ p. n * p + ((c - b'0') * 10 ^ length s + number s)) (sym (ten_pow (length s))))

digit_char :
    (c : ℕ)
    → is_digit c ≡ true
    → (is_space c ≡ false) × ((c == b'-') ≡ false) × ((c == b'+') ≡ false)
digit_char c h = ground arith

unspaced : (c : ℕ) (s : Text) → is_digit c ≡ true → skip_spaces (c ∷ s) ≡ c ∷ s
unfolding skip_spaces
unspaced c s h = rw (digit_char c h).0 refl

unsigned : (c : ℕ) (s : Text) → is_digit c ≡ true → read_sign (c ∷ s) ≡ (false, c ∷ s)
unfolding read_sign
unsigned c s h = let (_, minus, plus) = digit_char c h in rw (minus, plus) refl

-- A port that is written in digits.
pub record IsPort (s : Text) : Type 0 where
  pub digits : Every is_digit s
  pub some_digit : 0 < length s
  pub small : number s ≤ 65535

pub port_scanned : (s : Text) → IsPort s → scan_port s ≡ (number s, true)
unfolding scan_port
port_scanned [] p = absurd (omega (arith, p.some_digit))
port_scanned (c ∷ s) p =
    let fits : ltb 65535 (number (c ∷ s)) ≡ false = ground (arith, p.small) in
    let read : decimal_digits 0 (c ∷ s) ≡ number (c ∷ s) =
      decimal_digits-number 0 (c ∷ s) p.digits ∙ grind arith in
    rw (unspaced c s p.digits.0, unsigned c s p.digits.0, read, fits, p.digits.0) refl
