-- ===== src/Hex/Back.antt =====
-- `ParseHex` reads back what `HexStr` writes.
use Prim.Native.Nat.{bit_or, bit_and}
use gen2_energiminer.Common.{
  ℕ, ◌*◌, ◌/◌, ◌%◌, ◌^◌, ◌<◌, ◌≡◌, refl, Bool, true, false, ◌&&◌, not, List, [], ◌∷◌, Text, Option,
  none, some, arith, ◌==◌, get_or, Bool-cases, inl, inr, ap, ◌∙◌, Bytes, holds_below, below_holds,
}
use gen2_energiminer.Hex.{hexmap, hex_loop, hex_str, hex_digit, is_space, parse_loop, parse_hex}

abbrev high : ℕ → ℕ
high b = get_or hexmap (b / 2 ^ 4) 0

abbrev low : ℕ → ℕ
low b = get_or hexmap (bit_and b 15) 0

abbrev is_some : Option ℕ → ℕ → Bool
is_some o n = elim o [ none ↦ false | some d ↦ d == n ]

-- What is to know of the two digits of a byte.
abbrev fine : ℕ → Bool
fine b =
    is_some (hex_digit (high b)) (b / 2 ^ 4)
    && is_some (hex_digit (low b)) (b % 2 ^ 4)
    && not (is_space (high b))
    && bit_or (b / 2 ^ 4 * 2 ^ 4 % 2 ^ 8) (b % 2 ^ 4) == b

all_fine : holds_below 256 fine ≡ true
unfolding holds_below hex_digit
all_fine = refl

fine_byte : (b : ℕ) → b < 2 ^ 8 → fine b ≡ true
fine_byte b h = below_holds 256 fine b all_fine h

is_some-eq : (o : Option ℕ) (n : ℕ) → is_some o n ≡ true → o ≡ some n
is_some-eq none n h = cc
is_some-eq (some d) n h = ground (arith, h)

-- The same as equations.
record Digits (b : ℕ) : Type 0 where
  of_high : hex_digit (high b) ≡ some (b / 2 ^ 4)
  of_low : hex_digit (low b) ≡ some (b % 2 ^ 4)
  shown : is_space (high b) ≡ false
  whole : bit_or (b / 2 ^ 4 * 2 ^ 4 % 2 ^ 8) (b % 2 ^ 4) ≡ b

split_fine :
    (p q r t : Bool) → (p && q && r && t) ≡ true → (p ≡ true) × (q ≡ true) × (r ≡ true) × (t ≡ true)
split_fine p q r t h = ground arith

byte-Digits : (b : ℕ) → b < 2 ^ 8 → Digits b
byte-Digits b h =
    let (p, q, r, t) = split_fine _ _ _ _ (fine_byte b h) in
    record {
      of_high = is_some-eq _ _ p;
      of_low = is_some-eq _ _ q;
      shown = ground (arith, r);
      whole = ground (arith, t);
    }

parse_first :
    (c d : ℕ) (s : Text)
    → is_space c ≡ false
    → hex_digit c ≡ some d
    → parse_loop none (c ∷ s) ≡ parse_loop (some d) s
unfolding parse_loop
parse_first c d s h e = rw (h, e) refl

parse_second :
    (c d e : ℕ) (s : Text)
    → hex_digit c ≡ some e
    → parse_loop (some d) (c ∷ s) ≡ bit_or (d * 2 ^ 4 % 2 ^ 8) e ∷ parse_loop none s
unfolding parse_loop
parse_second c d e s h =
    ap
      (λ (o : Option ℕ). elim o [
        | none ↦ []
        | some f ↦ bit_or (d * 2 ^ 4 % 2 ^ 8) f ∷ parse_loop none s
      ])
      h

byte_back :
    (b : ℕ) (s : Text) → b < 2 ^ 8 → parse_loop none (high b ∷ low b ∷ s) ≡ b ∷ parse_loop none s
byte_back b s h =
    let d = byte-Digits b h in
    parse_first (high b) (b / 2 ^ 4) (low b ∷ s) d.shown d.of_high
    ∙ parse_second (low b) (b / 2 ^ 4) (b % 2 ^ 4) s d.of_low
    ∙ ap (λ t. t ∷ parse_loop none s) d.whole

space_back : (s : Text) → parse_loop none (32 ∷ s) ≡ parse_loop none s
unfolding parse_loop
space_back s = refl

loop_back :
    (spaces first : Bool) (bs : List ℕ) → Bytes bs → parse_loop none (hex_loop spaces first bs) ≡ bs
unfolding hex_loop
loop_back spaces first [] h = unfold parse_loop in refl
loop_back spaces first (b ∷ bs) h =
    let rest =
      byte_back b (hex_loop spaces false bs) h.0
      ∙ ap (λ t. b ∷ t) (loop_back spaces false bs h.1) in
    elim (Bool-cases (spaces && not first)) [
      | inl e ↦ rw e (space_back (high b ∷ low b ∷ hex_loop spaces false bs) ∙ rest)
      | inr e ↦ rw e rest
    ]

-- `ParseHex` reads back the bytes that `HexStr` has written, with and without spaces.
pub parse_hex-hex_str :
    (spaces : Bool) (bs : List ℕ) → Bytes bs → parse_hex (hex_str spaces bs) ≡ bs
unfolding parse_hex hex_str
parse_hex-hex_str spaces bs h = loop_back spaces true bs h
