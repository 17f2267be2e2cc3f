-- ===== src/Base32/Steps.antt =====
-- common/utilstrencodings.cpp: the steps of `DecodeBase32` on a character of the alphabet.
use Prim.Native.Nat.{bit_or, bit_and}
use gen2_energiminer.Common.{
  ℕ, ◌*◌, ◌/◌, ◌^◌, ◌<◌, ◌≡◌, refl, true, List, [], ◌∷◌, Text, some, arith, ap₂, replicate,
  holds_below, below_holds, gives, gives→eq,
}
use gen2_energiminer.Base64.{Decoded, push}
use gen2_energiminer.Base32.{char32, digit32, decode32_loop, valid32}

alphabet_read : holds_below 32 (λ n. gives n (digit32 (char32 n))) ≡ true
unfolding holds_below digit32
alphabet_read = refl

-- The table has each character of the alphabet at its place.
digit32-char32 : (n : ℕ) → n < 32 → digit32 (char32 n) ≡ some n
digit32-char32 n h =
    gives→eq n _ (below_holds 32 (λ m. gives m (digit32 (char32 m))) n alphabet_read h)

module _ (left d : ℕ) (s : Text) (h : d < 32) where
  pub at_zero : decode32_loop 0 left (char32 d ∷ s) ≡ decode32_loop 1 d s
  unfolding decode32_loop
  at_zero = rw (digit32-char32 d h, decode32_loop)

  pub at_one :
      decode32_loop 1 left (char32 d ∷ s)
      ≡ push (bit_or (left * 2 ^ 3) (d / 2 ^ 2)) (decode32_loop 2 (bit_and d 3) s)
  unfolding decode32_loop
  at_one = rw (digit32-char32 d h, decode32_loop)

  pub at_two : decode32_loop 2 left (char32 d ∷ s) ≡ decode32_loop 3 (bit_or (left * 2 ^ 5) d) s
  unfolding decode32_loop
  at_two = rw (digit32-char32 d h, decode32_loop)

  pub at_three :
      decode32_loop 3 left (char32 d ∷ s)
      ≡ push (bit_or (left * 2 ^ 1) (d / 2 ^ 4)) (decode32_loop 4 (bit_and d 15) s)
  unfolding decode32_loop
  at_three = rw (digit32-char32 d h, decode32_loop)

  pub at_four :
      decode32_loop 4 left (char32 d ∷ s)
      ≡ push (bit_or (left * 2 ^ 4) (d / 2 ^ 1)) (decode32_loop 5 (bit_and d 1) s)
  unfolding decode32_loop
  at_four = rw (digit32-char32 d h, decode32_loop)

  pub at_five : decode32_loop 5 left (char32 d ∷ s) ≡ decode32_loop 6 (bit_or (left * 2 ^ 5) d) s
  unfolding decode32_loop
  at_five = rw (digit32-char32 d h, decode32_loop)

  pub at_six :
      decode32_loop 6 left (char32 d ∷ s)
      ≡ push (bit_or (left * 2 ^ 2) (d / 2 ^ 3)) (decode32_loop 7 (bit_and d 7) s)
  unfolding decode32_loop
  at_six = rw (digit32-char32 d h, decode32_loop)

  pub at_seven :
      decode32_loop 7 left (char32 d ∷ s) ≡ push (bit_or (left * 2 ^ 5) d) (decode32_loop 0 left s)
  unfolding decode32_loop
  at_seven = rw (digit32-char32 d h, decode32_loop)

-- The bytes are read back, and the text is valid.
abbrev pub Back : List ℕ → Decoded → Type 0
Back bs d = (d.bytes ≡ bs) × (valid32 d ≡ true)

pub push-Back :
    (x b : ℕ) (bs : List ℕ) (d : Decoded) → x ≡ b → b < 2 ^ 8 → Back bs d → Back (b ∷ bs) (push x d)
unfolding valid32
push-Back x b bs d e h v = (ap₂ (λ (c : ℕ) cs. c ∷ cs) (omega (arith, e)) v.0, v.1)

module _ (l : ℕ) (e : l ≡ 0) where
  pub padded_2 : Back [] (decode32_loop 2 l (replicate 6 b'='))
  unfolding decode32_loop valid32 digit32
  padded_2 = (refl, ground (arith, e))

  pub padded_4 : Back [] (decode32_loop 4 l (replicate 4 b'='))
  unfolding decode32_loop valid32 digit32
  padded_4 = (refl, ground (arith, e))

  pub padded_5 : Back [] (decode32_loop 5 l (replicate 3 b'='))
  unfolding decode32_loop valid32 digit32
  padded_5 = (refl, ground (arith, e))

  pub padded_7 : Back [] (decode32_loop 7 l (replicate 1 b'='))
  unfolding decode32_loop valid32 digit32
  padded_7 = (refl, ground (arith, e))
