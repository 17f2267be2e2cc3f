-- ===== src/Base64/Back.antt =====
-- common/utilstrencodings.cpp: `DecodeBase64` reads back what `EncodeBase64` writes.
use Prim.Native.Nat.{bit_or, bit_and}
use gen2_energiminer.Common.{
  ℕ, ◌+◌, ◌*◌, ◌/◌, ◌%◌, ◌^◌, ◌<◌, ◌≡◌, refl, true, false, not, List, [], ◌∷◌, Text, some, arith,
  ap, ◌∙◌, ap₂, Bytes, holds_below, below_holds, bit_or_fields, bit_and_low, bit_or_masked, gives,
  gives→eq,
}
use gen2_energiminer.Base64.{
  char64, finish64, encode64_loop, encode64, digit64, Decoded, push, decode64_loop, valid64,
  decode64,
}

alphabet_read : holds_below 64 (λ n. gives n (digit64 (char64 n))) ≡ true
unfolding holds_below digit64
alphabet_read = refl

-- The table has each character of the alphabet at its place.
digit64-char64 : (n : ℕ) → n < 64 → digit64 (char64 n) ≡ some n
digit64-char64 n h =
    gives→eq n _ (below_holds 64 (λ m. gives m (digit64 (char64 m))) n alphabet_read h)

module _ (left n : ℕ) (s : Text) (h : n < 64) where
  first : decode64_loop 0 left (char64 n ∷ s) ≡ decode64_loop 1 n s
  unfolding decode64_loop
  first = rw (digit64-char64 n h, decode64_loop)

  second :
      decode64_loop 1 left (char64 n ∷ s)
      ≡ push (bit_or (left * 2 ^ 2) (n / 2 ^ 4)) (decode64_loop 2 (bit_and n 15) s)
  unfolding decode64_loop
  second = rw (digit64-char64 n h, decode64_loop)

  third :
      decode64_loop 2 left (char64 n ∷ s)
      ≡ push (bit_or (left * 2 ^ 4) (n / 2 ^ 2)) (decode64_loop 3 (bit_and n 3) s)
  unfolding decode64_loop
  third = rw (digit64-char64 n h, decode64_loop)

  fourth :
      decode64_loop 3 left (char64 n ∷ s) ≡ push (bit_or (left * 2 ^ 6) n) (decode64_loop 0 left s)
  unfolding decode64_loop
  fourth = rw (digit64-char64 n h, decode64_loop)

-- The bytes are read back, and the text is valid.
abbrev Back : List ℕ → Decoded → Type 0
Back bs d = (d.bytes ≡ bs) × (valid64 d ≡ true)

push-Back :
    (x b : ℕ) (bs : List ℕ) (d : Decoded) → x ≡ b → b < 2 ^ 8 → Back bs d → Back (b ∷ bs) (push x d)
unfolding valid64
push-Back x b bs d e h v = (ap₂ (λ (c : ℕ) cs. c ∷ cs) (omega (arith, e)) v.0, v.1)

padded_twice : (l : ℕ) → l ≡ 0 → Back [] (decode64_loop 2 l (b'=' ∷ b'=' ∷ []))
unfolding decode64_loop valid64 digit64
padded_twice l e = (refl, ground (arith, e))

padded_once : (l : ℕ) → l ≡ 0 → Back [] (decode64_loop 3 l (b'=' ∷ []))
unfolding decode64_loop valid64 digit64
padded_once l e = (refl, ground (arith, e))

module _ (b : ℕ) (hb : b < 2 ^ 8) where
  low_two-alone : bit_and b 3 * 2 ^ 4 ≡ b % 4 * 2 ^ 4
  low_two-alone = ap (λ (t : ℕ). t * 2 ^ 4) (bit_and_low 2 b (omega arith) hb)

  low_four-alone : bit_and b 15 * 2 ^ 2 ≡ b % 16 * 2 ^ 2
  low_four-alone = ap (λ (t : ℕ). t * 2 ^ 2) (bit_and_low 4 b (omega arith) hb)

  -- The text ends after one byte of three, or after two.
  ends_one : Back (b ∷ []) (decode64_loop 1 (b / 2 ^ 2) (finish64 1 (bit_and b 3 * 2 ^ 4)))
  unfolding finish64
  ends_one =
      let n = b % 4 * 2 ^ 4 in
      rw
        (
          low_two-alone,
          second (b / 2 ^ 2) n (b'=' ∷ b'=' ∷ []) (omega arith),
          bit_and_low 4 n (omega arith) (omega arith),
        )
        (push-Back _ b [] _
          (bit_or_fields 2 (b / 2 ^ 2) (n / 2 ^ 4) (omega arith) (omega arith) (omega arith)
            ∙ omega arith)
          hb (padded_twice _ (omega arith)))

  ends_two : Back (b ∷ []) (decode64_loop 2 (b / 2 ^ 4) (finish64 2 (bit_and b 15 * 2 ^ 2)))
  unfolding finish64
  ends_two =
      let n = b % 16 * 2 ^ 2 in
      rw
        (
          low_four-alone,
          third (b / 2 ^ 4) n (b'=' ∷ []) (omega arith),
          bit_and_low 2 n (omega arith) (omega arith),
        )
        (push-Back _ b [] _
          (bit_or_fields 4 (b / 2 ^ 4) (n / 2 ^ 2) (omega arith) (omega arith) (omega arith)
            ∙ omega arith)
          hb (padded_once _ (omega arith)))

module _ (b c : ℕ) (hb : b < 2 ^ 8) (hc : c < 2 ^ 8) (bs : List ℕ) where
  -- The second of three bytes, or the third, follows.
  then_second :
      Back (c ∷ bs) (decode64_loop 2 (c / 2 ^ 4) (encode64_loop 2 (bit_and c 15 * 2 ^ 2) bs))
      → Back
          (b ∷ c ∷ bs)
          (decode64_loop 1 (b / 2 ^ 2) (encode64_loop 1 (bit_and b 3 * 2 ^ 4) (c ∷ bs)))
  unfolding encode64_loop
  then_second v =
      let n = b % 4 * 2 ^ 4 + c / 2 ^ 4 in
      let high : n % 2 ^ 4 ≡ c / 2 ^ 4 = omega arith in
      rw
        (
          bit_or_masked 2 4 b (c / 2 ^ 4) (omega arith) (omega arith) hb (omega arith)
              (omega arith),
          second (b / 2 ^ 2) n (encode64_loop 2 (bit_and c 15 * 2 ^ 2) bs) (omega arith),
          bit_and_low 4 n (omega arith) (omega arith),
          high,
        )
        (push-Back _ b (c ∷ bs) _
          (bit_or_fields 2 (b / 2 ^ 2) (n / 2 ^ 4) (omega arith) (omega arith) (omega arith)
            ∙ omega arith)
          hb v)

  then_third :
      ((l l' : ℕ) → Back bs (decode64_loop 0 l (encode64_loop 0 l' bs)))
      → Back
          (b ∷ c ∷ bs)
          (decode64_loop 2 (b / 2 ^ 4) (encode64_loop 2 (bit_and b 15 * 2 ^ 2) (c ∷ bs)))
  unfolding encode64_loop
  then_third v =
      let n = b % 16 * 2 ^ 2 + c / 2 ^ 6 in
      let left = bit_and b 15 * 2 ^ 2 in
      let high : n % 2 ^ 2 ≡ c / 2 ^ 6 = omega arith in
      rw
        (
          bit_or_masked 4 2 b (c / 2 ^ 6) (omega arith) (omega arith) hb (omega arith)
              (omega arith),
          third (b / 2 ^ 4) n (char64 (bit_and c 63) ∷ encode64_loop 0 left bs) (omega arith),
          bit_and_low 2 n (omega arith) (omega arith),
          high,
          bit_and_low 6 c (omega arith) hc,
          fourth (c / 2 ^ 6) (c % 2 ^ 6) (encode64_loop 0 left bs) (omega arith),
        )
        (push-Back _ b (c ∷ bs) _
          (bit_or_fields 4 (b / 2 ^ 4) (n / 2 ^ 2) (omega arith) (omega arith) (omega arith)
            ∙ omega arith)
          hb
          (push-Back _ c bs _
            (bit_or_fields 6 (c / 2 ^ 6) (c % 2 ^ 6) (omega arith) (omega arith) (omega arith)
              ∙ omega arith)
            hc (v _ _)))

-- In each of the three modes of the encoder.
record Reads (bs : List ℕ) : Type 0 where
  at_zero : (l l' : ℕ) → Back bs (decode64_loop 0 l (encode64_loop 0 l' bs))
  at_one :
      (b : ℕ)
      → b < 2 ^ 8
      → Back (b ∷ bs) (decode64_loop 1 (b / 2 ^ 2) (encode64_loop 1 (bit_and b 3 * 2 ^ 4) bs))
  at_two :
      (b : ℕ)
      → b < 2 ^ 8
      → Back (b ∷ bs) (decode64_loop 2 (b / 2 ^ 4) (encode64_loop 2 (bit_and b 15 * 2 ^ 2) bs))

nothing_left : (l l' : ℕ) → Back [] (decode64_loop 0 l (encode64_loop 0 l' []))
unfolding decode64_loop encode64_loop finish64 valid64
nothing_left l l' = (refl, refl)

starts :
    (b l l' : ℕ) (bs : List ℕ)
    → b < 2 ^ 8
    → decode64_loop 0 l (encode64_loop 0 l' (b ∷ bs))
      ≡ decode64_loop 1 (b / 2 ^ 2) (encode64_loop 1 (bit_and b 3 * 2 ^ 4) bs)
unfolding encode64_loop
starts b l l' bs h = first l (b / 2 ^ 2) _ (omega arith)

reads : (bs : List ℕ) → Bytes bs → Reads bs
unfolding encode64_loop
reads [] h = record { at_zero = nothing_left; at_one = ends_one; at_two = ends_two }
reads (b ∷ bs) h =
    let rest = reads bs h.1 in
    record {
      at_zero = λ l l'. rw (starts b l l' bs h.0) (rest.at_one b h.0);
      at_one = λ a ha. then_second a b ha h.0 bs (rest.at_two b h.0);
      at_two = λ a ha. then_third a b ha h.0 bs rest.at_zero;
    }

-- `DecodeBase64` reads back the bytes that `EncodeBase64` has written, and takes the text for valid.
pub decode64-encode64 : (bs : List ℕ) → Bytes bs → decode64 (encode64 bs) ≡ (bs, false)
unfolding decode64 encode64
decode64-encode64 bs h =
    let read = (reads bs h).at_zero 0 0 in ap₂ (λ (x : List ℕ) v. (x, not v)) read.0 read.1
