-- ===== src/Base32/Pieces.antt =====
-- common/utilstrencodings.cpp: how the decoder reads one byte in each mode of the encoder.
use Prim.Native.Nat.{bit_or, bit_and}
use gen2_energiminer.Common.{
  ℕ, ◌+◌, ◌*◌, ◌/◌, ◌%◌, ◌^◌, ◌<◌, ◌≡◌, List, [], ◌∷◌, arith, ap, ◌∙◌, replicate, bit_or_fields,
  bit_and_low, bit_or_masked,
}
use gen2_energiminer.Base32.{char32, finish32, encode32_loop, decode32_loop}
use gen2_energiminer.Base32.Steps.{
  at_one, at_two, at_three, at_four, at_five, at_six, at_seven, Back, push-Back, padded_2, padded_4,
  padded_5, padded_7,
}

module _ (b : ℕ) (hb : b < 2 ^ 8) where
  pub ends_1 : Back (b ∷ []) (decode32_loop 1 (b / 2 ^ 3) (finish32 1 (bit_and b 7 * 2 ^ 2)))
  unfolding finish32
  ends_1 =
      let d = b % 2 ^ 3 * 2 ^ 2 in
      let alone : bit_and b 7 * 2 ^ 2 ≡ d =
        ap (λ (t : ℕ). t * 2 ^ 2) (bit_and_low 3 b (omega arith) hb) in
      rw
        (
          alone,
          at_one (b / 2 ^ 3) d (replicate 6 b'=') (omega arith),
          bit_and_low 2 d (omega arith) (omega arith),
        )
        (push-Back _ b [] _
          (bit_or_fields 3 (b / 2 ^ 3) (d / 2 ^ 2) (omega arith) (omega arith) (omega arith)
            ∙ omega arith)
          hb (padded_2 _ (omega arith)))

  pub ends_2 : Back (b ∷ []) (decode32_loop 3 (b / 2 ^ 1) (finish32 2 (bit_and b 1 * 2 ^ 4)))
  unfolding finish32
  ends_2 =
      let d = b % 2 ^ 1 * 2 ^ 4 in
      let alone : bit_and b 1 * 2 ^ 4 ≡ d =
        ap (λ (t : ℕ). t * 2 ^ 4) (bit_and_low 1 b (omega arith) hb) in
      rw
        (
          alone,
          at_three (b / 2 ^ 1) d (replicate 4 b'=') (omega arith),
          bit_and_low 4 d (omega arith) (omega arith),
        )
        (push-Back _ b [] _
          (bit_or_fields 1 (b / 2 ^ 1) (d / 2 ^ 4) (omega arith) (omega arith) (omega arith)
            ∙ omega arith)
          hb (padded_4 _ (omega arith)))

  pub ends_3 : Back (b ∷ []) (decode32_loop 4 (b / 2 ^ 4) (finish32 3 (bit_and b 15 * 2 ^ 1)))
  unfolding finish32
  ends_3 =
      let d = b % 2 ^ 4 * 2 ^ 1 in
      let alone : bit_and b 15 * 2 ^ 1 ≡ d =
        ap (λ (t : ℕ). t * 2 ^ 1) (bit_and_low 4 b (omega arith) hb) in
      rw
        (
          alone,
          at_four (b / 2 ^ 4) d (replicate 3 b'=') (omega arith),
          bit_and_low 1 d (omega arith) (omega arith),
        )
        (push-Back _ b [] _
          (bit_or_fields 4 (b / 2 ^ 4) (d / 2 ^ 1) (omega arith) (omega arith) (omega arith)
            ∙ omega arith)
          hb (padded_5 _ (omega arith)))

  pub ends_4 : Back (b ∷ []) (decode32_loop 6 (b / 2 ^ 2) (finish32 4 (bit_and b 3 * 2 ^ 3)))
  unfolding finish32
  ends_4 =
      let d = b % 2 ^ 2 * 2 ^ 3 in
      let alone : bit_and b 3 * 2 ^ 3 ≡ d =
        ap (λ (t : ℕ). t * 2 ^ 3) (bit_and_low 2 b (omega arith) hb) in
      rw
        (
          alone,
          at_six (b / 2 ^ 2) d (replicate 1 b'=') (omega arith),
          bit_and_low 3 d (omega arith) (omega arith),
        )
        (push-Back _ b [] _
          (bit_or_fields 2 (b / 2 ^ 2) (d / 2 ^ 3) (omega arith) (omega arith) (omega arith)
            ∙ omega arith)
          hb (padded_7 _ (omega arith)))

module _ (b c : ℕ) (hb : b < 2 ^ 8) (hc : c < 2 ^ 8) (bs : List ℕ) where
  pub then_2 :
      Back (c ∷ bs) (decode32_loop 3 (c / 2 ^ 1) (encode32_loop 2 (bit_and c 1 * 2 ^ 4) bs))
      → Back
          (b ∷ c ∷ bs)
          (decode32_loop 1 (b / 2 ^ 3) (encode32_loop 1 (bit_and b 7 * 2 ^ 2) (c ∷ bs)))
  unfolding encode32_loop
  then_2 v =
      let d = b % 2 ^ 3 * 2 ^ 2 + c / 2 ^ 6 in
      let high : d % 2 ^ 2 ≡ c / 2 ^ 6 = omega arith in
      let next = encode32_loop 2 (bit_and c 1 * 2 ^ 4) bs in
      let e = c / 2 ^ 1 % 2 ^ 5 in
      let whole : bit_or (c / 2 ^ 6 * 2 ^ 5) e ≡ c / 2 ^ 1 =
        bit_or_fields 5 (c / 2 ^ 6) e (omega arith) (omega arith) (omega arith) ∙ omega arith in
      rw
        (
          bit_or_masked 3 2 b (c / 2 ^ 6) (omega arith) (omega arith) hb (omega arith)
              (omega arith),
          at_one (b / 2 ^ 3) d (char32 (bit_and (c / 2 ^ 1) 31) ∷ next) (omega arith),
          bit_and_low 2 d (omega arith) (omega arith),
          high,
          bit_and_low 5 (c / 2 ^ 1) (omega arith) (omega arith),
          at_two (c / 2 ^ 6) e next (omega arith),
          whole,
        )
        (push-Back _ b (c ∷ bs) _
          (bit_or_fields 3 (b / 2 ^ 3) (d / 2 ^ 2) (omega arith) (omega arith) (omega arith)
            ∙ omega arith)
          hb v)

  pub then_4 :
      Back (c ∷ bs) (decode32_loop 6 (c / 2 ^ 2) (encode32_loop 4 (bit_and c 3 * 2 ^ 3) bs))
      → Back
          (b ∷ c ∷ bs)
          (decode32_loop 4 (b / 2 ^ 4) (encode32_loop 3 (bit_and b 15 * 2 ^ 1) (c ∷ bs)))
  unfolding encode32_loop
  then_4 v =
      let d = b % 2 ^ 4 * 2 ^ 1 + c / 2 ^ 7 in
      let high : d % 2 ^ 1 ≡ c / 2 ^ 7 = omega arith in
      let next = encode32_loop 4 (bit_and c 3 * 2 ^ 3) bs in
      let e = c / 2 ^ 2 % 2 ^ 5 in
      let whole : bit_or (c / 2 ^ 7 * 2 ^ 5) e ≡ c / 2 ^ 2 =
        bit_or_fields 5 (c / 2 ^ 7) e (omega arith) (omega arith) (omega arith) ∙ omega arith in
      rw
        (
          bit_or_masked 4 1 b (c / 2 ^ 7) (omega arith) (omega arith) hb (omega arith)
              (omega arith),
          at_four (b / 2 ^ 4) d (char32 (bit_and (c / 2 ^ 2) 31) ∷ next) (omega arith),
          bit_and_low 1 d (omega arith) (omega arith),
          high,
          bit_and_low 5 (c / 2 ^ 2) (omega arith) (omega arith),
          at_five (c / 2 ^ 7) e next (omega arith),
          whole,
        )
        (push-Back _ b (c ∷ bs) _
          (bit_or_fields 4 (b / 2 ^ 4) (d / 2 ^ 1) (omega arith) (omega arith) (omega arith)
            ∙ omega arith)
          hb v)

  pub then_3 :
      Back (c ∷ bs) (decode32_loop 4 (c / 2 ^ 4) (encode32_loop 3 (bit_and c 15 * 2 ^ 1) bs))
      → Back
          (b ∷ c ∷ bs)
          (decode32_loop 3 (b / 2 ^ 1) (encode32_loop 2 (bit_and b 1 * 2 ^ 4) (c ∷ bs)))
  unfolding encode32_loop
  then_3 v =
      let d = b % 2 ^ 1 * 2 ^ 4 + c / 2 ^ 4 in
      let high : d % 2 ^ 4 ≡ c / 2 ^ 4 = omega arith in
      let next = encode32_loop 3 (bit_and c 15 * 2 ^ 1) bs in
      rw
        (
          bit_or_masked 1 4 b (c / 2 ^ 4) (omega arith) (omega arith) hb (omega arith)
              (omega arith),
          at_three (b / 2 ^ 1) d next (omega arith),
          bit_and_low 4 d (omega arith) (omega arith),
          high,
        )
        (push-Back _ b (c ∷ bs) _
          (bit_or_fields 1 (b / 2 ^ 1) (d / 2 ^ 4) (omega arith) (omega arith) (omega arith)
            ∙ omega arith)
          hb v)

  pub then_0 :
      ((l l' : ℕ) → Back bs (decode32_loop 0 l (encode32_loop 0 l' bs)))
      → Back
          (b ∷ c ∷ bs)
          (decode32_loop 6 (b / 2 ^ 2) (encode32_loop 4 (bit_and b 3 * 2 ^ 3) (c ∷ bs)))
  unfolding encode32_loop
  then_0 v =
      let d = b % 2 ^ 2 * 2 ^ 3 + c / 2 ^ 5 in
      let high : d % 2 ^ 3 ≡ c / 2 ^ 5 = omega arith in
      let next = encode32_loop 0 (bit_and b 3 * 2 ^ 3) bs in
      rw
        (
          bit_or_masked 2 3 b (c / 2 ^ 5) (omega arith) (omega arith) hb (omega arith)
              (omega arith),
          at_six (b / 2 ^ 2) d (char32 (bit_and c 31) ∷ next) (omega arith),
          bit_and_low 3 d (omega arith) (omega arith),
          high,
          bit_and_low 5 c (omega arith) hc,
          at_seven (c / 2 ^ 5) (c % 2 ^ 5) next (omega arith),
        )
        (push-Back _ b (c ∷ bs) _
          (bit_or_fields 2 (b / 2 ^ 2) (d / 2 ^ 3) (omega arith) (omega arith) (omega arith)
            ∙ omega arith)
          hb
          (push-Back _ c bs _
            (bit_or_fields 5 (c / 2 ^ 5) (c % 2 ^ 5) (omega arith) (omega arith) (omega arith)
              ∙ omega arith)
            hc (v _ _)))
