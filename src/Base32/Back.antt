-- ===== src/Base32/Back.antt =====
-- common/utilstrencodings.cpp: `DecodeBase32` reads back what `EncodeBase32` writes.
use Prim.Native.Nat.{bit_and}
use gen2_energiminer.Common.{
  ℕ, ◌*◌, ◌/◌, ◌^◌, ◌<◌, ◌≡◌, refl, false, not, List, [], ◌∷◌, arith, ap₂, Bytes,
}
use gen2_energiminer.Base32.{finish32, encode32_loop, encode32, decode32_loop, valid32, decode32}
use gen2_energiminer.Base32.Steps.{at_zero, Back}
use gen2_energiminer.Base32.Pieces.{ends_1, ends_2, ends_3, ends_4, then_0, then_2, then_3, then_4}

-- In each of the five modes of the encoder.
record Reads (bs : List ℕ) : Type 0 where
  mode_0 : (l l' : ℕ) → Back bs (decode32_loop 0 l (encode32_loop 0 l' bs))
  mode_1 :
      (b : ℕ)
      → b < 2 ^ 8
      → Back (b ∷ bs) (decode32_loop 1 (b / 2 ^ 3) (encode32_loop 1 (bit_and b 7 * 2 ^ 2) bs))
  mode_2 :
      (b : ℕ)
      → b < 2 ^ 8
      → Back (b ∷ bs) (decode32_loop 3 (b / 2 ^ 1) (encode32_loop 2 (bit_and b 1 * 2 ^ 4) bs))
  mode_3 :
      (b : ℕ)
      → b < 2 ^ 8
      → Back (b ∷ bs) (decode32_loop 4 (b / 2 ^ 4) (encode32_loop 3 (bit_and b 15 * 2 ^ 1) bs))
  mode_4 :
      (b : ℕ)
      → b < 2 ^ 8
      → Back (b ∷ bs) (decode32_loop 6 (b / 2 ^ 2) (encode32_loop 4 (bit_and b 3 * 2 ^ 3) bs))

nothing_left : (l l' : ℕ) → Back [] (decode32_loop 0 l (encode32_loop 0 l' []))
unfolding decode32_loop encode32_loop finish32 valid32
nothing_left l l' = (refl, refl)

starts :
    (b l l' : ℕ) (bs : List ℕ)
    → b < 2 ^ 8
    → decode32_loop 0 l (encode32_loop 0 l' (b ∷ bs))
      ≡ decode32_loop 1 (b / 2 ^ 3) (encode32_loop 1 (bit_and b 7 * 2 ^ 2) bs)
unfolding encode32_loop
starts b l l' bs h = at_zero l (b / 2 ^ 3) _ (omega arith)

reads : (bs : List ℕ) → Bytes bs → Reads bs
unfolding encode32_loop
reads [] h = record {
  mode_0 = nothing_left;
  mode_1 = ends_1;
  mode_2 = ends_2;
  mode_3 = ends_3;
  mode_4 = ends_4;
}
reads (b ∷ bs) h =
    let rest = reads bs h.1 in
    record {
      mode_0 = λ l l'. rw (starts b l l' bs h.0) (rest.mode_1 b h.0);
      mode_1 = λ a ha. then_2 a b ha h.0 bs (rest.mode_2 b h.0);
      mode_2 = λ a ha. then_3 a b ha h.0 bs (rest.mode_3 b h.0);
      mode_3 = λ a ha. then_4 a b ha h.0 bs (rest.mode_4 b h.0);
      mode_4 = λ a ha. then_0 a b ha h.0 bs rest.mode_0;
    }

-- `DecodeBase32` reads back the bytes that `EncodeBase32` has written, and takes the text for valid.
pub decode32-encode32 : (bs : List ℕ) → Bytes bs → decode32 (encode32 bs) ≡ (bs, false)
unfolding decode32 encode32
decode32-encode32 bs h =
    let read = (reads bs h).mode_0 0 0 in ap₂ (λ (x : List ℕ) v. (x, not v)) read.0 read.1
