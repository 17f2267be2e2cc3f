-- ===== src/Base32.antt =====
-- common/utilstrencodings.cpp: `EncodeBase32` and `DecodeBase32`.
-- A text ends where its list does: the terminating 0 is no digit, as the end of the list is none.
pub mod Steps
pub mod Pieces
pub mod Back
mod Examples
use Prim.Native.Nat.{bit_or, bit_and}
use gen2_energiminer.Common.{
  ℕ, zero, suc, ◌+◌, ◌-◌, ◌*◌, ◌/◌, ◌%◌, ◌^◌, Bool, true, false, ◌&&◌, ◌||◌, not, List, [], ◌∷◌,
  ◌++◌, Text, codes, Option, none, some, leb, ltb, ◌==◌, if◌then◌else◌, get_or, replicate,
}
use gen2_energiminer.Base64.{Decoded, push, pad_at}

-- `pbase32`.
abbrev pub alphabet32 : Text
alphabet32 = codes "abcdefghijklmnopqrstuvwxyz234567"

abbrev pub char32 : ℕ → ℕ
char32 n = get_or alphabet32 n 0

-- `nPadding`.
abbrev pub padding32 : List ℕ
padding32 = 0 ∷ 6 ∷ 4 ∷ 3 ∷ 1 ∷ []

-- What `EncodeBase32` appends after the last byte.
unfoldable pub finish32 : ℕ → ℕ → Text
finish32 mode left =
    if mode == 0 then [] else char32 left ∷ replicate (get_or padding32 mode 0) b'='

-- The loop of `EncodeBase32`, from `mode` on; a sixth mode does not come up.
unfoldable pub encode32_loop : ℕ → ℕ → List ℕ → Text
unfolding finish32
encode32_loop mode left [] = finish32 mode left
encode32_loop zero left (enc ∷ rest) =
    char32 (enc / 2 ^ 3) ∷ encode32_loop 1 (bit_and enc 7 * 2 ^ 2) rest
encode32_loop (suc zero) left (enc ∷ rest) =
    char32 (bit_or left (enc / 2 ^ 6))
    ∷ char32 (bit_and (enc / 2 ^ 1) 31)
    ∷ encode32_loop 2 (bit_and enc 1 * 2 ^ 4) rest
encode32_loop (suc (suc zero)) left (enc ∷ rest) =
    char32 (bit_or left (enc / 2 ^ 4)) ∷ encode32_loop 3 (bit_and enc 15 * 2 ^ 1) rest
encode32_loop (suc (suc (suc zero))) left (enc ∷ rest) =
    char32 (bit_or left (enc / 2 ^ 7))
    ∷ char32 (bit_and (enc / 2 ^ 2) 31)
    ∷ encode32_loop 4 (bit_and enc 3 * 2 ^ 3) rest
encode32_loop (suc (suc (suc (suc zero)))) left (enc ∷ rest) =
    char32 (bit_or left (enc / 2 ^ 5)) ∷ char32 (bit_and enc 31) ∷ encode32_loop 0 left rest
encode32_loop (suc (suc (suc (suc (suc mode))))) left (enc ∷ rest) =
    encode32_loop (suc (suc (suc (suc (suc mode))))) left rest

unfoldable pub encode32 : List ℕ → Text
unfolding encode32_loop
encode32 bytes = encode32_loop 0 0 bytes

-- `decode32_table`, where `none` is -1; the table is given by its runs.
unfoldable pub digit32 : ℕ → Option ℕ
digit32 c =
    if leb b'2' c && leb c b'7'
    then some (c - b'2' + 26)
    else (if leb b'A' c && leb c b'Z'
        then some (c - b'A')
        else (if leb b'a' c && leb c b'z' then some (c - b'a') else none))

-- The loop of `DecodeBase32`, from `mode` on; a ninth mode does not come up.
unfoldable pub decode32_loop : ℕ → ℕ → Text → Decoded
unfolding digit32
decode32_loop mode left [] = record { bytes = []; mode = mode; left = left; rest = [] }
decode32_loop zero left (c ∷ s) = elim (digit32 c) [
  | none ↦ record { bytes = []; mode = 0; left = left; rest = c ∷ s }
  | some d ↦ decode32_loop 1 d s
]
decode32_loop (suc zero) left (c ∷ s) = elim (digit32 c) [
  | none ↦ record { bytes = []; mode = 1; left = left; rest = c ∷ s }
  | some d ↦ push (bit_or (left * 2 ^ 3) (d / 2 ^ 2)) (decode32_loop 2 (bit_and d 3) s)
]
decode32_loop (suc (suc zero)) left (c ∷ s) = elim (digit32 c) [
  | none ↦ record { bytes = []; mode = 2; left = left; rest = c ∷ s }
  | some d ↦ decode32_loop 3 (bit_or (left * 2 ^ 5) d) s
]
decode32_loop (suc (suc (suc zero))) left (c ∷ s) = elim (digit32 c) [
  | none ↦ record { bytes = []; mode = 3; left = left; rest = c ∷ s }
  | some d ↦ push (bit_or (left * 2 ^ 1) (d / 2 ^ 4)) (decode32_loop 4 (bit_and d 15) s)
]
decode32_loop (suc (suc (suc (suc zero)))) left (c ∷ s) = elim (digit32 c) [
  | none ↦ record { bytes = []; mode = 4; left = left; rest = c ∷ s }
  | some d ↦ push (bit_or (left * 2 ^ 4) (d / 2 ^ 1)) (decode32_loop 5 (bit_and d 1) s)
]
decode32_loop (suc (suc (suc (suc (suc zero))))) left (c ∷ s) = elim (digit32 c) [
  | none ↦ record { bytes = []; mode = 5; left = left; rest = c ∷ s }
  | some d ↦ decode32_loop 6 (bit_or (left * 2 ^ 5) d) s
]
decode32_loop (suc (suc (suc (suc (suc (suc zero)))))) left (c ∷ s) = elim (digit32 c) [
  | none ↦ record { bytes = []; mode = 6; left = left; rest = c ∷ s }
  | some d ↦ push (bit_or (left * 2 ^ 2) (d / 2 ^ 3)) (decode32_loop 7 (bit_and d 7) s)
]
decode32_loop (suc (suc (suc (suc (suc (suc (suc zero))))))) left (c ∷ s) = elim (digit32 c) [
  | none ↦ record { bytes = []; mode = 7; left = left; rest = c ∷ s }
  | some d ↦ push (bit_or (left * 2 ^ 5) d) (decode32_loop 0 left s)
]
decode32_loop (suc (suc (suc (suc (suc (suc (suc (suc mode)))))))) left (c ∷ s) = elim (digit32 c) [
  | none ↦ record {
    bytes = [];
    mode = (suc (suc (suc (suc (suc (suc (suc (suc mode))))))));
    left = left;
    rest = c ∷ s;
  }
  | some d ↦ decode32_loop (suc (suc (suc (suc (suc (suc (suc (suc mode)))))))) left s
]

-- `p[0]` to `p[n - 1]` are `=`, read up to the first that is not.
unfoldable pub padded : ℕ → Text → Bool
padded zero p = true
padded (suc n) [] = false
padded (suc n) (c ∷ p) = c == b'=' && padded n p

-- `left` is 0, `n` signs `=` follow, and then no digit.
unfoldable pub closes : ℕ → Decoded → Bool
unfolding padded digit32
closes n d =
    d.left == 0
    && padded n d.rest
    && elim (digit32 (get_or d.rest n 0)) [ none ↦ true | some v ↦ false ]

-- The flag that `DecodeBase32` sets, negated.
unfoldable pub valid32 : Decoded → Bool
unfolding closes
valid32 d =
    if d.mode == 1 || d.mode == 3 || d.mode == 6
    then false
    else (if d.mode == 2
        then closes 6 d
        else (if d.mode == 4
            then closes 4 d
            else (if d.mode == 5 then closes 3 d else (if d.mode == 7 then closes 1 d else true))))

-- `DecodeBase32` with the flag, which says that the text is invalid.
unfoldable pub decode32 : Text → List ℕ × Bool
unfolding decode32_loop valid32
decode32 s = let d = decode32_loop 0 0 s in (d.bytes, not (valid32 d))
