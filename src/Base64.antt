-- ===== src/Base64.antt =====
-- common/utilstrencodings.cpp: `EncodeBase64` and `DecodeBase64`.
-- A text ends where its list does: the terminating 0 is no digit, as the end of the list is none.
pub mod Back
mod Examples
use Prim.Native.Nat.{bit_or, bit_and}
use gen2_energiminer.Common.{
  ℕ, zero, suc, ◌+◌, ◌-◌, ◌*◌, ◌/◌, ◌%◌, ◌^◌, Bool, true, false, ◌&&◌, not, List, [], ◌∷◌, ◌++◌,
  Text, codes, Option, none, some, leb, ◌==◌, if◌then◌else◌, get_or,
}

-- `pbase64`.
abbrev pub alphabet64 : Text
alphabet64 = codes "ABCDEFGHIJKLMNOPQRSTUVWXYZabcdefghijklmnopqrstuvwxyz0123456789+/"

abbrev pub char64 : ℕ → ℕ
char64 n = get_or alphabet64 n 0

-- What `EncodeBase64` appends after the last byte.
unfoldable pub finish64 : ℕ → ℕ → Text
finish64 mode left =
    if mode == 0 then [] else char64 left ∷ b'=' ∷ (if mode == 1 then b'=' ∷ [] else [])

-- The loop of `EncodeBase64`, from `mode` on; a fourth mode does not come up.
unfoldable pub encode64_loop : ℕ → ℕ → List ℕ → Text
unfolding finish64
encode64_loop mode left [] = finish64 mode left
encode64_loop zero left (enc ∷ rest) =
    char64 (enc / 2 ^ 2) ∷ encode64_loop 1 (bit_and enc 3 * 2 ^ 4) rest
encode64_loop (suc zero) left (enc ∷ rest) =
    char64 (bit_or left (enc / 2 ^ 4)) ∷ encode64_loop 2 (bit_and enc 15 * 2 ^ 2) rest
encode64_loop (suc (suc zero)) left (enc ∷ rest) =
    char64 (bit_or left (enc / 2 ^ 6)) ∷ char64 (bit_and enc 63) ∷ encode64_loop 0 left rest
encode64_loop (suc (suc (suc mode))) left (enc ∷ rest) =
    encode64_loop (suc (suc (suc mode))) left rest

unfoldable pub encode64 : List ℕ → Text
unfolding encode64_loop
encode64 bytes = encode64_loop 0 0 bytes

-- `decode64_table`, where `none` is -1; the table is given by its runs.
unfoldable pub digit64 : ℕ → Option ℕ
digit64 c =
    if c == b'+'
    then some 62
    else (if c == b'/'
        then some 63
        else (if leb b'0' c && leb c b'9'
            then some (c - b'0' + 52)
            else (if leb b'A' c && leb c b'Z'
                then some (c - b'A')
                else (if leb b'a' c && leb c b'z' then some (c - b'a' + 26) else none))))

-- What the loop of `DecodeBase64` leaves: the bytes, `mode`, `left`, and the text from `p` on.
pub record Decoded : Type 0 where
  pub bytes : List ℕ
  pub mode : ℕ
  pub left : ℕ
  pub rest : Text

-- `vchRet.push_back(b)`, before the bytes that follow.
abbrev pub push : ℕ → Decoded → Decoded
push b d = record d { bytes = (b % 2 ^ 8) ∷ d.bytes }

-- The loop of `DecodeBase64`, from `mode` on; a fifth mode does not come up.
unfoldable pub decode64_loop : ℕ → ℕ → Text → Decoded
unfolding digit64
decode64_loop mode left [] = record { bytes = []; mode = mode; left = left; rest = [] }
decode64_loop zero left (c ∷ s) = elim (digit64 c) [
  | none ↦ record { bytes = []; mode = 0; left = left; rest = c ∷ s }
  | some d ↦ decode64_loop 1 d s
]
decode64_loop (suc zero) left (c ∷ s) = elim (digit64 c) [
  | none ↦ record { bytes = []; mode = 1; left = left; rest = c ∷ s }
  | some d ↦ push (bit_or (left * 2 ^ 2) (d / 2 ^ 4)) (decode64_loop 2 (bit_and d 15) s)
]
decode64_loop (suc (suc zero)) left (c ∷ s) = elim (digit64 c) [
  | none ↦ record { bytes = []; mode = 2; left = left; rest = c ∷ s }
  | some d ↦ push (bit_or (left * 2 ^ 4) (d / 2 ^ 2)) (decode64_loop 3 (bit_and d 3) s)
]
decode64_loop (suc (suc (suc zero))) left (c ∷ s) = elim (digit64 c) [
  | none ↦ record { bytes = []; mode = 3; left = left; rest = c ∷ s }
  | some d ↦ push (bit_or (left * 2 ^ 6) d) (decode64_loop 0 left s)
]
decode64_loop (suc (suc (suc (suc mode)))) left (c ∷ s) = elim (digit64 c) [
  | none ↦ record { bytes = []; mode = suc (suc (suc (suc mode))); left = left; rest = c ∷ s }
  | some d ↦ decode64_loop (suc (suc (suc (suc mode)))) left s
]

-- `p[k]` is `=`.
abbrev pub pad_at : Text → ℕ → Bool
pad_at p k = get_or p k 0 == b'='

-- `p[k]` is no digit.
abbrev pub ends_at : Text → ℕ → Bool
ends_at p k = elim (digit64 (get_or p k 0)) [ none ↦ true | some d ↦ false ]

-- The flag that `DecodeBase64` sets, negated.
unfoldable pub valid64 : Decoded → Bool
unfolding digit64
valid64 d =
    if d.mode == 0
    then true
    else (if d.mode == 1
        then false
        else (if d.mode == 2
            then d.left == 0 && pad_at d.rest 0 && pad_at d.rest 1 && ends_at d.rest 2
            else (if d.mode == 3
                then d.left == 0 && pad_at d.rest 0 && ends_at d.rest 1
                else true)))

-- `DecodeBase64` with the flag, which says that the text is invalid.
unfoldable pub decode64 : Text → List ℕ × Bool
unfolding decode64_loop valid64
decode64 s = let d = decode64_loop 0 0 s in (d.bytes, not (valid64 d))
