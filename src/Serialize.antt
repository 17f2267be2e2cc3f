-- ===== src/Serialize.antt =====
-- common/serialize.h: integers as bytes, and the compact form of a size. A stream is the list of the
-- bytes that are left in it; `none` is the failure that the source throws.
pub mod CompactSize
pub mod OneForm
pub mod VarInt
mod Examples
use gen2_energiminer.Common.{
  ℕ, zero, suc, ◌+◌, ◌*◌, ◌/◌, ◌%◌, List, [], ◌∷◌, ◌++◌, Option, none, some, ltb, leb, ◌==◌,
  if◌then◌else◌,
}

-- `ser_writedata8`, 16, 32 and 64, of as many bytes.
unfoldable pub write_data : ℕ → ℕ → List ℕ
write_data zero obj = []
write_data (suc k) obj = obj % 256 ∷ write_data k (obj / 256)

above : ℕ → Option (ℕ × List ℕ) → Option (ℕ × List ℕ)
above b none = none
above b (some (high, rest)) = some (b + 256 * high, rest)

-- `ser_readdata8`, 16, 32 and 64; reading past the end is a failure.
unfoldable pub read_data : ℕ → List ℕ → Option (ℕ × List ℕ)
unfolding above
read_data zero s = some (0, s)
read_data (suc k) [] = none
read_data (suc k) (b ∷ s) = above b (read_data k s)

-- `MAX_SIZE`.
abbrev pub max_size : ℕ
max_size = 0x02000000

-- `GetSizeOfCompactSize`.
unfoldable pub size_of_compact_size : ℕ → ℕ
size_of_compact_size n =
    if ltb n 253
    then 1
    else (if leb n 0xffff then 1 + 2 else (if leb n 0xffffffff then 1 + 4 else 1 + 8))

-- `WriteCompactSize`: the bytes that it writes.
unfoldable pub write_compact_size : ℕ → List ℕ
unfolding write_data
write_compact_size n =
    if ltb n 253
    then write_data 1 n
    else (if leb n 0xffff
        then write_data 1 253 ++ write_data 2 n
        else (if leb n 0xffffffff
            then write_data 1 254 ++ write_data 4 n
            else write_data 1 255 ++ write_data 8 n))

-- The longer forms: a number that a shorter form has is not canonical.
unfoldable pub canonical : ℕ → Option (ℕ × List ℕ) → Option (ℕ × List ℕ)
canonical least none = none
canonical least (some (n, rest)) = if ltb n least then none else some (n, rest)

unfoldable pub within_limit : Option (ℕ × List ℕ) → Option (ℕ × List ℕ)
within_limit none = none
within_limit (some (n, rest)) = if ltb max_size n then none else some (n, rest)

unfoldable pub read_size : Option (ℕ × List ℕ) → Option (ℕ × List ℕ)
unfolding canonical read_data
read_size none = none
read_size (some (ch, s)) =
    if ltb ch 253
    then some (ch, s)
    else (if ch == 253
        then canonical 253 (read_data 2 s)
        else (if ch == 254
            then canonical 0x10000 (read_data 4 s)
            else canonical 0x100000000 (read_data 8 s)))

-- `ReadCompactSize`.
unfoldable pub read_compact_size : List ℕ → Option (ℕ × List ℕ)
unfolding within_limit read_size read_data
read_compact_size s = within_limit (read_size (read_data 1 s))
