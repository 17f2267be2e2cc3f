-- ===== src/Serialize/VarInt.antt =====
-- common/serialize.h: the variable-length integers, of type `uint64_t`.
pub mod Back
pub mod Size
use Prim.Native.Nat.{bit_and, bit_or}
use gen2_energiminer.Common.{
  ℕ, zero, suc, ◌+◌, ◌-◌, ◌*◌, ◌/◌, Bool, true, false, List, [], ◌∷◌, Option, none, some, u64, leb,
  ◌^◌, ◌==◌, if◌then◌else◌,
}

-- The loop of `GetSizeOfVarInt`; `none` is more rounds than the fuel.
unfoldable pub size_of_var_int_loop : ℕ → ℕ → ℕ → Option ℕ
size_of_var_int_loop zero n size = none
size_of_var_int_loop (suc fuel) n size =
    let rest = size_of_var_int_loop fuel (n / 2 ^ 7 - 1) (size + 1) in
    if leb n 0x7f then some (size + 1) else rest

-- The places in the array `tmp`, which are as many rounds as a 64-bit number takes.
abbrev pub tmp_size : ℕ
tmp_size = (8 * 8 + 6) / 7

unfoldable pub size_of_var_int : ℕ → Option ℕ
unfolding size_of_var_int_loop
size_of_var_int n = size_of_var_int_loop tmp_size n 0

-- The loop of `WriteVarInt`. `first` says that `len` is 0; `later` is `tmp` below `len`, in the order
-- in which it is written. `none` is a write past the end of `tmp`.
unfoldable pub write_var_int_loop : ℕ → Bool → ℕ → List ℕ → Option (List ℕ)
write_var_int_loop zero first n later = none
write_var_int_loop (suc room) first n later =
    let digit = bit_or (bit_and n 0x7f) (if first then 0x00 else 0x80) in
    let rest = write_var_int_loop room false (n / 2 ^ 7 - 1) (digit ∷ later) in
    if leb n 0x7f then some (digit ∷ later) else rest

-- `WriteVarInt`: the bytes that it writes.
unfoldable pub write_var_int : ℕ → Option (List ℕ)
unfolding write_var_int_loop
write_var_int n = write_var_int_loop tmp_size true n []

-- The loop of `ReadVarInt`.
unfoldable pub read_var_int_loop : ℕ → List ℕ → Option (ℕ × List ℕ)
read_var_int_loop n [] = none
read_var_int_loop n (ch ∷ s) =
    let m = bit_or (u64 (n * 2 ^ 7)) (bit_and ch 0x7f) in
    let rest = read_var_int_loop (u64 (m + 1)) s in
    if bit_and ch 0x80 == 0 then some (m, s) else rest

unfoldable pub read_var_int : List ℕ → Option (ℕ × List ℕ)
unfolding read_var_int_loop
read_var_int s = read_var_int_loop 0 s
