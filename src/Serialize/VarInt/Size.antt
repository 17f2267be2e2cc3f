-- ===== src/Serialize/VarInt/Size.antt =====
-- common/serialize.h: `GetSizeOfVarInt` counts the bytes of `WriteVarInt`.
use Prim.Native.Nat.{bit_and, bit_or}
use mathlib.Core.Option
use gen2_energiminer.Common.{
  ℕ, zero, suc, ◌+◌, ◌-◌, ◌/◌, ◌^◌, ◌≡◌, refl, ap, ◌∙◌, Bool, true, false, List, [], ◌∷◌, some, leb,
  if◌then◌else◌, Bool-cases, inl, inr, arith, length,
}
use gen2_energiminer.Serialize.VarInt.{
  write_var_int_loop, write_var_int, size_of_var_int_loop, size_of_var_int,
}

counts :
    (room : ℕ) (first : Bool) (n : ℕ) (later : List ℕ)
    → size_of_var_int_loop room n (length later)
      ≡ Option.map length (write_var_int_loop room first n later)
unfolding write_var_int_loop size_of_var_int_loop
counts zero first n later = refl
counts (suc room) first n later =
    let digit = bit_or (bit_and n 0x7f) (if first then 0x00 else 0x80) in
    let one_more : length later + 1 ≡ length (digit ∷ later) = omega arith in
    elim (Bool-cases (leb n 0x7f)) [
      | inl e ↦ rw e (ap (λ (t : ℕ). some t) one_more)
      | inr e ↦ rw e (
          ap (λ (t : ℕ). size_of_var_int_loop room (n / 2 ^ 7 - 1) t) one_more
          ∙ counts room false (n / 2 ^ 7 - 1) (digit ∷ later))
    ]

-- `GetSizeOfVarInt` gives the number of bytes that `WriteVarInt` writes.
pub size_of_var_int_lem : (n : ℕ) → size_of_var_int n ≡ Option.map length (write_var_int n)
unfolding write_var_int size_of_var_int
size_of_var_int_lem n = counts 10 true n []
