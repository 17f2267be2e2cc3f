-- ===== src/Serialize/VarInt/Back.antt =====
-- common/serialize.h: `ReadVarInt` reads back what `WriteVarInt` writes.
use native.Mathlib.Nat.{pow-succ'}
use mathlib.Core.Option
use gen2_energiminer.Serialize.VarInt.Size.{size_of_var_int_lem}
use Prim.Native.Nat.{bit_and, bit_or}
use gen2_energiminer.Common.{
  length, ℕ, zero, suc, ◌+◌, ◌-◌, ◌*◌, ◌/◌, ◌%◌, ◌^◌, ◌<◌, ◌≤◌, ◌≡◌, refl, ap, ap₂, ◌∙◌, Bool, true,
  false, List, [], ◌∷◌, ◌++◌, some, u64, leb, ◌==◌, if◌then◌else◌, Bool-cases, inl, inr, arith,
  bit_and_bit, bit_and_mask, bit_or_bit, bit_or_below,
}
use gen2_energiminer.Serialize.VarInt.{
  size_of_var_int, write_var_int_loop, write_var_int, read_var_int_loop, read_var_int,
}

-- A digit with or without the mark that another follows.
abbrev digit : Bool → ℕ → ℕ
digit first n = bit_or (bit_and n 0x7f) (if first then 0x00 else 0x80)

last_digit : (n : ℕ) → digit true n ≡ n % 128
last_digit n =
    ap (λ (t : ℕ). bit_or t 0) (bit_and_mask 7 n)
    ∙ bit_or_below 0 (n % 128) 0 (omega arith) (omega arith)
    ∙ omega arith

marked_digit : (n : ℕ) → digit false n ≡ n % 128 + 128
marked_digit n =
    ap (λ (t : ℕ). bit_or t 0x80) (bit_and_mask 7 n) ∙ bit_or_bit 7 (n % 128) (omega arith)

unmarked : (d : ℕ) → d < 128 → bit_and d 0x80 ≡ 0
unmarked d h = bit_and_bit 7 d ∙ omega (arith, h)

marked : (d : ℕ) → d < 128 → bit_and (d + 128) 0x80 ≡ 0x80
marked d h = bit_and_bit 7 (d + 128) ∙ omega (arith, h)

module _ (n : ℕ) (hn : n < 2 ^ 64) where
  joined : (ch : ℕ) → ch % 128 ≡ n % 128 → bit_or (u64 (n / 128 * 2 ^ 7)) (bit_and ch 0x7f) ≡ n
  joined ch e =
      let fits : u64 (n / 128 * 2 ^ 7) ≡ n / 128 * 2 ^ 7 = omega (arith, hn) in
      let low : bit_and ch 0x7f ≡ n % 128 = bit_and_mask 7 ch ∙ e in
      ap₂ bit_or fits low
      ∙ bit_or_below 7 (n / 128 * 2 ^ 7) (n % 128) (omega arith) (omega arith)
      ∙ omega arith

  read_last : (s : List ℕ) → read_var_int_loop (n / 128) (digit true n ∷ s) ≡ some (n, s)
  unfolding read_var_int_loop
  read_last s =
      let bit : (bit_and (n % 128) 0x80 == 0) ≡ true =
        ap (λ (t : ℕ). t == 0) (unmarked (n % 128) (omega arith)) in
      let sum = joined (n % 128) (omega arith) in rw (last_digit n, bit, sum) refl

  read_marked :
      n + 1 < 2 ^ 64
      → (s : List ℕ) → read_var_int_loop (n / 128) (digit false n ∷ s) ≡ read_var_int_loop (n + 1) s
  unfolding read_var_int_loop
  read_marked h s =
      let bit : (bit_and (n % 128 + 128) 0x80 == 0) ≡ false =
        ap (λ (t : ℕ). t == 0) (marked (n % 128) (omega arith)) in
      let sum = joined (n % 128 + 128) (omega arith) in
      let fits : u64 (n + 1) ≡ n + 1 = omega (arith, h) in rw (marked_digit n, bit, sum, fits) refl

-- With room for `n`, the loop writes digits that lead back to `n + 1` before `later`.
later_digits :
    (room n : ℕ) (later rest : List ℕ)
    → n + 1 < 128 ^ room
    → n + 1 < 2 ^ 64
    → (out : List ℕ) × (write_var_int_loop room false n later ≡ some out)
      × (read_var_int_loop 0 (out ++ rest) ≡ read_var_int_loop (n + 1) (later ++ rest))
unfolding write_var_int_loop
later_digits zero n later rest h hn = absurd (omega (arith, h))
later_digits (suc room) n later rest h hn = elim (Bool-cases (leb n 0x7f)) [
  | inl e ↦
      let start : 0 ≡ n / 128 = ground (arith, e) in
      rw e (
        digit false n ∷ later,
        refl,
        ap (λ (t : ℕ). read_var_int_loop t (digit false n ∷ later ++ rest)) start
            ∙ read_marked n (omega (arith, hn)) hn (later ++ rest),
      )
  | inr e ↦
      let big : 128 ≤ n = ground (arith, e) in
      let up : n / 128 - 1 + 1 ≡ n / 128 = omega (arith, big) in
      let less : n / 128 - 1 + 1 < 128 ^ room = omega (arith, h, big, pow-succ' 128 room) in
      let (out, writes, reads) =
        later_digits room (n / 128 - 1) (digit false n ∷ later) rest less (omega (arith, hn)) in
      rw e (
        out,
        writes,
        reads
            ∙ ap (λ (t : ℕ). read_var_int_loop t (digit false n ∷ later ++ rest)) up
            ∙ read_marked n (omega (arith, hn)) hn (later ++ rest),
      )
]

written_then_read :
    (n : ℕ) (rest : List ℕ)
    → n < 2 ^ 64
    → (out : List ℕ) × (write_var_int n ≡ some out) × (read_var_int (out ++ rest) ≡ some (n, rest))
unfolding write_var_int read_var_int
written_then_read n rest hn = elim (Bool-cases (leb n 0x7f)) [
  | inl e ↦
      let start : 0 ≡ n / 128 = ground (arith, e) in
      rw e (
        digit true n ∷ [],
        refl,
        ap (λ (t : ℕ). read_var_int_loop t (digit true n ∷ rest)) start ∙ read_last n hn rest,
      )
  | inr e ↦
      let big : 128 ≤ n = ground (arith, e) in
      let up : n / 128 - 1 + 1 ≡ n / 128 = omega (arith, big) in
      let (out, writes, reads) =
        later_digits 9 (n / 128 - 1) (digit true n ∷ []) rest (omega (arith, hn))
          (omega (arith, hn)) in
      rw e (
        out,
        writes,
        reads ∙ ap (λ (t : ℕ). read_var_int_loop t (digit true n ∷ rest)) up ∙ read_last n hn rest,
      )
]

-- Of every 64-bit number, `WriteVarInt` writes bytes, within the array `tmp`, as many as
-- `GetSizeOfVarInt` says; and `ReadVarInt` reads the number back from them, with what follows them
-- left in the stream.
pub read_var_int-write_var_int :
    (n : ℕ) (rest : List ℕ)
    → n < 2 ^ 64
    → (out : List ℕ) × (write_var_int n ≡ some out)
      × (size_of_var_int n ≡ some (length out))
      × (read_var_int (out ++ rest) ≡ some (n, rest))
read_var_int-write_var_int n rest hn =
    let (out, writes, reads) = written_then_read n rest hn in
    (out, writes, size_of_var_int_lem n ∙ ap (Option.map length) writes, reads)
