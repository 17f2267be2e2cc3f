-- ===== src/Serialize/Examples.antt =====
-- common/serialize.h on concrete bytes.
use gen2_energiminer.Common.{length, ℕ, ◌≤◌, ◌≡◌, refl, List, [], ◌∷◌, ◌++◌, none, some, arith}
use gen2_energiminer.Serialize.{write_compact_size, read_compact_size, max_size}
use gen2_energiminer.Serialize.CompactSize.{read_compact_size-write_compact_size}
use gen2_energiminer.Serialize.OneForm.{read_compact_size_one_form}
use gen2_energiminer.Serialize.VarInt.{size_of_var_int, write_var_int, read_var_int}
use gen2_energiminer.Serialize.VarInt.Back.{read_var_int-write_var_int}

abbrev followed : List ℕ
followed = 253 ∷ 0 ∷ 1 ∷ 9 ∷ []

write_compact_size_runs : write_compact_size 70000 ≡ 254 ∷ 112 ∷ 17 ∷ 1 ∷ 0 ∷ []
unfolding write_compact_size
write_compact_size_runs = refl

followed_read : read_compact_size followed ≡ some (256, 9 ∷ [])
unfolding read_compact_size
followed_read = refl

-- A size below 253 in three bytes is refused.
not_canonical : read_compact_size (253 ∷ 1 ∷ 0 ∷ []) ≡ none
unfolding read_compact_size
not_canonical = refl

read_compact_size-write_compact_size_example :
    read_compact_size (write_compact_size 70000 ++ 9 ∷ []) ≡ some (70000, 9 ∷ [])
read_compact_size-write_compact_size_example =
    read_compact_size-write_compact_size 70000 (9 ∷ []) (omega arith)

read_compact_size_one_form_example :
    (256 ≤ max_size) × (followed ≡ write_compact_size 256 ++ 9 ∷ [])
read_compact_size_one_form_example =
    read_compact_size_one_form 256 followed (9 ∷ [])
      (omega arith, (omega arith, (omega arith, (omega arith, tt)))) followed_read

write_var_int_runs : write_var_int 65535 ≡ some (0x82 ∷ 0xfe ∷ 0x7f ∷ [])
unfolding write_var_int
write_var_int_runs = refl

read_var_int-write_var_int_example :
    (out : List ℕ) × (write_var_int 65535 ≡ some out)
    × (size_of_var_int 65535 ≡ some (length out))
    × (read_var_int (out ++ 9 ∷ []) ≡ some (65535, 9 ∷ []))
read_var_int-write_var_int_example = read_var_int-write_var_int 65535 (9 ∷ []) (omega arith)
