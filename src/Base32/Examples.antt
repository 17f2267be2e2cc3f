-- ===== src/Base32/Examples.antt =====
-- common/utilstrencodings.cpp: base 32 on short texts.
use gen2_energiminer.Common.{◌≡◌, refl, true, false, [], ◌∷◌, codes, arith}
use gen2_energiminer.Base32.{encode32, decode32}
use gen2_energiminer.Base32.Back.{decode32-encode32}

encode32_runs : encode32 (codes "foobar") ≡ codes "mzxw6ytboi======"
unfolding encode32
encode32_runs = refl

decode32_runs : decode32 (codes "MZXW6ytboi======") ≡ (codes "foobar", false)
unfolding decode32
decode32_runs = refl

unpadded : decode32 (codes "mzxw6ytboi=====") ≡ (codes "foobar", true)
unfolding decode32
unpadded = refl

decode32-encode32_example : decode32 (encode32 (1 ∷ 255 ∷ 7 ∷ [])) ≡ (1 ∷ 255 ∷ 7 ∷ [], false)
decode32-encode32_example =
    decode32-encode32 (1 ∷ 255 ∷ 7 ∷ []) (omega arith, (omega arith, (omega arith, tt)))
