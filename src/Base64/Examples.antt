-- ===== src/Base64/Examples.antt =====
-- common/utilstrencodings.cpp: base 64 on short texts.
use gen2_energiminer.Common.{◌≡◌, refl, true, false, [], ◌∷◌, codes, arith}
use gen2_energiminer.Base64.{encode64, decode64}
use gen2_energiminer.Base64.Back.{decode64-encode64}

encode64_runs : encode64 (codes "any carnal pleas") ≡ codes "YW55IGNhcm5hbCBwbGVhcw=="
unfolding encode64
encode64_runs = refl

decode64_runs : decode64 (codes "YW55IGNhcm5hbCBwbGVhcw==") ≡ (codes "any carnal pleas", false)
unfolding decode64
decode64_runs = refl

unpadded : decode64 (codes "YW55IGNhcm5hbCBwbGVhcw=") ≡ (codes "any carnal pleas", true)
unfolding decode64
unpadded = refl

decode64-encode64_example :
    decode64 (encode64 (1 ∷ 255 ∷ 7 ∷ 3 ∷ [])) ≡ (1 ∷ 255 ∷ 7 ∷ 3 ∷ [], false)
decode64-encode64_example =
    decode64-encode64 (1 ∷ 255 ∷ 7 ∷ 3 ∷ [])
      (omega arith, (omega arith, (omega arith, (omega arith, tt))))
