-- ===== src/Serialize/OneForm.antt =====
-- common/serialize.h: `ReadCompactSize` takes no bytes but those that `WriteCompactSize` writes.
use native.Mathlib.Nat.{pow-succ'}
use mathlib.Core.Option.{some-injective, none-ne-some}
use gen2_energiminer.Common.{
  ℕ, zero, suc, ◌+◌, ◌*◌, ◌/◌, ◌%◌, ◌^◌, ◌<◌, ◌≤◌, ◌≡◌, refl, ap, ap₂, sym, ◌∙◌, subst, List, [],
  ◌∷◌, ◌++◌, Option, none, some, ltb, leb, ◌==◌, Bool, true, false, Option-cases, inl, inr, ◌⊎◌,
  arith, Bytes, if◌then◌else◌,
}
use gen2_energiminer.Serialize.{
  write_data, read_data, write_compact_size, read_compact_size, within_limit, read_size, canonical,
  max_size, above,
}
use gen2_energiminer.Serialize.CompactSize.{append_assoc}

-- The bytes `s` are the `k` bytes of `n` and then `rest`, which are bytes too.
record Starts (k n : ℕ) (s rest : List ℕ) : Type 0 where
  below : n < 256 ^ k
  bytes : s ≡ write_data k n ++ rest
  left : Bytes rest

digit : (b m : ℕ) → b < 256 → ((b + 256 * m) % 256 ≡ b) × ((b + 256 * m) / 256 ≡ m)
digit b m h = (omega (arith, h), omega (arith, h))

one_more :
    (k b m : ℕ) (s rest : List ℕ)
    → b < 256
    → Starts k m s rest
    → Starts (suc k) (b + 256 * m) (b ∷ s) rest
unfolding write_data
one_more k b m s rest hb e =
    let (low, high) = digit b m hb in
    record {
      below = omega (arith, hb, e.below, pow-succ' 256 k);
      bytes = rw (low, high) (ap (λ t. b ∷ t) e.bytes);
      left = e.left;
    }

read_data-Starts :
    (k n : ℕ) (s rest : List ℕ) → Bytes s → read_data k s ≡ some (n, rest) → Starts k n s rest
unfolding read_data write_data above
read_data-Starts zero n s rest hs h =
    let same = some-injective (0, s) (n, rest) h in
    subst (λ (p : ℕ × List ℕ). Starts 0 p.0 s p.1) same
      (record { below = omega arith; bytes = refl; left = hs })
read_data-Starts (suc k) n [] rest hs h = absurd (none-ne-some (n, rest) h)
read_data-Starts (suc k) n (b ∷ s) rest (hb, hs) h = elim (Option-cases (read_data k s)) [
  | inl e ↦ absurd (none-ne-some (n, rest) (subst (λ o. above b o ≡ some (n, rest)) e h))
  | inr ((m, r), e) ↦
      let whole = subst (λ o. above b o ≡ some (n, rest)) e h in
      let same = some-injective (b + 256 * m, r) (n, rest) whole in
      subst (λ (p : ℕ × List ℕ). Starts (suc k) p.0 (b ∷ s) p.1) same
        (one_more k b m s r hb (read_data-Starts k m s r hs e))
]

branch {ℓ} :
    {A : Type ℓ} (b : Bool) (x y z : A)
    → (if b then x else y) ≡ z
    → ((b ≡ true) × (x ≡ z)) ⊎ ((b ≡ false) × (y ≡ z))
branch true x y z h = inl (refl, h)
branch false x y z h = inr (refl, h)

guarded {ℓ} :
    {A : Type ℓ} (b : Bool) (q p : A)
    → (if b then none else some q) ≡ some p
    → (b ≡ false) × (q ≡ p)
guarded true q p h = absurd (none-ne-some p h)
guarded false q p h = (refl, some-injective q p h)

canonical_given :
    (least n : ℕ) (rest : List ℕ) (o : Option (ℕ × List ℕ))
    → canonical least o ≡ some (n, rest)
    → (o ≡ some (n, rest)) × (ltb n least ≡ false)
unfolding canonical
canonical_given least n rest none h = absurd (none-ne-some (n, rest) h)
canonical_given least n rest (some (m, r)) h =
    let (e, same) = guarded (ltb m least) (m, r) (n, rest) h in
    (ap some same, subst (λ (p : ℕ × List ℕ). ltb p.0 least ≡ false) same e)

within_given :
    (n : ℕ) (rest : List ℕ) (o : Option (ℕ × List ℕ))
    → within_limit o ≡ some (n, rest)
    → (o ≡ some (n, rest)) × (n ≤ max_size)
unfolding within_limit
within_given n rest none h = absurd (none-ne-some (n, rest) h)
within_given n rest (some (m, r)) h =
    let (e, same) = guarded (ltb max_size m) (m, r) (n, rest) h in
    let less : m ≤ max_size = ground (arith, e) in
    (ap some same, subst (λ (p : ℕ × List ℕ). p.0 ≤ max_size) same less)

-- The tag and the longer form after it are those that `write_compact_size` writes.
long_form :
    (tag k least n : ℕ) (s r rest : List ℕ)
    → write_compact_size n ≡ write_data 1 tag ++ write_data k n
    → s ≡ write_data 1 tag ++ r
    → r ≡ write_data k n ++ rest
    → s ≡ write_compact_size n ++ rest
long_form tag k least n s r rest w e f =
    e
    ∙ ap (λ t. write_data 1 tag ++ t) f
    ∙ sym (append_assoc (write_data 1 tag) (write_data k n) rest)
    ∙ ap (λ t. t ++ rest) (sym w)

module _ (n : ℕ) where
  writes_one : ltb n 253 ≡ true → write_compact_size n ≡ write_data 1 n
  unfolding write_compact_size
  writes_one a = rw a refl

  writes_two :
      ltb n 253 ≡ false → n < 256 ^ 2 → write_compact_size n ≡ write_data 1 253 ++ write_data 2 n
  unfolding write_compact_size
  writes_two a lt = let b : leb n 0xffff ≡ true = ground (arith, lt) in rw (a, b) refl

  writes_four :
      ltb n 0x10000 ≡ false
      → n < 256 ^ 4
      → write_compact_size n ≡ write_data 1 254 ++ write_data 4 n
  unfolding write_compact_size
  writes_four least lt =
      let a : ltb n 253 ≡ false = ground (arith, least) in
      let b : leb n 0xffff ≡ false = ground (arith, least) in
      let c : leb n 0xffffffff ≡ true = ground (arith, lt) in rw (a, b, c) refl

  writes_eight :
      ltb n 0x100000000 ≡ false → write_compact_size n ≡ write_data 1 255 ++ write_data 8 n
  unfolding write_compact_size
  writes_eight least =
      let a : ltb n 253 ≡ false = ground (arith, least) in
      let b : leb n 0xffff ≡ false = ground (arith, least) in
      let c : leb n 0xffffffff ≡ false = ground (arith, least) in rw (a, b, c) refl

  -- The stream holds what `write_compact_size` writes, and then `rest`.
  abbrev Holds : List ℕ → List ℕ → Type 0
  Holds s rest = s ≡ write_compact_size n ++ rest

  longer :
      (tag k least : ℕ) (s r rest : List ℕ)
      → (ltb n least ≡ false
          → n < 256 ^ k
          → write_compact_size n ≡ write_data 1 tag ++ write_data k n)
      → Bytes r
      → s ≡ write_data 1 tag ++ r
      → canonical least (read_data k r) ≡ some (n, rest)
      → Holds s rest
  longer tag k least s r rest writes hr e h =
      let (given, enough) = canonical_given least n rest (read_data k r) h in
      let starts = read_data-Starts k n r rest hr given in
      long_form tag k least n s r rest (writes enough starts.below) e starts.bytes

  tagged :
      (tag ch : ℕ) (s r : List ℕ) → (ch == tag) ≡ true → Starts 1 ch s r → s ≡ write_data 1 tag ++ r
  tagged tag ch s r h e =
      let same : ch ≡ tag = ground (arith, h) in e.bytes ∙ ap (λ (t : ℕ). write_data 1 t ++ r) same

  by_tag :
      (ch : ℕ) (s r rest : List ℕ)
      → Starts 1 ch s r
      → read_size (some (ch, r)) ≡ some (n, rest)
      → Holds s rest
  unfolding read_size
  by_tag ch s r rest e h = elim (branch (ltb ch 253) _ _ (some (n, rest)) h) [
    | inl (a, given) ↦
        let same = some-injective (ch, r) (n, rest) given in
        let number : ch ≡ n = ap (λ (p : ℕ × List ℕ). p.0) same in
        let left : r ≡ rest = ap (λ (p : ℕ × List ℕ). p.1) same in
        let less : ltb n 253 ≡ true = ap (λ (t : ℕ). ltb t 253) (sym number) ∙ a in
        e.bytes
        ∙ ap₂ (λ (t : ℕ) (u : List ℕ). write_data 1 t ++ u) number left
        ∙ ap (λ t. t ++ rest) (sym (writes_one less))
    | inr (a, h₁) ↦ elim (branch (ch == 253) _ _ (some (n, rest)) h₁) [
      | inl (b, h₂) ↦ longer 253 2 253 s r rest writes_two e.left (tagged 253 ch s r b e) h₂
      | inr (b, h₂) ↦ elim (branch (ch == 254) _ _ (some (n, rest)) h₂) [
        | inl (c, h₃) ↦ longer 254 4 0x10000 s r rest writes_four e.left (tagged 254 ch s r c e) h₃
        | inr (c, h₃) ↦
            let last : (ch == 255) ≡ true = ground (arith, a, b, c, e.below) in
            longer 255 8 0x100000000 s r rest (λ least lt. writes_eight least) e.left
              (tagged 255 ch s r last e) h₃
      ]
    ]
  ]

-- What `ReadCompactSize` reads from bytes is at most MAX_SIZE, and the bytes that it took are the ones
-- that `WriteCompactSize` writes for it: no size has a second form.
pub read_compact_size_one_form :
    (n : ℕ) (s rest : List ℕ)
    → Bytes s
    → read_compact_size s ≡ some (n, rest)
    → (n ≤ max_size) × (s ≡ write_compact_size n ++ rest)
unfolding read_compact_size
read_compact_size_one_form n s rest hs h =
    let (given, limit) = within_given n rest (read_size (read_data 1 s)) h in
    elim (Option-cases (read_data 1 s)) [
      | inl e ↦ absurd (none-ne-some (n, rest) (subst (λ o. read_size o ≡ some (n, rest)) e given))
      | inr ((ch, r), e) ↦
          let found = subst (λ o. read_size o ≡ some (n, rest)) e given in
          (limit, by_tag n ch s r rest (read_data-Starts 1 ch s r hs e) found)
    ]
