-- ===== src/Miner/Hashes.antt =====
-- What `RetrieveHashRateDiff` says of the hashes counted since its last call.
use gen2_energiminer.Common.{
  ℕ, ◌+◌, ◌-◌, ◌^◌, ◌%◌, ◌≡◌, ◌<◌, ◌≤◌, refl, List, [], ◌∷◌, arith, ap, ◌∙◌, u64, ltb,
  if◌then◌else◌,
}
use gen2_energiminer.Miner.{Miner, update_hash_rate, retrieve_hash_rate_diff}

-- The miner after the counts `ns`.
abbrev pub count_all : List ℕ → Miner → Miner
count_all [] m = m
count_all (n ∷ ns) m = count_all ns (update_hash_rate n m)

abbrev pub total : List ℕ → ℕ
total [] = 0
total (n ∷ ns) = n + total ns

count_all-count :
    (ns : List ℕ) (m : Miner)
    → m.hash_rate_count < 2 ^ 64
    → ((count_all ns m).hash_rate_count ≡ (m.hash_rate_count + total ns) % 2 ^ 64)
      × ((count_all ns m).hash_rate_last ≡ m.hash_rate_last)
unfolding update_hash_rate
count_all-count [] m h = (omega arith, refl)
count_all-count (n ∷ ns) m h =
    let (e, f) = count_all-count ns (update_hash_rate n m) (omega arith) in (e ∙ omega arith, f)

wrapped_diff :
    (a t d : ℕ) → a < 2 ^ 64 → t < 2 ^ 64 → d ≡ ((a + t) % 2 ^ 64 + 2 ^ 64 - a) % 2 ^ 64 → d ≡ t
wrapped_diff a t d ha ht e = omega arith

-- The difference as the code corrects it.
abbrev pub corrected : ℕ → ℕ
corrected d = if ltb (2 ^ 32 - 1) d then u64 (d + 2 ^ 64 - (2 ^ 64 - 1)) else d

retrieved :
    (m : Miner) (a t : ℕ)
    → m.hash_rate_count ≡ (a + t) % 2 ^ 64
    → m.hash_rate_last ≡ a
    → a < 2 ^ 64
    → t < 2 ^ 64
    → (retrieve_hash_rate_diff m).1 ≡ corrected t
unfolding retrieve_hash_rate_diff
retrieved m a t e f ha ht =
    ap corrected (
      wrapped_diff a t (u64 (m.hash_rate_count + 2 ^ 64 - m.hash_rate_last)) ha ht (rw (e, f) refl))

-- After a call, the next one returns the sum of the counts in between, with its correction.
next_diff :
    (ns : List ℕ) (m : Miner)
    → m.hash_rate_count < 2 ^ 64
    → total ns < 2 ^ 64
    → (retrieve_hash_rate_diff (count_all ns (retrieve_hash_rate_diff m).0)).1
      ≡ corrected (total ns)
unfolding retrieve_hash_rate_diff
next_diff ns m h t =
    let start = (retrieve_hash_rate_diff m).0 in
    let (e, f) = count_all-count ns start h in
    retrieved (count_all ns start) m.hash_rate_count (total ns) e f h t

-- A call returns exactly the hashes counted since the call before it, even if the counter has
-- wrapped, when these are fewer than 2 ^ 32.
pub diff_exact :
    (ns : List ℕ) (m : Miner)
    → m.hash_rate_count < 2 ^ 64
    → total ns < 2 ^ 32
    → (retrieve_hash_rate_diff (count_all ns (retrieve_hash_rate_diff m).0)).1 ≡ total ns
diff_exact ns m h t = next_diff ns m h (omega (arith, t)) ∙ ground (arith, t)

-- When 2 ^ 32 or more hashes have been counted since the call before, but fewer than 2 ^ 64 - 1, a
-- call returns one hash too many.
pub diff_one_too_many :
    (ns : List ℕ) (m : Miner)
    → m.hash_rate_count < 2 ^ 64
    → 2 ^ 32 ≤ total ns
    → total ns < 2 ^ 64 - 1
    → (retrieve_hash_rate_diff (count_all ns (retrieve_hash_rate_diff m).0)).1 ≡ total ns + 1
diff_one_too_many ns m h lo hi = next_diff ns m h (omega (arith, hi)) ∙ ground (arith, lo, hi)
