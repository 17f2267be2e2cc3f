-- ===== src/CpuMiner/Examples.antt =====
-- energiminer/CpuMiner.cpp: a search that submits the third nonce it tries.
use gen2_energiminer.Common.{ℕ, ◌≡◌, ◌==◌, refl, Bool, some, arith}
use gen2_energiminer.CpuMiner.{start_at, search, search_round}
use gen2_energiminer.CpuMiner.Search.{Clear, Outcome, search-Outcome}
use gen2_energiminer.CpuMiner.Finds.{undisturbed, search_finds}

-- Only the nonce 9999 hashes to a value below the target.
abbrev below : ℕ → Bool
below n = n == 9999

-- Three nonces are tried, and six are counted: the call before the submission counts the three, and
-- the one after the loop counts them again.
search_counts : (search below (undisturbed 3) (start_at 9997)).counted ≡ 6
unfolding search search_round
search_counts = refl

search-Outcome_example : Outcome below 9997 (search below (undisturbed 5) (start_at 9997))
search-Outcome_example = search-Outcome below 9997 (undisturbed 5) (omega arith) (omega arith)

below-Clear : Clear below 9997 9999
below-Clear y lo hi = ground (arith, lo, hi)

search_finds_example : (search below (undisturbed 3) (start_at 9997)).found ≡ some 9999
search_finds_example = search_finds below 9997 2 (omega arith) below-Clear refl
