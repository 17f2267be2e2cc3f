-- ===== src/CpuMiner/Finds.antt =====
-- A search that is not disturbed finds the first nonce below the target.
use gen2_energiminer.Common.{
  ℕ, suc, ◌+◌, ◌^◌, ◌<◌, ◌≡◌, refl, Bool, true, false, List, [], some, arith, ◌∙◌, ap, replicate,
  zero,
}
use gen2_energiminer.CpuMiner.{Searching, start_at, pass, search_round, search}
use gen2_energiminer.CpuMiner.Search.{
  Clear, IsSearching, start_at-IsSearching, pass-IsSearching, search-step,
}

-- `k` rounds in which neither new work nor a stop comes.
abbrev pub undisturbed : ℕ → List (Bool × Bool)
undisturbed k = replicate k (false, false)

round_undisturbed :
    (below : ℕ → Bool) (s : Searching)
    → below s.nonce ≡ false
    → search_round below false false s ≡ pass s
unfolding search_round
round_undisturbed below s h = rw h refl

round_hit :
    (below : ℕ → Bool) (a b : Bool) (s : Searching)
    → below s.nonce ≡ true
    → (search_round below a b s).found ≡ some s.nonce
unfolding search_round
round_hit below a b s h = rw h refl

pass-nonce : (s : Searching) → s.nonce + 1 < 2 ^ 64 → (pass s).nonce ≡ s.nonce + 1
pass-nonce s h = ground arith

search_nil : (below : ℕ → Bool) (s : Searching) → search below [] s ≡ s
unfolding search
search_nil below s = refl

finds :
    (below : ℕ → Bool) (n x k : ℕ) (s : Searching)
    → IsSearching below n s
    → s.nonce + k ≡ x
    → x + 1 < 2 ^ 64
    → Clear below s.nonce x
    → below x ≡ true
    → (search below (undisturbed (suc k)) s).found ≡ some x
finds below n x zero s i e room c h =
    let at_nonce : s.nonce ≡ x = omega (arith, e) in
    ap (λ t. t.found)
      (search-step below false false [] s i.goes_on
        ∙ search_nil below (search_round below false false s))
    ∙ round_hit below false false s (rw at_nonce h)
    ∙ ap some at_nonce
finds below n x (suc k) s i e room c h =
    let missed = c s.nonce (omega arith) (omega (arith, e)) in
    let next = pass-nonce s (omega (arith, e, room)) in
    ap (λ t. t.found)
      (search-step below false false (undisturbed (suc k)) s i.goes_on
        ∙ ap (search below (undisturbed (suc k))) (round_undisturbed below s missed))
    ∙ finds below n x k (pass s) (pass-IsSearching below n s i (omega (arith, e, room)) missed)
        (omega (arith, next, e)) room (λ y lo hi. c y (omega (arith, next, lo)) hi) h

-- A search from `n` on that is not disturbed submits the first nonce `n + k` below the target, after
-- `k + 1` rounds.
pub search_finds :
    (below : ℕ → Bool) (n k : ℕ)
    → n + k + 1 < 2 ^ 64
    → Clear below n (n + k)
    → below (n + k) ≡ true
    → (search below (undisturbed (suc k)) (start_at n)).found ≡ some (n + k)
search_finds below n k room c h =
    finds below n (n + k) k (start_at n) (start_at-IsSearching below n (omega (arith, room))) refl
      room c h
