-- ===== src/CpuMiner.antt =====
-- energiminer/CpuMiner.cpp: the search of `trun` for a nonce whose hash is below the target.
-- The hash is nrghash's: a parameter says for each nonce whether its hash is below. What the
-- conditions `haveNewWork()` and `shouldStop()` answer, round by round, is a list.
pub mod Search
pub mod Finds
mod Examples
use gen2_energiminer.Common.{
  ℕ, ◌+◌, ◌-◌, ◌%◌, Bool, true, false, ◌&&◌, ◌^◌, not, List, [], ◌∷◌, Option, none, some, u64, ◌==◌,
  if◌then◌else◌, ◌/◌,
}

-- Where the search stands: `work.nNonce`, `lastNonce`, and the sum of what was given to
-- `updateHashRate`, in 64 bits as it counts; `found` is the nonce submitted.
pub record Searching : Type 0 where
  pub nonce : ℕ
  pub last_nonce : ℕ
  pub counted : ℕ
  pub found : Option ℕ
  -- Whether the loop has been left.
  pub over : Bool

abbrev pub start_at : ℕ → Searching
start_at n = record { nonce = n; last_nonce = n; counted = 0; found = none; over = false }

-- `updateHashRate(n)`.
abbrev pub update_hash_rate : ℕ → Searching → Searching
update_hash_rate n s = record s { counted = u64 (s.counted + n) }

-- `a - b` in 64 bits.
abbrev pub minus : ℕ → ℕ → ℕ
minus a b = u64 (a + 2 ^ 64 - b)

-- The call after the loop.
abbrev pub leave : Searching → Searching
leave s = record (update_hash_rate (minus s.nonce s.last_nonce) s) { over = true }

-- The branch that submits the solution.
abbrev pub submit : Searching → Searching
submit s = leave (record (update_hash_rate (minus (u64 (s.nonce + 1)) s.last_nonce) s) {
  found = some s.nonce;
  nonce = u64 (s.nonce + 1);
})

-- The other branch: the next nonce, and a report at each multiple of 10000.
abbrev pub pass : Searching → Searching
pass s =
    let next = u64 (s.nonce + 1) in
    let moved = record s { nonce = next } in
    if next % 10000 == 0
    then record (update_hash_rate (minus next s.last_nonce) moved) { last_nonce = next }
    else moved

-- One round of the loop, with the answers that it asks for at its end.
unfoldable pub search_round : (ℕ → Bool) → Bool → Bool → Searching → Searching
search_round below new_work stop s =
    if below s.nonce
    then submit s
    else (let t = pass s in if not new_work && not stop then t else leave t)

-- The rounds, up to the last one or to the end of the answers.
unfoldable pub search : (ℕ → Bool) → List (Bool × Bool) → Searching → Searching
unfolding search_round
search below [] s = s
search below ((new_work, stop) ∷ answers) s =
    let t = search_round below new_work stop s in if s.over then s else search below answers t
