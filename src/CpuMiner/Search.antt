-- ===== src/CpuMiner/Search.antt =====
-- What the search finds, and what it counts.
use gen2_energiminer.Common.{
  ℕ, ◌+◌, ◌-◌, ◌*◌, ◌^◌, ◌%◌, ◌≤◌, ◌<◌, ◌≡◌, refl, Bool, true, false, List, [], ◌∷◌, none, some,
  arith, length, u64, ap, Bool-cases, inl, inr, ltb, not, ◌&&◌, subst, sym, ◌==◌, if◌then◌else◌,
}
use gen2_energiminer.CpuMiner.{Searching, start_at, leave, submit, pass, search_round, search}

-- No nonce from `n` up to `m`, and `m` left out, is below the target.
abbrev pub Clear : (ℕ → Bool) → ℕ → ℕ → Type 0
Clear below n m = (y : ℕ) → n ≤ y → y < m → below y ≡ false

-- The search that began at `n` goes on: what it has counted is what it tried up to its last report.
pub record IsSearching (below : ℕ → Bool) (n : ℕ) (s : Searching) : Type 0 where
  pub begun : n ≤ s.last_nonce
  pub ahead : s.last_nonce ≤ s.nonce
  pub fits : s.nonce < 2 ^ 64
  pub count : s.counted + n ≡ s.last_nonce
  pub goes_on : s.over ≡ false
  pub nothing : s.found ≡ none
  pub clear : Clear below n s.nonce

-- It was left without a solution, and has counted each nonce that it tried, once.
pub record HasLeft (below : ℕ → Bool) (n : ℕ) (s : Searching) : Type 0 where
  pub count : s.counted + n ≡ s.nonce
  pub is_over : s.over ≡ true
  pub nothing : s.found ≡ none
  pub clear : Clear below n s.nonce

-- It has submitted `x`, the first nonce below the target, and counted those tried since the last
-- report, at `r`, twice.
pub record HasFound (below : ℕ → Bool) (n : ℕ) (s : Searching) : Type 0 where
  pub x : ℕ
  pub r : ℕ
  pub submitted : s.found ≡ some x
  pub is_below : below x ≡ true
  pub begun : n ≤ x
  pub clear : Clear below n x
  pub is_over : s.over ≡ true
  pub since : r ≤ x
  pub count : s.counted + n ≡ x + 1 + (x + 1 - r)

pub start_at-IsSearching :
    (below : ℕ → Bool) (n : ℕ) → n < 2 ^ 64 → IsSearching below n (start_at n)
start_at-IsSearching below n h = record {
  begun = omega arith;
  ahead = omega arith;
  fits = h;
  count = omega arith;
  goes_on = refl;
  nothing = refl;
  clear = λ y lo hi. absurd (omega (arith, lo, hi));
}

Clear-suc : (below : ℕ → Bool) (n m : ℕ) → Clear below n m → below m ≡ false → Clear below n (m + 1)
Clear-suc below n m c h y lo hi = elim (Bool-cases (ltb y m)) [
  | inl lt ↦ c y lo (ground (arith, lt))
  | inr ge ↦ let e : m ≡ y = ground (arith, ge, hi) in subst (λ z. below z ≡ false) e h
]

submit-HasFound :
    (below : ℕ → Bool) (n : ℕ) (s : Searching)
    → IsSearching below n s
    → s.nonce + 1 < 2 ^ 64
    → 2 * (s.nonce + 1 - n) < 2 ^ 64
    → below s.nonce ≡ true
    → HasFound below n (submit s)
submit-HasFound below n s i room more h = record {
  x = s.nonce;
  r = s.last_nonce;
  submitted = refl;
  is_below = h;
  begun = omega (arith, i.begun, i.ahead);
  clear = i.clear;
  is_over = refl;
  since = i.ahead;
  count = omega (arith, i.begun, i.ahead, i.count, more);
}

pub pass-IsSearching :
    (below : ℕ → Bool) (n : ℕ) (s : Searching)
    → IsSearching below n s
    → s.nonce + 1 < 2 ^ 64
    → below s.nonce ≡ false
    → IsSearching below n (pass s)
pass-IsSearching below n s i room h =
    let next : s.nonce + 1 ≡ u64 (s.nonce + 1) = omega arith in
    let clear = subst (Clear below n) next (Clear-suc below n s.nonce i.clear h) in
    elim (Bool-cases (u64 (s.nonce + 1) % 10000 == 0)) [
      | inl r ↦ rw r (record {
        begun = omega (arith, i.begun, i.ahead);
        ahead = omega arith;
        fits = omega (arith, room);
        count = omega (arith, i.begun, i.ahead, i.count);
        goes_on = i.goes_on;
        nothing = i.nothing;
        clear = clear;
      })
      | inr r ↦ rw r (record {
        begun = i.begun;
        ahead = omega (arith, i.ahead);
        fits = omega (arith, room);
        count = i.count;
        goes_on = i.goes_on;
        nothing = i.nothing;
        clear = clear;
      })
    ]

leave-HasLeft :
    (below : ℕ → Bool) (n : ℕ) (s : Searching) → IsSearching below n s → HasLeft below n (leave s)
leave-HasLeft below n s i = record {
  count = omega (arith, i.begun, i.ahead, i.count, i.fits);
  is_over = refl;
  nothing = i.nothing;
  clear = i.clear;
}

-- The three ways that a search stands after some rounds.
pub data Outcome (below : ℕ → Bool) (n : ℕ) (s : Searching) : Type 0 where
  searches : IsSearching below n s → Outcome below n s
  left : HasLeft below n s → Outcome below n s
  found_one : HasFound below n s → Outcome below n s

round-Outcome :
    (below : ℕ → Bool) (n : ℕ) (new_work stop : Bool) (s : Searching)
    → IsSearching below n s
    → s.nonce + 1 < 2 ^ 64
    → 2 * (s.nonce + 1 - n) < 2 ^ 64
    → Outcome below n (search_round below new_work stop s)
unfolding search_round
round-Outcome below n new_work stop s i room more = elim (Bool-cases (below s.nonce)) [
  | inl h ↦ rw h (found_one (submit-HasFound below n s i room more h))
  | inr h ↦
      let t = pass-IsSearching below n s i room h in
      elim (Bool-cases (not new_work && not stop)) [
        | inl on ↦ rw (h, on) (searches t)
        | inr off ↦ rw (h, off) (left (leave-HasLeft below n (pass s) t))
      ]
]

search_over :
    (below : ℕ → Bool) (answers : List (Bool × Bool)) (s : Searching)
    → s.over ≡ true
    → search below answers s ≡ s
unfolding search
search_over below [] s o = refl
search_over below ((a, b) ∷ answers) s o = rw o refl

round-nonce :
    (below : ℕ → Bool) (a b : Bool) (s : Searching)
    → s.nonce + 1 < 2 ^ 64
    → (search_round below a b s).nonce ≡ s.nonce + 1
unfolding search_round
round-nonce below a b s h = ground arith

pub search-step :
    (below : ℕ → Bool) (a b : Bool) (answers : List (Bool × Bool)) (s : Searching)
    → s.over ≡ false
    → search below ((a, b) ∷ answers) s ≡ search below answers (search_round below a b s)
unfolding search
search-step below a b answers s h =
    ap (λ (o : Bool). if o then s else search below answers (search_round below a b s)) h

search_stands :
    (below : ℕ → Bool) (n : ℕ) (answers : List (Bool × Bool)) (s : Searching)
    → IsSearching below n s
    → s.nonce + length answers < 2 ^ 64
    → 2 * (s.nonce + length answers - n) < 2 ^ 64
    → Outcome below n (search below answers s)
search_stands below n [] s i room more = unfold search in searches i
search_stands below n ((a, b) ∷ answers) s i room more =
    let t = search_round below a b s in
    let next = round-nonce below a b s (omega (arith, room)) in
    subst (Outcome below n) (sym (search-step below a b answers s i.goes_on))
      (elim (round-Outcome below n a b s i (omega (arith, room)) (omega (arith, more))) [
        | searches h ↦
            search_stands below n answers t h (omega (arith, next, room))
              (omega (arith, next, more))
        | left h ↦ subst (Outcome below n) (sym (search_over below answers t h.is_over)) (left h)
        | found_one h ↦
            subst (Outcome below n) (sym (search_over below answers t h.is_over)) (found_one h)
      ])

-- A search from `n` on, with room for its rounds below 2 ^ 64 and fewer than 2 ^ 63 of them, either
-- goes on and has met no nonce below the target; or was left without one and has counted each
-- nonce tried, once; or has submitted the first nonce from `n` on that is below the target, and has
-- counted those since its last report twice.
pub search-Outcome :
    (below : ℕ → Bool) (n : ℕ) (answers : List (Bool × Bool))
    → n + length answers < 2 ^ 64
    → length answers < 2 ^ 63
    → Outcome below n (search below answers (start_at n))
search-Outcome below n answers room more =
    search_stands below n answers (start_at n) (start_at-IsSearching below n (omega (arith, room)))
      room (omega (arith, more))
