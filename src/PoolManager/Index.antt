-- ===== src/PoolManager/Index.antt =====
-- The index of the active connection stays within the list of connections.
use gen2_energiminer.Common.{
  ℕ, zero, suc, ◌^◌, ◌<◌, ◌≤◌, ◌≡◌, refl, Bool, true, false, List, [], ◌∷◌, ◌++◌, none, some, arith,
  get_elem?, length, Bool-cases, ◌⊎◌, inl, inr, ltb, ◌∙◌, ◌||◌,
}
use gen2_energiminer.PoolUri.{Uri}
use gen2_energiminer.PoolManager.{
  Manager, View, Action, erase_at, discard, rotate, attempt_connection, report, round, finish_round,
}

-- What holds of a manager that has connections: the index is in range, and the counters fit their
-- 32 bits.
pub record IsReady (m : Manager) : Type 0 where
  pub in_range : m.active_idx < length m.connections
  pub countable : length m.connections < 2 ^ 32
  pub attempts : m.attempt ≤ suc m.max_attempts
  pub max_fits : m.max_attempts < 2 ^ 32

pub get_elem?_total {ℓ} :
    {A : Type ℓ} (xs : List A) (i : ℕ) → i < length xs → (x : A) × (get_elem? xs i ≡ some x)
get_elem?_total [] i h = absurd (omega arith)
get_elem?_total (x ∷ xs) zero h = (x, refl)
get_elem?_total (x ∷ xs) (suc i) h = get_elem?_total xs i (omega arith)

length-erase_at {ℓ} :
    {A : Type ℓ} (xs : List A) (i : ℕ) → i < length xs → suc (length (erase_at i xs)) ≡ length xs
unfolding erase_at
length-erase_at [] i h = absurd (omega arith)
length-erase_at (x ∷ xs) zero h = refl
length-erase_at (x ∷ xs) (suc i) h = omega (arith, length-erase_at xs i (omega arith))

-- The round meets a disconnected client whose only connection has been given up.
abbrev pub LosesLast : View → Manager → Type 0
LosesLast v m =
    (v.pending ≡ false)
    × (v.connected ≡ false)
    × (c : Uri) × (get_elem? m.connections m.active_idx ≡ some c)
    × (c.unrecoverable ≡ true)
    × (length m.connections ≡ 1)

discard-IsReady :
    (c : Uri) (m : Manager)
    → IsReady m
    → (c.unrecoverable ≡ false) ⊎ (1 < length m.connections)
    → IsReady (discard c m)
unfolding discard
discard-IsReady c m r ok = ground (arith, length-erase_at m.connections m.active_idx)

rotate-IsReady : (mining : Bool) (m : Manager) → IsReady m → IsReady (rotate mining m).0
unfolding rotate
rotate-IsReady mining m r = ground arith

attempt-IsReady :
    (mining : Bool) (d : Uri) (m : Manager)
    → IsReady m
    → m.attempt ≤ m.max_attempts
    → IsReady (finish_round (attempt_connection mining d m)).0
unfolding attempt_connection report
attempt-IsReady mining d m r h = ground arith

rotate-attempt :
    (mining : Bool) (m : Manager) → IsReady m → (rotate mining m).0.attempt ≤ m.max_attempts
unfolding rotate
rotate-attempt mining m r = ground arith

rotate-max : (mining : Bool) (m : Manager) → (rotate mining m).0.max_attempts ≡ m.max_attempts
unfolding rotate
rotate-max mining m = ground arith

abbrev pub turned : View → Uri → Manager → Manager
turned v c m = (rotate v.mining (discard c m)).0

-- What a round of a disconnected client does, with the two connections that it reads.
pub round_tries :
    (v : View) (m : Manager) (c d : Uri)
    → (v.pending || v.connected) ≡ false
    → get_elem? m.connections m.active_idx ≡ some c
    → get_elem? (turned v c m).connections (turned v c m).active_idx ≡ some d
    → round v m
      ≡ some (
          finish_round (
            (attempt_connection v.mining d (turned v c m)).0,
            (rotate v.mining (discard c m)).1 ++ (attempt_connection v.mining d (turned v c m)).1,
          ))
unfolding round
round_tries v m c d h e f = rw (h, e, f)

discard-max : (c : Uri) (m : Manager) → (discard c m).max_attempts ≡ m.max_attempts
unfolding discard
discard-max c m = ground arith

module _ (v : View) (m : Manager) (c : Uri) (r : IsReady (discard c m)) where
  turned-IsReady : IsReady (turned v c m)
  turned-IsReady = rotate-IsReady v.mining (discard c m) r

  tries-IsReady :
      (v.pending || v.connected) ≡ false
      → get_elem? m.connections m.active_idx ≡ some c
      → (m' : Manager) × (as' : List Action) × (round v m ≡ some (m', as')) × IsReady m'
  tries-IsReady h e =
      let (d, f) =
        get_elem?_total (turned v c m).connections (turned v c m).active_idx
          turned-IsReady.in_range in
      (
        (finish_round (attempt_connection v.mining d (turned v c m))).0,
        (rotate v.mining (discard c m)).1 ++ (attempt_connection v.mining d (turned v c m)).1,
        round_tries v m c d h e f,
        attempt-IsReady v.mining d (turned v c m) turned-IsReady
            (rw (rotate-max v.mining (discard c m)) (rotate-attempt v.mining (discard c m) r)),
      )

report-IsReady : (m : Manager) → IsReady m → IsReady (report m)
unfolding report
report-IsReady m r = ground arith

keeps_one :
    (v : View) (m : Manager) (c : Uri)
    → IsReady m
    → ¬ LosesLast v m
    → (v.pending || v.connected) ≡ false
    → get_elem? m.connections m.active_idx ≡ some c
    → (c.unrecoverable ≡ false) ⊎ (1 < length m.connections)
keeps_one v m c r ok h e = elim (Bool-cases c.unrecoverable) [
  | inr kept ↦ inl kept
  | inl lost ↦ elim (Bool-cases (ltb 1 (length m.connections))) [
    | inl more ↦ inr (ground arith)
    | inr one ↦ absurd (ok (ground arith, ground arith, c, e, lost, ground arith))
  ]
]

-- A round started with a ready manager reads no index out of range and leaves the manager ready,
-- unless it has just given up the last connection.
pub round-IsReady :
    (v : View) (m : Manager)
    → IsReady m
    → ¬ LosesLast v m
    → (m' : Manager) × (as' : List Action) × (round v m ≡ some (m', as')) × IsReady m'
round-IsReady v m r ok = elim (Bool-cases (v.pending || v.connected)) [
  | inl busy ↦ (report m, [], unfold round in rw busy, report-IsReady m r)
  | inr down ↦
      let (c, e) = get_elem?_total m.connections m.active_idx r.in_range in
      tries-IsReady v m c (discard-IsReady c m r (keeps_one v m c r ok down e)) down e
]

erase_at_one {ℓ} :
    {A : Type ℓ} (xs : List A) (i : ℕ) → i < length xs → length xs ≡ 1 → erase_at i xs ≡ []
unfolding erase_at
erase_at_one [] i h l = refl
erase_at_one (x ∷ []) zero h l = refl
erase_at_one (x ∷ []) (suc i) h l = absurd (omega arith)
erase_at_one (x ∷ y ∷ xs) i h l = absurd (omega arith)

discard-connections :
    (c : Uri) (m : Manager)
    → c.unrecoverable ≡ true
    → (discard c m).connections ≡ erase_at m.active_idx m.connections
unfolding discard
discard-connections c m u = rw u

pub rotate-connections :
    (mining : Bool) (m : Manager) → (rotate mining m).0.connections ≡ m.connections
unfolding rotate
rotate-connections mining m = ground arith

lost_connections :
    (v : View) (c : Uri) (m : Manager)
    → IsReady m
    → c.unrecoverable ≡ true
    → length m.connections ≡ 1
    → (turned v c m).connections ≡ []
lost_connections v c m r u l =
    rotate-connections v.mining (discard c m)
    ∙ discard-connections c m u
    ∙ erase_at_one m.connections m.active_idx r.in_range l

-- The round of a ready manager that gives up its last connection goes on to read an element of the
-- list, which is empty by then.
pub round-LosesLast : (v : View) (m : Manager) → IsReady m → LosesLast v m → round v m ≡ none
unfolding round
round-LosesLast v m r (p, q, c, e, u, l) = rw (p, q, e, lost_connections v c m r u l)
