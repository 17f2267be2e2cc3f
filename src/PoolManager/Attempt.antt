-- ===== src/PoolManager/Attempt.antt =====
-- What one round does while no connection comes about.
use gen2_energiminer.Common.{
  ℕ, zero, suc, ◌+◌, ◌^◌, ◌<◌, ◌≡◌, Bool, true, false, List, [], ◌∷◌, ◌++◌, Option, some, arith,
  get_elem?, length, ◌==◌, leb, ◌||◌, ◌%◌, if◌then◌else◌, subst, sym, ap, ◌∙◌,
}
use mathlib.Core.Option.{some-injective}
use gen2_energiminer.PoolUri.{Uri}
use gen2_energiminer.PoolManager.{
  Manager, View, Action, discard, rotate, attempt_connection, report, round, finish_round,
  host_is_exit, set_connection, set_pool_addresses, connect, reset_work,
}
use gen2_energiminer.PoolManager.Index.{IsReady, get_elem?_total, round_tries}

-- Every connection could be tried: none is given up, none is the host that ends the program.
abbrev pub Usable : List Uri → Type 0
Usable [] = Unit {0}
Usable (c ∷ cs) = (c.unrecoverable ≡ false) × (host_is_exit c ≡ false) × Usable cs

Usable-get :
    (cs : List Uri) (i : ℕ) (c : Uri)
    → Usable cs
    → get_elem? cs i ≡ some c
    → (c.unrecoverable ≡ false) × (host_is_exit c ≡ false)
Usable-get [] i c u e = cc
Usable-get (d ∷ cs) zero c u e =
    subst (λ x. (x.unrecoverable ≡ false) × (host_is_exit x ≡ false)) (some-injective d c e)
      (u.0, u.1)
Usable-get (d ∷ cs) (suc i) c u e = Usable-get cs i c u.2 e

-- What a round does to the place in the list: one more attempt at the same connection, or the
-- first attempt at the next one.
abbrev pub next_idx : Manager → ℕ
next_idx m =
    if leb m.max_attempts m.attempt
    then (if m.active_idx + 1 == length m.connections then 0 else m.active_idx + 1)
    else m.active_idx

abbrev pub next_attempt : Manager → ℕ
next_attempt m = if leb m.max_attempts m.attempt then 1 else m.attempt + 1

-- The manager after such a round.
abbrev pub advanced : Manager → Manager
advanced m = report (record m { active_idx = next_idx m; attempt = next_attempt m })

discard_none : (c : Uri) (m : Manager) → c.unrecoverable ≡ false → discard c m ≡ m
unfolding discard
discard_none c m u = rw u

-- The manager after `rotate`, and what it calls.
abbrev rotated : Manager → Manager
rotated m = record m {
  active_idx = next_idx m;
  attempt = if leb m.max_attempts m.attempt then 0 else m.attempt;
}

abbrev pub suspends : Bool → Manager → List Action
suspends mining m =
    if leb m.max_attempts m.attempt then (if mining then reset_work ∷ [] else []) else []

rotate-eq :
    (mining : Bool) (m : Manager) → IsReady m → rotate mining m ≡ (rotated m, suspends mining m)
unfolding rotate
rotate-eq mining m r = ground arith

next_idx-lt : (m : Manager) → IsReady m → next_idx m < length m.connections
next_idx-lt m r = ground arith

attempt_connection_usable :
    (mining : Bool) (d : Uri) (m : Manager)
    → host_is_exit d ≡ false
    → 0 < length m.connections
    → attempt_connection mining d m ≡ (
      record m { attempt = (m.attempt + 1) % 2 ^ 32 },
      set_connection d ∷ set_pool_addresses d.host d.port ∷ connect ∷ [],
    )
unfolding attempt_connection
attempt_connection_usable mining d m e h = rw e (ground arith)

finish_running :
    (m : Manager) (as' : List Action) → m.running ≡ true → finish_round (m, as') ≡ (report m, as')
finish_running m as' run = rw run

-- The calls of a round that tries the connection `d`.
abbrev pub tries : Bool → Manager → Uri → List Action
tries mining m d =
    suspends mining m ++ set_connection d ∷ set_pool_addresses d.host d.port ∷ connect ∷ []

tried-eq :
    (m : Manager)
    → IsReady m
    → record (rotated m) { attempt = ((rotated m).attempt + 1) % 2 ^ 32 }
      ≡ record m { active_idx = next_idx m; attempt = next_attempt m }
tried-eq m r = ground arith

-- The end of a round that tries `d` after what `rotate` gave.
abbrev outcome : Bool → Uri → Manager × List Action → Option (Manager × List Action)
outcome mining d x =
    some (
      finish_round
        ((attempt_connection mining d x.0).0, x.1 ++ (attempt_connection mining d x.0).1))

outcome_usable :
    (mining : Bool) (d : Uri) (m : Manager)
    → IsReady m
    → m.running ≡ true
    → host_is_exit d ≡ false
    → outcome mining d (rotated m, suspends mining m) ≡ some (advanced m, tries mining m d)
outcome_usable mining d m r run x =
    rw (attempt_connection_usable mining d (rotated m) x (omega (arith, r.in_range)), tried-eq m r)
      (ap some (finish_running _ _ run))

round_usable :
    (v : View) (m : Manager) (c d : Uri)
    → IsReady m
    → (v.pending || v.connected) ≡ false
    → m.running ≡ true
    → c.unrecoverable ≡ false
    → host_is_exit d ≡ false
    → get_elem? m.connections m.active_idx ≡ some c
    → get_elem? m.connections (next_idx m) ≡ some d
    → round v m ≡ some (advanced m, tries v.mining m d)
round_usable v m c d r h run u x e f =
    let t = ap (rotate v.mining) (discard_none c m u) ∙ rotate-eq v.mining m r in
    round_tries v m c d h e (
      subst (λ (x : Manager × List Action). get_elem? x.0.connections x.0.active_idx ≡ some d)
        (sym t) f)
    ∙ ap (outcome v.mining d) t
    ∙ outcome_usable v.mining d m r run x

-- A round of a client that is down tries one usable connection.
pub round_down :
    (v : View) (m : Manager)
    → IsReady m
    → Usable m.connections
    → (v.pending || v.connected) ≡ false
    → m.running ≡ true
    → (d : Uri) × (get_elem? m.connections (next_idx m) ≡ some d)
      × (round v m ≡ some (advanced m, tries v.mining m d))
round_down v m r u h run =
    let (c, e) = get_elem?_total m.connections m.active_idx r.in_range in
    let (d, f) = get_elem?_total m.connections (next_idx m) (next_idx-lt m r) in
    (
      d,
      f,
      round_usable v m c d r h run (Usable-get m.connections m.active_idx c u e).0
          (Usable-get m.connections (next_idx m) d u f).1 e f,
    )
