-- ===== src/Stratum/Invariants.antt =====
-- Invariants of a client over sequences of events: what holds after every handler holds after any
-- events.
use gen2_energiminer.Common.{
  ℕ, ◌≡◌, List, [], ◌∷◌, ◌++◌, Option, none, some, subst, Bool, true, false, if◌then◌else◌,
}
use gen2_energiminer.Stratum.{Client, Effect}
use gen2_energiminer.Stratum.Traffic.{and_then}
use gen2_energiminer.Stratum.Events.{Event, handle, run_events}

-- `P` holds after a handler that may meet undefined behaviour, unless it does.
abbrev pub After : (Client → Type 0) → Option (Client × List Effect) → Type 0
After P none = Unit {0}
After P (some (c, es)) = P c

module _ (P : Client → Type 0) where
  pub tested-After :
      (b : Bool) (r : Client × List Effect) → P r.0 → After P (if b then some r else none)
  tested-After true r h = h
  tested-After false r h = tt

  appended :
      (es : List Effect) (r : Option (Client × List Effect))
      → After P r
      → After P (elim r [ none ↦ none | some (d, fs) ↦ some (d, es ++ fs) ])
  appended es none h = tt
  appended es (some (d, fs)) h = h

  pub and_then-After :
      (r : Option (Client × List Effect)) (k : Client → Option (Client × List Effect))
      → After P r
      → ((c : Client) → P c → After P (k c))
      → After P (and_then r k)
  and_then-After none k h g = tt
  and_then-After (some (c, es)) k h g = appended es (k c) (g c h)

  module _ (keeps : (now : ℕ) (e : Event) (c : Client) → P c → After P (handle now e c)) where
    pub run-After : (es : List (ℕ × Event)) (c : Client) → P c → After P (run_events es c)
    unfolding run_events
    run-After [] c h = h
    run-After ((now, e) ∷ es) c h =
        and_then-After (handle now e c) (run_events es) (keeps now e c h) (run-After es)

    pub reached :
        (es : List (ℕ × Event)) (c d : Client) (calls : List Effect)
        → P c
        → run_events es c ≡ some (d, calls)
        → P d
    reached es c d calls h e = subst (After P) e (run-After es c h)
