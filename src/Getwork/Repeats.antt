-- ===== src/Getwork/Repeats.antt =====
-- protocol/getwork/GetworkClient.cpp: when a work is handed on, and when it is not.
use gen2_energiminer.Common.{
  ◌≡◌, refl, ap, ap₂, ◌∙◌, sym, Bool, true, false, List, [], ◌∷◌, ◌++◌, none, some, arith,
  Bool-cases, not, inl, inr, subst,
}
use gen2_energiminer.Work.{Work, same_work}
use gen2_energiminer.Getwork.{
  Hooks, Client, Event, connected_event, disconnected_event, reset_work, work_received,
  submit_block, accepted, rejected, wait_for, start_working, notify, call_if, take_work, poll,
  ClientStep, begin, escapes, ends, connects, disconnects, submits, polls, do_step, run,
}
use gen2_energiminer.Getwork.Deliveries.{works, works-append}

-- Each work differs from the one before it, and the first from the given one.
abbrev pub Changing : Work → List Work → Type 0
Changing last [] = Unit {0}
Changing last (w ∷ ws) = (same_work last w ≡ false) × Changing w ws

-- The last work of the list, or the given one.
abbrev pub last_of : Work → List Work → Work
last_of last [] = last
last_of last (w ∷ ws) = last_of w ws

-- What a step hands on is new, and is then the current work.
record Follows (c c' : Client) (ws : List Work) : Type 0 where
  changing : Changing c.current_work ws
  current : c'.current_work ≡ last_of c.current_work ws

no_works-call_if : (b : Bool) (e : Event) → works (e ∷ []) ≡ [] → works (call_if b e) ≡ []
unfolding works
no_works-call_if true e h = h
no_works-call_if false e h = refl

works-poll :
    (k : Hooks) (w : Work) (c : Client) → works (poll k (some w) c).1 ≡ works (take_work k w c).1
unfolding poll works
works-poll k w c =
    works-append (call_if (not c.connected) (wait_for c.recheck_period)) (take_work k w c).1
    ∙ ap (λ ws. ws ++ works (take_work k w c).1) (no_works-call_if (not c.connected) _ refl)

failure_silent : (k : Hooks) (c : Client) → works (poll k none c).1 ≡ []
unfolding poll works
failure_silent k c = ground arith

-- The steps are of one run of `trun`: none begins another.
abbrev pub OneRun : List ClientStep → Type 0
OneRun [] = Unit {0}
OneRun (begin ∷ rest) = ⊥
OneRun (escapes ∷ rest) = OneRun rest
OneRun (ends ∷ rest) = OneRun rest
OneRun (connects u ∷ rest) = OneRun rest
OneRun (disconnects ∷ rest) = OneRun rest
OneRun (submits b a ∷ rest) = OneRun rest
OneRun (polls answer ∷ rest) = OneRun rest

-- The polls bring the current work again, each time.
abbrev pub Repeats : Work → List ClientStep → Type 0
Repeats w [] = Unit {0}
Repeats w (polls (some v) ∷ rest) = (same_work w v ≡ true) × Repeats w rest
Repeats w (begin ∷ rest) = ⊥
Repeats w (escapes ∷ rest) = ⊥
Repeats w (ends ∷ rest) = ⊥
Repeats w (connects u ∷ rest) = ⊥
Repeats w (disconnects ∷ rest) = ⊥
Repeats w (submits b a ∷ rest) = ⊥
Repeats w (polls none ∷ rest) = Repeats w rest

take_work-same :
    (k : Hooks) (w : Work) (c : Client)
    → same_work c.current_work w ≡ true
    → ((take_work k w c).0 ≡ c) × (works (take_work k w c).1 ≡ [])
unfolding take_work works
take_work-same k w c e = rw e (refl, refl)

poll-client : (k : Hooks) (w : Work) (c : Client) → (poll k (some w) c).0 ≡ (take_work k w c).0
unfolding poll
poll-client k w c = refl

still :
    (k : Hooks) (steps : List ClientStep) (c c' : Client)
    → c' ≡ c
    → works (run k steps c).1 ≡ []
    → works (run k steps c').1 ≡ []
still k steps c c' e h = subst (λ u. works (run k steps u).1 ≡ []) (sym e) h

no_change_silent :
    (k : Hooks) (steps : List ClientStep) (c : Client)
    → Repeats c.current_work steps
    → works (run k steps c).1 ≡ []
unfolding run do_step
no_change_silent k [] c h = unfold works in refl
no_change_silent k (begin ∷ rest) c h = absurd h
no_change_silent k (escapes ∷ rest) c h = absurd h
no_change_silent k (ends ∷ rest) c h = absurd h
no_change_silent k (connects u ∷ rest) c h = absurd h
no_change_silent k (disconnects ∷ rest) c h = absurd h
no_change_silent k (submits b a ∷ rest) c h = absurd h
no_change_silent k (polls none ∷ rest) c h =
    works-append (poll k none c).1 (run k rest (poll k none c).0).1
    ∙ ap₂ (λ (ws : List Work) vs. ws ++ vs) (failure_silent k c)
        (still k rest c (poll k none c).0 (unfold poll in refl) (no_change_silent k rest c h))
no_change_silent k (polls (some v) ∷ rest) c h =
    let (same, none_on) = take_work-same k v c h.0 in
    works-append (poll k (some v) c).1 (run k rest (poll k (some v) c).0).1
    ∙ ap₂ (λ (ws : List Work) vs. ws ++ vs) (works-poll k v c ∙ none_on)
        (still k rest c (poll k (some v) c).0 (poll-client k v c ∙ same)
          (no_change_silent k rest c h.1))

-- The events take the work from the miners.
abbrev pub Resets : List Event → Type 0
Resets [] = ⊥
Resets (reset_work ∷ es) = Unit {0}
Resets (work_received w ∷ es) = Resets es
Resets (connected_event ∷ es) = Resets es
Resets (disconnected_event ∷ es) = Resets es
Resets (submit_block b ∷ es) = Resets es
Resets (accepted d ∷ es) = Resets es
Resets (rejected d ∷ es) = Resets es
Resets (wait_for n ∷ es) = Resets es
Resets (start_working ∷ es) = Resets es
Resets (notify ∷ es) = Resets es

reset_sent : (k : Hooks) (c : Client) → k.on_reset ≡ true → Resets (poll k none c).1
unfolding poll
reset_sent k c on = elim (Bool-cases c.connected) [ inl e ↦ rw (e, on) tt | inr e ↦ rw (e, on) tt ]

-- A poll that fails takes the work from the miners, if that callback is set, and while the polls
-- after it fail or bring the client's current work again, no work is handed on.
pub failure_idles :
    (k : Hooks) (steps : List ClientStep) (c : Client)
    → k.on_reset ≡ true
    → Repeats c.current_work steps
    → Resets (poll k none c).1 × (works (run k (polls none ∷ steps) c).1 ≡ [])
failure_idles k steps c on h = (reset_sent k c on, no_change_silent k (polls none ∷ steps) c h)
