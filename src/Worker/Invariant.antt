-- ===== src/Worker/Invariant.antt =====
-- Which states the thread of a reachable worker meets at each place.
use gen2_energiminer.Common.{◌≡◌, ◌≢◌, refl, subst, Bool, true, false, arith}
use gen2_energiminer.Worker.{
  Worker, State, Place, Call, starting, started, stopping, stopped, killing, no_thread, at_test,
  at_claim, in_run, at_exchange, at_restore, in_wait, idle, in_start, in_stop, in_kill, gone,
  thread_step, begin_start, begin_stop, begin_kill, compare_exchange, restore, should_stop, Step,
  runs, returns, starts, has_started, stops, has_stopped, kills, joins, Reachable, constructed,
  steps,
}

abbrev pub is_exchanged : State → Bool
is_exchanged s = elim s [ started ↦ true | stopping ↦ true | _ ↦ false ]

abbrev any_of : State → Bool → Bool → Bool → Bool → Bool → Bool
any_of s a b c d e = elim s [
  | starting ↦ a
  | started ↦ b
  | stopping ↦ c
  | stopped ↦ d
  | killing ↦ e
]

-- The states, place by place, while no call runs and in each call.
unfoldable pub fits_idle : Place → State → Bool
fits_idle no_thread s = any_of s true false false false false
fits_idle in_run s = any_of s false true false false false
fits_idle at_exchange s = any_of s false true false false false
fits_idle (at_restore started) s = any_of s false false false true false
fits_idle (at_restore stopping) s = any_of s false false false true false
fits_idle in_wait s = any_of s false false false true false
fits_idle _ s = false

unfoldable pub fits_start : Place → State → Bool
fits_start at_test s = any_of s true false false false false
fits_start at_claim s = any_of s true false false false false
fits_start in_run s = any_of s false true false false false
fits_start at_exchange s = any_of s false true false false false
fits_start (at_restore started) s = any_of s true false false true false
fits_start (at_restore stopping) s = any_of s true false false true false
fits_start in_wait s = any_of s true false false true false
fits_start _ s = false

unfoldable pub fits_stop : Place → State → Bool
fits_stop in_run s = any_of s false false true false false
fits_stop at_exchange s = any_of s false false true false false
fits_stop (at_restore started) s = any_of s false false false true false
fits_stop (at_restore stopping) s = any_of s false false false true false
fits_stop in_wait s = any_of s false false false true false
fits_stop _ s = false

unfoldable pub fits_kill : Place → State → Bool
fits_kill no_thread s = false
fits_kill at_claim s = false
fits_kill (at_restore started) s = any_of s false false false false true
fits_kill (at_restore stopping) s = any_of s false false false false true
fits_kill (at_restore killing) s = any_of s false false false true false
fits_kill (at_restore _) s = false
fits_kill _ s = any_of s false false false false true

unfoldable pub fits : Call → Place → State → Bool
unfolding fits_idle fits_start fits_stop fits_kill
fits idle p s = fits_idle p s
fits in_start p s = fits_start p s
fits in_stop p s = fits_stop p s
fits in_kill p s = fits_kill p s
fits gone p s = elim p [ no_thread ↦ true | _ ↦ false ]

abbrev pub Fits : Worker → Type 0
Fits w = fits w.call w.place w.state ≡ true

advance-fits :
    (c : Call) (p : Place) (s : State)
    → fits c p s ≡ true
    → fits c (thread_step p s).0 (thread_step p s).1 ≡ true
unfolding fits thread_step fits_idle fits_start fits_stop fits_kill compare_exchange restore
    should_stop
advance-fits c p s h = ground arith

return-fits :
    (c : Call) (p : Place) (s : State)
    → p ≡ in_run
    → fits c p s ≡ true
    → fits c at_exchange s ≡ true
unfolding fits fits_idle fits_start fits_stop fits_kill
return-fits c p s e h = ground arith

begin_start-Fits : (w : Worker) → w.call ≡ idle → Fits w → Fits (begin_start w)
unfolding begin_start fits fits_idle fits_start compare_exchange
begin_start-Fits w i h = ground arith

begin_stop-Fits : (w : Worker) → w.call ≡ idle → Fits w → Fits (begin_stop w)
unfolding begin_stop fits fits_idle fits_stop compare_exchange
begin_stop-Fits w i h = ground arith

begin_kill-Fits : (w : Worker) → w.call ≡ idle → Fits w → Fits (begin_kill w)
unfolding begin_kill fits fits_idle fits_kill
begin_kill-Fits w i h = ground arith

start_over-fits :
    (p : Place) (s : State) → s ≢ starting → fits in_start p s ≡ true → fits idle p s ≡ true
unfolding fits fits_idle fits_start
start_over-fits p s ne h = ground arith

stop_over-fits :
    (p : Place) (s : State) → s ≡ stopped → fits in_stop p s ≡ true → fits idle p s ≡ true
unfolding fits fits_idle fits_stop
stop_over-fits p s e h = ground arith

Step-Fits : (w v : Worker) → Step w v → Fits w → Fits v
unfolding fits
Step-Fits w _ runs h = advance-fits w.call w.place w.state h
Step-Fits w _ (returns e) h = return-fits w.call w.place w.state e h
Step-Fits w _ (starts i) h = begin_start-Fits w i h
Step-Fits w _ (has_started c ne) h =
    start_over-fits w.place w.state ne (subst (λ d. fits d w.place w.state ≡ true) c h)
Step-Fits w _ (stops i) h = begin_stop-Fits w i h
Step-Fits w _ (has_stopped c e) h =
    stop_over-fits w.place w.state e (subst (λ d. fits d w.place w.state ≡ true) c h)
Step-Fits w _ (kills i) h = begin_kill-Fits w i h
Step-Fits w _ (joins c f) h = refl

-- The states that a thread can meet at each place are those of `fits`, after any steps.
pub Reachable-Fits : (w : Worker) → Reachable w → Fits w
unfolding fits fits_idle
Reachable-Fits _ constructed = refl
Reachable-Fits v (steps {w} r s) = Step-Fits w v s (Reachable-Fits w r)
