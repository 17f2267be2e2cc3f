-- ===== src/Worker/Ends.antt =====
-- What the calls of a worker can rely on: the thread does not run while it is stopped, and each
-- waiting loop ends, counted in the thread's own steps. In `trun` the thread runs a loop that asks
-- `shouldStop` in each round.
use gen2_energiminer.Common.{ℕ, zero, suc, ◌≡◌, ◌≢◌, ◌≤◌, true, arith, subst}
use gen2_energiminer.Worker.{
  Worker, State, Place, Call, starting, started, stopped, at_test, at_claim, in_run, at_exchange,
  at_restore, in_wait, in_start, thread_step, advance, compare_exchange, restore, begin_start,
  return_idle, idle, Reachable,
}
use gen2_energiminer.Worker.Invariant.{
  fits, fits_idle, fits_start, fits_stop, fits_kill, Reachable-Fits,
}

-- `n` steps of the thread alone.
abbrev pub advances : ℕ → Worker → Worker
advances zero w = w
advances (suc n) w = advances n (advance w)

outside : (c : Call) (p : Place) (s : State) → fits c p s ≡ true → s ≡ stopped → p ≢ in_run
unfolding fits fits_idle fits_start fits_stop fits_kill
outside c p s h e = ground arith

-- While the state of a reachable worker is `Stopped`, its thread is not in `trun`.
pub stopped_outside : (w : Worker) → Reachable w → w.state ≡ stopped → w.place ≢ in_run
stopped_outside w r e = outside w.call w.place w.state (Reachable-Fits w r) e

-- How many steps the thread needs to be `Stopped`, to leave `Starting`, and to finish.
abbrev pub stop_count : Place → ℕ
stop_count p = elim p [ in_run ↦ 2 | at_exchange ↦ 1 | _ ↦ 0 ]

abbrev pub start_count : Place → ℕ
start_count p = elim p [ at_restore ex ↦ 4 | in_wait ↦ 3 | at_test ↦ 2 | at_claim ↦ 1 | _ ↦ 0 ]

abbrev pub kill_count : Place → ℕ
kill_count p = elim p [ at_exchange ↦ 4 | at_restore ex ↦ 3 | in_wait ↦ 2 | at_test ↦ 1 | _ ↦ 0 ]

start_reached :
    (w : Worker)
    → fits in_start w.place w.state ≡ true
    → w.state ≡ starting
    → ((advances (start_count w.place) w).state ≡ started)
      × ((advances (start_count w.place) w).place ≡ in_run)
unfolding fits fits_start thread_step compare_exchange restore
start_reached w h e = ground arith

in_call : (w : Worker) (c : Call) → Reachable w → w.call ≡ c → fits c w.place w.state ≡ true
in_call w c r e = subst (λ d. fits d w.place w.state ≡ true) e (Reachable-Fits w r)

-- While `startWorking` of a reachable worker waits at the state `Starting`, at most four steps of
-- the thread make it `Started` and take the thread into `trun`, even where the call came between
-- the thread's exchange of the state and its restoring of it.
pub start_ends :
    (w : Worker)
    → Reachable w
    → w.call ≡ in_start
    → w.state ≡ starting
    → (n : ℕ) × (n ≤ 4) × ((advances n w).state ≡ started) × ((advances n w).place ≡ in_run)
start_ends w r c e =
    let (s, p) = start_reached w (in_call w in_start r c) e in
    (start_count w.place, ground arith, s, p)

lost :
    (w : Worker)
    → fits idle w.place w.state ≡ true
    → w.place ≡ at_exchange
    → ((begin_start w).state ≡ started)
      × ((advances 2 (return_idle (begin_start w))).state ≡ stopped)
      × ((advances 2 (return_idle (begin_start w))).place ≡ in_wait)
unfolding fits fits_idle begin_start thread_step compare_exchange restore
lost w h e = ground arith

-- A start is lost that comes after `trun` has returned and before the thread exchanges the state:
-- the call finds `Started` and does not wait, and two steps of the thread later, without a further
-- call, the worker is `Stopped` and its thread waits.
pub start_lost :
    (w : Worker)
    → Reachable w
    → w.call ≡ idle
    → w.place ≡ at_exchange
    → ((begin_start w).state ≡ started)
      × ((advances 2 (return_idle (begin_start w))).state ≡ stopped)
      × ((advances 2 (return_idle (begin_start w))).place ≡ in_wait)
start_lost w r c e = lost w (in_call w idle r c) e
