-- ===== src/Worker/Examples.antt =====
-- primitives/worker.cpp: a worker that is started, stopped, started again while its thread is on
-- its way to the waiting loop, and destroyed.
use gen2_energiminer.Common.{ℕ, ◌≡◌, ◌≤◌, refl, arith}
use gen2_energiminer.Worker.{
  Worker, started, stopping, stopped, starting, killing, in_run, at_restore, idle, in_start,
  in_stop, in_kill, thread_step, begin_start, begin_stop, compare_exchange, Reachable, constructed,
  steps, runs, returns, return_idle, at_exchange, in_wait, should_stop, starts, has_started, stops,
  has_stopped,
}
use gen2_energiminer.Worker.Ends.{advances, start_ends, start_lost}

abbrev running : Worker
running = record { state = started; place = in_run; call = idle }

abbrev to_stop : Worker
to_stop = record { state = stopping; place = in_run; call = in_stop }

abbrev has_left : Worker
has_left = record { state = stopped; place = at_restore stopping; call = idle }

abbrev starts_again : Worker
starts_again = record { state = starting; place = at_restore stopping; call = in_start }

abbrev dying : Worker
dying = record { state = killing; place = in_run; call = in_kill }

running-Reachable : Reachable running
unfolding begin_start thread_step compare_exchange
running-Reachable =
    steps (steps (steps (steps constructed (starts refl)) runs) runs)
      (has_started refl (λ e. ground (arith, e)))

to_stop-Reachable : Reachable to_stop
unfolding begin_stop compare_exchange
to_stop-Reachable = steps running-Reachable (stops refl)

has_left-Reachable : Reachable has_left
unfolding thread_step should_stop
has_left-Reachable = steps (steps (steps to_stop-Reachable runs) runs) (has_stopped refl refl)

starts_again-Reachable : Reachable starts_again
unfolding begin_start compare_exchange
starts_again-Reachable = steps has_left-Reachable (starts refl)

start_ends_example :
    (n : ℕ) × (n ≤ 4)
    × ((advances n starts_again).state ≡ started)
    × ((advances n starts_again).place ≡ in_run)
start_ends_example = start_ends starts_again starts_again-Reachable refl refl

-- `trun` has ended by itself.
abbrev leaving : Worker
leaving = record { state = started; place = at_exchange; call = idle }

leaving-Reachable : Reachable leaving
leaving-Reachable = steps running-Reachable (returns refl)

start_lost_example :
    ((begin_start leaving).state ≡ started)
    × ((advances 2 (return_idle (begin_start leaving))).state ≡ stopped)
    × ((advances 2 (return_idle (begin_start leaving))).place ≡ in_wait)
start_lost_example = start_lost leaving leaving-Reachable refl refl
