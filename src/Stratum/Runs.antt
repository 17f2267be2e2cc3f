-- ===== src/Stratum/Runs.antt =====
-- The queue of requests that wait for an answer, after any sequence of events.
use gen2_energiminer.Common.{
  ℕ, ◌≡◌, refl, Bool, true, false, List, [], ◌∷◌, arith, Option, some, Bool-cases, inl, inr, ltb,
  ◌&&◌,
}
use gen2_energiminer.PoolUri.{Uri}
use gen2_energiminer.Stratum.{Client, Effect, arm_timer, is_connected}
use gen2_energiminer.Stratum.Connection.{on_shutdown_completed, connection_result, connect_handler}
use gen2_energiminer.Stratum.Events.{
  Event, connects, disconnects, finalizes, starts, resolves, connection_ends, responds, submits,
  ticks, receives, sends, shuts_down, selects, handle, run_events, initial,
}
use gen2_energiminer.Stratum.Invariants.{After, and_then-After, tested-After, reached}
use gen2_energiminer.Stratum.Traffic.{
  give_endpoint_up, check_response, check_work, check_connected, and_then, timer_elapsed, on_sent,
  closes_socket,
}
use gen2_energiminer.Stratum.PleaLaws.{
  PleasMatch, connect-Keeps, connection-Keeps, disconnect-Keeps, finalize-Keeps, process-Keeps,
  received-Keeps, resolve-Keeps, start_connect-Keeps, submit-Keeps,
}

abbrev Matched : Option (Client × List Effect) → Type 0
Matched = After PleasMatch

give_up-Matched : (now : ℕ) (c : Client) → Matched (give_endpoint_up now c)
unfolding give_endpoint_up
give_up-Matched now c = ground arith

check_response-Matched : (now : ℕ) (c : Client) → PleasMatch c → Matched (check_response now c)
unfolding check_response
check_response-Matched now c h = ground (arith, give_up-Matched now c)

check_work-Matched : (now : ℕ) (c : Client) → PleasMatch c → Matched (check_work now c)
unfolding check_work
check_work-Matched now c h = ground (arith, give_up-Matched now c)

checks-Matched :
    (now : ℕ) (c : Client)
    → PleasMatch c
    → Matched (and_then (check_response now c) (check_work now))
checks-Matched now c h =
    and_then-After PleasMatch (check_response now c) (check_work now)
      (check_response-Matched now c h) (check_work-Matched now)

connected-Matched : (now : ℕ) (c : Client) → PleasMatch c → Matched (check_connected now c)
unfolding check_connected
connected-Matched now c h = elim (Bool-cases (ltb 0 c.plea_count && is_connected c)) [
  | inl e ↦ rw e (checks-Matched now c h)
  | inr e ↦ rw e h
]

timer-Matched :
    (aborted : Bool) (now : ℕ) (c : Client) → PleasMatch c → Matched (timer_elapsed aborted now c)
unfolding timer_elapsed
timer-Matched true now c h = h
timer-Matched false now c h = elim (Bool-cases (ltb 0 c.plea_count && closes_socket now c)) [
  | inl e ↦ rw e h
  | inr e ↦ rw e (
      and_then-After PleasMatch (check_connected now c) (λ d. some (d, arm_timer ∷ []))
        (connected-Matched now c h) (λ d h'. h'))
]

handle-Matched : (now : ℕ) (e : Event) (c : Client) → PleasMatch c → Matched (handle now e c)
unfolding handle connect_handler
handle-Matched now connects c h = connect-Keeps c h
handle-Matched now disconnects c h = disconnect-Keeps now c h
handle-Matched now finalizes c h = finalize-Keeps now c h
handle-Matched now starts c h = start_connect-Keeps now c h
handle-Matched now (resolves r) c h = resolve-Keeps r c h
handle-Matched now (connection_ends ec hec) c h =
    tested-After PleasMatch _ (connection_result ec hec now c) (connection-Keeps ec hec now c h)
handle-Matched now (responds m) c h = process-Keeps m now c h
handle-Matched now (submits w) c h = submit-Keeps w now c h
handle-Matched now (ticks aborted) c h = timer-Matched aborted now c h
handle-Matched now (receives r) c h = received-Keeps r c h
handle-Matched now (sends ec) c h = unfold on_sent in h
handle-Matched now shuts_down c h = unfold on_shutdown_completed in h
handle-Matched now (selects u) c h = h

-- After any events from the constructed client on, each handler of which runs as a whole before the
-- next one begins, unless they met undefined behaviour, the counter of open requests is the length of
-- the queue of their times.
pub run_events-PleasMatch :
    (es : List (ℕ × Event)) (u : Uri) (work_timeout response_timeout : ℕ) (c : Client)
    (calls : List Effect)
    → run_events es (initial u work_timeout response_timeout) ≡ some (c, calls)
    → PleasMatch c
unfolding initial
run_events-PleasMatch es u wt rt c calls e =
    reached PleasMatch handle-Matched es (initial u wt rt) c calls refl e
