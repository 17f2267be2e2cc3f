-- ===== src/Stratum/Addresses.antt =====
-- The queue of addresses while the client connects, after any sequence of events.
use gen2_energiminer.Common.{
  ℕ, ◌≡◌, refl, Bool, true, false, ◌&&◌, ◌||◌, not, List, [], ◌∷◌, ◌++◌, arith, Option, none, some,
  Bool-cases, inl, inr, ltb, Text, codes,
}
use gen2_energiminer.PoolUri.{Uri}
use gen2_energiminer.Work.{Work}
use gen2_energiminer.Stratum.{Client, Act, Effect, arm_timer, is_connected}
use gen2_energiminer.Stratum.Pleas.{dequeue_plea}
use gen2_energiminer.Stratum.Connection.{
  has_endpoint, set_conn, connect, disconnect, disconnect_finalize, start_connect,
  connection_result, connect_handler, resolve_handler, on_shutdown_completed,
}
use gen2_energiminer.Stratum.Login.{Message, confirm_mode, on_login_response, on_subscribed}
use gen2_energiminer.Stratum.Response.{
  named_method, process_response, on_authorize_response, on_submit_response, on_other_response,
  on_response, on_notification, on_notify,
}
use gen2_energiminer.Stratum.Traffic.{
  Received, message, noise, failure, on_received, on_sent, submit_solution, timer_elapsed,
  give_endpoint_up, check_response, check_work, check_connected, closes_socket, and_then,
}
use gen2_energiminer.Stratum.Events.{
  Event, connects, disconnects, finalizes, starts, resolves, connection_ends, responds, submits,
  ticks, receives, sends, shuts_down, selects, handle, run_events, initial,
}
use gen2_energiminer.Stratum.Invariants.{After, and_then-After, tested-After, reached}

-- A client that connects has the address that it tries at the front of its queue.
abbrev pub HasAddress : Client → Type 0
HasAddress c = (not c.connecting || has_endpoint c) ≡ true

-- A handler that changes neither the flag nor the queue.
abbrev Leaves : Act → Type 0
Leaves f = (c : Client) → ((f c).0.connecting ≡ c.connecting) × ((f c).0.endpoints ≡ c.endpoints)

subscribed-Leaves : (m : Message) (now : ℕ) → Leaves (on_subscribed m now)
unfolding on_subscribed
subscribed-Leaves m now c = ground arith

login-Leaves : (m : Message) (now : ℕ) → Leaves (on_login_response m now)
unfolding on_login_response dequeue_plea
login-Leaves m now c = ground (
  arith,
  subscribed-Leaves m now (dequeue_plea c).0,
  subscribed-Leaves m now (set_conn confirm_mode (dequeue_plea c).0),
)

authorize-Leaves : (m : Message) (now : ℕ) → Leaves (on_authorize_response m now)
unfolding on_authorize_response
authorize-Leaves m now c = ground arith

submit_response-Leaves : (m : Message) (now : ℕ) → Leaves (on_submit_response m now)
unfolding on_submit_response
submit_response-Leaves m now c = ground arith

other-Leaves : (m : Message) → Leaves (on_other_response m)
unfolding on_other_response
other-Leaves m c = ground arith

response-Leaves : (m : Message) (now : ℕ) → Leaves (on_response m now)
unfolding on_response
response-Leaves m now c = ground (
  arith,
  login-Leaves m now c,
  authorize-Leaves m now c,
  submit_response-Leaves m now c,
  other-Leaves m c,
)

notification-Leaves :
    (method : Text) (m : Message) (now : ℕ) → Leaves (on_notification method m now)
unfolding on_notification on_notify
notification-Leaves method m now c = ground arith

process-Leaves : (m : Message) (now : ℕ) → Leaves (process_response m now)
unfolding process_response
process-Leaves m now c = ground (
  arith,
  notification-Leaves (named_method m c) m now c,
  notification-Leaves (codes "mining.notify") m now c,
  response-Leaves m now c,
)

abbrev Keeps : Act → Type 0
Keeps f = (c : Client) → HasAddress c → HasAddress (f c).0

Leaves-Keeps : (f : Act) → Leaves f → Keeps f
Leaves-Keeps f l c h = rw ((l c).0, (l c).1) h

connect-Keeps : Keeps connect
unfolding connect
connect-Keeps c h = ground arith

disconnect-Keeps : (now : ℕ) → Keeps (disconnect now)
unfolding disconnect disconnect_finalize
disconnect-Keeps now c h = ground arith

finalize-Keeps : (now : ℕ) → Keeps (disconnect_finalize now)
unfolding disconnect_finalize
finalize-Keeps now c h = ground arith

start-Keeps : (now : ℕ) → Keeps (start_connect now)
unfolding start_connect
start-Keeps now c h = ground arith

connection-Keeps : (ec hec : Bool) (now : ℕ) → Keeps (connection_result ec hec now)
unfolding connection_result
connection-Keeps ec hec now c h = ground arith

appended_endpoint :
    (es fs : List ℕ)
    → elim es [ [] ↦ false | e ∷ r ↦ true ] ≡ true
    → elim (es ++ fs) [ [] ↦ false | e ∷ r ↦ true ] ≡ true
appended_endpoint [] fs h = cc
appended_endpoint (e ∷ es) fs h = refl

resolve-Keeps : (r : Option (List ℕ)) → Keeps (resolve_handler r)
unfolding resolve_handler
resolve-Keeps none c h = refl
resolve-Keeps (some found) c h = ground (arith, appended_endpoint c.endpoints found)

submit-Leaves : (w : Work) (now : ℕ) → Leaves (submit_solution w now)
unfolding submit_solution
submit-Leaves w now c = ground arith

received-Leaves : (r : Received) → Leaves (on_received r)
unfolding on_received
received-Leaves message c = ground arith
received-Leaves noise c = ground arith
received-Leaves failure c = ground arith

-- A client that does not connect; the checks of the timer leave it so.
abbrev Rests : Client → Type 0
Rests c = c.connecting ≡ false

give_up-Rests : (now : ℕ) (c : Client) → Rests c → After Rests (give_endpoint_up now c)
unfolding give_endpoint_up
give_up-Rests now c h = ground arith

response-Rests : (now : ℕ) (c : Client) → Rests c → After Rests (check_response now c)
unfolding check_response
response-Rests now c h = ground (arith, give_up-Rests now c h)

work-Rests : (now : ℕ) (c : Client) → Rests c → After Rests (check_work now c)
unfolding check_work
work-Rests now c h = ground (arith, give_up-Rests now c h)

Rests-HasAddress : (r : Option (Client × List Effect)) → After Rests r → After HasAddress r
Rests-HasAddress none h = tt
Rests-HasAddress (some (c, es)) h = rw h refl

connected-Keeps : (now : ℕ) (c : Client) → HasAddress c → After HasAddress (check_connected now c)
unfolding check_connected
connected-Keeps now c h = elim (Bool-cases (ltb 0 c.plea_count && is_connected c)) [
  | inr e ↦ rw e h
  | inl e ↦
      let rests : c.connecting ≡ false = ground (arith, e) in
      rw e (
        Rests-HasAddress (and_then (check_response now c) (check_work now)) (
          and_then-After Rests (check_response now c) (check_work now) (response-Rests now c rests)
            (work-Rests now)))
]

timer-Keeps :
    (aborted : Bool) (now : ℕ) (c : Client)
    → HasAddress c
    → After HasAddress (timer_elapsed aborted now c)
unfolding timer_elapsed
timer-Keeps true now c h = h
timer-Keeps false now c h = elim (Bool-cases (ltb 0 c.plea_count && closes_socket now c)) [
  | inl e ↦ rw e h
  | inr e ↦ rw e (
      and_then-After HasAddress (check_connected now c) (λ d. some (d, arm_timer ∷ []))
        (connected-Keeps now c h) (λ d h'. h'))
]

handle-Keeps : (now : ℕ) (e : Event) (c : Client) → HasAddress c → After HasAddress (handle now e c)
unfolding handle connect_handler
handle-Keeps now connects c h = connect-Keeps c h
handle-Keeps now disconnects c h = disconnect-Keeps now c h
handle-Keeps now finalizes c h = finalize-Keeps now c h
handle-Keeps now starts c h = start-Keeps now c h
handle-Keeps now (resolves r) c h = resolve-Keeps r c h
handle-Keeps now (connection_ends ec hec) c h =
    tested-After HasAddress _ (connection_result ec hec now c) (connection-Keeps ec hec now c h)
handle-Keeps now (responds m) c h = Leaves-Keeps (process_response m now) (process-Leaves m now) c h
handle-Keeps now (submits w) c h = Leaves-Keeps (submit_solution w now) (submit-Leaves w now) c h
handle-Keeps now (ticks aborted) c h = timer-Keeps aborted now c h
handle-Keeps now (receives r) c h = Leaves-Keeps (on_received r) (received-Leaves r) c h
handle-Keeps now (sends ec) c h = unfold on_sent in h
handle-Keeps now shuts_down c h = unfold on_shutdown_completed in h
handle-Keeps now (selects u) c h = h

-- After any events from the constructed client on, each handler of which runs as a whole before the
-- next one begins, unless they met undefined behaviour, a client that connects has an address in its
-- queue, whatever the resolver and the timer did meanwhile.
pub run_events-HasAddress :
    (es : List (ℕ × Event)) (u : Uri) (work_timeout response_timeout : ℕ) (c : Client)
    (calls : List Effect)
    → run_events es (initial u work_timeout response_timeout) ≡ some (c, calls)
    → HasAddress c
unfolding initial
run_events-HasAddress es u wt rt c calls e =
    reached HasAddress handle-Keeps es (initial u wt rt) c calls refl e
