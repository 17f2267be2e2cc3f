-- ===== src/Stratum/Traffic.antt =====
-- protocol/stratum/StratumClient.cpp: the timer, the submission of solutions, and the ends of the
-- reads and writes of the socket.
use gen2_energiminer.Common.{
  ℕ, ◌-◌, ◌*◌, ◌/◌, Bool, true, false, ◌&&◌, ◌||◌, not, List, [], ◌∷◌, ◌++◌, ltb, leb, Option, none,
  some, if◌then◌else◌,
}
use gen2_energiminer.PoolUri.{mark_unrecoverable}
use gen2_energiminer.Work.{Work, same_work}
use gen2_energiminer.Stratum.{
  Client, Act, Effect, closed, update, emit, if_state, nothing, ◌>>◌, is_connected, is_pending,
  post_disconnect, post_login_failure, post_response, async_receive, arm_timer, submit,
  solution_rejected,
}
use gen2_energiminer.Stratum.Pleas.{enqueue_plea, clear_pleas}
use gen2_energiminer.Stratum.Connection.{set_conn, send_request, is_secure, socket_is_open}

-- `PARALLEL_REQUEST_LIMIT`.
abbrev pub parallel_request_limit : ℕ
parallel_request_limit = 10

-- `submitSolution`.
unfoldable pub submit_solution : Work → ℕ → Act
unfolding enqueue_plea same_work
submit_solution w now =
    if_state (λ c. not c.subscribed || not c.authorized || not (same_work c.current w)) nothing
      (if_state (λ c. ltb parallel_request_limit c.plea_count) (emit (solution_rejected true 0))
        (do enqueue_plea now; send_request submit))

-- `m_endpoints.pop()` and what follows it after a timeout; `none` is a pop of an empty queue.
unfoldable pub give_endpoint_up : ℕ → Client → Option (Client × List Effect)
unfolding clear_pleas
give_endpoint_up now c = elim c.endpoints [
  | [] ↦ none
  | e ∷ es ↦ some (
      (do
        update (λ d. record d { endpoints = es; subscribed = false; authorized = false })
        clear_pleas now
        emit post_disconnect)
        c)
]

-- Runs a second part on the state that the first left.
abbrev pub and_then :
    Option (Client × List Effect)
    → (Client → Option (Client × List Effect))
    → Option (Client × List Effect)
and_then none k = none
and_then (some (c, es)) k = elim (k c) [ none ↦ none | some (d, fs) ↦ some (d, es ++ fs) ]

-- The time that the oldest request has waited, in milliseconds.
abbrev pub waited : ℕ → Client → ℕ
waited now c = now - c.plea_older

-- "Waiting for a response from pool to a login request", or to a solution.
unfoldable pub check_response : ℕ → Client → Option (Client × List Effect)
unfolding clear_pleas
check_response now c =
    if leb (c.response_timeout * 1000) (waited now c)
    then (if not c.conn.stratum_mode_confirmed && not c.conn.unrecoverable
        then some ((do clear_pleas now; emit post_login_failure) c)
        else give_endpoint_up now c)
    else some (c, [])

-- "Check how old is last job received".
unfoldable pub check_work : ℕ → Client → Option (Client × List Effect)
check_work now c =
    if ltb c.work_timeout ((now - c.current_timestamp) / 1000)
    then give_endpoint_up now c
    else some (c, [])

-- The timer of a client that connects or disconnects closes the socket and returns.
abbrev pub closes_socket : ℕ → Client → Bool
closes_socket now c =
    is_pending c
    && leb (waited now c) (c.response_timeout * 1000)
    && (c.connecting || c.disconnecting && is_secure c && socket_is_open c)

-- The two checks of a connected client that waits for an answer.
unfoldable pub check_connected : ℕ → Client → Option (Client × List Effect)
check_connected now c =
    if ltb 0 c.plea_count && is_connected c
    then and_then (check_response now c) (check_work now)
    else some (c, [])

-- `workloop_timer_elapsed`, with the flag that the timer was cancelled. The state is that of the
-- call throughout the check of the pending phase, and a client that is pending is not connected.
unfoldable pub timer_elapsed : Bool → ℕ → Client → Option (Client × List Effect)
timer_elapsed aborted now c =
    if aborted
    then some (c, [])
    else (if ltb 0 c.plea_count && closes_socket now c
        then some (record c { socket = closed }, [])
        else and_then (check_connected now c) (λ d. some (d, arm_timer ∷ [])))

-- `onRecvSocketDataCompleted`: `message` is a line that parses, `noise` one that does not.
pub data Received : Type 0 where
  message noise failure : Received

unfoldable pub on_received : Received → Act
unfolding mark_unrecoverable
on_received message = if_state is_connected (do emit post_response; emit async_receive) nothing
on_received noise = if_state is_connected (emit async_receive) nothing
on_received failure =
    if_state is_connected
      (do
        update (λ c. if c.authpending then set_conn mark_unrecoverable c else c)
        emit post_disconnect)
      nothing

-- `onSendSocketDataCompleted`: the handlers that it wraps are neither posted nor called.
unfoldable pub on_sent : Bool → Act
on_sent ec = nothing
