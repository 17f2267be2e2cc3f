-- ===== src/Stratum/Events.antt =====
-- protocol/stratum/StratumClient.cpp: the handlers as events, each of which runs as a whole, one after
-- the other, in any order and at any times. The strand does so with the handlers that are wrapped in
-- it, and a single thread of the io_service with `processResponse`, which is posted without it.
-- `submitSolution`, `connect`, `disconnect` and `setConnection` are called from the threads of the
-- miners and of the manager, and can overlap a handler in the source; such an overlap is not modelled.
use gen2_energiminer.Common.{ℕ, Bool, List, [], ◌∷◌, Option, some, false}
use gen2_energiminer.PoolUri.{Uri}
use gen2_energiminer.ArithUint.Divide.{diff1_target}
use gen2_energiminer.Work.{Work, blank_work}
use gen2_energiminer.Stratum.{Client, Effect, no_socket}
use gen2_energiminer.Stratum.Connection.{
  connect, disconnect, disconnect_finalize, start_connect, connect_handler, resolve_handler,
  on_shutdown_completed,
}
use gen2_energiminer.Stratum.Login.{Message}
use gen2_energiminer.Stratum.Response.{process_response}
use gen2_energiminer.Stratum.Traffic.{
  Received, submit_solution, timer_elapsed, on_received, on_sent, and_then,
}

pub data Event : Type 0 where
  connects disconnects finalizes starts : Event
  resolves : Option (List ℕ) → Event
  -- The error codes of the connection and of its handshake.
  connection_ends : Bool → Bool → Event
  responds : Message → Event
  submits : Work → Event
  ticks : Bool → Event
  receives : Received → Event
  sends : Bool → Event
  shuts_down : Event
  -- `PoolClient::setConnection`.
  selects : Uri → Event

-- What the handler of the event does at a time; `none` is undefined behaviour.
unfoldable pub handle : ℕ → Event → Client → Option (Client × List Effect)
handle now connects c = some (connect c)
handle now disconnects c = some (disconnect now c)
handle now finalizes c = some (disconnect_finalize now c)
handle now starts c = some (start_connect now c)
handle now (resolves r) c = some (resolve_handler r c)
handle now (connection_ends ec hec) c = connect_handler ec hec now c
handle now (responds m) c = some (process_response m now c)
handle now (submits w) c = some (submit_solution w now c)
handle now (ticks aborted) c = timer_elapsed aborted now c
handle now (receives r) c = some (on_received r c)
handle now (sends ec) c = some (on_sent ec c)
handle now shuts_down c = some (on_shutdown_completed c)
handle now (selects u) c = some (record c { conn = u; canconnect = false }, [])

unfoldable pub run_events : List (ℕ × Event) → Client → Option (Client × List Effect)
run_events [] c = some (c, [])
run_events ((now, e) ∷ es) c = and_then (handle now e c) (run_events es)

-- The client as it is constructed, at time 0, for the endpoint that it is given first.
unfoldable pub initial : Uri → ℕ → ℕ → Client
initial u work_timeout response_timeout = record {
  conn = u;
  connected = false;
  subscribed = false;
  authorized = false;
  authpending = false;
  connecting = false;
  disconnecting = false;
  canconnect = false;
  socket = no_socket;
  endpoints = [];
  user = [];
  worker = [];
  current = blank_work;
  current_timestamp = 0;
  next_target = diff1_target;
  extra_nonce = [];
  plea_count = 0;
  plea_older = 0;
  plea_times = [];
  work_timeout = work_timeout;
  response_timeout = response_timeout;
}
