-- ===== src/Stratum/Connection.antt =====
-- protocol/stratum/StratumClient.cpp: connecting and disconnecting.
use gen2_energiminer.Common.{
  ℕ, ◌-◌, Bool, true, false, ◌&&◌, ◌||◌, not, List, [], ◌∷◌, ◌++◌, Text, codes, ltb, ◌==◌, Option,
  none, some, if◌then◌else◌,
}
use gen2_energiminer.PoolUri.{
  Uri, no_tls, tls12, tls, attributes, set_stratum_mode, set_stratum_mode_only, mark_unrecoverable,
}
use gen2_energiminer.ArithUint.Divide.{diff1_target}
use gen2_energiminer.Stratum.{
  Client, Act, Effect, no_socket, opened, closed, update, emit, if_state, nothing, ◌>>◌,
  post_disconnect, post_start_connect, post_finalize, async_resolve, async_connect, async_shutdown,
  async_receive, Request, arm_timer, sleep_timer, send, subscribe, notify_disconnected,
  is_connected,
}
use gen2_energiminer.Stratum.Pleas.{enqueue_plea, clear_pleas}

-- `m_conn->SecLevel() != SecureLevel::NONE`.
unfoldable pub is_secure : Client → Bool
unfolding attributes
is_secure c = elim ((attributes c.conn).secure) [ no_tls ↦ false | tls12 ↦ true | tls ↦ true ]

abbrev pub has_socket : Client → Bool
has_socket c = elim c.socket [ no_socket ↦ false | opened ↦ true | closed ↦ true ]

abbrev pub socket_is_open : Client → Bool
socket_is_open c = elim c.socket [ no_socket ↦ false | opened ↦ true | closed ↦ false ]

-- `init_socket` makes a socket that is not open yet.
abbrev pub init_socket : Act
init_socket = update λ c. if has_socket c then c else record c { socket = closed }

abbrev pub clear_flags : Client → Client
clear_flags c = record c {
  connected = false;
  subscribed = false;
  authorized = false;
  authpending = false;
}

abbrev pub set_conn : (Uri → Uri) → Client → Client
set_conn f c = record c { conn = f c.conn }

unfoldable pub connect : Act
connect =
    if_state (λ c. c.connecting) nothing
      (do
        emit arm_timer
        update (λ c. record (clear_flags c) {
          canconnect = false;
          next_target = diff1_target;
          extra_nonce = codes "f000000f";
        })
        init_socket
        update (λ c. record c { endpoints = [] })
        emit async_resolve)

-- The end of `disconnect_finalize`, unless another stratum mode is tried.
abbrev pub sleep_and_tell : ℕ → Act
sleep_and_tell now = do clear_pleas now; emit sleep_timer; emit notify_disconnected

-- A connection lost before its stratum mode is known is tried again in the next lower mode.
abbrev pub is_probing : Client → Bool
is_probing c = not c.conn.unrecoverable && (not c.conn.stratum_mode_confirmed && c.canconnect)

unfoldable pub disconnect_finalize : ℕ → Act
unfolding set_stratum_mode_only mark_unrecoverable clear_pleas
disconnect_finalize now = do
  update (λ c. record (clear_flags c) { socket = no_socket; disconnecting = false })
  if_state is_probing
      (if_state (λ c. ltb 0 c.conn.stratum_mode)
        (do
          update (set_conn (λ u. set_stratum_mode_only (u.stratum_mode - 1) u))
          emit post_start_connect)
        (do update (set_conn mark_unrecoverable); sleep_and_tell now))
      (sleep_and_tell now)

unfoldable pub disconnect : ℕ → Act
unfolding disconnect_finalize enqueue_plea
disconnect now =
    if_state (λ c. not c.connected || c.disconnecting) nothing
      (do
        update (λ c. record c { disconnecting = true })
        if_state socket_is_open
            (if_state is_secure (do emit async_shutdown; enqueue_plea now)
              (do update (λ c. record c { socket = closed }); disconnect_finalize now))
            nothing)

-- `resolve_handler`; `none` is a failure, `some` the addresses found.
unfoldable pub resolve_handler : Option (List ℕ) → Act
resolve_handler (some found) = do
  update (λ c. record c { endpoints = c.endpoints ++ found })
  emit post_start_connect
resolve_handler none = do
  update (λ c. record c { connected = false; connecting = false })
  emit notify_disconnected

abbrev pub has_endpoint : Client → Bool
has_endpoint c = elim c.endpoints [ [] ↦ false | e ∷ es ↦ true ]

-- `async_connect` opens the socket.
unfoldable pub start_connect : ℕ → Act
unfolding clear_pleas enqueue_plea
start_connect now =
    if_state (λ c. c.connecting) nothing
      (do
        update (λ c. record c { connecting = true })
        if_state has_endpoint
            (do
              init_socket
              clear_pleas now
              enqueue_plea now
              update (λ c. record c { socket = opened })
              emit async_connect)
            (do update (λ c. record c { connecting = false }); emit notify_disconnected))

-- `User()` up to the first dot, and what stands behind the dot.
unfoldable pub split_user : Text → Text × Text
split_user [] = ([], [])
split_user (ch ∷ s) = let (u, w) = split_user s in if ch == b'.' then ([], s) else (ch ∷ u, w)

abbrev pub drop_endpoint : Client → Client
drop_endpoint c = record c { endpoints = elim c.endpoints [ [] ↦ [] | e ∷ es ↦ es ] }

-- The stratum mode of a new connection: that of its scheme, or the first one to probe.
abbrev pub choose_mode : Uri → Uri
choose_mode u =
    let version = (attributes u).version in
    if ltb version 999
    then set_stratum_mode version true u
    else (if not u.stratum_mode_confirmed && u.stratum_mode == 999
        then set_stratum_mode 2 false u
        else u)

-- `sendSocketData`.
abbrev pub send_request : Request → Act
send_request r = if_state is_connected (emit (send r)) nothing

-- The login in the client's stratum mode.
abbrev pub send_login : Act
send_login c = send_request (subscribe c.conn.stratum_mode) c

-- The end of `connect_handler`, once the socket is connected.
unfoldable pub connected_socket : ℕ → Act
unfolding clear_pleas split_user set_stratum_mode attributes
connected_socket now = do
  update (λ c. record c { connected = true })
  clear_pleas now
  update (λ c. record c {
    user = (split_user c.conn.username).0;
    worker = (split_user c.conn.username).1;
    conn = choose_mode c.conn;
  })
  emit async_receive
  send_login

-- What `connect_handler` does where its calls are defined.
unfoldable pub connection_result : Bool → Bool → ℕ → Act
unfolding connected_socket mark_unrecoverable
connection_result ec hec now = do
  update (λ c. record c { connecting = false })
  if_state (λ c. ec || not (socket_is_open c))
      (do
        update (λ c. record (drop_endpoint c) { socket = closed; canconnect = false })
        emit post_start_connect)
      (do
        update (λ c. record c { canconnect = true })
        if_state (λ c. is_secure c && hec)
            (do
              update (λ c. record (set_conn mark_unrecoverable c) { canconnect = false })
              emit post_disconnect)
            (connected_socket now))

-- `connect_handler`, with its error code and that of the TLS handshake. Its queue of endpoints is
-- that from which `start_connect` took the one just tried. `none` is a call of a null `m_socket` or,
-- after an error, a pop of an empty queue.
unfoldable pub connect_handler : Bool → Bool → ℕ → Client → Option (Client × List Effect)
unfolding connection_result
connect_handler ec hec now c =
    if has_socket c && (not (ec || not (socket_is_open c)) || has_endpoint c)
    then some (connection_result ec hec now c)
    else none

-- `onSSLShutdownCompleted`.
unfoldable pub on_shutdown_completed : Act
on_shutdown_completed = emit post_finalize
