-- ===== src/Stratum/Probing.antt =====
-- Finding out a pool's stratum mode: a failed login lowers the mode, and the last one that fails
-- ends the use of the pool.
use gen2_energiminer.Common.{
  ℕ, suc, ◌<◌, ◌≡◌, ◌^◌, refl, true, false, ◌==◌, [], ◌∷◌, some, arith, text_eq,
}
use gen2_energiminer.PoolUri.{attributes, set_stratum_mode_only, mark_unrecoverable}
use gen2_energiminer.Stratum.{
  Client, opened, closed, no_socket, post_disconnect, post_start_connect, sleep_timer,
  notify_disconnected, async_connect, async_receive, send, subscribe,
}
use gen2_energiminer.Stratum.Pleas.{clear_pleas, enqueue_plea, dequeue_plea}
use gen2_energiminer.Stratum.Connection.{
  disconnect, disconnect_finalize, start_connect, connect_handler, connection_result, is_secure,
  has_endpoint, connected_socket, split_user,
}
use gen2_energiminer.Stratum.Login.{Message, on_login_response}
use gen2_energiminer.Stratum.Response.{process_response, on_response}

-- The pool's answer to the login that it does not understand.
pub record IsRefusal (m : Message) : Type 0 where
  pub first : m.id ≡ 1
  pub fails : m.error_empty ≡ false
  pub unnamed : m.method ≡ []
  pub plain : m.has_jsonrpc ≡ false

-- A client that has logged in over plain TCP, in a mode that the pool has not confirmed.
pub record IsProbing (k : ℕ) (c : Client) : Type 0 where
  pub up : c.connected ≡ true
  pub not_connecting : c.connecting ≡ false
  pub not_disconnecting : c.disconnecting ≡ false
  pub could_connect : c.canconnect ≡ true
  pub open_socket : c.socket ≡ opened
  pub plain : is_secure c ≡ false
  pub mode : c.conn.stratum_mode ≡ k
  pub unconfirmed : c.conn.stratum_mode_confirmed ≡ false
  pub recoverable : c.conn.unrecoverable ≡ false
  pub auto : (attributes c.conn).version ≡ 999
  pub address : has_endpoint c ≡ true

pub refused :
    (m : Message) (now : ℕ) (k : ℕ) (c : Client)
    → IsRefusal m
    → IsProbing k c
    → process_response m now c ≡ ((dequeue_plea c).0, post_disconnect ∷ [])
unfolding process_response on_response on_login_response text_eq dequeue_plea
refused m now k c r p = rw (r.first, r.unnamed, r.plain, r.fails, p.unconfirmed) refl

-- A TCP client that is up closes its socket.
pub disconnect_plain :
    (now : ℕ) (c : Client)
    → c.connected ≡ true
    → c.disconnecting ≡ false
    → c.socket ≡ opened
    → is_secure c ≡ false
    → disconnect now c
      ≡ disconnect_finalize now (record c { disconnecting = true; socket = closed })
unfolding disconnect is_secure
disconnect_plain now c u d o s = rw (u, d, o, s) refl

-- The state in which another mode is tried.
abbrev pub lowered : ℕ → Client → Client
lowered k c = record c {
  conn = record c.conn { stratum_mode = k };
  connected = false;
  subscribed = false;
  authorized = false;
  authpending = false;
  socket = no_socket;
  disconnecting = false;
}

pub finalize_lowers :
    (now k : ℕ) (c : Client)
    → k < 2 ^ 16
    → c.conn.stratum_mode ≡ suc k
    → c.conn.stratum_mode_confirmed ≡ false
    → c.conn.unrecoverable ≡ false
    → c.canconnect ≡ true
    → disconnect_finalize now c ≡ (lowered k c, post_start_connect ∷ [])
unfolding disconnect_finalize set_stratum_mode_only
finalize_lowers now k c h m u r cc = ground (arith, h, m, u, r, cc)

-- The state of a client whose pool is given up.
abbrev pub given_up : ℕ → Client → Client
given_up now c = record (lowered 0 c) {
  conn = record c.conn { unrecoverable = true };
  plea_count = 0;
  plea_times = [];
  plea_older = now;
}

pub finalize_gives_up :
    (now : ℕ) (c : Client)
    → c.conn.stratum_mode ≡ 0
    → c.conn.stratum_mode_confirmed ≡ false
    → c.conn.unrecoverable ≡ false
    → c.canconnect ≡ true
    → disconnect_finalize now c ≡ (given_up now c, sleep_timer ∷ notify_disconnected ∷ [])
unfolding disconnect_finalize mark_unrecoverable clear_pleas
finalize_gives_up now c m u r cc = rw (m, u, r, cc) refl

-- While the first address is tried.
abbrev pub dialling : ℕ → Client → Client
dialling now c = record c {
  connecting = true;
  socket = opened;
  plea_count = 1;
  plea_older = now;
  plea_times = now ∷ [];
}

pub start_dials :
    (now : ℕ) (c : Client)
    → c.connecting ≡ false
    → c.socket ≡ no_socket
    → has_endpoint c ≡ true
    → start_connect now c ≡ (dialling now c, async_connect ∷ [])
unfolding start_connect clear_pleas enqueue_plea
start_dials now c h o e = rw (h, o, e) refl

-- After the login has been sent.
abbrev pub logged_in : ℕ → Client → Client
logged_in now c = record c {
  connected = true;
  connecting = false;
  canconnect = true;
  user = (split_user c.conn.username).0;
  worker = (split_user c.conn.username).1;
  plea_count = 0;
  plea_older = now;
  plea_times = [];
}

below_unknown : (k : ℕ) → k < 999 → (k == 999) ≡ false
below_unknown k h = ground arith

pub connect_logs_in :
    (now k : ℕ) (c : Client)
    → k < 999
    → c.socket ≡ opened
    → is_secure c ≡ false
    → (attributes c.conn).version ≡ 999
    → c.conn.stratum_mode ≡ k
    → c.conn.stratum_mode_confirmed ≡ false
    → c.disconnecting ≡ false
    → connect_handler false false now c
      ≡ some (logged_in now c, async_receive ∷ send (subscribe c.conn.stratum_mode) ∷ [])
unfolding connect_handler connection_result connected_socket clear_pleas is_secure
connect_logs_in now k c h o s v m u d =
    let known : (c.conn.stratum_mode == 999) ≡ false = rw m (below_unknown k h) in
    rw (o, d, s, v, known, u) refl
