-- ===== src/Stratum.antt =====
-- protocol/stratum/StratumClient.h and protocol/PoolClient.h: the state of the connection to a
-- pool, and what its handlers leave to others. A handler is an `Act`: it changes the state and
-- leaves a list of effects, in the order of the calls. Time is an argument, in milliseconds.
pub mod Pleas
pub mod Connection
pub mod Login
pub mod Response
pub mod Traffic
pub mod Events
pub mod PleaLaws
pub mod Invariants
pub mod Runs
pub mod Addresses
pub mod Session
pub mod Probing
pub mod Negotiation
mod Examples
use gen2_energiminer.Common.{
  ℕ, Bool, true, false, ◌&&◌, ◌||◌, not, List, [], ◌∷◌, ◌++◌, Text, if◌then◌else◌,
}
use gen2_energiminer.PoolUri.{Uri}
use gen2_energiminer.Work.{Work}

-- `m_socket` and what asio knows of it.
pub data Socket : Type 0 where
  no_socket opened closed : Socket

-- The requests that the client writes to the pool; the login is that of a stratum mode.
pub data Request : Type 0 where
  subscribe : ℕ → Request
  authorize submit version_reply unknown_method_reply null_request : Request

pub data Effect : Type 0 where
  -- Handlers posted to the strand.
  post_disconnect post_start_connect post_finalize post_login_failure post_response : Effect
  -- Asynchronous operations started.
  async_resolve async_connect async_shutdown async_receive : Effect
  arm_timer sleep_timer : Effect
  send : Request → Effect
  -- The callbacks of `PoolClient`.
  notify_connected notify_disconnected reset_work : Effect
  work_received : Work → Effect
  solution_accepted solution_rejected : Bool → ℕ → Effect

pub record Client : Type 0 where
  pub conn : Uri
  pub connected : Bool
  pub subscribed : Bool
  pub authorized : Bool
  pub authpending : Bool
  pub connecting : Bool
  pub disconnecting : Bool
  pub canconnect : Bool
  pub socket : Socket
  pub endpoints : List ℕ
  pub user : Text
  pub worker : Text
  pub current : Work
  pub current_timestamp : ℕ
  pub next_target : List ℕ
  pub extra_nonce : Text
  pub plea_count : ℕ
  pub plea_older : ℕ
  pub plea_times : List ℕ
  pub work_timeout : ℕ
  pub response_timeout : ℕ

abbrev pub is_pending : Client → Bool
is_pending c = c.connecting || c.disconnecting

abbrev pub is_connected : Client → Bool
is_connected c = c.connected && not (is_pending c)

abbrev pub Act : Type 0
Act = Client → Client × List Effect

infixl 5 ◌>>◌
abbrev pub ◌>>◌ : Act → Act → Act
◌>>◌ f g c = ((g (f c).0).0, (f c).1 ++ (g (f c).0).1)

abbrev pub nothing : Act
nothing c = (c, [])

abbrev pub emit : Effect → Act
emit e c = (c, e ∷ [])

abbrev pub update : (Client → Client) → Act
update f c = (f c, [])

abbrev pub if_state : (Client → Bool) → Act → Act → Act
if_state test yes' no' c = if test c then yes' c else no' c

abbrev pub when : Bool → Act → Act
when b f c = if b then f c else (c, [])
