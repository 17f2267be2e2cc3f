-- ===== src/Stratum/Login.antt =====
-- protocol/stratum/StratumClient.cpp: the part of `processResponse` for the answer to the login.
-- A `Message` is what the handler reads off the JSON value: jsoncpp's answers are its fields.
use gen2_energiminer.Common.{ℕ, Bool, true, ◌&&◌, not, Text, ◌==◌, Option, if◌then◌else◌}
use gen2_energiminer.PoolUri.{Uri, set_stratum_mode, mark_unrecoverable}
use gen2_energiminer.Stratum.{
  Client, Act, update, emit, when, if_state, nothing, ◌>>◌, post_disconnect, authorize,
  null_request, notify_connected,
}
use gen2_energiminer.Stratum.Pleas.{enqueue_plea, dequeue_plea}
use gen2_energiminer.Stratum.Connection.{set_conn, send_request}

pub record Message : Type 0 where
  -- The members "jsonrpc", "id", "error" and "method".
  pub has_jsonrpc : Bool
  pub jsonrpc_is_two : Bool
  pub id : ℕ
  pub error_empty : Bool
  pub method : Text
  -- The member "result".
  pub result_empty : Bool
  pub result_is_array : Bool
  pub result_bool : Option Bool
  pub result_extranonce : Text
  -- The member "params": its third, fourth and ninth entries, and the first as it is read by the
  -- method, as an extra nonce or as a difficulty times `DIFF_MULT`, at least 10.
  pub params_empty : Bool
  pub params_is_array : Bool
  pub third_empty : Bool
  pub fourth_empty : Bool
  pub clean_jobs : Bool
  pub extranonce : Text
  pub scaled_difficulty : ℕ
  -- What `Block` reads off the entries of a job.
  pub job_name : Text
  pub hash_prev_block : ℕ
  pub height : ℕ
  pub time : ℕ

-- The pool is not used again.
abbrev pub give_up : Act
give_up = do update (set_conn mark_unrecoverable); emit post_disconnect

abbrev pub authorize_next : ℕ → Act
authorize_next now = do enqueue_plea now; send_request authorize

abbrev pub set_extranonce : Text → Act
set_extranonce t = update λ c. record c { extra_nonce = t }

-- "If we get here we have a valid application connection".
abbrev pub announce_connection : ℕ → Act
announce_connection now =
    if_state (λ c. c.conn.stratum_mode_confirmed)
      (do update (λ c. record c { current_timestamp = now }); emit notify_connected) nothing

-- A mode that answers is the pool's mode; only modes 0, 1 and 2 are confirmed.
abbrev pub confirm_mode : Uri → Uri
confirm_mode u =
    if u.stratum_mode == 2
    then set_stratum_mode 2 true u
    else (if u.stratum_mode == 1
        then set_stratum_mode 1 true u
        else (if u.stratum_mode == 0 then set_stratum_mode 0 true u else u))

abbrev pub take_extranonce : Message → Act
take_extranonce m =
    when (not m.result_empty && m.result_is_array) (set_extranonce m.result_extranonce)

abbrev pub note_subscribed : Message → Act
note_subscribed m = update λ c. record c { subscribed = m.error_empty }

abbrev pub mode_is : ℕ → Client → Bool
mode_is k c = c.conn.stratum_mode == k

-- The answer to the login in the three stratum modes: STRATUM, NRGPROXY and ENERGISTRATUM.
abbrev pub on_subscribed_stratum : Message → ℕ → Act
on_subscribed_stratum m now = do
  note_subscribed m
  if m.error_empty
      then (do update (λ c. record c { authpending = true }); authorize_next now)
      else give_up

abbrev pub on_subscribed_proxy : Message → ℕ → Act
on_subscribed_proxy m now = do
  note_subscribed m
  if m.error_empty
      then (do
        take_extranonce m
        update (λ c. record c { authorized = true })
        announce_connection now
        authorize_next now)
      else give_up

abbrev pub on_subscribed_energi : Message → ℕ → Act
on_subscribed_energi m now = do
  note_subscribed m
  if m.error_empty then (do take_extranonce m; authorize_next now) else give_up

-- The switch over the stratum mode; in no mode an empty request is sent.
unfoldable pub on_subscribed : Message → ℕ → Act
unfolding enqueue_plea mark_unrecoverable
on_subscribed m now = if_state (mode_is 0) (on_subscribed_stratum m now) (
    if_state (mode_is 1) (on_subscribed_proxy m now)
      (if_state (mode_is 2) (on_subscribed_energi m now) (send_request null_request)))

-- `case 1`.
unfoldable pub on_login_response : Message → ℕ → Act
on_login_response m now = do
  dequeue_plea
  if_state (λ c. not c.conn.stratum_mode_confirmed && not m.error_empty) (emit post_disconnect)
      (do
        update (λ c. if c.conn.stratum_mode_confirmed then c else set_conn confirm_mode c)
        on_subscribed m now)
