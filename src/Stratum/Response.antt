-- ===== src/Stratum/Response.antt =====
-- protocol/stratum/StratumClient.cpp: `processResponse`, the handler of every message of the pool.
use gen2_energiminer.Common.{
  ℕ, Bool, true, false, ◌&&◌, ◌||◌, not, [], Text, codes, text_eq, ◌==◌, none, some, if◌then◌else◌,
}
use gen2_energiminer.PoolUri.{mark_unrecoverable}
use gen2_energiminer.ArithUint.Divide.{diff_to_target}
use gen2_energiminer.Work.{Work, same_work}
use gen2_energiminer.Work
use gen2_energiminer.Stratum.{
  Client, Act, update, emit, when, if_state, nothing, ◌>>◌, post_disconnect, version_reply,
  unknown_method_reply, reset_work, work_received, solution_accepted, solution_rejected,
}
use gen2_energiminer.Stratum.Pleas.{dequeue_plea, plea_delay}
use gen2_energiminer.Stratum.Connection.{send_request}
use gen2_energiminer.Stratum.Login.{
  Message, give_up, set_extranonce, announce_connection, mode_is, on_login_response,
}

-- "Result should be boolean, some pools also throw an error".
abbrev pub is_success : Message → Bool
is_success m = if m.error_empty then elim m.result_bool [ none ↦ true | some b ↦ b ] else false

-- `case 3`.
unfoldable pub on_authorize_response : Message → ℕ → Act
unfolding dequeue_plea mark_unrecoverable
on_authorize_response m now = do
  dequeue_plea
  update (λ c. record c { authpending = false; authorized = is_success m })
  if is_success m then announce_connection now else give_up

-- `case 4`: the queue is popped before the result is looked at, and once more after that.
unfoldable pub on_submit_response : Message → ℕ → Act
unfolding dequeue_plea plea_delay
on_submit_response m now c =
    (do
      dequeue_plea
      dequeue_plea
      emit (
          if is_success m
          then solution_accepted false (plea_delay now c)
          else solution_rejected true (plea_delay now c)))
      c

-- `case 999`.
unfoldable pub on_other_response : Message → Act
unfolding dequeue_plea
on_other_response m = do
  dequeue_plea
  if_state (λ c. not m.error_empty && (not c.subscribed || not c.authorized)) (emit post_disconnect)
      nothing

-- The switch over the id of an awaited response.
unfoldable pub on_response : Message → ℕ → Act
on_response m now =
    if m.id == 1
    then on_login_response m now
    else (if m.id == 3
        then on_authorize_response m now
        else (if m.id == 4
            then on_submit_response m now
            else (if m.id == 999 then on_other_response m else nothing)))

-- `energi::Work(jPrm, m_extraNonce1, m_nextWorkTarget)`, for entries that `Block` can read.
abbrev pub make_work : Message → Client → Work
make_work m c = record {
  hash_prev_block = m.hash_prev_block;
  height = m.height;
  time = m.time;
  nonce = 0;
  start_nonce = 0;
  extra_nonce1 = c.extra_nonce;
  extra_nonce2 = 0;
  job_name = m.job_name;
  hash_target = c.next_target;
}

-- "mining.notify".
unfoldable pub on_notify : Message → ℕ → Act
unfolding same_work
on_notify m now =
    if_state
      (λ c.
        m.params_is_array
        && not m.third_empty
        && not m.fourth_empty
        && (m.clean_jobs || not (same_work c.current (make_work m c))))
      (λ c.
        (do
          emit reset_work
          update (λ d. record d { current = make_work m c; current_timestamp = now })
          emit (work_received (make_work m c)))
          c)
      nothing

-- The target of a difficulty; a division by zero would leave the handler, and no scaled
-- difficulty from 10 on divides by zero.
abbrev pub set_target : ℕ → Client → Client
set_target d c = elim (diff_to_target d) [
  | none ↦ c
  | some t ↦ record c { next_target = t; current = Work.reset c.current }
]

-- The notifications by method, for a pool whose mode is confirmed.
unfoldable pub on_notification : Text → Message → ℕ → Act
on_notification method m now =
    if text_eq method (codes "mining.notify")
    then on_notify m now
    else (if text_eq method (codes "mining.set_difficulty")
        then when m.params_is_array (update (set_target m.scaled_difficulty))
        else (if text_eq method (codes "mining.set_extranonce")
            then when m.params_is_array (set_extranonce m.extranonce)
            else (if text_eq method (codes "client.get_version")
                then send_request version_reply
                else send_request unknown_method_reply)))

abbrev pub is_notification : Message → Bool
is_notification m = not (text_eq m.method []) || m.id == 0

-- The method of a notification; a proxy's unnamed notification with a result is a job.
abbrev pub named_method : Message → Client → Text
named_method m c =
    if is_notification m && text_eq m.method [] && mode_is 1 c && m.result_is_array
    then codes "mining.notify"
    else m.method

-- "Very minimal sanity checks".
abbrev pub is_malformed : Message → Bool
is_malformed m =
    m.has_jsonrpc && not m.jsonrpc_is_two || is_notification m && (m.params_empty && m.result_empty)

-- A proxy's answer to the request for work (`case 5`) is a job too.
abbrev pub becomes_job : Message → Client → Bool
becomes_job m c = m.id == 5 && mode_is 1 c && m.result_is_array

unfoldable pub process_response : Message → ℕ → Act
process_response m now =
    if is_malformed m
    then (do
      update (λ c. record c { subscribed = false; authorized = false })
      emit post_disconnect)
    else (if is_notification m
        then if_state (λ c. c.conn.stratum_mode_confirmed)
            (λ c. on_notification (named_method m c) m now c) nothing
        else if_state (λ c. becomes_job m c)
            (if_state (λ c. c.conn.stratum_mode_confirmed)
              (on_notification (codes "mining.notify") m now) nothing)
            (on_response m now))
