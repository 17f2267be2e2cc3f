-- ===== src/Stratum/PleaLaws.antt =====
-- The queue of requests that wait for an answer, under every handler.
use gen2_energiminer.Common.{
  suc, true, ltb, ap, ◌∙◌, ℕ, ◌-◌, ◌≡◌, refl, Bool, List, [], ◌∷◌, arith, length, length-append,
  Option, none, some, Text, codes,
}
use gen2_energiminer.Work.{Work}
use gen2_energiminer.Stratum.{Client, Act}
use gen2_energiminer.Stratum.Pleas.{enqueue_plea, dequeue_plea, clear_pleas, plea_delay}
use gen2_energiminer.Stratum.Connection.{
  set_conn, connect, disconnect, disconnect_finalize, start_connect, connection_result,
  resolve_handler,
}
use gen2_energiminer.Stratum.Login.{Message, confirm_mode, on_login_response, on_subscribed}
use gen2_energiminer.Stratum.Response.{
  named_method, process_response, on_authorize_response, on_submit_response, on_other_response,
  on_response, on_notification, on_notify,
}
use gen2_energiminer.Stratum.Traffic.{
  Received, message, noise, failure, on_received, submit_solution,
}

-- The counter of open requests is the length of the queue of their times.
abbrev pub PleasMatch : Client → Type 0
PleasMatch c = c.plea_count ≡ length c.plea_times

abbrev pub Keeps : Act → Type 0
Keeps f = (c : Client) → PleasMatch c → PleasMatch (f c).0

pub enqueue-Keeps : (now : ℕ) → Keeps (enqueue_plea now)
unfolding enqueue_plea
enqueue-Keeps now c h = omega (arith, length-append c.plea_times (now ∷ []))

dequeue_length : (ts : List ℕ) → length (elim ts [ [] ↦ [] | t ∷ r ↦ r ]) ≡ length ts - 1
dequeue_length [] = omega arith
dequeue_length (t ∷ ts) = omega arith

pub dequeue-Keeps : Keeps dequeue_plea
unfolding dequeue_plea
dequeue-Keeps c h = ground (arith, dequeue_length c.plea_times)

pub clear-Keeps : (now : ℕ) → Keeps (clear_pleas now)
unfolding clear_pleas
clear-Keeps now c h = refl

pub connect-Keeps : Keeps connect
unfolding connect
connect-Keeps c h = ground arith

pub finalize-Keeps : (now : ℕ) → Keeps (disconnect_finalize now)
unfolding disconnect_finalize
finalize-Keeps now c h = ground arith

pub disconnect-Keeps : (now : ℕ) → Keeps (disconnect now)
unfolding disconnect
disconnect-Keeps now c h = ground (arith, length-append c.plea_times (now ∷ []))

pub resolve-Keeps : (r : Option (List ℕ)) → Keeps (resolve_handler r)
unfolding resolve_handler
resolve-Keeps none c h = h
resolve-Keeps (some found) c h = h

pub start_connect-Keeps : (now : ℕ) → Keeps (start_connect now)
unfolding start_connect
start_connect-Keeps now c h = ground arith

pub connection-Keeps : (ec hec : Bool) (now : ℕ) → Keeps (connection_result ec hec now)
unfolding connection_result
connection-Keeps ec hec now c h = ground arith

pub submit-Keeps : (w : Work) (now : ℕ) → Keeps (submit_solution w now)
unfolding submit_solution
submit-Keeps w now c h = ground (arith, length-append c.plea_times (now ∷ []))

pub on_subscribed-Keeps : (m : Message) (now : ℕ) → Keeps (on_subscribed m now)
unfolding on_subscribed
on_subscribed-Keeps m now c h = ground (arith, length-append c.plea_times (now ∷ []))

pub on_login-Keeps : (m : Message) (now : ℕ) → Keeps (on_login_response m now)
unfolding on_login_response
on_login-Keeps m now c h =
    let h' = dequeue-Keeps c h in
    ground (
      arith,
      h',
      on_subscribed-Keeps m now (dequeue_plea c).0,
      on_subscribed-Keeps m now (set_conn confirm_mode (dequeue_plea c).0),
    )

pub on_authorize-Keeps : (m : Message) (now : ℕ) → Keeps (on_authorize_response m now)
unfolding on_authorize_response
on_authorize-Keeps m now c h = ground (arith, dequeue_length c.plea_times)

pub on_submit-Keeps : (m : Message) (now : ℕ) → Keeps (on_submit_response m now)
unfolding on_submit_response
on_submit-Keeps m now c h = dequeue-Keeps (dequeue_plea c).0 (dequeue-Keeps c h)

pub on_other-Keeps : (m : Message) → Keeps (on_other_response m)
unfolding on_other_response
on_other-Keeps m c h = ground (arith, dequeue_length c.plea_times)

pub on_response-Keeps : (m : Message) (now : ℕ) → Keeps (on_response m now)
unfolding on_response
on_response-Keeps m now c h = ground (
  arith,
  on_login-Keeps m now c h,
  on_authorize-Keeps m now c h,
  on_submit-Keeps m now c h,
  on_other-Keeps m c h,
)

pub on_notify-Keeps : (m : Message) (now : ℕ) → Keeps (on_notify m now)
unfolding on_notify
on_notify-Keeps m now c h = ground arith

pub on_notification-Keeps :
    (method : Text) (m : Message) (now : ℕ) → Keeps (on_notification method m now)
unfolding on_notification
on_notification-Keeps method m now c h = ground (arith, on_notify-Keeps m now c h)

pub process-Keeps : (m : Message) (now : ℕ) → Keeps (process_response m now)
unfolding process_response
process-Keeps m now c h = ground (
  arith,
  on_notification-Keeps (named_method m c) m now c h,
  on_notification-Keeps (codes "mining.notify") m now c h,
  on_response-Keeps m now c h,
)

pub received-Keeps : (r : Received) → Keeps (on_received r)
unfolding on_received
received-Keeps message c h = ground arith
received-Keeps noise c h = ground arith
received-Keeps failure c h = ground arith

-- When an answer has been taken off a queue that began with the times `t1` and `t2`, the oldest
-- request that waits is that of `t2`, but the delay of the next answer is counted from `t1`: this
-- for a client whose counter is the length of its queue.
pub delay_lags :
    (c : Client) (t1 t2 later : ℕ) (ts : List ℕ)
    → PleasMatch c
    → c.plea_times ≡ t1 ∷ t2 ∷ ts
    → let after = (dequeue_plea c).0 in
      (after.plea_times ≡ t2 ∷ ts) × (plea_delay later after ≡ later - t1)
unfolding dequeue_plea plea_delay
delay_lags c t1 t2 later ts h e =
    let counted : c.plea_count ≡ suc (suc (length ts)) = h ∙ ap length e in
    let more : ltb 0 c.plea_count ≡ true = ground (arith, counted) in
    let most : ltb 0 (c.plea_count - 1) ≡ true = ground (arith, counted) in
    rw (e, more, most) (refl, refl)
