-- ===== src/Stratum/Session.antt =====
-- Which solutions go to the pool, and what a session's messages change about that.
use gen2_energiminer.Common.{ℕ, ◌≤◌, ◌≡◌, ◌↔◌, refl, true, false, not, ◌||◌, [], ◌∷◌, arith}
use gen2_energiminer.Work.{Work, same_work}
use gen2_energiminer.Work.Same.{same_work_refl}
use gen2_energiminer.Stratum.{Client, send, submit, reset_work, work_received, is_connected}
use gen2_energiminer.Stratum.Login.{Message}
use gen2_energiminer.Stratum.Response.{on_notify, make_work}
use gen2_energiminer.Stratum.Traffic.{submit_solution, parallel_request_limit}

-- A solution is sent exactly when the client is connected, subscribed and authorized, the solution
-- is for the current work, and the counter `m_response_pleas_count` is at most 10.
pub submit_sends_iff :
    (w : Work) (now : ℕ) (c : Client)
    → ((submit_solution w now c).1 ≡ send submit ∷ []) ↔ (
        (is_connected c ≡ true)
        × (c.subscribed ≡ true)
        × (c.authorized ≡ true)
        × (same_work c.current w ≡ true)
        × (c.plea_count ≤ parallel_request_limit))
unfolding submit_solution
submit_sends_iff w now c = ground arith

-- A job that is new, or that the pool wants started afresh, becomes the current work: the miners
-- are reset and get it, and a solution of it is not stale.
pub notify_replaces_work :
    (m : Message) (now : ℕ) (c : Client)
    → m.params_is_array ≡ true
    → m.third_empty ≡ false
    → m.fourth_empty ≡ false
    → (m.clean_jobs || not (same_work c.current (make_work m c))) ≡ true
    → let (after, calls) = on_notify m now c in
      (calls ≡ reset_work ∷ work_received (make_work m c) ∷ [])
      × (same_work after.current (make_work m c) ≡ true)
      × (after.current_timestamp ≡ now)
unfolding on_notify
notify_replaces_work m now c a b d e = rw (a, b, d, e) (refl, same_work_refl (make_work m c), refl)

-- The same job again changes nothing, unless the pool wants it started afresh.
pub notify_ignores_repeats :
    (m : Message) (now : ℕ) (c : Client)
    → m.clean_jobs ≡ false
    → same_work c.current (make_work m c) ≡ true
    → on_notify m now c ≡ (c, [])
unfolding on_notify
notify_ignores_repeats m now c a b = ground arith
