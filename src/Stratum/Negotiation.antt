-- ===== src/Stratum/Negotiation.antt =====
-- The autodetection of the stratum mode, event by event: it ends, with the pool given up, when the
-- pool refuses the login of every mode.
use mathlib.Core.List.{Mem, mem-append_right, mem-cons_self, mem-cons_of_mem}
use gen2_energiminer.Common.{
  ℕ, zero, suc, ◌<◌, ◌≡◌, refl, true, false, List, [], ◌∷◌, ◌++◌, arith, some, ap, ◌∙◌,
}
use gen2_energiminer.PoolUri.{attributes}
use gen2_energiminer.Stratum.{
  Client, Effect, closed, post_disconnect, post_start_connect, sleep_timer, notify_disconnected,
  async_connect, async_receive, send, subscribe,
}
use gen2_energiminer.Stratum.Pleas.{dequeue_plea}
use gen2_energiminer.Stratum.Connection.{is_secure, disconnect, start_connect, connect_handler}
use gen2_energiminer.Stratum.Login.{Message}
use gen2_energiminer.Stratum.Events.{
  Event, responds, disconnects, starts, connection_ends, handle, run_events,
}
use gen2_energiminer.Stratum.Probing.{
  IsRefusal, IsProbing, refused, disconnect_plain, finalize_lowers, finalize_gives_up, start_dials,
  connect_logs_in, lowered, given_up, dialling, logged_in,
}

run_events-cons :
    (now : ℕ) (e : Event) (es : List (ℕ × Event)) (c d k : Client) (xs ys : List Effect)
    → handle now e c ≡ some (d, xs)
    → run_events es d ≡ some (k, ys)
    → run_events ((now, e) ∷ es) c ≡ some (k, xs ++ ys)
unfolding run_events
run_events-cons now e es c d k xs ys h r = rw (h, r) refl

run_events-nil : (c : Client) → run_events [] c ≡ some (c, [])
unfolding run_events
run_events-nil c = refl

-- The pool refuses the login in the mode `k` and in each lower one, at the times given. A refusal
-- is followed by the handler that it posts, which disconnects; while there is a lower mode, that
-- one posts the next attempt, and the connection is made.
abbrev pub refusals : Message → (ℕ → ℕ) → ℕ → List (ℕ × Event)
refusals m time zero = (time 0, responds m) ∷ (time 0, disconnects) ∷ []
refusals m time (suc k) =
    (time (suc k), responds m)
    ∷ (time (suc k), disconnects)
    ∷ (time (suc k), starts)
    ∷ (time (suc k), connection_ends false false)
    ∷ refusals m time k

-- The client of a refused login, while it disconnects.
abbrev closing : Client → Client
closing c = record (dequeue_plea c).0 { disconnecting = true; socket = closed }

abbrev next_try : ℕ → ℕ → Client → Client
next_try now k c = logged_in now (dialling now (lowered k (closing c)))

disconnects_lowered :
    (now k : ℕ) (c : Client)
    → k < 999
    → IsProbing (suc k) c
    → disconnect now (dequeue_plea c).0 ≡ (lowered k (closing c), post_start_connect ∷ [])
unfolding dequeue_plea is_secure
disconnects_lowered now k c h p =
    disconnect_plain now (dequeue_plea c).0 p.up p.not_disconnecting p.open_socket p.plain
    ∙ finalize_lowers now k (closing c) (omega arith) p.mode p.unconfirmed p.recoverable
        p.could_connect

disconnects_given_up :
    (now : ℕ) (c : Client)
    → IsProbing 0 c
    → disconnect now (dequeue_plea c).0
      ≡ (given_up now (closing c), sleep_timer ∷ notify_disconnected ∷ [])
unfolding dequeue_plea is_secure
disconnects_given_up now c p =
    disconnect_plain now (dequeue_plea c).0 p.up p.not_disconnecting p.open_socket p.plain
    ∙ finalize_gives_up now (closing c) p.mode p.unconfirmed p.recoverable p.could_connect

next_try-IsProbing : (now k : ℕ) (c : Client) → IsProbing (suc k) c → IsProbing k (next_try now k c)
unfolding dequeue_plea is_secure attributes
next_try-IsProbing now k c p = record {
  up = refl;
  not_connecting = refl;
  not_disconnecting = refl;
  could_connect = refl;
  open_socket = refl;
  plain = p.plain;
  mode = refl;
  unconfirmed = p.unconfirmed;
  recoverable = p.recoverable;
  auto = p.auto;
  address = p.address;
}

dials_again :
    (now k : ℕ) (c : Client)
    → IsProbing (suc k) c
    → start_connect now (lowered k (closing c))
      ≡ (dialling now (lowered k (closing c)), async_connect ∷ [])
unfolding dequeue_plea
dials_again now k c p = start_dials now (lowered k (closing c)) p.not_connecting refl p.address

logs_in_again :
    (now k : ℕ) (c : Client)
    → k < 999
    → IsProbing (suc k) c
    → connect_handler false false now (dialling now (lowered k (closing c)))
      ≡ some (next_try now k c, async_receive ∷ send (subscribe k) ∷ [])
unfolding dequeue_plea is_secure attributes
logs_in_again now k c h p =
    connect_logs_in now k (dialling now (lowered k (closing c))) h refl p.plain p.auto refl
      p.unconfirmed refl

-- The stratum modes of the logins that are sent.
unfoldable pub logins : List Effect → List ℕ
logins [] = []
logins (send (subscribe k) ∷ es) = k ∷ logins es
logins (_ ∷ es) = logins es

-- The modes below a mode, from the highest down.
abbrev pub modes_below : ℕ → List ℕ
modes_below zero = []
modes_below (suc k) = k ∷ modes_below k

-- A client whose pool has been given up after logins in the modes given, and the calls that led there.
pub record GivesUp (events : List (ℕ × Event)) (c : Client) (tried : List ℕ) : Type 0 where
  pub after : Client
  pub calls : List Effect
  pub runs : run_events events c ≡ some (after, calls)
  pub unrecoverable : after.conn.unrecoverable ≡ true
  pub offline : after.connected ≡ false
  pub told : Mem notify_disconnected calls
  pub modes : logins calls ≡ tried

last_refusal :
    (m : Message) (time : ℕ → ℕ) (c : Client)
    → IsRefusal m
    → IsProbing 0 c
    → GivesUp (refusals m time 0) c []
unfolding handle logins
last_refusal m time c r p = record {
  after = given_up (time 0) (closing c);
  calls = post_disconnect ∷ sleep_timer ∷ notify_disconnected ∷ [];
  runs =
      run_events-cons (time 0) (responds m) _ c (dequeue_plea c).0 _ _ _
        (ap some (refused m (time 0) 0 c r p))
        (run_events-cons (time 0) disconnects [] (dequeue_plea c).0 _ _ _ []
          (ap some (disconnects_given_up (time 0) c p)) (run_events-nil _));
  unrecoverable = refl;
  offline = refl;
  told = mem-cons_of_mem _ (mem-cons_of_mem _ mem-cons_self);
  modes = refl;
}

-- A client that logs in over TCP, in a mode `k` below 999 that its pool has not confirmed, gives
-- the pool up when the login of that mode and of each lower one is refused, by an answer to the login
-- with an error, without a method and without `jsonrpc`: it sends a login in each lower mode, from
-- the highest down and in no other, marks the pool as unrecoverable, and tells the manager that it is
-- disconnected.
pub refused_everywhere :
    (m : Message) (time : ℕ → ℕ) (k : ℕ) (c : Client)
    → IsRefusal m
    → k < 999
    → IsProbing k c
    → GivesUp (refusals m time k) c (modes_below k)
unfolding handle logins
refused_everywhere m time zero c r h p = last_refusal m time c r p
refused_everywhere m time (suc k) c r h p =
    let now = time (suc k) in
    let rest =
      refused_everywhere m time k (next_try now k c) r (omega arith)
        (next_try-IsProbing now k c p) in
    record {
      after = rest.after;
      calls =
          post_disconnect
          ∷ post_start_connect
          ∷ async_connect
          ∷ async_receive
          ∷ send (subscribe k)
          ∷ rest.calls;
      runs =
          run_events-cons now (responds m) _ c (dequeue_plea c).0 _ _ _
            (ap some (refused m now (suc k) c r p))
            (run_events-cons now disconnects _ (dequeue_plea c).0 _ _ _ _
              (ap some (disconnects_lowered now k c (omega arith) p))
              (run_events-cons now starts _ (lowered k (closing c)) _ _ _ _
                (ap some (dials_again now k c p))
                (run_events-cons now (connection_ends false false) _ _ _ _ _ _
                  (logs_in_again now k c (omega arith) p) rest.runs)));
      unrecoverable = rest.unrecoverable;
      offline = rest.offline;
      told =
          mem-append_right
            (post_disconnect
              ∷ post_start_connect
              ∷ async_connect
              ∷ async_receive
              ∷ send (subscribe k)
              ∷ [])
            rest.told;
      modes = ap (λ t. k ∷ t) rest.modes;
    }
