-- ===== src/Getwork/Examples.antt =====
-- protocol/getwork/GetworkClient.cpp on concrete runs.
use gen2_energiminer.Common.{
  ℕ, ◌≡◌, ◌≤◌, refl, codes, true, false, [], ◌∷◌, List, none, some, length,
}
use gen2_energiminer.Work.{Work, same_work}
use gen2_energiminer.PoolUri.{Uri}
use gen2_energiminer.Getwork.{
  to_string, escapes, ends, Hooks, Client, new_client, answered, ClientStep, begin, connects,
  submits, polls, run, poll, work_received, submit_block, accepted, wait_for, start_working, notify,
  reset_work, connected_event,
}
use gen2_energiminer.Getwork.Deliveries.{works, submissions, submissions-le-works}
use gen2_energiminer.Getwork.Repeats.{Resets, failure_idles}

abbrev all_set : Hooks
all_set = record {
  -- A node without a password.
  replace_first_copy = λ s p by. s;
  on_connected = true;
  on_disconnected = true;
  on_work = true;
  on_reset = true;
  on_accepted = true;
  on_rejected = true;
}

abbrev job : ℕ → Work
job parent = record {
  hash_prev_block = parent;
  height = 8;
  time = 900;
  nonce = 0;
  start_nonce = 0;
  extra_nonce1 = [];
  extra_nonce2 = 0;
  job_name = [];
  hash_target = 0 ∷ 1 ∷ [];
}

abbrev node : Uri
node = record {
  scheme = codes "getwork";
  host = codes "node";
  path = codes "/rpc";
  query = [];
  fragment = [];
  username = codes "me";
  password = [];
  uri = [];
  stratum_mode = 0;
  port = 9796;
  valid = true;
  stratum_mode_confirmed = false;
  unrecoverable = false;
}

abbrev session : List ClientStep
session =
    connects node
    ∷ begin
    ∷ polls (some (job 5))
    ∷ polls (some (job 5))
    ∷ submits (codes "ab") (answered (codes "null") 40)
    ∷ submits (codes "cd") (answered (codes "null") 41)
    ∷ polls (some (job 6))
    ∷ []

-- The second submission finds no work.
session_events :
    (run all_set session (new_client 500 (job 0))).1
    ≡ start_working
      ∷ connected_event
      ∷ work_received (job 5)
      ∷ wait_for 500
      ∷ reset_work
      ∷ submit_block (codes "ab")
      ∷ accepted 40
      ∷ notify
      ∷ notify
      ∷ work_received (job 6)
      ∷ []
unfolding run new_client
session_events = refl

submissions-le-works_example :
    submissions (run all_set session (new_client 500 (job 0))).1
    ≤ length (works (run all_set session (new_client 500 (job 0))).1)
submissions-le-works_example = submissions-le-works all_set session 500 (job 0)

abbrev working : Client
working = record {
  recheck_period = 500;
  url = [];
  display_url = [];
  connected = true;
  subscribed = true;
  authorized = true;
  have_work = true;
  current_work = job 5;
}

-- A template that no work can be made from ends the run, the next one hands the same work on again.
restarted_events :
    works
      (run all_set
        (begin ∷ polls (some (job 5)) ∷ escapes ∷ begin ∷ polls (some (job 5)) ∷ [])
        working).1
    ≡ job 5 ∷ job 5 ∷ []
unfolding run works
restarted_events = refl

abbrev one_run : List ClientStep
one_run =
    connects node
    ∷ polls (some (job 5))
    ∷ polls (some (job 5))
    ∷ submits (codes "ab") (answered (codes "null") 40)
    ∷ polls (some (job 6))
    ∷ ends
    ∷ []

failure_idles_example :
    Resets (poll all_set none working).1
    × (works
          (run all_set
            (polls none ∷ polls (some (record (job 5) { time = 950 })) ∷ polls (some (job 5)) ∷ [])
            working).1
        ≡ [])
unfolding same_work
failure_idles_example =
    failure_idles all_set (polls (some (record (job 5) { time = 950 })) ∷ polls (some (job 5)) ∷ [])
      working refl (refl, (refl, tt))

port_text : to_string 9796 ≡ codes "9796"
unfolding to_string
port_text = refl
