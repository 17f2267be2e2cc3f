-- ===== src/Stratum/Examples.antt =====
-- protocol/stratum/StratumClient.cpp with one pool.
use gen2_energiminer.Common.{
  arith, ℕ, ◌≡◌, ◌≤◌, ◌-◌, ◌↔◌, refl, Bool, true, false, [], ◌∷◌, some, none, codes, text_eq,
}
use gen2_energiminer.PoolUri.{Uri, attributes, find_scheme}
use gen2_energiminer.Work.{Work, same_work}
use gen2_energiminer.Stratum.{
  Client, opened, is_connected, send, submit, post_start_connect, arm_timer, async_resolve,
  async_connect,
}
use gen2_energiminer.ArithUint.Divide.{diff1_target}
use gen2_energiminer.Stratum.Connection.{is_secure, connect, resolve_handler, start_connect}
use gen2_energiminer.Stratum.Pleas.{enqueue_plea, clear_pleas, dequeue_plea, plea_delay}
use gen2_energiminer.Stratum.Login.{Message}
use gen2_energiminer.Stratum.Traffic.{submit_solution, parallel_request_limit}
use gen2_energiminer.Stratum.Events.{connects, resolves, starts, initial, run_events, handle}
use gen2_energiminer.Stratum.PleaLaws.{PleasMatch, delay_lags}
use gen2_energiminer.Stratum.Runs.{run_events-PleasMatch}
use gen2_energiminer.Stratum.Addresses.{HasAddress, run_events-HasAddress}
use gen2_energiminer.Stratum.Probing.{IsRefusal, IsProbing}
use gen2_energiminer.Stratum.Negotiation.{refusals, GivesUp, refused_everywhere}
use gen2_energiminer.Stratum.Session.{submit_sends_iff}

abbrev pool : Uri
pool = record {
  scheme = codes "stratum";
  host = codes "pool";
  path = [];
  query = [];
  fragment = [];
  username = codes "wallet.rig";
  password = codes "x";
  uri = [];
  stratum_mode = 2;
  port = 3033;
  valid = true;
  stratum_mode_confirmed = true;
  unrecoverable = false;
}

abbrev job : Work
job = record {
  hash_prev_block = 77;
  height = 5;
  time = 900;
  nonce = 0;
  start_nonce = 0;
  extra_nonce1 = codes "f000000f";
  extra_nonce2 = 0;
  job_name = codes "a";
  hash_target = 0 ∷ 1 ∷ [];
}

-- A client that mines `job`.
abbrev mining : Client
mining = record (initial pool 180 2) {
  connected = true;
  subscribed = true;
  authorized = true;
  socket = opened;
  endpoints = 1 ∷ [];
  current = job;
  next_target = 0 ∷ 1 ∷ [];
  extra_nonce = codes "f000000f";
}

-- A job that extends the block with the hash `parent`.
abbrev notification : ℕ → Bool → Message
notification parent empty = record {
  has_jsonrpc = true;
  jsonrpc_is_two = true;
  id = 0;
  error_empty = true;
  method = codes "mining.notify";
  result_empty = true;
  result_is_array = false;
  result_bool = none;
  result_extranonce = [];
  params_empty = empty;
  params_is_array = true;
  third_empty = false;
  fourth_empty = false;
  clean_jobs = false;
  extranonce = [];
  scaled_difficulty = 100000;
  job_name = codes "b";
  hash_prev_block = parent;
  height = 5;
  time = 901;
}

-- After the first address has been tried.
abbrev connecting : Client
connecting = record (initial pool 180 2) {
  connecting = true;
  socket = opened;
  endpoints = 9 ∷ [];
  next_target = diff1_target;
  extra_nonce = codes "f000000f";
  plea_count = 1;
  plea_older = 3;
  plea_times = 3 ∷ [];
}

connecting_runs :
    run_events
      ((1, connects) ∷ (2, resolves (some (9 ∷ []))) ∷ (3, starts) ∷ [])
      (initial pool 180 2)
    ≡ some (connecting, arm_timer ∷ async_resolve ∷ post_start_connect ∷ async_connect ∷ [])
unfolding run_events handle connect resolve_handler start_connect enqueue_plea clear_pleas initial
connecting_runs = refl

run_events-PleasMatch_example : PleasMatch connecting
run_events-PleasMatch_example =
    run_events-PleasMatch ((1, connects) ∷ (2, resolves (some (9 ∷ []))) ∷ (3, starts) ∷ []) pool
      180 2 connecting (arm_timer ∷ async_resolve ∷ post_start_connect ∷ async_connect ∷ [])
      connecting_runs

run_events-HasAddress_example : HasAddress connecting
run_events-HasAddress_example =
    run_events-HasAddress ((1, connects) ∷ (2, resolves (some (9 ∷ []))) ∷ (3, starts) ∷ []) pool
      180 2 connecting (arm_timer ∷ async_resolve ∷ post_start_connect ∷ async_connect ∷ [])
      connecting_runs

submit_sends_iff_example : ((submit_solution job 950 mining).1 ≡ send submit ∷ []) ↔ (
    (is_connected mining ≡ true)
    × (mining.subscribed ≡ true)
    × (mining.authorized ≡ true)
    × (same_work mining.current job ≡ true)
    × (mining.plea_count ≤ parallel_request_limit))
submit_sends_iff_example = submit_sends_iff job 950 mining

-- A client that has tried the mode 2 first.
abbrev undecided : Client
undecided = record mining {
  conn = record pool { stratum_mode_confirmed = false };
  subscribed = false;
  authorized = false;
  canconnect = true;
  plea_count = 0;
}

undecided-IsProbing : IsProbing 2 undecided
unfolding is_secure attributes find_scheme text_eq initial
undecided-IsProbing = record {
  up = refl;
  not_connecting = refl;
  not_disconnecting = refl;
  could_connect = refl;
  open_socket = refl;
  plain = refl;
  mode = refl;
  unconfirmed = refl;
  recoverable = refl;
  auto = refl;
  address = refl;
}

-- The answer that the timer makes up when the pool does not answer the login.
abbrev no_answer : Message
no_answer = record (notification 0 true) {
  has_jsonrpc = false;
  id = 1;
  error_empty = false;
  method = [];
}

no_answer-IsRefusal : IsRefusal no_answer
no_answer-IsRefusal = record { first = refl; fails = refl; unnamed = refl; plain = refl }

refused_everywhere_example : GivesUp (refusals no_answer (λ k. 100 - k) 2) undecided (1 ∷ 0 ∷ [])
refused_everywhere_example =
    refused_everywhere no_answer (λ k. 100 - k) 2 undecided no_answer-IsRefusal (omega arith)
      undecided-IsProbing

delay_lags_example :
    let waiting = record mining { plea_count = 2; plea_times = 20 ∷ 50 ∷ [] } in
    ((dequeue_plea waiting).0.plea_times ≡ 50 ∷ []) × (plea_delay 90 (dequeue_plea waiting).0 ≡ 70)
delay_lags_example =
    delay_lags (record mining { plea_count = 2; plea_times = 20 ∷ 50 ∷ [] }) 20 50 90 [] refl refl
