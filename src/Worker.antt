-- ===== src/Worker.antt =====
-- primitives/worker.h and primitives/worker.cpp: the thread of a miner, and its control.
-- The thread and the calls of `startWorking`, `stopWorking` and the destructor meet in the atomic
-- `m_state`. Each atomic operation is a step, and the steps come in any order; the mutex `x_work`
-- lets one call at a time run.
pub mod Invariant
pub mod Ends
mod Examples
use gen2_energiminer.Common.{ℕ, zero, suc, ◌≡◌, ◌≢◌, Bool, true, false, if◌then◌else◌}

pub data State : Type 0 where
  starting started stopping stopped killing : State

-- Where the thread stands: at the test of its loop, at the exchange of `Starting` for `Started`,
-- in `trun`, at the exchange of the state for `Stopped`, at the test of the state it found there,
-- or in the loop that waits. `no_thread` is a null `m_work`, `finished` the end of the thread.
pub data Place : Type 0 where
  no_thread at_test at_claim in_run at_exchange : Place
  at_restore : State → Place
  in_wait finished : Place

-- Which call holds the mutex, or that the object is gone.
pub data Call : Type 0 where
  idle in_start in_stop in_kill gone : Call

pub record Worker : Type 0 where
  pub state : State
  pub place : Place
  pub call : Call

abbrev pub fresh : Worker
fresh = record { state = starting; place = no_thread; call = idle }

-- `m_state.compare_exchange_strong(expected, desired)`.
unfoldable pub compare_exchange : State → State → State → State
compare_exchange starting desired starting = desired
compare_exchange started desired started = desired
compare_exchange stopping desired stopping = desired
compare_exchange stopped desired stopped = desired
compare_exchange killing desired killing = desired
compare_exchange expected desired found = found

-- The restored state: `Killing` and `Starting` are put back.
unfoldable pub restore : State → State → State
restore killing found = killing
restore starting found = starting
restore started found = found
restore stopping found = found
restore stopped found = found

abbrev pub is_killing : State → Bool
is_killing s = elim s [ killing ↦ true | _ ↦ false ]

abbrev pub is_stopped : State → Bool
is_stopped s = elim s [ stopped ↦ true | _ ↦ false ]

abbrev pub is_starting : State → Bool
is_starting s = elim s [ starting ↦ true | _ ↦ false ]

-- `shouldStop`.
unfoldable pub should_stop : State → Bool
should_stop starting = false
should_stop started = false
should_stop stopping = true
should_stop stopped = true
should_stop killing = false

-- The next step of the thread; in `trun` it is a round of a loop that ends when `shouldStop` holds.
unfoldable pub thread_step : Place → State → Place × State
unfolding compare_exchange restore should_stop
thread_step no_thread s = (no_thread, s)
thread_step at_test s = (elim (is_killing s) [ true ↦ finished | false ↦ at_claim ], s)
thread_step at_claim s = (in_run, compare_exchange starting started s)
thread_step in_run s = (if should_stop s then at_exchange else in_run, s)
thread_step at_exchange s = (at_restore s, stopped)
thread_step (at_restore ex) s = (in_wait, restore ex s)
thread_step in_wait s = (elim (is_stopped s) [ true ↦ in_wait | false ↦ at_test ], s)
thread_step finished s = (finished, s)

abbrev pub advance : Worker → Worker
advance w = record w {
  place = (thread_step w.place w.state).0;
  state = (thread_step w.place w.state).1;
}

abbrev pub has_thread : Place → Bool
has_thread p = elim p [ no_thread ↦ false | _ ↦ true ]

-- `startWorking` up to the loop that waits for the thread.
unfoldable pub begin_start : Worker → Worker
unfolding compare_exchange
begin_start w = elim (has_thread w.place) [
  | true ↦ record w { state = compare_exchange stopped starting w.state; call = in_start }
  | false ↦ record { state = starting; place = at_test; call = in_start }
]

-- `stopWorking` up to the loop that waits for the thread; without a thread it returns.
unfoldable pub begin_stop : Worker → Worker
unfolding compare_exchange
begin_stop w = elim (has_thread w.place) [
  | true ↦ record w { state = compare_exchange started stopping w.state; call = in_stop }
  | false ↦ w
]

-- `~Worker` up to the join.
unfoldable pub begin_kill : Worker → Worker
begin_kill w = elim (has_thread w.place) [
  | true ↦ record w { state = killing; call = in_kill }
  | false ↦ record w { call = gone }
]

-- The call returns.
abbrev pub return_idle : Worker → Worker
return_idle w = record w { call = idle }

-- A call's waiting loop ends at a state it waits for; the join ends with the thread.
pub data Step : Worker → Worker → Type 0 where
  runs : {w : Worker} → Step w (advance w)
  -- `trun` ends by itself, or by an exception.
  returns : {w : Worker} → w.place ≡ in_run → Step w (record w { place = at_exchange })
  starts : {w : Worker} → w.call ≡ idle → Step w (begin_start w)
  has_started : {w : Worker} → w.call ≡ in_start → w.state ≢ starting → Step w (return_idle w)
  stops : {w : Worker} → w.call ≡ idle → Step w (begin_stop w)
  has_stopped : {w : Worker} → w.call ≡ in_stop → w.state ≡ stopped → Step w (return_idle w)
  kills : {w : Worker} → w.call ≡ idle → Step w (begin_kill w)
  joins :
      {w : Worker}
      → w.call ≡ in_kill
      → w.place ≡ finished
      → Step w (record w { place = no_thread; call = gone })

-- The workers that any steps lead to from the constructed one.
pub data Reachable : Worker → Type 0 where
  constructed : Reachable fresh
  steps : {w v : Worker} → Reachable w → Step w v → Reachable v
