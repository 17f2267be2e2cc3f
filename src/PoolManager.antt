-- ===== src/PoolManager.antt =====
-- protocol/PoolManager.h and protocol/PoolManager.cpp: which pool the miner talks to.
-- The client and the farm are other components: what the code asks of them is a `View`, and what
-- it calls is a list of `Action`s in the order of the calls.
pub mod Index
pub mod Attempt
pub mod Failover
pub mod Primary
mod Examples
use gen2_energiminer.Common.{
  ℕ, zero, suc, ◌+◌, ◌*◌, Bool, true, false, ◌||◌, not, List, [], ◌∷◌, ◌++◌, Option, none, some,
  Text, codes, text_eq, u32, ltb, leb, ◌==◌, if◌then◌else◌, get_elem?, length, map, ◌&&◌,
}
use gen2_energiminer.PoolUri.{Uri}
use gen2_energiminer.Work.{Work}

pub data Action : Type 0 where
  set_connection : Uri → Action
  set_pool_addresses : Text → ℕ → Action
  connect disconnect : Action
  reset_work farm_start farm_stop : Action
  set_work : Work → Action
  arm_failover : ℕ → Action
  cancel_failover : Action
  accepted_solution : Bool → Action
  rejected_solution : Action
  submit_solution : Action
  start_thread : Action

-- What `isPendingState`, `isConnected` and `isMining` answer.
pub record View : Type 0 where
  pub pending : Bool
  pub connected : Bool
  pub mining : Bool

pub record Manager : Type 0 where
  pub connections : List Uri
  pub active_idx : ℕ
  pub attempt : ℕ
  pub max_attempts : ℕ
  pub failover_timeout : ℕ
  pub active_host : Text
  pub running : Bool
  pub report_time : ℕ
  pub report_passed : ℕ

-- `none` is an index past the end of `m_connections`, which C++ leaves undefined.
infixl 5 ◌>>=◌
abbrev ◌>>=◌ {ℓ κ} : {A : Type ℓ} {B : Type κ} → Option A → (A → Option B) → Option B
none >>= k = none
some a >>= k = k a

-- `m_connections.erase(m_connections.begin() + i)`.
pub erase_at {ℓ} : {A : Type ℓ} → ℕ → List A → List A
erase_at i [] = []
erase_at zero (x ∷ xs) = xs
erase_at (suc i) (x ∷ xs) = x ∷ erase_at i xs

abbrev pub host_is_exit : Uri → Bool
host_is_exit u = text_eq u.host (codes "exit")

-- "If this connection is marked Unrecoverable then discard it", for the active connection `c`.
pub discard : Uri → Manager → Manager
unfolding erase_at
discard c m =
    let left = erase_at m.active_idx m.connections in
    if c.unrecoverable
    then record m {
      connections = left;
      active_idx = if leb (length left) m.active_idx then 0 else m.active_idx;
      attempt = 0;
    }
    else m

-- "Rotate connections if above max attempts threshold".
pub rotate : Bool → Manager → Manager × List Action
rotate mining m =
    if leb m.max_attempts m.attempt
    then (let next = u32 (m.active_idx + 1) in
        (
          record m { attempt = 0; active_idx = if next == length m.connections then 0 else next },
          if mining then reset_work ∷ [] else [],
        ))
    else (m, [])

-- The connection attempt at `c`, or the end of the loop.
pub attempt_connection : Bool → Uri → Manager → Manager × List Action
attempt_connection mining c m =
    if not (host_is_exit c) && ltb 0 (length m.connections)
    then (
      record m { attempt = u32 (m.attempt + 1) },
      set_connection c ∷ set_pool_addresses c.host c.port ∷ connect ∷ [],
    )
    else (record m { running = false }, if mining then farm_stop ∷ [] else [])

-- "Hashrate reporting", at the end of a round.
pub report : Manager → Manager
report m =
    let passed = u32 (m.report_passed + 1) in
    record m { report_passed = if ltb m.report_time passed then 0 else passed }

-- `continue` leaves the reporting out of the round that ends the loop.
abbrev pub finish_round : Manager × List Action → Manager × List Action
finish_round (m, as') = (if m.running then report m else m, as')

-- One round of `trun`, for a manager that is running. The host of the connection to try is read
-- before the code tests that there is one.
pub round : View → Manager → Option (Manager × List Action)
unfolding discard rotate attempt_connection report
round v m = if v.pending || v.connected then some (report m, []) else (do
  c ← get_elem? m.connections m.active_idx
  let (turned, before) = rotate v.mining (discard c m)
  d ← get_elem? turned.connections turned.active_idx
  let (tried, after) = attempt_connection v.mining d turned
  some (finish_round (tried, before ++ after)))

-- `trun` over what the client and the farm answer, round by round.
pub run_rounds : List View → Manager → Option (Manager × List Action)
run_rounds [] m = some (m, [])
run_rounds (v ∷ vs) m =
    if m.running
    then (do (m', as') ← round v m; (m'', bs) ← run_rounds vs m'; some (m'', as' ++ bs))
    else some (m, [])

-- The handler of `onConnected`.
pub on_connected : View → Manager → Option (Manager × List Action)
on_connected v m = do
  c ← get_elem? m.connections m.active_idx
  some (
    record m { attempt = 0; active_host = c.host },
    (if not (m.active_idx == 0) && ltb 0 m.failover_timeout
          then arm_failover m.failover_timeout
          else cancel_failover)
        ∷ (if v.mining then [] else farm_start ∷ []),
  )

-- `check_failover_timeout`; the flag is the timer's error code.
pub check_failover_timeout : Bool → Manager → Manager × List Action
check_failover_timeout ec m =
    if not ec && m.running && not (m.active_idx == 0)
    then (record m { active_idx = 0; attempt = 0 }, disconnect ∷ [])
    else (m, [])

-- The handlers of `onResetWork`, of `onDisconnected`, which only logs, and of `onWorkReceived`.
pub on_reset_work : List Action
on_reset_work = reset_work ∷ []

pub on_disconnected : List Action
on_disconnected = []

pub on_work_received : Work → List Action
on_work_received w = set_work w ∷ []

-- The handlers of `onSolutionAccepted` and `onSolutionRejected`, which show the active host.
pub on_solution_accepted : Bool → Manager → Option (List Action)
on_solution_accepted stale m = do
  c ← get_elem? m.connections m.active_idx
  some (accepted_solution stale ∷ [])

pub on_solution_rejected : Bool → Manager → Option (List Action)
on_solution_rejected stale m = do
  c ← get_elem? m.connections m.active_idx
  some (rejected_solution ∷ [])

-- The handler of `onSolutionFound`: without a connection the nonce is lost.
pub on_solution_found : View → List Action
on_solution_found v = if v.connected then submit_solution ∷ [] else []

-- The handler of `onMinerRestart`.
pub on_miner_restart : View → List Action
on_miner_restart v = (if v.mining then farm_stop ∷ [] else []) ++ farm_start ∷ []

pub add_connection : Uri → Manager → Manager
add_connection c m = record m { connections = m.connections ++ c ∷ [] }

pub clear_connections : View → Manager → Manager × List Action
clear_connections v m = (
  record m { connections = [] },
  set_pool_addresses [] 0 ∷ (if v.connected then disconnect ∷ [] else []),
)

pub start : Manager → Manager × List Action × Bool
start m =
    if ltb 0 (length m.connections)
    then (record m { running = true }, start_thread ∷ [], true)
    else (m, [], false)

pub stop : View → Manager → Manager × List Action
stop v m =
    if m.running
    then (
      record m { running = false },
      cancel_failover
          ∷ ((if v.connected then disconnect ∷ [] else [])
              ++ (if v.mining then farm_stop ∷ [] else [])),
    )
    else (m, [])
