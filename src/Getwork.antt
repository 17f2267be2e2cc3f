-- ===== src/Getwork.antt =====
-- protocol/getwork/GetworkClient.h and GetworkClient.cpp: the client that polls a node for work.
-- Each step is one critical section under `m_mutex`; what the JSON-RPC library answers is an argument.
pub mod Deliveries
pub mod Repeats
mod Examples
use gen2_energiminer.Common.{
  ℕ, zero, suc, ◌+◌, ◌-◌, ◌*◌, ◌/◌, ◌%◌, ◌^◌, Bool, true, false, ◌&&◌, ◌||◌, not, List, [], ◌∷◌,
  ◌++◌, Text, codes, text_eq, Option, none, some, ltb, ◌==◌, if◌then◌else◌, length, drop,
}
use gen2_energiminer.Work.{Work, same_work, blank_work}
use gen2_energiminer.PoolUri.{Uri}

-- Which of the callbacks are set, and `boost::replace_first_copy` of an input, a search text and what
-- replaces it.
pub record Hooks : Type 0 where
  pub replace_first_copy : Text → Text → Text → Text
  pub on_connected : Bool
  pub on_disconnected : Bool
  pub on_work : Bool
  pub on_reset : Bool
  pub on_accepted : Bool
  pub on_rejected : Bool

-- The client's fields; `current_work` is the variable of `trun`, set while that runs.
pub record Client : Type 0 where
  pub recheck_period : ℕ
  pub url : Text
  pub display_url : Text
  pub connected : Bool
  pub subscribed : Bool
  pub authorized : Bool
  pub have_work : Bool
  pub current_work : Work

-- What the client does to others: callbacks, calls of the node, waits and the wake-up of the thread.
pub data Event : Type 0 where
  connected_event disconnected_event reset_work : Event
  work_received : Work → Event
  submit_block : Text → Event
  accepted rejected : ℕ → Event
  wait_for : ℕ → Event
  start_working notify : Event

abbrev pub call_if : Bool → Event → List Event
call_if b e = if b then e ∷ [] else []

-- The constructor.
unfoldable pub new_client : ℕ → Work → Client
new_client period no_work = record {
  recheck_period = period;
  url = [];
  display_url = [];
  connected = false;
  subscribed = true;
  authorized = true;
  have_work = false;
  current_work = no_work;
}

-- The decimal digits of a number, on fuel: `std::to_string`.
unfoldable pub to_string_loop : ℕ → ℕ → Text → Text
to_string_loop zero n s = s
to_string_loop (suc fuel) n s =
    let rest = to_string_loop fuel (n / 10) ((b'0' + n % 10) ∷ s) in
    if ltb n 10 then (b'0' + n % 10) ∷ s else rest

unfoldable pub to_string : ℕ → Text
unfolding to_string_loop
to_string n = to_string_loop (suc n) n []

-- The URL that `connect` builds: a path is added if there is one.
unfoldable pub build_url : Uri → Text
unfolding to_string
build_url u =
    codes "http://"
    ++ (u.username
        ++ (b':' ∷ (u.password ++ (b'@' ∷ (u.host ++ (b':' ∷ (to_string u.port ++ u.path)))))))

unfoldable pub connect : Hooks → Uri → Client → Client × List Event
unfolding build_url
connect k u c = (
  record c {
    url = build_url u;
    display_url = k.replace_first_copy (build_url u) u.password (codes "<password>");
    connected = true;
  },
  start_working ∷ [],
)

unfoldable pub disconnect : Hooks → Client → Client × List Event
disconnect k c = (record c { connected = false }, call_if k.on_disconnected disconnected_event)

-- How the call of the node ends: by an exception, or with a text after a time.
pub data Answer : Type 0 where
  failed : Answer
  answered : Text → ℕ → Answer

-- What follows a call of `submitblock`.
unfoldable pub judge : Hooks → Answer → List Event
unfolding text_eq
judge k failed = []
judge k (answered result delay) =
    if text_eq result (codes "null")
    then call_if k.on_accepted (accepted delay)
    else call_if k.on_rejected (rejected delay)

-- `submitSolution`; the text is the block of the solution.
unfoldable pub submit_solution : Hooks → Text → Answer → Client → Client × List Event
unfolding judge
submit_solution k block answer c =
    if c.have_work
    then (
      record c { have_work = false },
      call_if k.on_reset reset_work
          ++ ((if c.connected then submit_block block ∷ judge k answer else []) ++ (notify ∷ [])),
    )
    else (c, notify ∷ [])

-- `nowork_delay`.
unfoldable pub nowork_delay : ℕ → ℕ
nowork_delay period = if ltb 10 period then period / 10 else period

-- The work of a template is compared with the last one that was handed on.
unfoldable pub take_work : Hooks → Work → Client → Client × List Event
unfolding same_work nowork_delay
take_work k w c =
    if same_work c.current_work w
    then (
      c,
      wait_for (if c.have_work then c.recheck_period else nowork_delay c.recheck_period) ∷ [],
    )
    else (if k.on_work
        then (record c { current_work = w; have_work = true }, work_received w ∷ [])
        else (c, []))

-- A round of the loop of `trun`: `none` is an exception of the call, or an answer that is no object.
unfoldable pub poll : Hooks → Option Work → Client → Client × List Event
unfolding take_work
poll k answer c =
    let waits = call_if (not c.connected) (wait_for c.recheck_period) in
    elim answer [
      | none ↦ (c, waits ++ call_if k.on_reset reset_work)
      | some w ↦ let (c', events) = take_work k w c in (c', waits ++ events)
    ]

-- `trun` begins: its work is a new variable.
unfoldable pub begin_run : Hooks → Client → Client × List Event
begin_run k c = (record c { current_work = blank_work }, call_if k.on_connected connected_event)

-- A round in which the work cannot be made from the template: that exception leaves `trun`.
unfoldable pub escape : Client → Client × List Event
escape c = (c, call_if (not c.connected) (wait_for c.recheck_period))

-- What happens to a client: calls of the manager, the begin of `trun`, its rounds, its end by an
-- exception, and its end by `shouldStop`.
pub data ClientStep : Type 0 where
  begin escapes ends : ClientStep
  connects : Uri → ClientStep
  disconnects : ClientStep
  submits : Text → Answer → ClientStep
  polls : Option Work → ClientStep

unfoldable pub do_step : Hooks → ClientStep → Client → Client × List Event
unfolding connect disconnect submit_solution poll begin_run escape
do_step k begin c = begin_run k c
do_step k escapes c = escape c
do_step k ends c = disconnect k c
do_step k (connects u) c = connect k u c
do_step k disconnects c = disconnect k c
do_step k (submits block answer) c = submit_solution k block answer c
do_step k (polls answer) c = poll k answer c

unfoldable pub run : Hooks → List ClientStep → Client → Client × List Event
unfolding do_step
run k [] c = (c, [])
run k (s ∷ rest) c =
    let (c', events) = do_step k s c in let (c'', later) = run k rest c' in (c'', events ++ later)
