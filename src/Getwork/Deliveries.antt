-- ===== src/Getwork/Deliveries.antt =====
-- protocol/getwork/GetworkClient.cpp: the works that are handed on, and the blocks that are submitted.
use gen2_energiminer.Common.{
  ℕ, suc, ◌+◌, ◌≤◌, ◌≡◌, refl, ap, List, [], ◌∷◌, ◌++◌, none, some, arith, if◌then◌else◌, length,
  length-append,
}
use gen2_energiminer.Work.{Work}
use gen2_energiminer.Getwork.{
  Hooks, Client, Event, connected_event, disconnected_event, reset_work, work_received,
  submit_block, accepted, rejected, wait_for, start_working, notify, new_client, connect,
  disconnect, failed, answered, judge, submit_solution, take_work, poll, ClientStep, begin, escapes,
  ends, begin_run, escape, connects, disconnects, submits, polls, do_step, run,
}

-- The works that the events hand on.
unfoldable pub works : List Event → List Work
works [] = []
works (work_received w ∷ es) = w ∷ works es
works (connected_event ∷ es) = works es
works (disconnected_event ∷ es) = works es
works (reset_work ∷ es) = works es
works (submit_block b ∷ es) = works es
works (accepted d ∷ es) = works es
works (rejected d ∷ es) = works es
works (wait_for n ∷ es) = works es
works (start_working ∷ es) = works es
works (notify ∷ es) = works es

-- How many blocks the events submit.
unfoldable pub submissions : List Event → ℕ
submissions [] = 0
submissions (submit_block b ∷ es) = suc (submissions es)
submissions (work_received w ∷ es) = submissions es
submissions (connected_event ∷ es) = submissions es
submissions (disconnected_event ∷ es) = submissions es
submissions (reset_work ∷ es) = submissions es
submissions (accepted d ∷ es) = submissions es
submissions (rejected d ∷ es) = submissions es
submissions (wait_for n ∷ es) = submissions es
submissions (start_working ∷ es) = submissions es
submissions (notify ∷ es) = submissions es

pub works-append : (es fs : List Event) → works (es ++ fs) ≡ works es ++ works fs
unfolding works
works-append [] fs = refl
works-append (work_received w ∷ es) fs = ap (λ t. w ∷ t) (works-append es fs)
works-append (connected_event ∷ es) fs = works-append es fs
works-append (disconnected_event ∷ es) fs = works-append es fs
works-append (reset_work ∷ es) fs = works-append es fs
works-append (submit_block b ∷ es) fs = works-append es fs
works-append (accepted d ∷ es) fs = works-append es fs
works-append (rejected d ∷ es) fs = works-append es fs
works-append (wait_for n ∷ es) fs = works-append es fs
works-append (start_working ∷ es) fs = works-append es fs
works-append (notify ∷ es) fs = works-append es fs

submissions-append : (es fs : List Event) → submissions (es ++ fs) ≡ submissions es + submissions fs
unfolding submissions
submissions-append [] fs = omega arith
submissions-append (work_received w ∷ es) fs = submissions-append es fs
submissions-append (connected_event ∷ es) fs = submissions-append es fs
submissions-append (disconnected_event ∷ es) fs = submissions-append es fs
submissions-append (reset_work ∷ es) fs = submissions-append es fs
submissions-append (submit_block b ∷ es) fs = omega (arith, submissions-append es fs)
submissions-append (accepted d ∷ es) fs = submissions-append es fs
submissions-append (rejected d ∷ es) fs = submissions-append es fs
submissions-append (wait_for n ∷ es) fs = submissions-append es fs
submissions-append (start_working ∷ es) fs = submissions-append es fs
submissions-append (notify ∷ es) fs = submissions-append es fs

abbrev held : Client → ℕ
held c = if c.have_work then 1 else 0

-- A step hands on a work for each block that it submits and did not have.
step_balance :
    (k : Hooks) (s : ClientStep) (c : Client)
    → submissions (do_step k s c).1 + held (do_step k s c).0
      ≤ length (works (do_step k s c).1) + held c
unfolding do_step connect disconnect submit_solution judge poll take_work begin_run escape
    submissions works
step_balance k begin c = ground arith
step_balance k escapes c = ground arith
step_balance k ends c = ground arith
step_balance k (connects u) c = ground arith
step_balance k disconnects c = ground arith
step_balance k (submits block failed) c = ground arith
step_balance k (submits block (answered result delay)) c = ground arith
step_balance k (polls none) c = ground arith
step_balance k (polls (some w)) c = ground arith

run_balance :
    (k : Hooks) (steps : List ClientStep) (c : Client)
    → submissions (run k steps c).1 + held (run k steps c).0
      ≤ length (works (run k steps c).1) + held c
unfolding run submissions works
run_balance k [] c = omega arith
run_balance k (s ∷ rest) c =
    let first = (do_step k s c).1 in
    let later = (run k rest (do_step k s c).0).1 in
    omega (
      arith,
      step_balance k s c,
      run_balance k rest (do_step k s c).0,
      submissions-append first later,
      ap length (works-append first later),
      length-append (works first) (works later),
    )

-- From its construction on, whatever happens, a client submits no more blocks than it has handed on
-- works.
pub submissions-le-works :
    (k : Hooks) (steps : List ClientStep) (period : ℕ) (no_work : Work)
    → submissions (run k steps (new_client period no_work)).1
      ≤ length (works (run k steps (new_client period no_work)).1)
unfolding new_client
submissions-le-works k steps period no_work =
    omega (arith, run_balance k steps (new_client period no_work))
