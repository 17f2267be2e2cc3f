-- ===== src/MinePlant.antt =====
-- nrgcore/mineplant.h and nrgcore/mineplant.cpp: the plant, which hands the work to its miners,
-- shares out the nonces and counts the solutions.
pub mod Nonces
pub mod Assigns
mod Examples
use gen2_energiminer.Common.{
  ℕ, ◌+◌, ◌-◌, ◌*◌, ◌/◌, ◌^◌, Bool, true, false, List, [], ◌∷◌, ◌++◌, Option, none, some, u32, u64,
  ◌==◌, if◌then◌else◌, length, Text,
}
use gen2_energiminer.Work.{Work, same_work, reset}
use gen2_energiminer.Miner.{Miner, Signal, retrieve_hash_rate_diff}
use gen2_energiminer.Miner

pub record SolutionStats : Type 0 where
  pub accepts : ℕ
  pub rejects : ℕ
  pub failures : ℕ
  pub accepted_stales : ℕ

-- What the plant calls on a miner, by its place in `m_miners`.
pub data Order : Type 0 where
  start_working : ℕ → Order
  signals : ℕ → List Signal → Order

pub record Plant : Type 0 where
  pub miners : List Miner
  pub work : Work
  pub is_mining : Bool
  pub stats : SolutionStats
  -- The static `range` of `getStartNonce`, once it is initialised.
  pub range : Option ℕ

-- The extra nonce that the miner at a place draws.
abbrev pub Draws : Type 0
Draws = ℕ → ℕ

-- `miner->RetrieveHashRateDiff(); miner->setWork(work);`.
abbrev pub assign : ℕ → Work → Miner → Miner × List Signal
assign drawn w m = Miner.set_work drawn w (retrieve_hash_rate_diff m).0

-- The loop over the miners from the place `i` on.
unfoldable pub assign_all : ℕ → Draws → Work → List Miner → List Miner × List Order
assign_all i draws w [] = ([], [])
assign_all i draws w (m ∷ ms) =
    let (assigned, sent) = assign (draws i) w m in
    let (rest, orders) = assign_all (i + 1) draws w ms in (assigned ∷ rest, signals i sent ∷ orders)

unfoldable pub start_all : ℕ → List Miner → List Order
start_all i [] = []
start_all i (m ∷ ms) = start_working i ∷ start_all (i + 1) ms

-- `setWork`.
unfoldable pub set_work : Draws → Work → Plant → Plant × List Order
unfolding assign_all start_all same_work
set_work draws w p =
    let (assigned, orders) = assign_all 0 draws w p.miners in
    (
      record p { work = w; miners = assigned },
      (if same_work w p.work then start_all 0 p.miners else []) ++ orders,
    )

unfoldable pub reset_all : ℕ → List Miner → List Miner × List Order
reset_all i [] = ([], [])
reset_all i (m ∷ ms) =
    let (cleared, sent) = Miner.reset_work m in
    let (rest, orders) = reset_all (i + 1) ms in (cleared ∷ rest, signals i sent ∷ orders)

-- `resetWork`.
unfoldable pub reset_work : Plant → Plant × List Order
unfolding reset_all reset
reset_work p =
    let (cleared, orders) = reset_all 0 p.miners in
    (record p { work = reset p.work; miners = cleared }, orders)

-- `stop`.
unfoldable pub stop : Plant → Plant
stop p = if p.is_mining then record p { miners = []; is_mining = false } else p

-- `getStartNonce`; `idx` is the index that a miner has among those of its engine. `none` is a division by zero, of a plant without miners.
unfoldable pub get_start_nonce : Work → ℕ → Plant → Option (Plant × ℕ)
get_start_nonce w idx p = elim p.range [
  | some range ↦ some (p, u64 (w.start_nonce + range * idx))
  | none ↦
      if length p.miners == 0
      then none
      else (let range = (2 ^ 64 - 1) / length p.miners in
          some (record p { range = some range }, u64 (w.start_nonce + range * idx)))
]

unfoldable pub failed_solution : Plant → Plant
failed_solution p = record p { stats = record p.stats { failures = u32 (p.stats.failures + 1) } }

unfoldable pub accepted_solution : Bool → Plant → Plant
accepted_solution stale p =
    if stale
    then record p { stats = record p.stats { accepted_stales = u32 (p.stats.accepted_stales + 1) } }
    else record p { stats = record p.stats { accepts = u32 (p.stats.accepts + 1) } }

unfoldable pub rejected_solution : Plant → Plant
rejected_solution p = record p { stats = record p.stats { rejects = u32 (p.stats.rejects + 1) } }
