-- ===== src/Miner.antt =====
-- nrgcore/miner.h, nrgcore/miner.cpp and `MiningPause` of common/common.h: the work, the hash
-- counter and the pauses of one miner. Counters are `uint64_t`. What wakes the miner's thread is a
-- list of signals.
pub mod Pauses
pub mod Hashes
pub mod Assigned
mod Examples
use Prim.Native.Nat.{bit_and, bit_or}
use gen2_energiminer.Common.{
  ℕ, ◌+◌, ◌-◌, ◌^◌, Bool, true, false, ◌&&◌, not, List, [], ◌∷◌, u64, ltb, leb, ◌==◌, if◌then◌else◌,
}
use gen2_energiminer.Work.{Work, same_work, reset}

pub data Signal : Type 0 where
  notify kick : Signal

pub record Miner : Type 0 where
  pub work : Work
  pub new_work_assigned : Bool
  pub paused_flag : ℕ
  pub hash_rate_count : ℕ
  pub hash_rate_last : ℕ

-- `setWork`; the number is the extra nonce that `updateExtraNonce` draws.
unfoldable pub set_work : ℕ → Work → Miner → Miner × List Signal
unfolding same_work
set_work drawn w m = if same_work w m.work then (m, []) else (
  record m { work = record w { extra_nonce2 = drawn }; new_work_assigned = true },
  notify ∷ kick ∷ [],
)

unfoldable pub reset_work : Miner → Miner × List Signal
unfolding reset
reset_work m = (record m { work = reset m.work; new_work_assigned = true }, notify ∷ [])

-- `getWork`, which the miner's thread calls.
unfoldable pub get_work : Miner → Miner × Work
get_work m = (record m { new_work_assigned = false }, m.work)

unfoldable pub update_hash_rate : ℕ → Miner → Miner
update_hash_rate n m = record m { hash_rate_count = u64 (m.hash_rate_count + n) }

-- `RetrieveHashRateDiff`.
unfoldable pub retrieve_hash_rate_diff : Miner → Miner × ℕ
retrieve_hash_rate_diff m =
    let diff = u64 (m.hash_rate_count + 2 ^ 64 - m.hash_rate_last) in
    (
      record m { hash_rate_last = m.hash_rate_count },
      if ltb (2 ^ 32 - 1) diff then u64 (diff + 2 ^ 64 - (2 ^ 64 - 1)) else diff,
    )

-- `MinigPauseReason`.
pub data PauseReason : Type 0 where
  wait_for_t_start api : PauseReason

unfoldable pub reason_bit : PauseReason → ℕ
reason_bit wait_for_t_start = 1
reason_bit api = 2

-- `fetch_or` and `fetch_and` with the complement in 64 bits.
unfoldable pub set_mining_paused : PauseReason → ℕ → ℕ
unfolding reason_bit
set_mining_paused r flag = bit_or flag (reason_bit r)

unfoldable pub clear_mining_paused : PauseReason → ℕ → ℕ
unfolding reason_bit
clear_mining_paused r flag = bit_and flag (2 ^ 64 - 1 - reason_bit r)

unfoldable pub is_mining_paused : ℕ → Bool
is_mining_paused flag = not (flag == 0)

-- `update_temperature`, with the plant's `tstart` and `tstop`.
unfoldable pub update_temperature : ℕ → ℕ → ℕ → ℕ → ℕ
unfolding set_mining_paused clear_mining_paused reason_bit
update_temperature tstart tstop temperature flag =
    if bit_and flag (reason_bit wait_for_t_start) == reason_bit wait_for_t_start
    then (if not (tstart == 0) && leb temperature tstart
        then clear_mining_paused wait_for_t_start flag
        else flag)
    else (if not (tstop == 0) && leb tstop temperature
        then set_mining_paused wait_for_t_start flag
        else flag)
