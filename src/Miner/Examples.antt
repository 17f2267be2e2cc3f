-- ===== src/Miner/Examples.antt =====
-- nrgcore/miner.cpp: one miner that gets two jobs and runs hot.
use gen2_energiminer.Common.{ℕ, ◌+◌, ◌-◌, ◌≡◌, ◌^◌, true, false, [], ◌∷◌, arith, codes}
use gen2_energiminer.Work.{Work}
use gen2_energiminer.Miner.{Miner, retrieve_hash_rate_diff, is_mining_paused, api}
use gen2_energiminer.Miner.Pauses.{Pauses, sets, clears, measures, apply_all, apply_all-flag_of}
use gen2_energiminer.Miner.Hashes.{count_all, diff_one_too_many}

abbrev job : ℕ → Work
job parent = record {
  hash_prev_block = parent;
  height = 8;
  time = 900;
  nonce = 0;
  start_nonce = 0;
  extra_nonce1 = codes "f000000f";
  extra_nonce2 = 0;
  job_name = codes "a";
  hash_target = 0 ∷ 1 ∷ [];
}

-- A miner whose counter is about to wrap.
abbrev miner : Miner
miner = record {
  work = job 5;
  new_work_assigned = false;
  paused_flag = 0;
  hash_rate_count = 2 ^ 64 - 1;
  hash_rate_last = 7;
}

abbrev awake : Pauses
awake = record { hot = false; by_api = false }

apply_all-flag_of_example :
    let flag = apply_all 40 70 (measures 75 ∷ sets api ∷ measures 60 ∷ clears api ∷ []) 0 in
    (flag ≡ 1) × (is_mining_paused flag ≡ true)
apply_all-flag_of_example =
    apply_all-flag_of 40 70 (measures 75 ∷ sets api ∷ measures 60 ∷ clears api ∷ []) awake

diff_one_too_many_example :
    (retrieve_hash_rate_diff (count_all (2 ^ 32 ∷ 20 ∷ []) (retrieve_hash_rate_diff miner).0)).1
    ≡ 2 ^ 32 + 21
diff_one_too_many_example =
    diff_one_too_many (2 ^ 32 ∷ 20 ∷ []) miner (omega arith) (omega arith) (omega arith)
