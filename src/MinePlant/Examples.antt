-- ===== src/MinePlant/Examples.antt =====
-- nrgcore/mineplant.cpp: a plant of two miners.
use gen2_energiminer.Common.{
  ℕ, ◌+◌, ◌-◌, ◌≡◌, ◌≤◌, ◌<◌, ◌^◌, refl, true, false, [], ◌∷◌, some, none, arith, codes, u64,
}
use gen2_energiminer.Work.{Work}
use gen2_energiminer.Miner.{Miner}
use gen2_energiminer.MinePlant.{Plant, set_work, get_start_nonce}
use gen2_energiminer.MinePlant.Nonces.{share, with_range, starts_disjoint, starts_overlap}
use gen2_energiminer.MinePlant.Assigns.{AllGiven, set_work-AllGiven}

abbrev job : ℕ → Work
job parent = record {
  hash_prev_block = parent;
  height = 8;
  time = 900;
  nonce = 0;
  start_nonce = 0;
  extra_nonce1 = codes "f000000f";
  extra_nonce2 = 0;
  job_name = codes "a";
  hash_target = 0 ∷ 1 ∷ [];
}

abbrev miner : Miner
miner = record {
  work = job 5;
  new_work_assigned = false;
  paused_flag = 0;
  hash_rate_count = 0;
  hash_rate_last = 0;
}

abbrev plant : Plant
plant = record {
  miners = miner ∷ miner ∷ [];
  work = job 5;
  is_mining = true;
  stats = record { accepts = 0; rejects = 0; failures = 0; accepted_stales = 0 };
  range = none;
}

starts_disjoint_example :
    (a b : ℕ) × (get_start_nonce (job 5) 0 plant ≡ some (with_range plant, a))
    × (get_start_nonce (job 5) 1 (with_range plant) ≡ some (with_range plant, b))
    × (a + (2 ^ 63 - 1) ≤ b)
    × (b + (2 ^ 63 - 1) < 2 ^ 64)
starts_disjoint_example =
    starts_disjoint (job 5) 0 1 plant refl (omega arith) (omega arith) (omega arith)

-- The plant whose range was fixed when it had one miner.
abbrev grown : Plant
grown = record plant { range = some (share 1) }

starts_overlap_example :
    (a b : ℕ) × (get_start_nonce (job 5) 0 grown ≡ some (grown, a))
    × (get_start_nonce (job 5) 1 grown ≡ some (grown, b))
    × (u64 (b + 1) ≡ a)
starts_overlap_example = starts_overlap (job 5) 0 grown refl

-- The first of these miners has a job with the parent 6 already.
abbrev mixed : Plant
mixed = record plant { miners = record miner { work = job 6 } ∷ miner ∷ [] }

set_work-AllGiven_example :
    let after = (set_work (λ i. i + 40) (record (job 6) { time = 950 }) mixed).0 in
    (after.work ≡ record (job 6) { time = 950 })
    × AllGiven 0 (λ i. i + 40) (record (job 6) { time = 950 }) mixed.miners after.miners
set_work-AllGiven_example = set_work-AllGiven (λ i. i + 40) (record (job 6) { time = 950 }) mixed
