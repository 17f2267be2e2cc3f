-- ===== src/PoolManager/Examples.antt =====
-- protocol/PoolManager.cpp with two pools.
use mathlib.Core.List.{Mem}
use gen2_energiminer.Common.{
  ℕ, zero, suc, ◌++◌, ◌≡◌, ◌≤◌, refl, Bool, true, false, List, [], ◌∷◌, some, none, arith, codes,
  Text, text_eq, get_elem?,
}
use gen2_energiminer.PoolUri.{Uri}
use gen2_energiminer.PoolManager.{
  Manager, View, Action, round, run_rounds, set_connection, set_pool_addresses, connect, disconnect,
  check_failover_timeout,
}
use gen2_energiminer.PoolManager.Index.{IsReady, round-IsReady, round-LosesLast}
use gen2_energiminer.PoolManager.Failover.{IsTrying, AllDown, free_rounds, every_pool_tried}
use gen2_energiminer.PoolManager.Primary.{failover_over_tries_first}

abbrev pool : Text → Bool → Uri
pool host unrecoverable = record {
  scheme = codes "stratum";
  host = host;
  path = [];
  query = [];
  fragment = [];
  username = codes "wallet.rig";
  password = codes "x";
  uri = [];
  stratum_mode = 999;
  port = 3033;
  valid = true;
  stratum_mode_confirmed = false;
  unrecoverable = unrecoverable;
}

abbrev primary : Uri
primary = pool (codes "primary") false

abbrev failover : Uri
failover = pool (codes "failover") false

abbrev lost : Uri
lost = pool (codes "lost") true

abbrev manager : List Uri → ℕ → Manager
manager connections active = record {
  connections = connections;
  active_idx = active;
  attempt = 1;
  max_attempts = 3;
  failover_timeout = 10;
  active_host = [];
  running = true;
  report_time = 60;
  report_passed = 0;
}

abbrev on_failover : Manager
on_failover = manager (primary ∷ failover ∷ []) 1

abbrev is_down : View
is_down = record { pending = false; connected = false; mining = true }

on_failover-IsReady : IsReady on_failover
on_failover-IsReady = record {
  in_range = omega arith;
  countable = omega arith;
  attempts = omega arith;
  max_fits = omega arith;
}

on_failover-IsTrying : IsTrying is_down on_failover
unfolding text_eq
on_failover-IsTrying = record {
  ready = on_failover-IsReady;
  usable = (refl, refl, (refl, refl, tt));
  down = refl;
  running = refl;
}

round-IsReady_example :
    (m' : Manager) × (as' : List Action) × (round is_down on_failover ≡ some (m', as')) × IsReady m'
round-IsReady_example =
    round-IsReady is_down on_failover on_failover-IsReady (λ (p, q, c, e, u, l). omega (arith, l))

-- After each attempt the client is pending for a round.
abbrev waiting : View
waiting = record is_down { pending = true }

abbrev attempts : ℕ → List View
attempts zero = []
attempts (suc n) = is_down ∷ waiting ∷ attempts n

attempts_down : AllDown (attempts 12)
attempts_down = (
  refl,
  (
    refl,
    (
      refl,
      (
        refl,
        (
          refl,
          (
            refl,
            (
              refl,
              (
                refl,
                (
                  refl,
                  (
                    refl,
                    (
                      refl,
                      (
                        refl,
                        (
                          refl,
                          (
                            refl,
                            (
                              refl,
                              (
                                refl,
                                (refl, (refl, (refl, (refl, (refl, (refl, (refl, (refl, tt)))))))),
                              ),
                            ),
                          ),
                        ),
                      ),
                    ),
                  ),
                ),
              ),
            ),
          ),
        ),
      ),
    ),
  ),
)

every_pool_tried_example :
    (us ws : List View) × (attempts 12 ≡ us ++ ws)
    × (free_rounds us ≤ 12)
    × (k : Manager) × (calls : List Action) × (run_rounds us on_failover ≡ some (k, calls))
    × (d : Uri) × (get_elem? (primary ∷ failover ∷ []) 0 ≡ some d)
    × Mem (set_connection d) calls
unfolding text_eq
every_pool_tried_example =
    every_pool_tried (attempts 12) on_failover 0 on_failover-IsReady (refl, refl, (refl, refl, tt))
      refl (omega arith) (omega arith) (omega arith) attempts_down (omega arith)

failover_over_tries_first_example :
    ((check_failover_timeout false on_failover).1 ≡ disconnect ∷ [])
    × (m' : Manager) × (d : Uri) × (get_elem? (primary ∷ failover ∷ []) 0 ≡ some d)
    × (m'.active_idx ≡ 0)
    × (round is_down (check_failover_timeout false on_failover).0
        ≡ some (m', set_connection d ∷ set_pool_addresses d.host d.port ∷ connect ∷ []))
failover_over_tries_first_example =
    failover_over_tries_first is_down on_failover on_failover-IsTrying (omega arith) (omega arith)

only_lost-IsReady : IsReady (manager (lost ∷ []) 0)
only_lost-IsReady = record {
  in_range = omega arith;
  countable = omega arith;
  attempts = omega arith;
  max_fits = omega arith;
}

round-LosesLast_example : round is_down (manager (lost ∷ []) 0) ≡ none
round-LosesLast_example =
    round-LosesLast is_down (manager (lost ∷ []) 0) only_lost-IsReady
      (refl, refl, lost, refl, refl, refl)
