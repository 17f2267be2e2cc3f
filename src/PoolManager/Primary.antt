-- ===== src/PoolManager/Primary.antt =====
-- Going back to the first pool of the list when the failover time is over.
use gen2_energiminer.Common.{◌<◌, ◌≡◌, ◌≢◌, refl, true, false, [], ◌∷◌, some, arith, get_elem?, leb}
use gen2_energiminer.PoolUri.{Uri}
use gen2_energiminer.PoolManager.{
  Manager, View, set_connection, set_pool_addresses, connect, disconnect, check_failover_timeout,
  report, round,
}
use gen2_energiminer.PoolManager.Attempt.{round_down}
use gen2_energiminer.PoolManager.Failover.{IsTrying}

abbrev to_first : Manager → Manager
to_first m = record m { active_idx = 0; attempt = 0 }

to_first-IsTrying : (v : View) (m : Manager) → IsTrying v m → IsTrying v (to_first m)
to_first-IsTrying v m t = record {
  ready = record {
    in_range = omega (arith, t.ready);
    countable = t.ready.countable;
    attempts = omega arith;
    max_fits = t.ready.max_fits;
  };
  usable = t.usable;
  down = t.down;
  running = t.running;
}

check_failover-eq :
    (m : Manager)
    → m.running ≡ true
    → m.active_idx ≢ 0
    → check_failover_timeout false m ≡ (to_first m, disconnect ∷ [])
unfolding check_failover_timeout
check_failover-eq m r ne = ground arith

first_round :
    (v : View) (m : Manager)
    → IsTrying v m
    → 0 < m.max_attempts
    → (m' : Manager) × (d : Uri) × (get_elem? m.connections 0 ≡ some d)
      × (m'.active_idx ≡ 0)
      × (round v (to_first m)
          ≡ some (m', set_connection d ∷ set_pool_addresses d.host d.port ∷ connect ∷ []))
first_round v m t pos =
    let t' = to_first-IsTrying v m t in
    let (d, e, f) = round_down v (to_first m) t'.ready t'.usable t'.down t'.running in
    let below : leb m.max_attempts 0 ≡ false = ground arith in
    (
      report (record m { active_idx = 0; attempt = 1 }),
      d,
      rw below at e,
      unfold report in refl,
      rw below at f,
    )

-- Once the failover time is over, a running manager that is not on the first connection, whose index
-- is in range, whose connections are all usable and which allows an attempt, asks the client to
-- disconnect; and the next round without a connection tries the first one.
pub failover_over_tries_first :
    (v : View) (m : Manager)
    → IsTrying v m
    → 0 < m.max_attempts
    → m.active_idx ≢ 0
    → ((check_failover_timeout false m).1 ≡ disconnect ∷ [])
      × (m' : Manager) × (d : Uri) × (get_elem? m.connections 0 ≡ some d)
      × (m'.active_idx ≡ 0)
      × (round v (check_failover_timeout false m).0
          ≡ some (m', set_connection d ∷ set_pool_addresses d.host d.port ∷ connect ∷ []))
failover_over_tries_first v m t pos ne =
    let r = first_round v m t pos in
    rw (check_failover-eq m t.running ne) (refl, r.0, r.1, r.2, r.3, r.4)
