-- ===== src/Stratum/Pleas.antt =====
-- protocol/stratum/StratumClient.cpp: the queue of requests that wait for an answer. The queue of
-- times is lock-free, and its pop fails only when it is empty.
use gen2_energiminer.Common.{ℕ, ◌+◌, ◌-◌, [], ◌∷◌, ◌++◌, ltb, ◌==◌, if◌then◌else◌}
use gen2_energiminer.Stratum.{Client, Act, update}

unfoldable pub enqueue_plea : ℕ → Act
enqueue_plea now = update λ c. record c {
  plea_older = if c.plea_count == 0 then now else c.plea_older;
  plea_count = c.plea_count + 1;
  plea_times = c.plea_times ++ now ∷ [];
}

-- `dequeue_response_plea`: if `m_response_plea_times.pop` yields a time, that time is stored as the
-- oldest one.
unfoldable pub dequeue_plea : Act
dequeue_plea = update λ c. record c {
  plea_older = elim c.plea_times [ [] ↦ c.plea_older | t ∷ ts ↦ t ];
  plea_times = elim c.plea_times [ [] ↦ [] | t ∷ ts ↦ ts ];
  plea_count = if ltb 0 c.plea_count then c.plea_count - 1 else 0;
}

-- The delay that `dequeue_response_plea` returns.
unfoldable pub plea_delay : ℕ → Client → ℕ
plea_delay now c = if ltb 0 c.plea_count then now - c.plea_older else 0

unfoldable pub clear_pleas : ℕ → Act
clear_pleas now = update λ c. record c { plea_count = 0; plea_times = []; plea_older = now }
