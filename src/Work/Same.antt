-- ===== src/Work/Same.antt =====
-- primitives/work.h: what `operator==` of `Work` does not look at.
use gen2_energiminer.Common.{ℕ, ◌≡◌, true, arith, text_eq_refl}
use gen2_energiminer.Work.{Work, same_work}

pub same_work_refl : (w : Work) → same_work w w ≡ true
unfolding same_work
same_work_refl w = ground (arith, text_eq_refl w.extra_nonce1, text_eq_refl w.hash_target)

pub same_work_drawn : (n : ℕ) (w : Work) → same_work w (record w { extra_nonce2 = n }) ≡ true
unfolding same_work
same_work_drawn n w = ground (arith, text_eq_refl w.extra_nonce1, text_eq_refl w.hash_target)
