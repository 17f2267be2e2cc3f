-- ===== src/Miner/Assigned.antt =====
-- What the thread of a miner gets of the work that is assigned to it.
use gen2_energiminer.Common.{ℕ, ◌≡◌, refl, true, false, [], ◌∷◌, arith}
use gen2_energiminer.Work.{Work, same_work, reset, is_valid}
use gen2_energiminer.Work.Same.{same_work_drawn}
use gen2_energiminer.Miner.{Miner, notify, kick, set_work, reset_work, get_work}

-- New work reaches the thread with the extra nonce drawn for this miner; it is flagged as new until
-- the thread takes it, and the same work again, whatever is drawn, neither wakes the thread nor
-- changes the miner.
pub set_work_reaches :
    (drawn again : ℕ) (w : Work) (m : Miner)
    → same_work w m.work ≡ false
    → let (assigned, signals) = set_work drawn w m in
      (signals ≡ notify ∷ kick ∷ [])
      × (assigned.new_work_assigned ≡ true)
      × ((get_work assigned).1 ≡ record w { extra_nonce2 = drawn })
      × ((get_work assigned).0.new_work_assigned ≡ false)
      × (set_work again w (get_work assigned).0 ≡ ((get_work assigned).0, []))
unfolding set_work get_work
set_work_reaches drawn again w m h = rw (h, same_work_drawn drawn w) (refl, refl, refl, refl, refl)

reset_differs : (w v : Work) → is_valid w ≡ true → same_work w (reset v) ≡ false
unfolding same_work reset is_valid
reset_differs w v h = ground arith

-- After a reset the thread gets no valid work, until valid work is assigned; and that work reaches
-- the thread even if it is the one that the miner had before.
pub reset_idles :
    (drawn : ℕ) (w : Work) (m : Miner)
    → is_valid w ≡ true
    → let cleared = (reset_work m).0 in
      (is_valid (get_work cleared).1 ≡ false)
      × ((get_work (set_work drawn w cleared).0).1 ≡ record w { extra_nonce2 = drawn })
      × ((set_work drawn w cleared).1 ≡ notify ∷ kick ∷ [])
unfolding set_work reset_work get_work
reset_idles drawn w m h = rw (reset_differs w m.work h) (unfold is_valid reset in refl, refl, refl)
