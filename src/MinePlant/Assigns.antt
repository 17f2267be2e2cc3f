-- ===== src/MinePlant/Assigns.antt =====
-- What `setWork` and `resetWork` of nrgcore/mineplant.cpp do to all miners.
use gen2_energiminer.Common.{
  ℕ, suc, ◌≡◌, refl, true, false, List, [], ◌∷◌, length, ap, Bool-cases, inl, inr, ◌⊎◌, ◌+◌,
}
use gen2_energiminer.Work.{Work, same_work, is_valid, reset}
use gen2_energiminer.Miner.{Miner, retrieve_hash_rate_diff}
use gen2_energiminer.Miner
use gen2_energiminer.MinePlant.{Plant, Draws, assign, assign_all, set_work, reset_all, reset_work}

abbrev pub All : (Miner → Type 0) → List Miner → Type 0
All P [] = Unit {0}
All P (m ∷ ms) = P m × All P ms

-- What `setWork` leaves at one miner: new work comes with the extra nonce that is drawn, and work
-- that `operator==` takes for the same leaves the miner's own work and its flag as they are.
abbrev pub Given : ℕ → Work → Miner → Miner → Type 0
Given drawn w m n =
    ((same_work w m.work ≡ true) × (n.work ≡ m.work) × (n.new_work_assigned ≡ m.new_work_assigned))
    ⊎ ((same_work w m.work ≡ false)
        × (n.work ≡ record w { extra_nonce2 = drawn })
        × (n.new_work_assigned ≡ true))

-- So at each miner, from the place `i` on, of which none is lost.
abbrev pub AllGiven : ℕ → Draws → Work → List Miner → List Miner → Type 0
AllGiven i draws w [] [] = Unit {0}
AllGiven i draws w [] (n ∷ ns) = ⊥
AllGiven i draws w (m ∷ ms) [] = ⊥
AllGiven i draws w (m ∷ ms) (n ∷ ns) = Given (draws i) w m n × AllGiven (i + 1) draws w ms ns

assign-Given : (drawn : ℕ) (w : Work) (m : Miner) → Given drawn w m (assign drawn w m).0
unfolding Miner.set_work retrieve_hash_rate_diff
assign-Given drawn w m = elim (Bool-cases (same_work w m.work)) [
  | inl e ↦ rw e (inl (refl, refl, refl))
  | inr e ↦ rw e (inr (refl, refl, refl))
]

assign_all-AllGiven :
    (i : ℕ) (draws : Draws) (w : Work) (ms : List Miner)
    → AllGiven i draws w ms (assign_all i draws w ms).0
unfolding assign_all
assign_all-AllGiven i draws w [] = tt
assign_all-AllGiven i draws w (m ∷ ms) =
    (assign-Given (draws i) w m, assign_all-AllGiven (i + 1) draws w ms)

-- After `setWork` the plant has the work given. Each of its miners whose work differs from it in what
-- `operator==` looks at has it too, with the extra nonce drawn for the miner, and is told; a miner
-- whose work compares equal keeps its own, the name of the job, the time and the other fields that
-- `operator==` leaves out included. No miner is lost.
pub set_work-AllGiven :
    (draws : Draws) (w : Work) (p : Plant)
    → let after = (set_work draws w p).0 in
      (after.work ≡ w) × AllGiven 0 draws w p.miners after.miners
unfolding set_work
set_work-AllGiven draws w p = (refl, assign_all-AllGiven 0 draws w p.miners)

abbrev pub Idles : Miner → Type 0
Idles m = is_valid m.work ≡ false

reset_all-Idles :
    (i : ℕ) (ms : List Miner)
    → All Idles (reset_all i ms).0 × (length (reset_all i ms).0 ≡ length ms)
unfolding reset_all Miner.reset_work is_valid reset
reset_all-Idles i [] = (tt, refl)
reset_all-Idles i (m ∷ ms) = let (h, e) = reset_all-Idles (i + 1) ms in ((refl, h), ap suc e)

-- After `resetWork` neither the plant nor any of its miners has valid work, and no miner is lost.
pub reset_work-Idles :
    (p : Plant)
    → let after = (reset_work p).0 in
      (is_valid after.work ≡ false)
      × All Idles after.miners
      × (length after.miners ≡ length p.miners)
unfolding reset_work is_valid reset
reset_work-Idles p = let (h, e) = reset_all-Idles 0 p.miners in (refl, h, e)
