-- ===== src/Miner/Pauses.antt =====
-- The two reasons for a pause are kept apart in one flag: what `MiningPause` promises, and that its
-- bits keep it.
use gen2_energiminer.Common.{
  ℕ, ◌≡◌, refl, Bool, true, false, ◌&&◌, ◌||◌, not, List, [], ◌∷◌, leb, ◌==◌, if◌then◌else◌, arith,
  ap, ◌∙◌,
}
use gen2_energiminer.Miner.{
  PauseReason, wait_for_t_start, api, set_mining_paused, clear_mining_paused, is_mining_paused,
  update_temperature, reason_bit,
}

-- The pauses of a miner, each by its reason.
pub record Pauses : Type 0 where
  pub hot : Bool
  pub by_api : Bool

-- What happens to the pauses of a miner.
pub data Change : Type 0 where
  sets clears : PauseReason → Change
  measures : ℕ → Change

-- A miner that is not too hot is paused from `tstop` on, and a hot one goes on at `tstart`; a limit
-- of 0 is none.
abbrev pub is_hot : ℕ → ℕ → ℕ → Bool → Bool
is_hot tstart tstop t hot =
    if hot then not (not (tstart == 0) && leb t tstart) else not (tstop == 0) && leb tstop t

abbrev pub put : PauseReason → Bool → Pauses → Pauses
put wait_for_t_start b p = record p { hot = b }
put api b p = record p { by_api = b }

abbrev pub changed : ℕ → ℕ → Change → Pauses → Pauses
changed tstart tstop (sets r) p = put r true p
changed tstart tstop (clears r) p = put r false p
changed tstart tstop (measures t) p = record p { hot = is_hot tstart tstop t p.hot }

abbrev pub all_changed : ℕ → ℕ → List Change → Pauses → Pauses
all_changed tstart tstop [] p = p
all_changed tstart tstop (c ∷ cs) p = all_changed tstart tstop cs (changed tstart tstop c p)

-- The same changes to the flag.
abbrev pub apply : ℕ → ℕ → Change → ℕ → ℕ
apply tstart tstop (sets r) flag = set_mining_paused r flag
apply tstart tstop (clears r) flag = clear_mining_paused r flag
apply tstart tstop (measures t) flag = update_temperature tstart tstop t flag

abbrev pub apply_all : ℕ → ℕ → List Change → ℕ → ℕ
apply_all tstart tstop [] flag = flag
apply_all tstart tstop (c ∷ cs) flag = apply_all tstart tstop cs (apply tstart tstop c flag)

abbrev pub flag_of : Pauses → ℕ
flag_of p = if p.hot then (if p.by_api then 3 else 1) else (if p.by_api then 2 else 0)

set-flag_of :
    (r : PauseReason) (p : Pauses) → set_mining_paused r (flag_of p) ≡ flag_of (put r true p)
unfolding set_mining_paused reason_bit
set-flag_of r p = ground arith

clear-flag_of :
    (r : PauseReason) (p : Pauses) → clear_mining_paused r (flag_of p) ≡ flag_of (put r false p)
unfolding clear_mining_paused reason_bit
clear-flag_of r p = ground arith

measure-flag_of :
    (tstart tstop t : ℕ) (p : Pauses)
    → update_temperature tstart tstop t (flag_of p) ≡ flag_of (changed tstart tstop (measures t) p)
unfolding update_temperature set_mining_paused clear_mining_paused reason_bit
measure-flag_of tstart tstop t p = ground arith

apply-flag_of :
    (tstart tstop : ℕ) (c : Change) (p : Pauses)
    → apply tstart tstop c (flag_of p) ≡ flag_of (changed tstart tstop c p)
apply-flag_of tstart tstop (sets r) p = set-flag_of r p
apply-flag_of tstart tstop (clears r) p = clear-flag_of r p
apply-flag_of tstart tstop (measures t) p = measure-flag_of tstart tstop t p

flags_agree :
    (tstart tstop : ℕ) (cs : List Change) (p : Pauses)
    → apply_all tstart tstop cs (flag_of p) ≡ flag_of (all_changed tstart tstop cs p)
flags_agree tstart tstop [] p = refl
flags_agree tstart tstop (c ∷ cs) p =
    ap (apply_all tstart tstop cs) (apply-flag_of tstart tstop c p)
    ∙ flags_agree tstart tstop cs (changed tstart tstop c p)

paused_iff : (p : Pauses) → is_mining_paused (flag_of p) ≡ (p.hot || p.by_api)
unfolding is_mining_paused
paused_iff p = ground arith

-- After any changes, by calls that set or clear a reason and by measured temperatures, the flag
-- stands for the two reasons, each changed by itself: a call changes only the reason that it names,
-- and a measurement only that of the temperature, which it sets from `tstop` on and clears from
-- `tstart` down. And the miner is paused exactly when one of the reasons holds.
pub apply_all-flag_of :
    (tstart tstop : ℕ) (cs : List Change) (p : Pauses)
    → let flag = apply_all tstart tstop cs (flag_of p) in
      let q = all_changed tstart tstop cs p in
      (flag ≡ flag_of q) × (is_mining_paused flag ≡ (q.hot || q.by_api))
apply_all-flag_of tstart tstop cs p =
    let e = flags_agree tstart tstop cs p in
    (e, ap is_mining_paused e ∙ paused_iff (all_changed tstart tstop cs p))
