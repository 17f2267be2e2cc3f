-- ===== src/Work.antt =====
-- primitives/work.h: what is compared, set and cleared of the work that a pool sends. The block
-- that the work extends shows here by its header's fields; `Block`'s parsing is not modelled.
pub mod Same
use gen2_energiminer.Common.{ℕ, Bool, ◌&&◌, List, [], Text, text_eq, ◌==◌, ltb}

pub record Work : Type 0 where
  pub hash_prev_block : ℕ
  pub height : ℕ
  pub time : ℕ
  pub nonce : ℕ
  pub start_nonce : ℕ
  pub extra_nonce1 : Text
  pub extra_nonce2 : ℕ
  pub job_name : Text
  pub hash_target : List ℕ

-- The work that the default constructor makes.
abbrev pub blank_work : Work
blank_work = record {
  hash_prev_block = 0;
  height = 0;
  time = 0;
  nonce = 0;
  start_nonce = 0;
  extra_nonce1 = [];
  extra_nonce2 = 0;
  job_name = [];
  hash_target = [];
}

-- `operator==`: the time, the nonces and the name of the job are left out.
unfoldable pub same_work : Work → Work → Bool
unfolding text_eq
same_work a b =
    a.hash_prev_block == b.hash_prev_block
    && a.height == b.height
    && text_eq a.extra_nonce1 b.extra_nonce1
    && text_eq a.hash_target b.hash_target

-- `reset`: the header is set to null and the texts are emptied; the target and the nonces that the
-- work adds to the block stay.
unfoldable pub reset : Work → Work
reset w = record w {
  hash_prev_block = 0;
  height = 0;
  time = 0;
  nonce = 0;
  job_name = [];
  extra_nonce1 = [];
}

unfoldable pub is_valid : Work → Bool
is_valid w = ltb 0 w.height
