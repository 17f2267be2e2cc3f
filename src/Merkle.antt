-- ===== src/Merkle.antt =====
-- primitives/merkle.cpp: the root of a block's transaction tree and the branch of one transaction.
-- A `uint256` is its list of bytes; `digest` stands for the double SHA-256 of `CHash256` and `Hash`.
pub mod Levels
pub mod Absorb
pub mod Sweep
pub mod Carry
pub mod Leads
pub mod Branch
pub mod Follows
pub mod Leaves
pub mod Rule
pub mod Root
pub mod Membership
mod Examples
use gen2_energiminer.Common.{
  ℕ, zero, suc, ◌+◌, ◌-◌, ◌*◌, ◌/◌, ◌%◌, ◌^◌, Bool, true, false, ◌&&◌, ◌||◌, List, [], ◌∷◌, ◌++◌,
  map, Text, text_eq, Option, none, some, u32, ◌==◌, if◌then◌else◌, get_or, set, replicate, length,
}

-- `uint256()`.
abbrev pub null_hash : Text
null_hash = replicate 32 0

-- The bit `level` of the counter is set.
abbrev pub has_bit : ℕ → ℕ → Bool
has_bit count level = count / 2 ^ level % 2 == 1

-- What a walk up the levels carries: the local variables `h`, `matchh`, `level` and `mutated` of
-- the function, and what was pushed to `pbranch`.
pub record Walk : Type 0 where
  pub h : Text
  pub matched : Bool
  pub level : ℕ
  pub mutated : Bool
  pub branch : List Text

-- `matchlevel == level`, where `none` is -1.
abbrev pub is_at : Option ℕ → ℕ → Bool
is_at none level = false
is_at (some at) level = at == level

-- The block under `if (pbranch)`, which both loops have.
unfoldable pub note : Bool → List Text → Option ℕ → Walk → Walk
note wanted inner at w =
    if wanted
    then (if w.matched
        then record w { branch = w.branch ++ (get_or inner w.level null_hash ∷ []) }
        else (if is_at at w.level
            then record w { branch = w.branch ++ (w.h ∷ []); matched = true }
            else w))
    else w

-- The state of the loop over the leaves.
pub record Tree : Type 0 where
  pub inner : List Text
  pub count : ℕ
  pub mutated : Bool
  pub match_level : Option ℕ
  pub branch : List Text

pub record Computed : Type 0 where
  pub root : Text
  pub mutated : Bool
  pub branch : List Text

-- "As long as bit number level in count is zero, skip it."
unfoldable pub first_level : ℕ → ℕ → ℕ → ℕ
first_level zero count level = level
first_level (suc fuel) count level =
    let next = first_level fuel count (level + 1) in if has_bit count level then level else next

abbrev pub empty_tree : Tree
empty_tree = record {
  inner = replicate 32 null_hash;
  count = 0;
  mutated = false;
  match_level = none;
  branch = [];
}

module _ (digest : Text → Text) where
  -- A step of the loop of the final sweep: the stored hash of the level on the left.
  unfoldable pub rise_step : Bool → List Text → Option ℕ → Walk → Walk
  unfolding note
  rise_step wanted inner at w =
      let n = note wanted inner at w in
      record n { h = digest (get_or inner w.level null_hash ++ w.h); level = w.level + 1 }

  -- A step of the loop that takes in a leaf; it also compares the two hashes.
  unfoldable pub absorb_step : Bool → List Text → Option ℕ → Walk → Walk
  unfolding rise_step text_eq
  absorb_step wanted inner at w = record (rise_step wanted inner at w) {
    mutated = w.mutated || text_eq (get_or inner w.level null_hash) w.h;
  }

  -- The loop over the clear low bits of the counter, on fuel.
  unfoldable pub absorb_loop : ℕ → ℕ → Bool → List Text → Option ℕ → Walk → Walk
  unfolding absorb_step
  absorb_loop zero count wanted inner at w = w
  absorb_loop (suc fuel) count wanted inner at w =
      let next = absorb_loop fuel count wanted inner at (absorb_step wanted inner at w) in
      if has_bit count w.level then w else next

  unfoldable pub rise_loop : ℕ → ℕ → Bool → List Text → Option ℕ → Walk → Walk
  unfolding rise_step
  rise_loop zero count wanted inner at w = w
  rise_loop (suc fuel) count wanted inner at w =
      let next = rise_loop fuel count wanted inner at (rise_step wanted inner at w) in
      if has_bit count w.level then w else next

  -- A round of the loop over the leaves.
  unfoldable pub add_leaf : ℕ → Bool → Tree → Text → Tree
  unfolding absorb_loop
  add_leaf position wanted t leaf =
      let matched = t.count == position in
      let count' = u32 (t.count + 1) in
      let w = absorb_loop 32 count' wanted t.inner t.match_level (record {
        h = leaf;
        matched = matched;
        level = 0;
        mutated = t.mutated;
        branch = t.branch;
      }) in
      record {
        inner = set t.inner w.level w.h;
        count = count';
        mutated = w.mutated;
        match_level = if w.matched then some w.level else t.match_level;
        branch = w.branch;
      }

  unfoldable pub add_leaves : ℕ → Bool → Tree → List Text → Tree
  unfolding add_leaf
  add_leaves position wanted t [] = t
  add_leaves position wanted t (leaf ∷ rest) =
      add_leaves position wanted (add_leaf position wanted t leaf) rest

  -- The odd hash of a level is combined with itself.
  unfoldable pub double_step : Bool → Walk → Walk
  double_step wanted w = record w {
    branch = if wanted && w.matched then w.branch ++ (w.h ∷ []) else w.branch;
    h = digest (w.h ++ w.h);
    level = w.level + 1;
  }

  -- The loop of the final sweep, on fuel.
  unfoldable pub sweep_loop : ℕ → ℕ → Bool → List Text → Option ℕ → Walk → Walk
  unfolding rise_loop double_step
  sweep_loop zero count wanted inner at w = w
  sweep_loop (suc fuel) count wanted inner at w =
      let count' = u32 (count + 2 ^ w.level) in
      let next =
        sweep_loop fuel count' wanted inner at
          (rise_loop 32 count' wanted inner at (double_step wanted w)) in
      if count == 2 ^ w.level then w else next

  unfoldable pub sweep : Bool → Tree → Walk
  unfolding first_level sweep_loop
  sweep wanted t =
      let level = first_level 32 t.count 0 in
      sweep_loop 32 t.count wanted t.inner t.match_level (record {
        h = get_or t.inner level null_hash;
        matched = is_at t.match_level level;
        level = level;
        mutated = t.mutated;
        branch = t.branch;
      })

  -- `MerkleComputation`; `wanted` says that `pbranch` is not NULL.
  unfoldable pub merkle_computation : List Text → ℕ → Bool → Computed
  unfolding add_leaves sweep
  merkle_computation [] position wanted = record { root = null_hash; mutated = false; branch = [] }
  merkle_computation (leaf ∷ rest) position wanted =
      let w = sweep wanted (add_leaves position wanted empty_tree (leaf ∷ rest)) in
      record { root = w.h; mutated = w.mutated; branch = w.branch }

  -- `ComputeMerkleRoot`, with the flag that it sets.
  unfoldable pub compute_merkle_root : List Text → Text × Bool
  unfolding merkle_computation
  compute_merkle_root leaves =
      let c = merkle_computation leaves (2 ^ 32 - 1) false in (c.root, c.mutated)

  unfoldable pub compute_merkle_branch : List Text → ℕ → List Text
  unfolding merkle_computation
  compute_merkle_branch leaves position = (merkle_computation leaves position true).branch

  -- `ComputeMerkleRootFromBranch`.
  unfoldable pub root_from_branch : Text → List Text → ℕ → Text
  root_from_branch h [] index = h
  root_from_branch h (side ∷ rest) index =
      root_from_branch (digest (if index % 2 == 1 then side ++ h else h ++ side)) rest (index / 2)

  -- `BlockMerkleRoot` and `BlockMerkleBranch`, of the transactions' hashes.
  module _ {Tx : Type 0} (get_hash : Tx → Text) where
    unfoldable pub block_merkle_root : List Tx → Text × Bool
    unfolding compute_merkle_root
    block_merkle_root vtx = compute_merkle_root (map get_hash vtx)

    unfoldable pub block_merkle_branch : List Tx → ℕ → List Text
    unfolding compute_merkle_branch
    block_merkle_branch vtx position = compute_merkle_branch (map get_hash vtx) position
