-- ===== src/Common/Words.antt =====
-- Unsigned machine words as native numbers: a value of w bits is kept modulo 2 ^ w.
use native.Mathlib.Nat.{pow-succ'}
use Prim.Native.Nat.{ℕ, zero, suc, ◌+◌, ◌-◌, ◌*◌, ◌%◌, ◌^◌, ◌≤◌, ◌<◌}
use mathlib.Core.Path.{◌≡◌}
use native.Mathlib.Omega.{arith}

abbrev pub u32 : ℕ → ℕ
u32 n = n % 2 ^ 32

abbrev pub u64 : ℕ → ℕ
u64 n = n % 2 ^ 64

pub mod_unique : (v k m s : ℕ) → v + m * k ≡ s → v < m → v ≡ s % m
mod_unique v k m s e h = grind arith

pub mul-lt_word : (x y : ℕ) → x < 2 ^ 32 → y < 2 ^ 32 → x * y ≤ (2 ^ 32 - 1) * (2 ^ 32 - 1)
mul-lt_word x y hx hy = grind arith

pub pow-add : (a b : ℕ) → 2 ^ (a + b) ≡ 2 ^ a * 2 ^ b
pow-add zero b = let same : zero + b ≡ b = omega arith in rw same (omega arith)
pow-add (suc a) b =
    let up : suc a + b ≡ suc (a + b) = omega arith in
    rw (up, pow-succ' 2 (a + b), pow-succ' 2 a, pow-add a b) (grind arith)
