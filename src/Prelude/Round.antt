-- ===== src/Prelude/Round.antt =====
-- Rounding of a quotient of whole numbers to the nearest, a half to the even neighbour: Python's
-- `round`, and the rounding of `{x:.0f}`, on values that are known exactly.
use driftless.Prelude.Tests.{ltb, if◌then◌else◌, nat_beq}
use Prim.Native.Nat.{ℕ, ◌+◌, ◌*◌, ◌/◌, ◌%◌, ◌≤◌}
use native.Mathlib.Omega.{arith}

unfoldable pub round_half_even : ℕ → ℕ → ℕ
round_half_even a b =
    let q = a / b in
    let r = 2 * (a % b) in
    if ltb r b then q else if ltb b r then q + 1 else if nat_beq (q % 2) 0 then q else q + 1

-- Rounding at most `n` hundredths of hundreds gives at most `n`.
pub round_half_even-le : (a n : ℕ) → a ≤ n * 100 → round_half_even a 100 ≤ n
unfolding round_half_even
round_half_even-le a n h = ground arith

-- A larger number of hundredths rounds to no less.
pub round_half_even_mono : (a c : ℕ) → a ≤ c → round_half_even a 100 ≤ round_half_even c 100
unfolding round_half_even
round_half_even_mono a c h = ground arith
