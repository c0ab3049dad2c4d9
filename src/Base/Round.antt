-- ===== src/Base/Round.antt =====
-- Python's `round(n / d)`: to the nearest integer, and at a half to the even one. A quotient of
-- integers far below 2 ^ 53 is a half exactly when its float is, so the float division is exact enough.
use Prim.Native.Nat.{ℕ, ◌+◌, ◌*◌, ◌/◌, ◌%◌, ◌≤◌}
use native.Mathlib.Omega.{arith}
use canvas_watcher.Base.Tests.{ltb, nat_beq, if◌then◌else◌}

unfoldable pub round_div : ℕ → ℕ → ℕ
round_div n d =
    let q = n / d in
    let r = n % d in
    if ltb (2 * r) d
    then q
    else if ltb d (2 * r)
    then q + 1
    else if nat_beq (q % 2) 0
    then q
    else q + 1

-- The nearest whole number of minutes is at most half a minute away.
pub round_div_60 : (n : ℕ) → (60 * round_div n 60 ≤ n + 30) × (n ≤ 60 * round_div n 60 + 30)
unfolding round_div
round_div_60 n = (ground arith, ground arith)
