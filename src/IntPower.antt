-- ===== src/IntPower.antt =====
-- Integer powers: utils/cc/int_power.cc, on arguments that are not negative.
pub mod Bounds
pub mod Tests
use Prim.Native.Nat.{◌^◌, ◌/◌, ◌%◌}
use dynare.Base.{ℕ, zero, suc, ◌+◌, ◌*◌, Result, ok, err, Error, ◌>>=◌, ltb, ◌==◌, if◌then◌else◌}

-- A product of `int`; what overflows is undefined.
pub times_int : ℕ → ℕ → Result ℕ
times_int x y = if ltb (x * y) (2 ^ 31) then ok (x * y) else err Error.overflow

-- The loop, on fuel. The last square is computed though it is not used.
pub power_loop : ℕ → ℕ → ℕ → ℕ → Result ℕ
power_loop fuel res a zero = ok res
power_loop zero res a (suc b) = err Error.no_fuel
power_loop (suc fuel) res a (suc b) = do
  res' ← if suc b % 2 == 1 then times_int res a else ok res
  a' ← times_int a a
  power_loop fuel res' a' (suc b / 2)

unfoldable pub power : ℕ → ℕ → ℕ → Result ℕ
power fuel a b = power_loop fuel 1 a b
