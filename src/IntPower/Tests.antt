-- ===== src/IntPower/Tests.antt =====
-- Runs of `power`, and the theorem at one.
use Prim.Native.Nat.{◌^◌}
use dynare.Base.{◌≡◌, refl, ok, err, Error, arith}
use dynare.IntPower.{power, power_loop, times_int}
use dynare.IntPower.Bounds.{power-fits}

power_run : power 5 3 5 ≡ ok 243
unfolding power power_loop times_int
power_run = refl

-- The square that follows the last product overflows.
square_run : power 1 46341 1 ≡ err Error.overflow
unfolding power power_loop times_int
square_run = refl

power-fits_example : power 5 3 5 ≡ ok (3 ^ 5)
power-fits_example = power-fits 5 3 5 (omega arith) (omega arith) (omega arith)
