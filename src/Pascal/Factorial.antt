-- ===== src/Pascal/Factorial.antt =====
-- Binomial coefficients and factorials.
use dynare.Base.{ℕ, zero, suc, ◌+◌, ◌*◌, ◌≡◌, refl, ap, arith}
use dynare.Pascal.Binomial.{binom, binom_self, binom-zero}

unfoldable pub fact : ℕ → ℕ
fact zero = 1
fact (suc n) = suc n * fact n

binom-fact_at : (n a b : ℕ) → n ≡ a + b → binom n a * (fact a * fact b) ≡ fact n
unfolding binom fact
binom-fact_at n zero b e = let e' : n ≡ b = omega arith in rw (e', binom-zero b) (omega arith)
binom-fact_at n (suc a) zero e =
    let e' : n ≡ suc a = omega arith in rw (e', binom_self (suc a)) (omega arith)
binom-fact_at zero (suc a) (suc b) e = absurd (omega arith)
binom-fact_at (suc n) (suc a) (suc b) e =
    let left = binom-fact_at n a (suc b) (omega arith) in
    let right = binom-fact_at n (suc a) b (omega arith) in
    let size : n ≡ a + suc b = omega arith in
    omega (
      arith,
      ap (λ (t : ℕ). suc a * t) left,
      ap (λ (t : ℕ). suc b * t) right,
      ap (λ (t : ℕ). t * fact n) size,
    )

-- The coefficient as a quotient of factorials, written without division.
pub binom-fact : (a b : ℕ) → binom (a + b) a * (fact a * fact b) ≡ fact (a + b)
binom-fact a b = binom-fact_at (a + b) a b refl
