-- ===== src/Pascal/Binomial.antt =====
-- Binomial coefficients by Pascal's rule: the specification of utils/cc/pascal_triangle.cc.
use dynare.Base.{ℕ, zero, suc, ◌+◌, ◌-◌, ◌≤◌, ◌<◌, ◌≡◌, refl, sym, ◌∙◌, arith}

unfoldable pub binom : ℕ → ℕ → ℕ
binom n zero = 1
binom zero (suc k) = 0
binom (suc n) (suc k) = binom n k + binom n (suc k)

pub binom-zero : (n : ℕ) → binom n 0 ≡ 1
unfolding binom
binom-zero zero = refl
binom-zero (suc n) = refl

pub binom-of_lt : (n k : ℕ) → n < k → binom n k ≡ 0
unfolding binom
binom-of_lt n zero h = absurd (omega arith)
binom-of_lt zero (suc k) h = refl
binom-of_lt (suc n) (suc k) h =
    omega (arith, binom-of_lt n k (omega arith), binom-of_lt n (suc k) (omega arith))

pub binom_self : (n : ℕ) → binom n n ≡ 1
unfolding binom
binom_self zero = refl
binom_self (suc n) = omega (arith, binom_self n, binom-of_lt n (suc n) (omega arith))

pub binom_pos : (n k : ℕ) → k ≤ n → 1 ≤ binom n k
unfolding binom
binom_pos n zero h = omega (arith, binom-zero n)
binom_pos zero (suc k) h = absurd (omega arith)
binom_pos (suc n) (suc k) h = omega (arith, binom_pos n k (omega arith))

pub binom-one : (n : ℕ) → binom n 1 ≡ n
unfolding binom
binom-one zero = refl
binom-one (suc n) = omega (arith, binom-one n, binom-zero n)

binom-add_symm : (n a b : ℕ) → n ≡ a + b → binom n a ≡ binom n b
unfolding binom
binom-add_symm n zero b e =
    let e' : n ≡ b = omega arith in binom-zero n ∙ rw e' (sym (binom_self b))
binom-add_symm n (suc a) zero e =
    let e' : n ≡ suc a = omega arith in rw e' (binom_self (suc a)) ∙ sym (binom-zero n)
binom-add_symm zero (suc a) (suc b) e = absurd (omega arith)
binom-add_symm (suc n) (suc a) (suc b) e =
    omega
      (arith, binom-add_symm n a (suc b) (omega arith), binom-add_symm n (suc a) b (omega arith))

pub binom_symm : (n k : ℕ) → k ≤ n → binom n (n - k) ≡ binom n k
binom_symm n k h = binom-add_symm n (n - k) k (omega arith)
