-- ===== src/Tensor/Multichoose.antt =====
-- The number of increasing sequences of a given length: the sizes of folded tensors.
use native.Mathlib.Nat.{add-suc, suc-add, zero-add}
use dynare.Base.{ℕ, zero, suc, ◌+◌, ◌≤◌, ◌≡◌, refl, arith}
use dynare.Pascal.Binomial.{binom, binom-zero, binom_self, binom-of_lt}

-- The increasing sequences of length `k` with items below `n`.
unfoldable pub multichoose : ℕ → ℕ → ℕ
multichoose n zero = 1
multichoose n (suc k) = binom (n + k) (suc k)

-- Those that begin with 0, and the others.
pub multichoose-suc :
    (n k : ℕ) → multichoose (suc n) (suc k) ≡ multichoose (suc n) k + multichoose n (suc k)
unfolding multichoose binom
multichoose-suc n zero = rw (suc-add n 0, binom-zero (n + 0))
multichoose-suc n (suc k) = simp (suc-add, add-suc)

pub multichoose-zero : (k : ℕ) → multichoose 0 (suc k) ≡ 0
unfolding multichoose
multichoose-zero k = binom-of_lt (0 + k) (suc k) (omega arith)

pub multichoose-one : (k : ℕ) → multichoose 1 k ≡ 1
unfolding multichoose
multichoose-one zero = refl
multichoose-one (suc k) = let e : 1 + k ≡ suc k = omega arith in rw e (binom_self (suc k))

multichoose-step : (n k : ℕ) → multichoose n k ≤ multichoose (suc n) k
multichoose-step n zero = unfold multichoose in omega arith
multichoose-step n (suc k) = omega (arith, multichoose-suc n k)

pub multichoose_mono : (d n k : ℕ) → multichoose n k ≤ multichoose (d + n) k
multichoose_mono zero n k = rw zero-add (omega arith)
multichoose_mono (suc d) n k =
    rw suc-add (omega (arith, multichoose_mono d n k, multichoose-step (d + n) k))
