-- ===== src/Pascal/Tests.antt =====
-- Runs of the Pascal triangle on small inputs, and the theorems at such inputs.
use dynare.Base.{◌≡◌, refl, ok, arith}
use dynare.Pascal.{Triangle, initial, smaller_k, noverk}
use dynare.Pascal.Binomial.{binom}
use dynare.Pascal.Noverk.{IsPascal, noverk-binom, initial-IsPascal}

binom_7_5 : binom 7 5 ≡ 21
unfolding binom
binom_7_5 = refl

noverk-binom_example :
    (tr' : Triangle) × (noverk 7 5 initial ≡ ok (binom 7 5, tr')) × IsPascal 4 5 tr'
unfolding binom smaller_k
noverk-binom_example =
    noverk-binom 4 5 (omega arith) 7 5 initial (omega arith, omega arith, omega arith)
      (initial-IsPascal 4 5)
