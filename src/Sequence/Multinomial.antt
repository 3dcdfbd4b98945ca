-- ===== src/Sequence/Multinomial.antt =====
-- `noverseq` computes the multinomial coefficient.
use Prim.Native.Nat.{◌^◌}
use native.Mathlib.Nat.{add_comm, mul-le-mul_right}
use dynare.Base.{
  ℕ, ◌+◌, ◌*◌, ◌≡◌, refl, ap, List, [], ◌∷◌, ok, arith, ◌≤◌, ◌<◌, ltb, ltb→lt, Bool-cases, inl, inr,
  zero, suc,
}
use dynare.IntPower.Bounds.{times_int-fits}
use dynare.Pascal.{Triangle}
use dynare.Pascal.Binomial.{binom, binom_pos}
use dynare.Pascal.Factorial.{fact, binom-fact}
use dynare.Pascal.Noverk.{IsPascal, IsInside, noverk-binom, smaller_k-cases}
use dynare.Pascal.Rows.{HasRoom, plus_int_of, size_lt}
use dynare.Sequence.{sum, noverseq_from, noverseq}

abbrev pub product_of_facts : List ℕ → ℕ
product_of_facts [] = 1
product_of_facts (x ∷ s) = fact x * product_of_facts s

-- The sums of the items up to each place, which the call leaves in the sequence.
abbrev pub partial_sums_from : ℕ → List ℕ → List ℕ
partial_sums_from x [] = x ∷ []
partial_sums_from x (y ∷ s) = x ∷ partial_sums_from (y + x) s

abbrev pub partial_sums : List ℕ → List ℕ
partial_sums [] = []
partial_sums (x ∷ s) = partial_sums_from x s

-- The product of the coefficients for each item and the sum of those up to it.
coefficient_from : ℕ → List ℕ → ℕ
coefficient_from x [] = 1
coefficient_from x (y ∷ s) = binom (y + x) x * coefficient_from (y + x) s

one_item : (x : ℕ) → 1 * (fact x * 1) ≡ fact (x + 0)
one_item x = let e : x + 0 ≡ x = omega arith in rw e (omega arith)

regroup : (b v f g h p r : ℕ) → b * (f * g) ≡ h → v * (h * p) ≡ r → b * v * (f * (g * p)) ≡ r
regroup b v f g h p r e e' = omega (arith, ap (λ (t : ℕ). t * (v * p)) e)

next_item :
    (x y : ℕ) (s : List ℕ) (v : ℕ)
    → v * (fact (y + x) * product_of_facts s) ≡ fact (y + x + sum s)
    → binom (y + x) x * v * (fact x * (fact y * product_of_facts s)) ≡ fact (x + (y + sum s))
next_item x y s v e =
    let size : y + x + sum s ≡ x + (y + sum s) = omega arith in
    rw (← size) (
      regroup (binom (y + x) x) v (fact x) (fact y) (fact (y + x)) (product_of_facts s) _
        (rw (add_comm y x) (binom-fact x y)) e)

coefficient_from-fact :
    (x : ℕ) (s : List ℕ) → coefficient_from x s * product_of_facts (x ∷ s) ≡ fact (sum (x ∷ s))
unfolding coefficient_from sum
coefficient_from-fact x [] = one_item x
coefficient_from-fact x (y ∷ s) =
    next_item x y s (coefficient_from (y + x) s) (coefficient_from-fact (y + x) s)

-- The triangle has room for every pair of an item and the sum of those before it.
inside : (K S n k : ℕ) → k ≤ n → n ≤ S + 2 → n ≤ K + K + 3 → IsInside K S n k
inside K S n k h a b = let (e, small) = smaller_k-cases n k h in (h, a, omega (arith, small))

shrink : (b v m : ℕ) → 1 ≤ b → b * v < m → v < m
shrink zero v m h l = absurd (omega arith)
shrink (suc b) v m h l = omega (arith)

noverseq_from-coefficient :
    (K S : ℕ)
    → HasRoom K S
    → (x : ℕ) (s : List ℕ) (tr : Triangle) → sum (x ∷ s) ≤ S + 2
    → sum (x ∷ s) ≤ K + K + 3
    → coefficient_from x s < 2 ^ 31
    → IsPascal K S tr
    → (tr' : Triangle) × (noverseq_from x s tr
        ≡ ok (coefficient_from x s, partial_sums_from x s, tr'))
      × IsPascal K S tr'
unfolding noverseq_from sum coefficient_from
noverseq_from-coefficient K S room x [] tr a b h p = (tr, refl, p)
noverseq_from-coefficient K S room x (y ∷ s) tr a b h p =
    let ins = inside K S (y + x) x (omega arith) (omega arith) (omega arith) in
    let (tr', e, p') = noverk-binom K S room (y + x) x tr ins p in
    let rest = shrink _ _ _ (binom_pos (y + x) x (omega arith)) h in
    let (tr'', e', p'') =
      noverseq_from-coefficient K S room (y + x) s tr' (omega arith) (omega arith) rest p' in
    let total = plus_int_of y x (y + x) refl (omega (arith, size_lt K S room)) in
    (tr'', rw total (rw (e, e', times_int-fits _ _ h) refl), p'')

cancel : (v p m : ℕ) → v * p < m * p → v < m
cancel v p m h = elim (Bool-cases (ltb v m)) [
  | inl lt ↦ ltb→lt _ _ lt
  | inr ge ↦ let le : m ≤ v = ground arith in absurd (omega (arith, mul-le-mul_right p le))
]

empty : 1 * 1 ≡ fact (sum [])
unfolding fact sum
empty = refl

-- Where a triangle with K + 1 rows of S + 1 items fits in `int` and has room for the sum of the
-- sequence, and the multinomial coefficient of the sequence fits in `int`, `noverseq` returns that
-- coefficient: times the factorials of the items it is the factorial of their sum. It leaves the
-- partial sums in the sequence and a triangle of binomial coefficients, and no sum or product overflows.
pub noverseq-IsMultinomial :
    (K S : ℕ)
    → HasRoom K S
    → (s : List ℕ) (tr : Triangle) → sum s ≤ S + 2
    → sum s ≤ K + K + 3
    → fact (sum s) < 2 ^ 31 * product_of_facts s
    → IsPascal K S tr
    → (v : ℕ) × (tr' : Triangle) × (noverseq s tr ≡ ok (v, partial_sums s, tr'))
      × (v * product_of_facts s ≡ fact (sum s))
      × IsPascal K S tr'
unfolding noverseq
noverseq-IsMultinomial K S room [] tr a b h p = (1, tr, refl, empty, p)
noverseq-IsMultinomial K S room (x ∷ s) tr a b h p =
    let e = coefficient_from-fact x s in
    let small = cancel (coefficient_from x s) (product_of_facts (x ∷ s)) (2 ^ 31) (rw e h) in
    let (tr', f, p') = noverseq_from-coefficient K S room x s tr a b small p in
    (coefficient_from x s, tr', f, e, p')
