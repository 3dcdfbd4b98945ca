-- ===== src/Sequence/Tests.antt =====
-- Runs of the sequence operations, and the theorems at small sequences.
use dynare.Base.{ℕ, ◌*◌, arith, ◌≡◌, refl, List, [], ◌∷◌, ok, length}
use dynare.Pascal.{Triangle, initial}
use dynare.Pascal.Noverk.{IsPascal, initial-IsPascal}
use dynare.Pascal.Binomial.{binom}
use dynare.Pascal.Factorial.{fact}
use dynare.Sequence.{
  unfold_by, get_symmetry, num_distinct_from, get_num_distinct, count_runs, bump, monotone,
  monotone_from, noverseq, sum,
}
use dynare.Sequence.Order.{IsSorted, IsBelow, monotone-least}
use dynare.Sequence.Runs.{heads, unfold_by-get_symmetry}
use dynare.Sequence.Multinomial.{partial_sums, product_of_facts, noverseq-IsMultinomial}

abbrev runs_of_three : List ℕ
runs_of_three = 4 ∷ 4 ∷ 7 ∷ 4 ∷ []

get_symmetry_run : get_symmetry (4 ∷ 4 ∷ 7 ∷ 4 ∷ []) ≡ 2 ∷ 1 ∷ 1 ∷ []
unfolding get_symmetry get_num_distinct num_distinct_from count_runs bump
get_symmetry_run = refl

unfold_by_run : unfold_by (5 ∷ 8 ∷ []) (3 ∷ 1 ∷ []) ≡ ok (5 ∷ 5 ∷ 5 ∷ 8 ∷ [])
unfolding unfold_by
unfold_by_run = refl

monotone_run : monotone (3 ∷ 1 ∷ 4 ∷ 2 ∷ []) ≡ 3 ∷ 3 ∷ 4 ∷ 4 ∷ []
unfolding monotone monotone_from
monotone_run = refl

monotone-least_example :
    IsSorted (monotone (3 ∷ 1 ∷ 4 ∷ []))
    × IsBelow (3 ∷ 1 ∷ 4 ∷ []) (monotone (3 ∷ 1 ∷ 4 ∷ []))
    × ((t : List ℕ)
        → IsSorted t
        → IsBelow (3 ∷ 1 ∷ 4 ∷ []) t
        → IsBelow (monotone (3 ∷ 1 ∷ 4 ∷ [])) t)
monotone-least_example = monotone-least (3 ∷ 1 ∷ 4 ∷ [])

unfold_by-get_symmetry_example :
    (unfold_by (heads runs_of_three) (get_symmetry runs_of_three) ≡ ok runs_of_three)
    × (length (get_symmetry runs_of_three) ≡ get_num_distinct runs_of_three)
    × (sum (get_symmetry runs_of_three) ≡ length runs_of_three)
unfold_by-get_symmetry_example = unfold_by-get_symmetry runs_of_three

noverseq-IsMultinomial_example :
    (v : ℕ) × (tr' : Triangle) × (noverseq (2 ∷ 1 ∷ 3 ∷ []) initial
      ≡ ok (v, partial_sums (2 ∷ 1 ∷ 3 ∷ []), tr'))
    × (v * product_of_facts (2 ∷ 1 ∷ 3 ∷ []) ≡ fact (sum (2 ∷ 1 ∷ 3 ∷ [])))
    × IsPascal 2 4 tr'
unfolding binom fact sum
noverseq-IsMultinomial_example =
    noverseq-IsMultinomial 2 4 (omega arith) (2 ∷ 1 ∷ 3 ∷ []) initial (omega arith) (omega arith)
      (omega arith) (initial-IsPascal 2 4)
