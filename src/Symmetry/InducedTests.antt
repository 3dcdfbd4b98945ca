-- ===== src/Symmetry/InducedTests.antt =====
-- The symmetries that two derivatives by y and one by u induce on two classes.
use dynare.Base.{get_or, ℕ, ◌≡◌, refl, List, [], ◌∷◌, ok, arith}
use dynare.Sequence.{sum, bump}
use dynare.Equivalence.{Equivalence}
use dynare.Equivalence.Partition.{IsPartition}
use dynare.Symmetry.{dimen, implied, count_classes, find_class, find_class_from, last}
use dynare.Symmetry.Induced.{
  induced, induced_from, induced_permuted, Induces, Follows, induced_permuted-Follows,
}
use dynare.Symmetry.Shares.{total_at, induced-total_at}

abbrev y_y_u : List ℕ
y_y_u = 2 ∷ 1 ∷ []

abbrev outer_pair : Equivalence
outer_pair = record { n = 3; classes = (0 ∷ 2 ∷ []) ∷ (1 ∷ []) ∷ [] }

induced_run : induced outer_pair y_y_u ≡ ok ((1 ∷ 1 ∷ []) ∷ (1 ∷ 0 ∷ []) ∷ [])
unfolding induced induced_from implied count_classes find_class find_class_from last sum bump
induced_run = refl

outer_pair-IsPartition : IsPartition (dimen y_y_u) outer_pair.classes
unfolding sum
outer_pair-IsPartition = record { classes = omega arith; once = λ x. ground arith; size = refl }

induced-total_at_example :
    (rs : List (List ℕ)) × (induced outer_pair y_y_u ≡ ok rs)
    × Induces y_y_u outer_pair.classes rs
    × ((k : ℕ) → total_at k rs ≡ get_or y_y_u k 0)
induced-total_at_example = induced-total_at outer_pair y_y_u outer_pair-IsPartition

induced_permuted-Follows_example :
    (rs : List (List ℕ)) × (rs' : List (List ℕ)) × (induced outer_pair y_y_u ≡ ok rs)
    × (induced_permuted outer_pair (1 ∷ 0 ∷ []) y_y_u ≡ ok rs')
    × Follows rs (1 ∷ 0 ∷ []) rs'
induced_permuted-Follows_example =
    induced_permuted-Follows outer_pair (1 ∷ 0 ∷ []) y_y_u outer_pair-IsPartition refl (omega arith)
