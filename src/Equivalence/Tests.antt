-- ===== src/Equivalence/Tests.antt =====
-- Runs on small equivalences, and the theorems at them.
use dynare.Base.{ℕ, ◌≡◌, refl, List, [], ◌∷◌, ◌++◌, ok, arith, length, ltb}
use dynare.Sequence.{sum}
use dynare.Equivalence.{
  Equivalence, finest, coarsest, glue, trace, less_class, add, add_all, insert, erase, find,
  singletons_from,
}
use dynare.Equivalence.Counts.{one_if, count}
use dynare.Equivalence.Partition.{IsPartition}
use dynare.Equivalence.Glue.{IsGlued, glue-IsGlued}
use dynare.Equivalence.Trace.{trace-items}
use dynare.Equivalence.Sets.{equivalence_set}
use dynare.Equivalence.Grown.{AllMembers, NoRepeat, potential}
use dynare.Equivalence.Members.{equivalence_set-members}

abbrev pairs_of_four : Equivalence
pairs_of_four = record { n = 4; classes = (1 ∷ []) ∷ (0 ∷ 2 ∷ []) ∷ (3 ∷ []) ∷ [] }

glue_run : glue (finest 4) 0 2 ≡ ok pairs_of_four
unfolding glue finest singletons_from find erase insert add add_all less_class sum
glue_run = refl

pairs_of_four-IsPartition : IsPartition 4 pairs_of_four.classes
pairs_of_four-IsPartition = record { classes = omega arith; once = λ x. ground arith; size = refl }

glue-IsGlued_example :
    (c : List ℕ) × (d : List ℕ) × (e' : Equivalence) × (find 1 pairs_of_four.classes ≡ ok c)
    × (find 2 pairs_of_four.classes ≡ ok d)
    × (glue pairs_of_four 1 2 ≡ ok e')
    × IsGlued pairs_of_four c d e'
glue-IsGlued_example =
    glue-IsGlued pairs_of_four 1 2 pairs_of_four-IsPartition (omega arith) (omega arith)
      (λ e. omega arith)

trace-items_example :
    (out' : List ℕ) × (trace (9 ∷ 9 ∷ 9 ∷ 9 ∷ []) 3 pairs_of_four ≡ ok out')
    × (length out' ≡ 4)
    × ((x : ℕ) → count x out' ≡ one_if (ltb x 4))
trace-items_example = trace-items pairs_of_four (9 ∷ 9 ∷ 9 ∷ 9 ∷ []) pairs_of_four-IsPartition refl

equivalence_set-members_example :
    (new : List Equivalence) × (equivalence_set 100 3 ≡ ok ((finest 3 ∷ new) ++ coarsest 3 ∷ []))
    × AllMembers 3 new
    × NoRepeat (finest 3 ∷ new)
    × IsPartition 3 (coarsest 3).classes
equivalence_set-members_example = equivalence_set-members 100 1 (unfold potential in omega arith)
