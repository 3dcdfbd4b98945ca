-- ===== src/Symmetry/Tests.antt =====
-- Runs on small symmetries, and the theorems at such symmetries.
use dynare.Base.{ℕ, ◌≡◌, ◌⊎◌, refl, List, [], ◌∷◌, ok, arith, replicate}
use dynare.Sequence.{sum}
use dynare.Symmetry.{next, advance, set_last, past_end, find_class, find_class_from}
use dynare.Symmetry.Order.{IsSymmetry, IsSuccessor}
use dynare.Symmetry.Next.{next_lem}
use dynare.Symmetry.Classes.{IsClassOf, find_class-IsClassOf}

next_run : next 3 (0 ∷ 3 ∷ 0 ∷ []) ≡ ok (1 ∷ 0 ∷ 2 ∷ [])
unfolding next advance set_last
next_run = refl

find_class_run : find_class (2 ∷ 0 ∷ 3 ∷ []) 2 ≡ ok 2
unfolding find_class find_class_from
find_class_run = refl

abbrev y_u : List ℕ
y_u = 0 ∷ 3 ∷ 0 ∷ []

y_u-IsSymmetry : IsSymmetry 3 3 y_u
unfolding sum
y_u-IsSymmetry = record { size = refl; dimension = refl }

next_lem_example :
    ((y_u ≡ 3 ∷ replicate 2 0) × (next 3 y_u ≡ ok (past_end 3 2)))
    ⊎ ((r' : List ℕ) × (next 3 y_u ≡ ok r') × IsSuccessor 3 3 y_u r')
next_lem_example = next_lem 3 2 y_u y_u-IsSymmetry

abbrev y_z_u : List ℕ
y_z_u = 2 ∷ 0 ∷ 3 ∷ []

find_class-IsClassOf_example : (k : ℕ) × (find_class y_z_u 2 ≡ ok k) × IsClassOf y_z_u 2 k
find_class-IsClassOf_example = find_class-IsClassOf y_z_u 2 (unfold sum in omega arith)
