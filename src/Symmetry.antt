-- ===== src/Symmetry.antt =====
-- Symmetries: Symmetry and symiterator of tl/cc/symmetry.cc and symmetry.hh. A symmetry is the sequence
-- of the numbers of its indices in each class.
pub mod Classes
pub mod Order
pub mod Next
pub mod Induced
pub mod Shares
pub mod InducedTests
pub mod Tests
use dynare.Base.{
  ℕ, zero, suc, ◌+◌, ◌-◌, List, [], ◌∷◌, ◌++◌, Bool, true, false, Result, ok, err, Error, ◌>>=◌,
  length, ltb, leb, ◌==◌, if◌then◌else◌, replicate,
}
use dynare.Sequence.{sum, bump, filled}

-- `num` and `dimen`
abbrev pub num : List ℕ → ℕ
num sy = length sy

abbrev pub dimen : List ℕ → ℕ
dimen sy = sum sy

-- The loop of `findClass` at class `j`, behind classes of `acc` indices.
pub find_class_from : ℕ → ℕ → List ℕ → ℕ → Result ℕ
find_class_from j acc [] i = err Error.out_of_range
find_class_from j acc (x ∷ []) i = ok j
find_class_from j acc (x ∷ y ∷ s) i =
    let rest = find_class_from (j + 1) (acc + x) (y ∷ s) i in if leb (acc + x) i then rest else ok j

pub find_class : List ℕ → ℕ → Result ℕ
find_class sy i = find_class_from 0 0 sy i

pub count_nonzero : List ℕ → ℕ
count_nonzero [] = 0
count_nonzero (x ∷ s) = if x == 0 then count_nonzero s else count_nonzero s + 1

pub is_full : List ℕ → Bool
is_full sy = leb (count_nonzero sy) 1

-- The loop of the constructor of an implied symmetry, over the indices of a class of an equivalence.
pub count_classes : List ℕ → List ℕ → List ℕ → Result (List ℕ)
count_classes sy r [] = ok r
count_classes sy r (i ∷ se) = do j ← find_class sy i; count_classes sy (bump r j) se

pub last : ℕ → List ℕ → ℕ
last x [] = x
last x (y ∷ s) = last y s

-- The constructor; it reads the last index of the class, which must not be empty.
pub implied : List ℕ → List ℕ → Result (List ℕ)
implied sy [] = err Error.out_of_range
implied sy (i ∷ se) =
    if leb (dimen sy) (last i se)
    then err Error.wrong_length
    else count_classes sy (filled (num sy) 0) (i ∷ se)

-- `run[run.size()-1] = d`
pub set_last : ℕ → List ℕ → List ℕ
set_last d [] = []
set_last d (x ∷ []) = d ∷ []
set_last d (x ∷ y ∷ s) = x ∷ set_last d (y ∷ s)

-- What `operator++` does to its run behind the first item, where the subordinal iterator has run.
pub advance : ℕ → ℕ → List ℕ → Result (List ℕ)
advance dim x [] = err Error.out_of_range
advance dim x (y ∷ t) =
    if y == dim - x + 1 then ok ((x + 1) ∷ 0 ∷ set_last (dim - (x + 1)) t) else ok (x ∷ y ∷ t)

-- `operator++`. The run of the subordinal iterator shares the items of the run. Behind the past-the-end
-- iterator the source makes negative items, which are errors here; so is the read of an empty run.
pub next : ℕ → List ℕ → Result (List ℕ)
next dim [] = err Error.out_of_range
next dim (x ∷ rest) =
    let sub = next (dim - x) rest in
    if x == dim
    then ok ((x + 1) ∷ rest)
    else if ltb dim x
    then err Error.out_of_range
    else elim rest [
      | [] ↦ err Error.out_of_range
      | y ∷ s ↦ elim s [
        | [] ↦ if y == 0 then err Error.before_first else ok ((x + 1) ∷ (y - 1) ∷ [])
        | z ∷ s' ↦ do rest' ← sub; advance dim x rest'
      ]
    ]

-- `SymmetrySet::begin` and `end`, of length `len + 1`.
pub begin : ℕ → ℕ → List ℕ
begin dim len = replicate len 0 ++ dim ∷ []

pub past_end : ℕ → ℕ → List ℕ
past_end dim len = (dim + 1) ∷ replicate len 0
