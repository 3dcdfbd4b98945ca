-- ===== src/Symmetry/Induced.antt =====
-- InducedSymmetries of tl/cc/symmetry.cc: the symmetries that a symmetry induces on the classes of an
-- equivalence of its indices.
use dynare.Base.{
  ℕ, zero, suc, ◌≤◌, ◌<◌, ◌≡◌, refl, sym, List, [], ◌∷◌, some, Result, ok, err, Error, ◌>>=◌, arith,
  length, ltb, get_elem?,
}
use dynare.Equivalence.{Equivalence, find}
use dynare.Equivalence.Counts.{one_if, count, total}
use dynare.Equivalence.Partition.{AllClasses, IsPartition}
use dynare.Symmetry.{num, dimen, implied}
use dynare.Symmetry.Classes.{AllBelow, implied-dimen}

-- The constructor from an equivalence.
unfoldable pub induced_from : List (List ℕ) → List ℕ → Result (List (List ℕ))
induced_from [] sy = ok []
induced_from (c ∷ cs) sy = do r ← implied sy c; rest ← induced_from cs sy; ok (r ∷ rest)

unfoldable pub induced : Equivalence → List ℕ → Result (List (List ℕ))
induced e sy = induced_from e.classes sy

-- The loop of the constructor with a permutation of the classes: `rounds` rounds, through `per`.
unfoldable pub induced_permuted_from : ℕ → List ℕ → List (List ℕ) → List ℕ → Result (List (List ℕ))
induced_permuted_from zero per cs sy = ok []
induced_permuted_from (suc rounds) [] cs sy = err Error.out_of_range
induced_permuted_from (suc rounds) (p ∷ per) cs sy = do
  c ← find p cs
  r ← implied sy c
  rest ← induced_permuted_from rounds per cs sy
  ok (r ∷ rest)

unfoldable pub induced_permuted : Equivalence → List ℕ → List ℕ → Result (List (List ℕ))
induced_permuted e per sy = induced_permuted_from (length e.classes) per e.classes sy

-- For each class a symmetry with as many classes as `sy`, of the size of the class.
abbrev pub Induces : List ℕ → List (List ℕ) → List (List ℕ) → Type 0
Induces sy [] [] = Unit
Induces sy [] (r ∷ rs) = ⊥
Induces sy (c ∷ cs) [] = ⊥
Induces sy (c ∷ cs) (r ∷ rs) = (num r ≡ num sy) × (dimen r ≡ length c) × Induces sy cs rs

abbrev pub Made : List ℕ → List (List ℕ) → List (List ℕ) → Type 0
Made sy [] [] = Unit
Made sy [] (r ∷ rs) = ⊥
Made sy (c ∷ cs) [] = ⊥
Made sy (c ∷ cs) (r ∷ rs) = (implied sy c ≡ ok r) × Made sy cs rs

pub AllBelow-of : (n : ℕ) (c : List ℕ) → ((x : ℕ) → count x c ≤ one_if (ltb x n)) → AllBelow n c
AllBelow-of n [] h = tt
AllBelow-of n (x ∷ c) h = (ground (arith, h x), AllBelow-of n c (λ k. omega (arith, h k)))

pub induced_from-Induces :
    (cs : List (List ℕ)) (sy : List ℕ)
    → AllClasses cs
    → ((x : ℕ) → total x cs ≤ one_if (ltb x (dimen sy)))
    → (rs : List (List ℕ)) × (induced_from cs sy ≡ ok rs) × Induces sy cs rs × Made sy cs rs
unfolding induced_from
induced_from-Induces [] sy h k = ([], refl, tt, tt)
induced_from-Induces ([] ∷ cs) sy h k = absurd (h.0)
induced_from-Induces ((i ∷ c) ∷ cs) sy h k =
    let below = AllBelow-of (dimen sy) (i ∷ c) (λ x. omega (arith, k x)) in
    let (r, e, size, d) = implied-dimen sy i c below in
    let (rs, f, g, m) = induced_from-Induces cs sy h.1 (λ x. omega (arith, k x)) in
    (r ∷ rs, rw (e, f) refl, (size, d, g), (e, m))

-- The symmetries `rs'` are those of `rs` at the places `per`.
abbrev pub Follows : List (List ℕ) → List ℕ → List (List ℕ) → Type 0
Follows rs [] [] = Unit
Follows rs [] (r ∷ rs') = ⊥
Follows rs (p ∷ per) [] = ⊥
Follows rs (p ∷ per) (r ∷ rs') = (get_elem? rs p ≡ some r) × Follows rs per rs'

Made-at :
    (j : ℕ) (cs rs : List (List ℕ)) (sy : List ℕ)
    → Made sy cs rs
    → j < length cs
    → (c : List ℕ) × (r : List ℕ) × (find j cs ≡ ok c)
      × (implied sy c ≡ ok r)
      × (get_elem? rs j ≡ some r)
unfolding find
Made-at j [] rs sy m h = absurd (omega arith)
Made-at j (c ∷ cs) [] sy m h = absurd m
Made-at zero (c ∷ cs) (r ∷ rs) sy m h = (c, r, refl, m.0, refl)
Made-at (suc j) (c ∷ cs) (r ∷ rs) sy m h = Made-at j cs rs sy m.1 (omega arith)

permuted-Follows :
    (per : List ℕ) (cs rs : List (List ℕ)) (sy : List ℕ)
    → Made sy cs rs
    → AllBelow (length cs) per
    → (rs' : List (List ℕ)) × (induced_permuted_from (length per) per cs sy ≡ ok rs')
      × Follows rs per rs'
unfolding induced_permuted_from
permuted-Follows [] cs rs sy m h = ([], refl, tt)
permuted-Follows (p ∷ per) cs rs sy m h =
    let (c, r, f, e, g) = Made-at p cs rs sy m h.0 in
    let (rs', k, q) = permuted-Follows per cs rs sy m h.1 in (r ∷ rs', rw (f, e, k) refl, (g, q))

-- For a partition of the indices of a symmetry and a sequence of as many places as it has classes, all
-- of them classes, the constructor with a permutation makes the symmetries of the constructor without
-- one, taken at these places.
pub induced_permuted-Follows :
    (e : Equivalence) (per : List ℕ) (sy : List ℕ)
    → IsPartition (dimen sy) e.classes
    → length per ≡ length e.classes
    → AllBelow (length e.classes) per
    → (rs : List (List ℕ)) × (rs' : List (List ℕ)) × (induced e sy ≡ ok rs)
      × (induced_permuted e per sy ≡ ok rs')
      × Follows rs per rs'
unfolding induced induced_permuted
induced_permuted-Follows e per sy h size k =
    let (rs, f, g, m) =
      induced_from-Induces e.classes sy h.classes (λ x. omega (arith, h.once x)) in
    let (rs', r, q) = permuted-Follows per e.classes rs sy m k in (rs, rs', f, rw (sym size) r, q)
