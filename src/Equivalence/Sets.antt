-- ===== src/Equivalence/Sets.antt =====
-- EquivalenceSet and EquivalenceBundle: all equivalences of a set, by gluing classes breadth first.
use dynare.Base.{
  ℕ, zero, suc, ◌+◌, ◌-◌, List, [], ◌∷◌, ◌++◌, Bool, false, Result, ok, err, Error, ◌>>=◌, length,
  ltb, ◌==◌, ◌||◌, if◌then◌else◌, at,
}
use dynare.Equivalence.{Equivalence, finest, coarsest, glue, equal}

-- The members, and those whose parents are still to be added.
pub record Building : Type 0 where
  pub equis : List Equivalence
  pub added : List Equivalence

-- `has`; the source goes through the list from its end.
unfoldable pub has_member : Equivalence → List Equivalence → Bool
has_member e [] = false
has_member e (f ∷ fs) = equal f e || has_member e fs

-- The body of the inner loop of `addParents`.
unfoldable pub try_pair : Equivalence → ℕ → ℕ → Building → Result Building
try_pair e i1 i2 b = do
  ns ← glue e i1 i2
  ok (
      if has_member ns b.equis
      then b
      else record { equis = b.equis ++ ns ∷ []; added = b.added ++ ns ∷ [] })

-- The inner loop, `count` rounds from `i2` on.
unfoldable pub try_row : ℕ → Equivalence → ℕ → ℕ → Building → Result Building
try_row zero e i1 i2 b = ok b
try_row (suc count) e i1 i2 b = do b' ← try_pair e i1 i2 b; try_row count e i1 (i2 + 1) b'

-- The outer loop, `count` rounds from `i1` on.
unfoldable pub try_rows : ℕ → Equivalence → ℕ → Building → Result Building
try_rows zero e i1 b = ok b
try_rows (suc count) e i1 b = do
  b' ← try_row (length e.classes - (i1 + 1)) e i1 (i1 + 1) b
  try_rows count e (i1 + 1) b'

unfoldable pub add_parents : Equivalence → Building → Result Building
add_parents e b =
    let num_classes = length e.classes in
    if num_classes == 2 || num_classes == 1 then ok b else try_rows num_classes e 0 b

unfoldable pub pop_front : List Equivalence → List Equivalence
pop_front [] = []
pop_front (e ∷ es) = es

-- The loop of the constructor, on fuel, with `added` as its list.
unfoldable pub add_loop : ℕ → List Equivalence → List Equivalence → Result (List Equivalence)
add_loop fuel equis [] = ok equis
add_loop zero equis (e ∷ es) = err Error.no_fuel
add_loop (suc fuel) equis (e ∷ es) = do
  b ← add_parents e (record { equis = equis; added = e ∷ es })
  add_loop fuel b.equis (pop_front b.added)

-- The constructor.
unfoldable pub equivalence_set : ℕ → ℕ → Result (List Equivalence)
equivalence_set fuel n = do
  let first = finest n
  b ← add_parents first (record { equis = first ∷ []; added = [] })
  equis ← add_loop fuel b.equis b.added
  ok (if ltb 1 n then equis ++ coarsest n ∷ [] else equis)

-- EquivalenceBundle: the sets for 1, 2, ..., with `fuel` for each; `generateUpTo` makes `count` more.
pub generate : ℕ → ℕ → List (List Equivalence) → Result (List (List Equivalence))
generate fuel zero bundle = ok bundle
generate fuel (suc count) bundle = do
  es ← equivalence_set fuel (length bundle + 1)
  generate fuel count (bundle ++ es ∷ [])

pub generate_up_to : ℕ → ℕ → List (List Equivalence) → Result (List (List Equivalence))
generate_up_to fuel nmax bundle = generate fuel (nmax - length bundle) bundle

pub get : ℕ → List (List Equivalence) → Result (List Equivalence)
get n bundle = if ltb (length bundle) n || ltb n 1 then err Error.not_found else at bundle (n - 1)
