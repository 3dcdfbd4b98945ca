-- ===== src/Permutation/Sets.antt =====
-- The constructors from equivalences, PermutationSet and PermutationBundle of tl/cc/permutation.cc and
-- permutation.hh.
use dynare.Base.{
  ℕ, zero, suc, ◌+◌, ◌-◌, ◌*◌, max, List, [], ◌∷◌, ◌++◌, Result, ok, err, Error, ◌>>=◌, length, ltb,
  ◌==◌, ◌||◌, if◌then◌else◌, at, replicate,
}
use dynare.Sequence.{equal}
use dynare.Equivalence.{Equivalence, trace, trace_permuted}
use dynare.Permutation.{identity, extend, apply}

-- The new sequence, before `trace` writes it, is taken to hold zeros.
unfoldable pub of_equivalence : Equivalence → Result (List ℕ)
of_equivalence e = trace (replicate e.n 0) (length e.classes) e

unfoldable pub of_equivalence_permuted : Equivalence → List ℕ → Result (List ℕ)
of_equivalence_permuted e per = trace_permuted (replicate e.n 0) per e

pub record PermutationSet : Type 0 where
  pub order : ℕ
  pub size : ℕ
  pub pers : List (List ℕ)

-- The constructor without arguments.
unfoldable pub one_element : PermutationSet
one_element = record { order = 1; size = 1; pers = identity 1 ∷ [] }

-- The inner loop: `count` rounds from the place `j` on.
unfoldable pub extend_places : ℕ → ℕ → List ℕ → Result (List (List ℕ))
extend_places zero j p = ok []
extend_places (suc count) j p = do
  q ← extend p j
  rest ← extend_places count (j + 1) p
  ok (q ∷ rest)

-- The outer loop: `count` rounds, through the permutations from their start.
unfoldable pub extend_all : ℕ → ℕ → List (List ℕ) → Result (List (List ℕ))
extend_all zero order pers = ok []
extend_all (suc count) order [] = err Error.out_of_range
extend_all (suc count) order (p ∷ pers) = do
  qs ← extend_places order 0 p
  rest ← extend_all count order pers
  ok (qs ++ rest)

-- The constructor from a set and the new order.
unfoldable pub extend_set : PermutationSet → ℕ → Result PermutationSet
extend_set sp n =
    if n == sp.order + 1
    then (do
      pers ← extend_all sp.size n sp.pers
      ok (record { order = n; size = n * sp.size; pers = pers }))
    else err Error.wrong_order

-- The loop of `getPreserving`; the array `tmp` is overwritten in each round.
unfoldable pub preserving_from : ℕ → List (List ℕ) → List ℕ → List ℕ → Result (List (List ℕ))
preserving_from zero pers s tmp = ok []
preserving_from (suc count) [] s tmp = err Error.out_of_range
preserving_from (suc count) (p ∷ pers) s tmp = do
  tmp' ← apply p s tmp
  rest ← preserving_from count pers s tmp'
  ok (if equal s tmp' then p ∷ rest else rest)

unfoldable pub get_preserving : List ℕ → PermutationSet → Result (List (List ℕ))
get_preserving s ps =
    if length s == ps.order
    then preserving_from ps.size ps.pers s (replicate (length s) 0)
    else err Error.wrong_length

-- The loop of `generateUpTo`: `count` rounds from the order `n` on.
unfoldable pub generate_sets : ℕ → ℕ → List PermutationSet → Result (List PermutationSet)
generate_sets zero n bundle = ok bundle
generate_sets (suc count) n bundle = do
  back ← at bundle (length bundle - 1)
  ps ← extend_set back n
  generate_sets count (n + 1) (bundle ++ ps ∷ [])

unfoldable pub generate_up_to : ℕ → List PermutationSet → Result (List PermutationSet)
generate_up_to nmax bundle =
    let bundle' = if length bundle == 0 then one_element ∷ [] else bundle in
    generate_sets (nmax - length bundle') (length bundle' + 1) bundle'

-- The constructor of the bundle, and `get`.
unfoldable pub permutation_bundle : ℕ → Result (List PermutationSet)
permutation_bundle nmax = generate_up_to (max nmax 1) []

unfoldable pub get : ℕ → List PermutationSet → Result PermutationSet
get n bundle = if ltb (length bundle) n || ltb n 1 then err Error.not_found else at bundle (n - 1)
