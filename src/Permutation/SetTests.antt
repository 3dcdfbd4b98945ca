-- ===== src/Permutation/SetTests.antt =====
-- Runs on small sets of permutations, and the theorems on sorting and on sets at them.
use dynare.Base.{ℕ, ◌+◌, ◌≡◌, ◌↔◌, refl, subst, List, [], ◌∷◌, ok, arith, length, ◌==◌}
use dynare.Sequence.{insert, insert_at}
use dynare.Equivalence.Counts.{one_if, count}
use dynare.Permutation.{apply, extend, identity, identity_from}
use dynare.Permutation.Inverse.{Places}
use dynare.Permutation.Sorting.{
  compute_sorting_map, sorting_from, find_place, Permutes, compute_sorting_map-applies,
}
use dynare.Permutation.Sets.{
  PermutationSet, one_element, extend_set, extend_all, extend_places, get_preserving,
}
use dynare.Permutation.Complete.{IsPermutation, In, IsComplete, extend_set-IsComplete}
use dynare.Permutation.Bundle.{one_element-IsComplete}
use dynare.Permutation.Preserving.{get_preserving-keeps}

-- Insertion sort.
abbrev sorted : List ℕ → List ℕ
sorted [] = []
sorted (x ∷ s) = insert x (sorted s)

insert-count : (x i : ℕ) (s : List ℕ) → count x (insert i s) ≡ one_if (i == x) + count x s
unfolding insert
insert-count x i [] = refl
insert-count x i (y ∷ s) = ground (arith, insert-count x i s)

insert-length : (i : ℕ) (s : List ℕ) → length (insert i s) ≡ length s + 1
unfolding insert
insert-length i [] = refl
insert-length i (y ∷ s) = ground (arith, insert-length i s)

sorted-count : (s : List ℕ) (x : ℕ) → count x (sorted s) ≡ count x s
sorted-count [] x = refl
sorted-count (y ∷ s) x = omega (arith, insert-count x y (sorted s), sorted-count s x)

sorted-length : (s : List ℕ) → length (sorted s) ≡ length s
sorted-length [] = refl
sorted-length (y ∷ s) = omega (arith, insert-length y (sorted s), sorted-length s)

sorted-Permutes : Permutes sorted
sorted-Permutes = record { same_items = sorted-count; same_length = sorted-length }

sorting_run : compute_sorting_map sorted (3 ∷ 1 ∷ 3 ∷ 2 ∷ []) ≡ ok (2 ∷ 0 ∷ 3 ∷ 1 ∷ [])
unfolding compute_sorting_map sorting_from find_place insert
sorting_run = refl

compute_sorting_map-applies_example :
    (permap : List ℕ) × (compute_sorting_map sorted (3 ∷ 1 ∷ 3 ∷ 2 ∷ []) ≡ ok permap)
    × (length permap ≡ 4)
    × Places 4 permap
    × (apply permap (sorted (3 ∷ 1 ∷ 3 ∷ 2 ∷ [])) (3 ∷ 1 ∷ 3 ∷ 2 ∷ []) ≡ ok (3 ∷ 1 ∷ 3 ∷ 2 ∷ []))
compute_sorting_map-applies_example =
    compute_sorting_map-applies sorted sorted-Permutes (3 ∷ 1 ∷ 3 ∷ 2 ∷ [])

abbrev pairs : PermutationSet
pairs = record { order = 2; size = 2; pers = (1 ∷ 0 ∷ []) ∷ (0 ∷ 1 ∷ []) ∷ [] }

pairs_run : extend_set one_element 2 ≡ ok pairs
unfolding extend_set extend_all extend_places one_element insert_at extend identity identity_from
pairs_run = refl

pairs-IsComplete : IsComplete 2 pairs
pairs-IsComplete =
    let (ps, made, full) = extend_set-IsComplete 1 one_element one_element-IsComplete in
    let run : extend_set one_element (1 + 1) ≡ ok pairs = pairs_run in
    let same : ps ≡ pairs = cc in subst (IsComplete 2) same full

get_preserving-keeps_example :
    (kept : List (List ℕ)) × (get_preserving (7 ∷ 7 ∷ []) pairs ≡ ok kept)
    × ((p : List ℕ)
        → In p kept ↔ (IsPermutation 2 p × (apply p (7 ∷ 7 ∷ []) (7 ∷ 7 ∷ []) ≡ ok (7 ∷ 7 ∷ []))))
get_preserving-keeps_example = get_preserving-keeps 2 pairs pairs-IsComplete (7 ∷ 7 ∷ []) refl
