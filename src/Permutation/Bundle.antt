-- ===== src/Permutation/Bundle.antt =====
-- The bundle of permutation sets.
use dynare.Base.{ℕ, ◌+◌, ◌≡◌, refl, ap, List, [], ◌∷◌, some, ok, arith, length, inl, get_elem?}
use dynare.Pascal.Factorial.{fact}
use dynare.Permutation.{identity, identity_from}
use dynare.Permutation.Sets.{PermutationSet, one_element, generate_sets}
use dynare.Permutation.Complete.{IsPermutation, In, IsComplete}

single_complete : (p : List ℕ) → IsPermutation 1 p → In p (identity 1 ∷ [])
unfolding identity identity_from
single_complete [] h = absurd (omega (arith, h.0))
single_complete (x ∷ []) h = inl (ap (λ (m : ℕ). m ∷ []) (ground (arith, h.1 0)))
single_complete (x ∷ y ∷ p) h = absurd (omega (arith, h.0))

pub one_element-IsComplete : IsComplete 1 one_element
unfolding one_element fact identity identity_from
one_element-IsComplete = record {
  same_order = refl;
  same_size = refl;
  as_many = refl;
  sound = ((refl, λ x. ground arith), tt);
  complete = single_complete;
}

-- The sets of order 1, 2, ...
abbrev pub IsBundle : List PermutationSet → Type 0
IsBundle bundle =
    (i : ℕ) (ps : PermutationSet) → get_elem? bundle i ≡ some ps → IsComplete (i + 1) ps

record Generated (rounds : ℕ) (n : ℕ) (bundle : List PermutationSet) : Type 0 where
  all : List PermutationSet
  returns : generate_sets rounds n bundle ≡ ok all
  size : length all ≡ length bundle + rounds
  valid : IsBundle all
