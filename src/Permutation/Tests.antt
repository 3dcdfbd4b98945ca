-- ===== src/Permutation/Tests.antt =====
-- Runs on small permutations, and the theorem at one.
use dynare.Base.{◌≡◌, refl, [], ◌∷◌, ok, arith}
use dynare.Permutation.{inverse, inverse_from, apply, identity, tail_identity, tail_start}
use dynare.Permutation.Inverse.{Places, apply-inverse}

inverse_run : inverse (2 ∷ 0 ∷ 1 ∷ 3 ∷ []) ≡ 1 ∷ 2 ∷ 0 ∷ 3 ∷ []
unfolding inverse inverse_from
inverse_run = refl

tail_identity_run : tail_identity (1 ∷ 0 ∷ 2 ∷ 3 ∷ []) ≡ 2
unfolding tail_identity tail_start
tail_identity_run = refl

three-Places : Places 3 (2 ∷ 0 ∷ 1 ∷ [])
three-Places = omega arith

apply-inverse_example :
    apply (2 ∷ 0 ∷ 1 ∷ []) (inverse (2 ∷ 0 ∷ 1 ∷ [])) (2 ∷ 0 ∷ 1 ∷ []) ≡ ok (identity 3)
apply-inverse_example = apply-inverse (2 ∷ 0 ∷ 1 ∷ []) three-Places
