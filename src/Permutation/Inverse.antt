-- ===== src/Permutation/Inverse.antt =====
-- The inverse of a permutation undoes it.
use dynare.Base.{
  ℕ, ◌+◌, ◌<◌, ◌≡◌, ◌≢◌, refl, ◌∙◌, List, [], ◌∷◌, some, ok, length, ◌==◌, ==_iff, true, at-of, set,
  get_elem?, length-set, get_elem?-set_self, get_elem?-set_ne,
}
use dynare.Permutation.{identity_from, identity, apply_items, apply, inverse_from, inverse}

abbrev pub NotIn : ℕ → List ℕ → Type 0
NotIn x [] = Unit
NotIn x (y ∷ s) = (y ≢ x) × NotIn x s

-- Places below `n`, each once.
abbrev pub Places : ℕ → List ℕ → Type 0
Places n [] = Unit
Places n (x ∷ s) = (x < n) × NotIn x s × Places n s

inverse_from-untouched :
    (i x : ℕ) (s permap : List ℕ)
    → NotIn x s
    → get_elem? (inverse_from i s permap) x ≡ get_elem? permap x
unfolding inverse_from
inverse_from-untouched i x [] permap h = refl
inverse_from-untouched i x (y ∷ s) permap h =
    inverse_from-untouched (i + 1) x s (set permap y i) h.1 ∙ get_elem?-set_ne permap i h.0

length-inverse_from : (i : ℕ) (s permap : List ℕ) → length (inverse_from i s permap) ≡ length permap
unfolding inverse_from
length-inverse_from i [] permap = refl
length-inverse_from i (x ∷ s) permap =
    length-inverse_from (i + 1) s (set permap x i) ∙ length-set permap x i

apply_items-inverse_from :
    (i : ℕ) (s permap : List ℕ)
    → Places (length permap) s
    → apply_items s (inverse_from i s permap) ≡ ok (identity_from i (length s))
unfolding apply_items inverse_from identity_from
apply_items-inverse_from i [] permap h = refl
apply_items-inverse_from i (x ∷ s) permap h =
    let all = inverse_from (i + 1) s (set permap x i) in
    let first : get_elem? all x ≡ some i =
      inverse_from-untouched (i + 1) x s (set permap x i) h.1 ∙ get_elem?-set_self permap x i h.0 in
    let rest : apply_items s all ≡ ok (identity_from (i + 1) (length s)) =
      apply_items-inverse_from (i + 1) s (set permap x i) (rw (length-set permap x i) h.2) in
    rw (at-of all x i first, rest) refl

-- For a permutation, which has every place once, the inverse applied behind it is the identity.
pub apply-inverse :
    (p : List ℕ) → Places (length p) p → apply p (inverse p) p ≡ ok (identity (length p))
unfolding apply inverse identity
apply-inverse p h =
    let size : (length (inverse_from 0 p p) == length p) ≡ true =
      (==_iff _ _).1 (length-inverse_from 0 p p) in
    let same : (length p == length p) ≡ true = (==_iff _ _).1 refl in
    rw (size, same) (apply_items-inverse_from 0 p p h)
