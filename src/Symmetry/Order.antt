-- ===== src/Symmetry/Order.antt =====
-- Symmetries of a dimension in lexicographic order, and the one that iteration begins with.
use dynare.Base.{
  ℕ, zero, suc, ◌-◌, ◌≤◌, ◌<◌, ◌≡◌, ◌⊎◌, inl, inr, refl, ap, List, [], ◌∷◌, ◌++◌, arith, length,
  replicate,
}
use dynare.Sequence.{sum}
use dynare.Symmetry.{begin}

-- The lexicographic order of sequences of one length.
abbrev pub Before : List ℕ → List ℕ → Type 0
Before [] t = ⊥
Before (x ∷ s) [] = ⊥
Before (x ∷ s) (y ∷ t) = (x < y) ⊎ ((x ≡ y) × Before s t)

-- A symmetry of dimension `dim` with `n` classes.
pub record IsSymmetry (dim n : ℕ) (r : List ℕ) : Type 0 where
  pub size : length r ≡ n
  pub dimension : sum r ≡ dim

-- `r'` is the first symmetry behind `r`.
pub record IsSuccessor (dim n : ℕ) (r r' : List ℕ) : Type 0 where
  pub symmetry : IsSymmetry dim n r'
  pub behind : Before r r'
  pub closest : (t : List ℕ) → IsSymmetry dim n t → Before r t → (r' ≡ t) ⊎ Before r' t

sum-zeros : (n d : ℕ) → sum (replicate n 0 ++ d ∷ []) ≡ d
unfolding sum
sum-zeros zero d = omega arith
sum-zeros (suc n) d = omega (arith, sum-zeros n d)

pub length-begin : (n d : ℕ) → length (begin d n) ≡ suc n
unfolding begin
length-begin zero d = refl
length-begin (suc n) d = ap suc (length-begin n d)

pub tail-IsSymmetry :
    (dim n x : ℕ) (s : List ℕ)
    → IsSymmetry dim (suc n) (x ∷ s)
    → (x ≤ dim) × IsSymmetry (dim - x) n s
unfolding sum
tail-IsSymmetry dim n x s w = (
  omega (arith, w.dimension),
  record { size = omega (arith, w.size); dimension = omega (arith, w.dimension) },
)

pub begin-IsSymmetry : (dim n : ℕ) → IsSymmetry dim (suc n) (begin dim n)
unfolding begin
begin-IsSymmetry dim n = record { size = length-begin n dim; dimension = sum-zeros n dim }

pub begin-least :
    (dim n : ℕ) (t : List ℕ) → IsSymmetry dim (suc n) t → (begin dim n ≡ t) ⊎ Before (begin dim n) t
unfolding begin sum
begin-least dim n [] w = absurd (cc w.size)
begin-least dim zero (x ∷ []) w = inl (ap (λ x. x ∷ []) (omega (arith, w.dimension)))
begin-least dim zero (x ∷ y ∷ s) w = absurd (omega (arith, w.size))
begin-least dim (suc n) (zero ∷ t) w = go (
    begin-least dim n t
      record { size = omega (arith, w.size); dimension = omega (arith, w.dimension) })
  where
    go :
        (begin dim n ≡ t) ⊎ Before (begin dim n) t
        → (begin dim (suc n) ≡ 0 ∷ t) ⊎ Before (begin dim (suc n)) (0 ∷ t)
    go (inl e) = inl (ap (◌∷◌ 0) e)
    go (inr b) = inr (inr (refl, b))
begin-least dim (suc n) (suc x ∷ t) w = inr (inl (omega arith))

-- `SymmetrySet::begin` is a symmetry of the dimension, and no other comes before it.
begin_lem :
    (dim n : ℕ)
    → IsSymmetry dim (suc n) (begin dim n)
      × ((t : List ℕ) → IsSymmetry dim (suc n) t → (begin dim n ≡ t) ⊎ Before (begin dim n) t)
begin_lem dim n = (begin-IsSymmetry dim n, begin-least dim n)
