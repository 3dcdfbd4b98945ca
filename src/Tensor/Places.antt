-- ===== src/Tensor/Places.antt =====
-- Indices of tensors with a general symmetry, tl/cc/gs_tensor.cc, as blocks of coordinates, and their
-- places.
use native.Mathlib.Nat.{mul-le-mul_right}
use dynare.Base.{
  ℕ, ◌+◌, ◌-◌, ◌*◌, ◌<◌, ◌≤◌, ◌≡◌, refl, sym, ap, subst, List, [], ◌∷◌, ◌++◌, arith, length, drop,
  get_or, replicate,
}
use dynare.Tensor.Multichoose.{multichoose}
use dynare.Tensor.Rank.{rank, IsIndex, rank-lt}
use dynare.Tensor.Apart.{rank_injective, digits_injective}
use dynare.Tensor.Dimens.{TensorDimens}

-- A block of increasing coordinates for each class of the symmetry, below the size of the class. A
-- triangle with K + 1 rows of S + 1 items has room for the number of such blocks.
pub data AreBlocks (K S : ℕ) : List ℕ → List (List ℕ) → Type 0 where
  none_left : AreBlocks K S [] []
  block :
      {n : ℕ} {nvs c : List ℕ} {cs : List (List ℕ)}
      → IsIndex 0 n c
      → n + length c ≤ S + 3
      → length c ≤ K + 1
      → AreBlocks K S nvs cs
      → AreBlocks K S (n ∷ nvs) (c ∷ cs)

abbrev pub lengths : List (List ℕ) → List ℕ
lengths [] = []
lengths (c ∷ cs) = length c ∷ lengths cs

abbrev pub joined : List (List ℕ) → List ℕ
joined [] = []
joined (c ∷ cs) = c ++ joined cs

-- Each class has one size for all its coordinates.
abbrev pub spread : List ℕ → List ℕ → List ℕ
spread [] syms = []
spread (n ∷ nvs) [] = []
spread (n ∷ nvs) (d ∷ syms) = replicate d n ++ spread nvs syms

abbrev pub classes : List ℕ → List ℕ → TensorDimens
classes nvs syms = record { nvs = nvs; sym = syms; nvmax = spread nvs syms }

-- The number of indices: a product over the classes.
abbrev pub sizes : List ℕ → List ℕ → ℕ
sizes [] syms = 1
sizes (n ∷ nvs) [] = 1
sizes (n ∷ nvs) (d ∷ syms) = multichoose n d * sizes nvs syms

unfoldable pub place : List ℕ → List (List ℕ) → ℕ
place [] cs = 0
place (n ∷ nvs) [] = 0
place (n ∷ nvs) (c ∷ cs) = place nvs cs + rank 0 n c * sizes nvs (lengths cs)

pub rank_below : (n : ℕ) (c : List ℕ) → IsIndex 0 n c → rank 0 n c < multichoose n (length c)
rank_below n c i =
    let whole : n - 0 ≡ n = omega arith in
    subst (λ m. rank 0 n c < multichoose m (length c)) whole (rank-lt 0 n c i)

pub combined_lt : (x r pow m : ℕ) → x < pow → r < m → x + r * pow < m * pow
combined_lt x r pow m h k = omega (arith, mul-le-mul_right pow k)

pub place-lt :
    {K S : ℕ} {nvs : List ℕ} {cs : List (List ℕ)}
    → AreBlocks K S nvs cs
    → place nvs cs < sizes nvs (lengths cs)
unfolding place
place-lt none_left = omega arith
place-lt (block {n} {nvs} {c} {cs} i a b d) =
    combined_lt (place nvs cs) (rank 0 n c) (sizes nvs (lengths cs)) (multichoose n (length c))
      (place-lt d) (rank_below n c i)

pub place_injective :
    {K S : ℕ} {nvs : List ℕ} {cs cs' : List (List ℕ)}
    → AreBlocks K S nvs cs
    → AreBlocks K S nvs cs'
    → lengths cs ≡ lengths cs'
    → place nvs cs ≡ place nvs cs'
    → cs ≡ cs'
unfolding place
place_injective none_left none_left l e = refl
place_injective (block {n} {nvs} {c} {cs} i a b d) (block {c = c'} {cs = cs'} i' a' b' d') l e =
    let tails : lengths cs ≡ lengths cs' = ap (drop 1) l in
    let heads : length c ≡ length c' = ap (λ t. get_or t 0 0) l in
    let (rest, first) =
      digits_injective (place nvs cs) (place nvs cs') (rank 0 n c) (rank 0 n c')
        (sizes nvs (lengths cs)) (place-lt d)
        (subst (λ t. place nvs cs' < sizes nvs t) (sym tails) (place-lt d')) (rw (← tails) at e) in
    cc (rank_injective 0 n c c' i i' heads first, place_injective d d' tails rest)
