-- ===== src/Tensor/Rank.antt =====
-- The place of a folded index among the increasing sequences, and the number of these.
use dynare.Base.{ℕ, zero, suc, ◌+◌, ◌-◌, ◌≤◌, ◌<◌, ◌≡◌, refl, subst, List, [], ◌∷◌, arith, length}
use dynare.Pascal.Binomial.{binom}
use dynare.Pascal.Noverk.{IsInside, smaller_k_le}
use dynare.Sequence.Order.{IsSortedFrom}
use dynare.Tensor.Multichoose.{multichoose, multichoose-suc, multichoose_mono}

-- The coordinates are below the number of variables.
abbrev pub AllBelow : ℕ → List ℕ → Type 0
AllBelow n [] = Unit
AllBelow n (x ∷ s) = (x < n) × AllBelow n s

-- How many increasing sequences with items from `b` up to `n - 1` stand before `s` in the order of the
-- folded storage: those with a smaller first item, and those with the same and a smaller rest.
unfoldable pub rank : ℕ → ℕ → List ℕ → ℕ
rank b n [] = 0
rank b n (m ∷ s) =
    multichoose (n - b) (suc (length s)) - multichoose (n - m) (suc (length s)) + rank m n s

-- An index whose items increase from `b` on and stay below `n`.
pub record IsIndex (b n : ℕ) (s : List ℕ) : Type 0 where
  pub sorted : IsSortedFrom b s
  pub below : AllBelow n s

pub tail-IsIndex : (b n x : ℕ) (s : List ℕ) → IsIndex b n (x ∷ s) → IsIndex x n s
tail-IsIndex b n x s p = record { sorted = p.sorted.1; below = p.below.1 }

multichoose_length : (n k : ℕ) → 1 ≤ n → multichoose n k ≤ multichoose n (suc k)
multichoose_length zero k h = absurd (omega arith)
multichoose_length (suc n) k h = omega (arith, multichoose-suc n k)

pub multichoose_nothing : (n : ℕ) → multichoose n 0 ≡ 1
unfolding multichoose
multichoose_nothing n = refl

-- Every index of increasing coordinates stands before the end.
pub rank-lt : (b n : ℕ) (s : List ℕ) → IsIndex b n s → rank b n s < multichoose (n - b) (length s)
unfolding rank
rank-lt b n [] p = omega (arith, multichoose_nothing (n - b))
rank-lt b n (m ∷ s) p =
    let k = length s in
    let size : m - b + (n - m) ≡ n - b = omega (arith, p.below.0, p.sorted.0) in
    let wider : multichoose (n - m) (suc k) ≤ multichoose (n - b) (suc k) =
      subst (λ j. multichoose (n - m) (suc k) ≤ multichoose j (suc k)) size
        (multichoose_mono (m - b) (n - m) (suc k)) in
    omega (
      arith,
      wider,
      rank-lt m n s (tail-IsIndex b n m s p),
      multichoose_length (n - m) k (omega (arith, p.below.0)),
    )

pub multichoose-binom : (n k : ℕ) → binom (n + suc k - 1) (suc k) ≡ multichoose n (suc k)
unfolding multichoose
multichoose-binom n k = let e : n + suc k - 1 ≡ n + k = omega arith in rw e

-- The triangle has room for the number of indices of `k` coordinates below `nv`.
pub choices-IsInside :
    (K S nv k : ℕ) → 0 < nv → nv + k ≤ S + 3 → k ≤ K + 1 → IsInside K S (nv + k - 1) k
choices-IsInside K S nv k p a h =
    (omega arith, omega arith, omega (arith, smaller_k_le (nv + k - 1) k))
