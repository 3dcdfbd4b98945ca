-- ===== src/Tensor/Apart.antt =====
-- Places of two folded indices of tl/cc/tensor.cc, compared.
use dynare.Base.{
  ℕ, suc, ◌+◌, ◌-◌, ◌*◌, ◌≤◌, ◌<◌, ◌≡◌, refl, sym, ap, subst, List, [], ◌∷◌, arith, length,
  Bool-cases, inl, inr, ltb, ltb→lt,
}
use native.Mathlib.Nat.{mul-le-mul_right}
use dynare.Tensor.Multichoose.{multichoose, multichoose-suc, multichoose_mono}
use dynare.Tensor.Rank.{rank, IsIndex, tail-IsIndex, rank-lt}

wider : (b n m k : ℕ) → b ≤ m → multichoose (n - m) k ≤ multichoose (n - b) k
wider b n m k h =
    let d = n - b - (n - m) in
    let e : d + (n - m) ≡ n - b = omega arith in
    subst (λ j. multichoose (n - m) k ≤ multichoose j k) e (multichoose_mono d (n - m) k)

first_lt :
    (b n m m' : ℕ) (s s' : List ℕ)
    → IsIndex b n (m ∷ s)
    → IsIndex b n (m' ∷ s')
    → length s ≡ length s'
    → m < m'
    → rank b n (m ∷ s) < rank b n (m' ∷ s')
unfolding rank
first_lt b n m m' s s' p p' l h =
    let k = length s in
    let next : suc (n - suc m) ≡ n - m = omega (arith, p.below.0) in
    let split =
      subst (λ j. multichoose j (suc k) ≡ multichoose j k + multichoose (n - suc m) (suc k)) next
        (multichoose-suc (n - suc m) k) in
    rw (sym l) (
      omega (
        arith,
        split,
        wider (suc m) n m' (suc k) (omega arith),
        wider b n m (suc k) p.sorted.0,
        rank-lt m n s (tail-IsIndex b n m s p),
      ))

pub rank_injective :
    (b n : ℕ) (s s' : List ℕ)
    → IsIndex b n s
    → IsIndex b n s'
    → length s ≡ length s'
    → rank b n s ≡ rank b n s'
    → s ≡ s'
unfolding rank
rank_injective b n [] [] p p' l e = refl
rank_injective b n [] (m ∷ s) p p' l e = absurd (omega arith)
rank_injective b n (m ∷ s) [] p p' l e = absurd (omega arith)
rank_injective b n (m ∷ s) (m' ∷ s') p p' l e = elim (Bool-cases (ltb m m')) [
  | inl h ↦ absurd (
      let q = first_lt b n m m' s s' p p' (omega arith) (ltb→lt _ _ h) in
      unfold rank in omega (arith, q, e))
  | inr h ↦ elim (Bool-cases (ltb m' m)) [
    | inl h' ↦ absurd (
        let q = first_lt b n m' m s' s p' p (omega arith) (ltb→lt _ _ h') in
        unfold rank in omega (arith, q, e))
    | inr h' ↦
        let same : m ≡ m' = ground arith in
        let size : length s ≡ length s' = omega arith in
        let tail = tail-IsIndex b n m' s' p' in
        let rest =
          rank_injective m n s s' (tail-IsIndex b n m s p)
            (subst (λ j. IsIndex j n s') (sym same) tail) size (tails same size) in
        rw (same, rest) refl
  ]
]
  where
    tails : m ≡ m' → length s ≡ length s' → rank m n s ≡ rank m n s'
    tails k l' = let e' = rw (← k, ← l') at e in omega (arith, e')

-- A number below `pow` and a multiple of `pow` are determined by their sum.
pub digits_injective :
    (x x' r r' pow : ℕ) → x < pow → x' < pow → x + r * pow ≡ x' + r' * pow → (x ≡ x') × (r ≡ r')
digits_injective x x' r r' pow h h' e = elim (Bool-cases (ltb r r')) [
  | inl l ↦
      let more : suc r ≤ r' = ltb→lt _ _ l in absurd (omega (arith, mul-le-mul_right pow more))
  | inr l ↦ elim (Bool-cases (ltb r' r)) [
    | inl l' ↦
        let more : suc r' ≤ r = ltb→lt _ _ l' in absurd (omega (arith, mul-le-mul_right pow more))
    | inr l' ↦
        let same : r ≡ r' = ground arith in
        let t = ap (λ (j : ℕ). j * pow) same in (omega (arith, t), same)
  ]
]
