-- ===== src/Symmetry/Next.antt =====
-- The order in which `symiterator` visits the symmetries of a dimension.
use dynare.Base.{
  ℕ, zero, suc, ◌+◌, ◌-◌, ◌<◌, ◌≡◌, ◌⊎◌, inl, inr, refl, ap, ◌∙◌, subst, List, [], ◌∷◌, true, false,
  ok, arith, length, ltb, ◌==◌, ==_iff, replicate, Bool-cases,
}
use dynare.Sequence.{sum}
use dynare.Symmetry.{set_last, advance, next, begin, past_end}
use dynare.Symmetry.Order.{
  Before, IsSymmetry, IsSuccessor, length-begin, tail-IsSymmetry, begin-IsSymmetry, begin-least,
}

set_last-zeros : (n d : ℕ) → set_last d (replicate (suc n) 0) ≡ begin d n
unfolding set_last begin
set_last-zeros zero d = refl
set_last-zeros (suc n) d = ap (◌∷◌ 0) (set_last-zeros n d)

sum_zero : (s : List ℕ) → sum s ≡ 0 → s ≡ replicate (length s) 0
unfolding sum
sum_zero [] e = refl
sum_zero (x ∷ s) e = let h : x ≡ 0 = omega arith in rw h (ap (◌∷◌ 0) (sum_zero s (omega arith)))

-- One round of the loop: the last symmetry leads to the end, and any other to its successor.
abbrev Advances : ℕ → ℕ → List ℕ → Type 0
Advances dim n r =
    ((r ≡ dim ∷ replicate n 0) × (next dim r ≡ ok (past_end dim n)))
    ⊎ ((r' : List ℕ) × (next dim r ≡ ok r') × IsSuccessor dim (suc n) r r')

at_end :
    (dim n x : ℕ) (s : List ℕ) → IsSymmetry dim (suc n) (x ∷ s) → x ≡ dim → Advances dim n (x ∷ s)
unfolding next past_end
at_end dim n x s w e =
    let (h, w') = tail-IsSymmetry dim n x s w in
    let size : length s ≡ n = w'.size in
    let zeros : s ≡ replicate n 0 =
      subst (λ m. s ≡ replicate m 0) size (sum_zero s (omega (arith, w'.dimension))) in
    let test : (x == dim) ≡ true = (==_iff x dim).1 e in
    inl (rw (e, zeros) refl, rw (test, e, zeros) refl)

not_end : (x dim : ℕ) → x < dim → (x == dim) ≡ false
not_end x dim h = ground arith

not_behind : (x dim : ℕ) → x < dim → ltb dim x ≡ false
not_behind x dim h = ground arith

last_two-next :
    (dim x y : ℕ) → x < dim → 0 < y → next dim (x ∷ y ∷ []) ≡ ok ((x + 1) ∷ (y - 1) ∷ [])
unfolding next
last_two-next dim x y h k =
    let positive : (y == 0) ≡ false = ground arith in
    rw (not_end x dim h, not_behind x dim h, positive) refl

last_two-closest :
    (dim x y : ℕ)
    → IsSymmetry dim 2 (x ∷ y ∷ [])
    → x < dim
    → (t : List ℕ) → IsSymmetry dim 2 t
    → Before (x ∷ y ∷ []) t
    → ((x + 1) ∷ (y - 1) ∷ [] ≡ t) ⊎ Before ((x + 1) ∷ (y - 1) ∷ []) t
unfolding sum
last_two-closest dim x y w h [] v b = absurd (omega (arith, v.size))
last_two-closest dim x y w h (a ∷ []) v b = absurd (omega (arith, v.size))
last_two-closest dim x y w h (a ∷ b ∷ c ∷ t) v q = absurd (omega (arith, v.size))
last_two-closest dim x y w h (a ∷ b ∷ []) v (inl q) = elim (Bool-cases (x + 1 == a)) [
  | inl e ↦
      let f : x + 1 ≡ a = (==_iff (x + 1) a).0 e in
      let g : y - 1 ≡ b = omega (arith, w.dimension, v.dimension) in inl (rw (f, g) refl)
  | inr e ↦ inr (inl (ground arith))
]
last_two-closest dim x y w h (a ∷ b ∷ []) v (inr q) =
    absurd (omega (arith, w.dimension, v.dimension, q.1))

last_two : (dim x y : ℕ) → IsSymmetry dim 2 (x ∷ y ∷ []) → x < dim → Advances dim 1 (x ∷ y ∷ [])
unfolding sum
last_two dim x y w h = inr (
  (x + 1) ∷ (y - 1) ∷ [],
  last_two-next dim x y h (omega (arith, w.dimension)),
  record {
    symmetry = record { size = refl; dimension = omega (arith, w.dimension) };
    behind = inl (omega arith);
    closest = last_two-closest dim x y w h;
  },
)

zeros_last :
    (d n : ℕ) (t : List ℕ) → sum t ≡ d → length t ≡ suc n → Before (d ∷ replicate n 0) t → ⊥
unfolding sum
zeros_last d n [] e f b = b
zeros_last d n (y ∷ t) e f (inl q) = omega arith
zeros_last d n (y ∷ t) e f (inr (q, b)) = go n t (omega arith) (omega arith) b
  where
    go : (n : ℕ) (t : List ℕ) → sum t ≡ 0 → length t ≡ n → Before (replicate n 0) t → ⊥
    go zero t e f b = b
    go (suc n) [] e f b = b
    go (suc n) (zero ∷ t) e f (inl b) = omega arith
    go (suc n) (zero ∷ t) e f (inr b) = go n t (omega arith) (omega arith) b.1
    go (suc n) (suc y ∷ t) e f b = omega arith

next_head-closest :
    (dim n x : ℕ) (s : List ℕ)
    → x < dim
    → s ≡ (dim - x) ∷ replicate (suc n) 0
    → (t : List ℕ) → IsSymmetry dim (suc (suc (suc n))) t
    → Before (x ∷ s) t
    → ((x + 1) ∷ 0 ∷ begin (dim - (x + 1)) n ≡ t) ⊎ Before ((x + 1) ∷ 0 ∷ begin (dim - (x + 1)) n) t
unfolding sum begin
next_head-closest dim n x s h e [] v b = absurd b
next_head-closest dim n x s h e (a ∷ t) v (inr (q, b)) = absurd (
    zeros_last (dim - x) (suc n) t (omega (arith, v.dimension)) (omega (arith, v.size))
      (rw (← e) b))
next_head-closest dim n x s h e (a ∷ t) v (inl q) = go (Bool-cases (x + 1 == a))
  where
    go :
        ((x + 1 == a) ≡ true) ⊎ ((x + 1 == a) ≡ false)
        → ((x + 1) ∷ 0 ∷ begin (dim - (x + 1)) n ≡ a ∷ t)
          ⊎ Before ((x + 1) ∷ 0 ∷ begin (dim - (x + 1)) n) (a ∷ t)
    go (inr f) = inr (inl (ground arith))
    go (inl f) =
        let g : x + 1 ≡ a = (==_iff (x + 1) a).0 f in
        rest g (
          begin-least (dim - (x + 1)) (suc n) t
            (record { size = omega (arith, v.size); dimension = omega (arith, v.dimension) }))
      where
        rest :
            x + 1 ≡ a
            → (begin (dim - (x + 1)) (suc n) ≡ t) ⊎ Before (begin (dim - (x + 1)) (suc n)) t
            → ((x + 1) ∷ 0 ∷ begin (dim - (x + 1)) n ≡ a ∷ t)
              ⊎ Before ((x + 1) ∷ 0 ∷ begin (dim - (x + 1)) n) (a ∷ t)
        rest g (inl e) = inl (rw (← e, g) refl)
        rest g (inr b) = inr (inr (g, b))

next_head :
    (dim n x : ℕ) (s : List ℕ)
    → x < dim
    → IsSymmetry dim (suc (suc (suc n))) (x ∷ s)
    → s ≡ (dim - x) ∷ replicate (suc n) 0
    → IsSuccessor dim (suc (suc (suc n))) (x ∷ s) ((x + 1) ∷ 0 ∷ begin (dim - (x + 1)) n)
unfolding sum
next_head dim n x s h w e = record {
  symmetry = record {
    size = ap (λ n. suc (suc n)) (length-begin n (dim - (x + 1)));
    dimension = omega (arith, (begin-IsSymmetry (dim - (x + 1)) n).dimension);
  };
  behind = inl (omega arith);
  closest = next_head-closest dim n x s h e;
}

same_head :
    (dim n x : ℕ) (s s' : List ℕ)
    → x < dim
    → IsSymmetry dim (suc n) (x ∷ s)
    → IsSuccessor (dim - x) n s s'
    → IsSuccessor dim (suc n) (x ∷ s) (x ∷ s')
unfolding sum
same_head dim n x s s' h w k = record {
  symmetry = record {
    size = ap suc k.symmetry.size;
    dimension = omega (arith, k.symmetry.dimension);
  };
  behind = inr (refl, k.behind);
  closest = closest;
}
  where
    closest :
        (t : List ℕ)
        → IsSymmetry dim (suc n) t
        → Before (x ∷ s) t
        → (x ∷ s' ≡ t) ⊎ Before (x ∷ s') t
    closest [] v b = absurd b
    closest (a ∷ t) v (inl q) = inr (inl q)
    closest (a ∷ t) v (inr (q, b)) = go (
        k.closest t
          (record { size = omega (arith, v.size); dimension = omega (arith, v.dimension) }) b)
      where
        go : (s' ≡ t) ⊎ Before s' t → (x ∷ s' ≡ a ∷ t) ⊎ Before (x ∷ s') (a ∷ t)
        go (inl e) = inl (rw (q, e) refl)
        go (inr c) = inr (inr (q, c))

advance_end :
    (dim n x : ℕ)
    → advance dim x (past_end (dim - x) (suc n)) ≡ ok ((x + 1) ∷ 0 ∷ begin (dim - (x + 1)) n)
unfolding advance past_end
advance_end dim n x =
    let test : (dim - x + 1 == dim - x + 1) ≡ true = (==_iff _ _).1 refl in
    rw (test, set_last-zeros n (dim - (x + 1))) refl

advance_inside :
    (dim n x : ℕ) (s' : List ℕ) → IsSymmetry (dim - x) (suc n) s' → advance dim x s' ≡ ok (x ∷ s')
unfolding advance sum
advance_inside dim n x [] w = absurd (omega (arith, w.size))
advance_inside dim n x (y ∷ t) w =
    let test : (y == dim - x + 1) ≡ false = ground (arith, w.dimension) in rw test refl

longer :
    (dim x y z : ℕ) (s s' : List ℕ)
    → x < dim
    → next (dim - x) (y ∷ z ∷ s) ≡ ok s'
    → next dim (x ∷ y ∷ z ∷ s) ≡ advance dim x s'
unfolding next
longer dim x y z s s' h e = rw (next, not_end x dim h, not_behind x dim h, e) refl

module _ (dim n x y z : ℕ) (s : List ℕ) (h : x < dim)
    (w : IsSymmetry dim (suc (suc (suc n))) (x ∷ y ∷ z ∷ s)) where
  longer-Advances :
      Advances (dim - x) (suc n) (y ∷ z ∷ s) → Advances dim (suc (suc n)) (x ∷ y ∷ z ∷ s)
  longer-Advances (inl (e, f)) = inr (
    (x + 1) ∷ 0 ∷ begin (dim - (x + 1)) n,
    longer dim x y z s (past_end (dim - x) (suc n)) h f ∙ advance_end dim n x,
    next_head dim n x (y ∷ z ∷ s) h w e,
  )
  longer-Advances (inr (s', e, k)) = inr (
    x ∷ s',
    longer dim x y z s s' h e ∙ advance_inside dim (suc n) x s' k.symmetry,
    same_head dim (suc (suc n)) x (y ∷ z ∷ s) s' h w k,
  )

next-Advances : (dim n : ℕ) (r : List ℕ) → IsSymmetry dim (suc n) r → Advances dim n r
unfolding sum
next-Advances dim n [] w = absurd (omega (arith, w.size))
next-Advances dim n (x ∷ s) w = elim (Bool-cases (x == dim)) [
  | inl e ↦ at_end dim n x s w ((==_iff x dim).0 e)
  | inr e ↦
      inside dim n x s w (ground (arith, w.dimension)) (λ m w'. next-Advances (dim - x) m s w')
]
  where
    inside :
        (dim n x : ℕ) (s : List ℕ)
        → IsSymmetry dim (suc n) (x ∷ s)
        → x < dim
        → ((m : ℕ) → IsSymmetry (dim - x) (suc m) s → Advances (dim - x) m s)
        → Advances dim n (x ∷ s)
    inside dim n x [] w h rec = absurd (omega (arith, w.dimension))
    inside dim zero x (y ∷ s) w h rec = absurd (omega (arith, w.size))
    inside dim (suc zero) x (y ∷ []) w h rec = last_two dim x y w h
    inside dim (suc zero) x (y ∷ z ∷ s) w h rec = absurd (omega (arith, w.size))
    inside dim (suc (suc n)) x (y ∷ []) w h rec = absurd (omega (arith, w.size))
    inside dim (suc (suc n)) x (y ∷ z ∷ s) w h rec =
        longer-Advances dim n x y z s h w
          (rec (suc n) (tail-IsSymmetry dim (suc (suc n)) x (y ∷ z ∷ s) w).1)

-- For a symmetry of dimension `dim`, `operator++` goes to the past-the-end value from (dim, 0, ..., 0),
-- and from any other to a symmetry of the same dimension and length that comes behind it in
-- lexicographic order with none of them between.
pub next_lem :
    (dim n : ℕ) (r : List ℕ)
    → IsSymmetry dim (suc n) r
    → ((r ≡ dim ∷ replicate n 0) × (next dim r ≡ ok (past_end dim n)))
      ⊎ ((r' : List ℕ) × (next dim r ≡ ok r') × IsSuccessor dim (suc n) r r')
next_lem = next-Advances
