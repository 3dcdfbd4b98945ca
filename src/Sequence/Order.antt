-- ===== src/Sequence/Order.antt =====
-- Sequences in increasing order: what `insert`, `monotone` and `isSorted` do.
use mathlib.Core.List.{Perm}
use mathlib.Core.List.Perm
use dynare.Base.{ℕ, ◌≤◌, ◌≡◌, ◌↔◌, refl, List, [], ◌∷◌, true, arith, ltb, Bool-cases, inl, inr}
use dynare.Sequence.{is_sorted, is_sorted_from, insert, monotone, monotone_from}

-- Increasing, from a value `p` on.
abbrev pub IsSortedFrom : ℕ → List ℕ → Type 0
IsSortedFrom p [] = Unit
IsSortedFrom p (x ∷ s) = (p ≤ x) × IsSortedFrom x s

abbrev pub IsSorted : List ℕ → Type 0
IsSorted [] = Unit
IsSorted (x ∷ s) = IsSortedFrom x s

is_sorted_from_iff : (p : ℕ) (s : List ℕ) → (is_sorted_from p s ≡ true) ↔ IsSortedFrom p s
unfolding is_sorted_from
is_sorted_from_iff p [] = (λ _. tt, λ _. refl)
is_sorted_from_iff p (x ∷ s) = (
  λ e. ground (arith, (is_sorted_from_iff x s).0),
  λ h. ground (arith, (is_sorted_from_iff x s).1 h.1),
)

-- `isSorted` tells whether the items increase.
is_sorted_iff : (s : List ℕ) → (is_sorted s ≡ true) ↔ IsSorted s
unfolding is_sorted
is_sorted_iff [] = (λ _. tt, λ _. refl)
is_sorted_iff (x ∷ s) = is_sorted_from_iff x s

insert-IsSortedFrom :
    (p i : ℕ) (s : List ℕ) → p ≤ i → IsSortedFrom p s → IsSortedFrom p (insert i s)
unfolding insert
insert-IsSortedFrom p i [] h k = (h, tt)
insert-IsSortedFrom p i (x ∷ s) h k = elim (Bool-cases (ltb x i)) [
  | inl e ↦ rw e (k.0, insert-IsSortedFrom x i s (ground arith) k.1)
  | inr e ↦ rw e (h, (ground arith, k.1))
]

pub insert-IsSorted : (i : ℕ) (s : List ℕ) → IsSorted s → IsSorted (insert i s)
unfolding insert
insert-IsSorted i [] h = tt
insert-IsSorted i (x ∷ s) h = elim (Bool-cases (ltb x i)) [
  | inl e ↦ rw e (insert-IsSortedFrom x i s (ground arith) h)
  | inr e ↦ rw e (ground arith, h)
]

insert-perm : (i : ℕ) (s : List ℕ) → Perm (insert i s) (i ∷ s)
unfolding insert
insert-perm i [] = Perm.refl (i ∷ [])
insert-perm i (x ∷ s) = elim (Bool-cases (ltb x i)) [
  | inl e ↦ rw e (Perm.trans (Perm.cons x (insert-perm i s)) (Perm.swap i x s))
  | inr e ↦ rw e (Perm.refl (i ∷ x ∷ s))
]

-- On an increasing sequence `insert` returns an increasing sequence of the items and the new one.
insert_lem : (i : ℕ) (s : List ℕ) → IsSorted s → IsSorted (insert i s) × Perm (insert i s) (i ∷ s)
insert_lem i s h = (insert-IsSorted i s h, insert-perm i s)

-- Item by item not above, for sequences of one length.
abbrev pub IsBelow : List ℕ → List ℕ → Type 0
IsBelow [] [] = Unit
IsBelow [] (y ∷ t) = ⊥
IsBelow (x ∷ s) [] = ⊥
IsBelow (x ∷ s) (y ∷ t) = (x ≤ y) × IsBelow s t

monotone_from-IsSorted : (p : ℕ) (s : List ℕ) → IsSortedFrom p (monotone_from p s)
unfolding monotone_from
monotone_from-IsSorted p [] = tt
monotone_from-IsSorted p (x ∷ s) = elim (Bool-cases (ltb x p)) [
  | inl e ↦ rw e (ground arith, monotone_from-IsSorted p s)
  | inr e ↦ rw e (ground arith, monotone_from-IsSorted x s)
]

monotone_from-above : (p : ℕ) (s : List ℕ) → IsBelow s (monotone_from p s)
unfolding monotone_from
monotone_from-above p [] = tt
monotone_from-above p (x ∷ s) = elim (Bool-cases (ltb x p)) [
  | inl e ↦ rw e (ground arith, monotone_from-above p s)
  | inr e ↦ rw e (ground arith, monotone_from-above x s)
]

monotone_from-least :
    (p q : ℕ) (s t : List ℕ)
    → p ≤ q
    → IsSortedFrom q t
    → IsBelow s t
    → IsBelow (monotone_from p s) t
unfolding monotone_from
monotone_from-least p q [] [] h k b = tt
monotone_from-least p q [] (y ∷ t) h k b = b
monotone_from-least p q (x ∷ s) [] h k b = b
monotone_from-least p q (x ∷ s) (y ∷ t) h k b = elim (Bool-cases (ltb x p)) [
  | inl e ↦ rw e (ground arith, monotone_from-least p y s t (ground arith) k.1 b.1)
  | inr e ↦ rw e (b.0, monotone_from-least x y s t b.0 k.1 b.1)
]

-- `monotone` returns the least increasing sequence that lies item by item above the given one.
pub monotone-least :
    (s : List ℕ)
    → IsSorted (monotone s)
      × IsBelow s (monotone s)
      × ((t : List ℕ) → IsSorted t → IsBelow s t → IsBelow (monotone s) t)
unfolding monotone
monotone-least [] = (tt, tt, λ t h b. b)
monotone-least (x ∷ s) = (
  monotone_from-IsSorted x s,
  (omega arith, monotone_from-above x s),
  elim [ [] ↦ λ h b. b | y ∷ t ↦ λ h b. (b.0, monotone_from-least x y s t b.0 h b.1) ],
)
