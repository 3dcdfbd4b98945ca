-- ===== src/Symmetry/Shares.antt =====
-- The items of the induced symmetries add up to those of the symmetry.
use dynare.Base.{
  ℕ, zero, suc, ◌+◌, ◌-◌, ◌*◌, ◌≤◌, ◌<◌, ◌≡◌, ◌≢◌, ◌⊎◌, refl, sym, ap, ◌∙◌, subst, List, [], ◌∷◌,
  true, false, ok, err, arith, length, leb, ltb, ◌==◌, ==_iff, ◌&&◌, if◌then◌else◌, Bool-cases, inl,
  inr, take, get_or, length-replicate,
}
use dynare.Sequence.{sum, bump, filled}
use dynare.Equivalence.{Equivalence}
use dynare.Equivalence.Counts.{one_if, count, total}
use dynare.Equivalence.Partition.{AllClasses, IsPartition}
use dynare.Symmetry.{num, dimen, find_class, count_classes, last, implied}
use dynare.Symmetry.Classes.{AllBelow, IsClassOf, find_class-IsClassOf, length-bump, last-lt}
use dynare.Symmetry.Induced.{induced, AllBelow-of, Made, Induces, induced_from-Induces}

-- Sums of a function over a list, over classes, and below a bound.
abbrev weigh : (ℕ → ℕ) → List ℕ → ℕ
weigh f [] = 0
weigh f (x ∷ s) = f x + weigh f s

abbrev weigh_all : (ℕ → ℕ) → List (List ℕ) → ℕ
weigh_all f [] = 0
weigh_all f (c ∷ cs) = weigh f c + weigh_all f cs

abbrev below : (ℕ → ℕ) → ℕ → ℕ
below f zero = 0
below f (suc n) = below f n + f n

below_add : (f g : ℕ → ℕ) (n : ℕ) → below (λ x. f x + g x) n ≡ below f n + below g n
below_add f g zero = omega arith
below_add f g (suc n) = omega (arith, below_add f g n)

below_same : (f g : ℕ → ℕ) (n : ℕ) → ((x : ℕ) → x < n → f x ≡ g x) → below f n ≡ below g n
below_same f g zero h = refl
below_same f g (suc n) h =
    omega (arith, below_same f g n (λ x k. h x (omega arith)), h n (omega arith))

below_none : (f : ℕ → ℕ) (n : ℕ) → ((x : ℕ) → x < n → f x ≡ 0) → below f n ≡ 0
below_none f zero h = refl
below_none f (suc n) h = omega (arith, below_none f n (λ x k. h x (omega arith)), h n (omega arith))

one_if-times : (f : ℕ → ℕ) (y x : ℕ) → (y ≢ x) → one_if (y == x) * f x ≡ 0
one_if-times f y x h = let e : (y == x) ≡ false = ground arith in rw e (omega arith)

below_one : (f : ℕ → ℕ) (y n : ℕ) → y < n → below (λ x. one_if (y == x) * f x) n ≡ f y
below_one f y zero h = absurd (omega arith)
below_one f y (suc n) h = elim (Bool-cases (y == n)) [
  | inl e ↦
      let same : y ≡ n = (==_iff y n).0 e in
      let rest =
        below_none (λ x. one_if (y == x) * f x) n (λ x k. one_if-times f y x (λ q. omega arith)) in
      rw (rest, e, same) (omega arith)
  | inr e ↦ let rest = below_one f y n (ground arith) in rw (rest, e) (omega arith)
]

weigh-below :
    (f : ℕ → ℕ) (n : ℕ) (s : List ℕ)
    → ((x : ℕ) → count x s ≤ one_if (ltb x n))
    → weigh f s ≡ below (λ x. count x s * f x) n
weigh-below f n [] h = sym (below_none (λ x. 0 * f x) n (λ x k. omega arith))
weigh-below f n (y ∷ s) h =
    let first = below_one f y n (ground (arith, h y)) in
    let rest = weigh-below f n s (λ x. omega (arith, h x)) in
    let both = below_add (λ x. one_if (y == x) * f x) (λ x. count x s * f x) n in
    let spread =
      below_same (λ x. (one_if (y == x) + count x s) * f x)
        (λ x. one_if (y == x) * f x + count x s * f x) n (λ x k. omega arith) in
    omega arith

weigh_all-below :
    (f : ℕ → ℕ) (n : ℕ) (cs : List (List ℕ))
    → ((x : ℕ) → total x cs ≤ one_if (ltb x n))
    → weigh_all f cs ≡ below (λ x. total x cs * f x) n
weigh_all-below f n [] h = sym (below_none (λ x. 0 * f x) n (λ x k. omega arith))
weigh_all-below f n (c ∷ cs) h =
    let first = weigh-below f n c (λ x. omega (arith, h x)) in
    let rest = weigh_all-below f n cs (λ x. omega (arith, h x)) in
    let both = below_add (λ x. count x c * f x) (λ x. total x cs * f x) n in
    let spread =
      below_same (λ x. (count x c + total x cs) * f x) (λ x. count x c * f x + total x cs * f x) n
        (λ x k. omega arith) in
    omega arith

-- The class of an index, and whether it is `k`.
abbrev class_of : List ℕ → ℕ → ℕ
class_of sy i = elim (find_class sy i) [ ok k ↦ k | err e ↦ 0 ]

abbrev in_class : List ℕ → ℕ → ℕ → ℕ
in_class sy k i = one_if (class_of sy i == k)

sum-take_mono : (j k : ℕ) (s : List ℕ) → j ≤ k → sum (take j s) ≤ sum (take k s)
unfolding sum
sum-take_mono zero k s h = omega arith
sum-take_mono (suc j) zero s h = absurd (omega arith)
sum-take_mono (suc j) (suc k) [] h = omega arith
sum-take_mono (suc j) (suc k) (x ∷ s) h = omega (arith, sum-take_mono j k s (omega arith))

sum-take-suc : (k : ℕ) (s : List ℕ) → sum (take (suc k) s) ≡ sum (take k s) + get_or s k 0
unfolding sum
sum-take-suc zero [] = refl
sum-take-suc zero (x ∷ s) = omega arith
sum-take-suc (suc k) [] = refl
sum-take-suc (suc k) (x ∷ s) = omega (arith, sum-take-suc k s)

sum-take_le : (k : ℕ) (s : List ℕ) → sum (take k s) ≤ sum s
unfolding sum
sum-take_le zero s = omega arith
sum-take_le (suc k) [] = omega arith
sum-take_le (suc k) (x ∷ s) = omega (arith, sum-take_le k s)

in_class-of : (sy : List ℕ) (k i j : ℕ) → find_class sy i ≡ ok j → in_class sy k i ≡ one_if (j == k)
in_class-of sy k i j e = ap (λ r. one_if ((elim r [ ok m ↦ m | err x ↦ 0 ]) == k)) e

in_class-interval :
    (sy : List ℕ) (k i : ℕ)
    → i < dimen sy
    → in_class sy k i ≡ one_if (leb (sum (take k sy)) i && ltb i (sum (take (suc k) sy)))
in_class-interval sy k i h =
    let (j, e, c) = find_class-IsClassOf sy i h in
    in_class-of sy k i j e ∙ go j c (Bool-cases (j == k))
  where
    go :
        (j : ℕ)
        → IsClassOf sy i j
        → ((j == k) ≡ true) ⊎ ((j == k) ≡ false)
        → one_if (j == k) ≡ one_if (leb (sum (take k sy)) i && ltb i (sum (take (suc k) sy)))
    go j c (inl e) =
        let q : j ≡ k = (==_iff j k).0 e in
        let lower = subst (λ m. sum (take m sy) ≤ i) q c.lower in
        let upper = subst (λ m. i < sum (take (suc m) sy)) q c.upper in rw e (ground arith)
    go j c (inr e) = elim (Bool-cases (ltb j k)) [
      | inl l ↦ rw e (ground (arith, sum-take_mono (suc j) k sy (ground arith), c.upper))
      | inr l ↦ rw e (ground (arith, sum-take_mono (suc k) j sy (ground arith), c.lower))
    ]

interval_size :
    (a b n : ℕ)
    → a ≤ b
    → below (λ i. one_if (leb a i && ltb i b)) n ≡ (if leb n b then n - a else b - a)
interval_size a b zero h = ground arith
interval_size a b (suc n) h = ground (arith, interval_size a b n h)

class_size : (sy : List ℕ) (k : ℕ) → below (in_class sy k) (dimen sy) ≡ get_or sy k 0
class_size sy k =
    let a = sum (take k sy) in
    let b = sum (take (suc k) sy) in
    let same =
      below_same (in_class sy k) (λ i. one_if (leb a i && ltb i b)) (dimen sy)
        (in_class-interval sy k) in
    let step = sum-take-suc k sy in
    let size = interval_size a b (dimen sy) (omega arith) in ground (arith, sum-take_le (suc k) sy)

get_or-bump :
    (r : List ℕ) (j k : ℕ) → j < length r → get_or (bump r j) k 0 ≡ get_or r k 0 + one_if (j == k)
unfolding bump
get_or-bump [] j k h = absurd (omega arith)
get_or-bump (x ∷ r) zero zero h = ground arith
get_or-bump (x ∷ r) zero (suc k) h = ground arith
get_or-bump (x ∷ r) (suc j) zero h = ground arith
get_or-bump (x ∷ r) (suc j) (suc k) h = ground (arith, get_or-bump r j k (omega arith))

count_classes-items :
    (sy r se : List ℕ) (k : ℕ)
    → length r ≡ num sy
    → AllBelow (dimen sy) se
    → (r' : List ℕ) × (count_classes sy r se ≡ ok r')
      × (get_or r' k 0 ≡ get_or r k 0 + weigh (in_class sy k) se)
unfolding count_classes
count_classes-items sy r [] k e h = (r, refl, omega arith)
count_classes-items sy r (i ∷ se) k e h =
    let (j, f, c) = find_class-IsClassOf sy i h.0 in
    let (r', g, l) = count_classes-items sy (bump r j) se k (length-bump r j ∙ e) h.1 in
    let same = in_class-of sy k i j f in
    (r', rw (f, g) refl, omega (arith, get_or-bump r j k (omega (arith, c.inside))))

get_or-filled : (n k : ℕ) → get_or (filled n 0) k 0 ≡ 0
get_or-filled zero k = refl
get_or-filled (suc n) zero = refl
get_or-filled (suc n) (suc k) = get_or-filled n k

implied-items :
    (sy : List ℕ) (i : ℕ) (se r : List ℕ) (k : ℕ)
    → AllBelow (dimen sy) (i ∷ se)
    → implied sy (i ∷ se) ≡ ok r
    → get_or r k 0 ≡ weigh (in_class sy k) (i ∷ se)
unfolding implied
implied-items sy i se r k h e =
    let (r', f, l) =
      count_classes-items sy (filled (num sy) 0) (i ∷ se) k (length-replicate (num sy) 0) h in
    let test : leb (dimen sy) (last i se) ≡ false = ground (arith, last-lt (dimen sy) i se h) in
    let same : r' ≡ r = cc (rw (test, f) at e) in
    omega (arith, get_or-filled (num sy) k, ap (λ s. get_or s k 0) same)

-- The sum of the items `k`.
abbrev pub total_at : ℕ → List (List ℕ) → ℕ
total_at k [] = 0
total_at k (r ∷ rs) = get_or r k 0 + total_at k rs

Made-items :
    (sy : List ℕ) (k : ℕ) (cs rs : List (List ℕ))
    → AllClasses cs
    → ((x : ℕ) → total x cs ≤ one_if (ltb x (dimen sy)))
    → Made sy cs rs
    → total_at k rs ≡ weigh_all (in_class sy k) cs
Made-items sy k [] [] a h m = refl
Made-items sy k [] (r ∷ rs) a h m = absurd m
Made-items sy k (c ∷ cs) [] a h m = absurd m
Made-items sy k ([] ∷ cs) (r ∷ rs) a h m = absurd (a.0)
Made-items sy k ((i ∷ c) ∷ cs) (r ∷ rs) a h m =
    let inside = AllBelow-of (dimen sy) (i ∷ c) (λ x. omega (arith, h x)) in
    let first = implied-items sy i c r k inside m.0 in
    let rest = Made-items sy k cs rs a.1 (λ x. omega (arith, h x)) m.1 in omega arith

-- For a partition of the indices of a symmetry the constructor raises nothing: it makes a symmetry for
-- each class, with as many classes as the given one and of the size of the class, and for each class of
-- the given symmetry their numbers of indices in it add up to its number.
pub induced-total_at :
    (e : Equivalence) (sy : List ℕ)
    → IsPartition (dimen sy) e.classes
    → (rs : List (List ℕ)) × (induced e sy ≡ ok rs)
      × Induces sy e.classes rs
      × ((k : ℕ) → total_at k rs ≡ get_or sy k 0)
unfolding induced
induced-total_at e sy h =
    let (rs, f, g, m) =
      induced_from-Induces e.classes sy h.classes (λ x. omega (arith, h.once x)) in
    (
      rs,
      f,
      g,
      λ k.
          let items = Made-items sy k e.classes rs h.classes (λ x. omega (arith, h.once x)) m in
          let spread =
            weigh_all-below (in_class sy k) (dimen sy) e.classes (λ x. omega (arith, h.once x)) in
          let whole =
            below_same (λ x. total x e.classes * in_class sy k x) (in_class sy k) (dimen sy)
              (λ x l.
                let one : total x e.classes ≡ 1 = ground (arith, h.once x) in
                rw one (omega arith)) in
          omega (arith, class_size sy k),
    )
