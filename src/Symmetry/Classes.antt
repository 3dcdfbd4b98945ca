-- ===== src/Symmetry/Classes.antt =====
-- The classes of a symmetry: `findClass`, and the constructor of an implied symmetry.
use dynare.Base.{
  ℕ, zero, suc, ◌+◌, ◌-◌, ◌≤◌, ◌<◌, ◌≡◌, refl, ap, ◌∙◌, List, [], ◌∷◌, false, ok, arith, length,
  leb, take, get_or, Bool-cases, inl, inr, length-set,
}
use dynare.Sequence.{sum, bump, filled}
use dynare.Symmetry.{num, dimen, find_class_from, find_class, count_classes, last, implied}

-- The class `k` of the symmetry `sy` holds the index `i`.
pub record IsClassOf (sy : List ℕ) (i k : ℕ) : Type 0 where
  pub inside : k < num sy
  pub lower : sum (take k sy) ≤ i
  pub upper : i < sum (take (suc k) sy)

find_class_from-IsClassOf :
    (j acc : ℕ) (sy : List ℕ) (i m : ℕ)
    → m ≡ acc + i
    → i < sum sy
    → (k : ℕ) × (find_class_from j acc sy m ≡ ok (j + k)) × IsClassOf sy i k
unfolding find_class_from sum
find_class_from-IsClassOf j acc [] i m e h = absurd (omega arith)
find_class_from-IsClassOf j acc (x ∷ []) i m e h = (
  0,
  ap ok (omega arith),
  record { inside = omega arith; lower = omega arith; upper = omega arith },
)
find_class_from-IsClassOf j acc (x ∷ y ∷ s) i m e h = elim (Bool-cases (leb (acc + x) m)) [
  | inl f ↦
      let (k, g, c) =
        find_class_from-IsClassOf (j + 1) (acc + x) (y ∷ s) (i - x) m (ground arith)
          (ground arith) in
      (
        suc k,
        rw f (g ∙ ap ok (omega arith)),
        record {
          inside = omega (arith, c.inside);
          lower = ground (arith, c.lower);
          upper = ground (arith, c.upper);
        },
      )
  | inr f ↦ (
    0,
    rw f (ap ok (omega arith)),
    record { inside = omega arith; lower = omega arith; upper = ground arith },
  )
]

-- For an index below the dimension `findClass` returns the class that holds it: the classes before it
-- have that many indices or fewer, and with it they have more.
pub find_class-IsClassOf :
    (sy : List ℕ) (i : ℕ) → i < dimen sy → (k : ℕ) × (find_class sy i ≡ ok k) × IsClassOf sy i k
unfolding find_class
find_class-IsClassOf sy i h =
    let (k, e, c) = find_class_from-IsClassOf 0 0 sy i i (omega arith) h in
    (k, e ∙ ap ok (omega arith), c)

abbrev pub AllBelow : ℕ → List ℕ → Type 0
AllBelow d [] = Unit
AllBelow d (i ∷ se) = (i < d) × AllBelow d se

pub last-lt : (d i : ℕ) (se : List ℕ) → AllBelow d (i ∷ se) → last i se < d
unfolding last
last-lt d i [] h = h.0
last-lt d i (j ∷ se) h = last-lt d j se h.1

sum-bump : (r : List ℕ) (k : ℕ) → k < length r → sum (bump r k) ≡ sum r + 1
unfolding sum bump
sum-bump [] k h = absurd (omega arith)
sum-bump (x ∷ r) zero h = omega arith
sum-bump (x ∷ r) (suc k) h = omega (arith, sum-bump r k (omega arith))

pub length-bump : (r : List ℕ) (k : ℕ) → length (bump r k) ≡ length r
unfolding bump
length-bump r k = length-set r k (get_or r k 0 + 1)

count_classes-sum :
    (sy r se : List ℕ)
    → length r ≡ num sy
    → AllBelow (dimen sy) se
    → (r' : List ℕ) × (count_classes sy r se ≡ ok r')
      × (length r' ≡ num sy)
      × (sum r' ≡ sum r + length se)
unfolding count_classes
count_classes-sum sy r [] e h = (r, refl, e, omega arith)
count_classes-sum sy r (i ∷ se) e h =
    let (k, f, c) = find_class-IsClassOf sy i h.0 in
    let (r', g, l, m) = count_classes-sum sy (bump r k) se (length-bump r k ∙ e) h.1 in
    (r', rw (f, g) refl, l, omega (arith, m, sum-bump r k (omega (arith, c.inside))))

sum-filled : (n : ℕ) → sum (filled n 0) ≡ 0
unfolding sum
sum-filled zero = refl
sum-filled (suc n) = omega (arith, sum-filled n)

length-filled : (n : ℕ) → length (filled n 0) ≡ n
length-filled zero = refl
length-filled (suc n) = ap suc (length-filled n)

-- For a class with one index or more, all below the dimension of the symmetry, the constructor of the
-- implied symmetry succeeds: it has as many classes, and its dimension is the size of the class.
pub implied-dimen :
    (sy : List ℕ) (i : ℕ) (se : List ℕ)
    → AllBelow (dimen sy) (i ∷ se)
    → (r : List ℕ) × (implied sy (i ∷ se) ≡ ok r) × (num r ≡ num sy) × (dimen r ≡ length (i ∷ se))
unfolding implied
implied-dimen sy i se h =
    let (r, e, l, m) =
      count_classes-sum sy (filled (num sy) 0) (i ∷ se) (length-filled (num sy)) h in
    let test : leb (dimen sy) (last i se) ≡ false = ground (arith, last-lt (dimen sy) i se h) in
    (r, rw (test, e) refl, l, m ∙ omega (arith, sum-filled (num sy)))
