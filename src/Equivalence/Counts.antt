-- ===== src/Equivalence/Counts.antt =====
-- How often a number stands in the classes, and how the operations on lists of classes change that.
use dynare.Base.{
  ℕ, zero, suc, ◌+◌, ◌≤◌, ◌<◌, ◌≡◌, refl, ap, List, [], ◌∷◌, Bool, false, ok, arith, length, ◌==◌,
  ◌||◌, ◌&&◌, if◌then◌else◌,
}
use dynare.Equivalence.{add, add_all, has, find, erase, place_behind}

abbrev pub one_if : Bool → ℕ
one_if b = if b then 1 else 0

abbrev pub count : ℕ → List ℕ → ℕ
count x [] = 0
count x (y ∷ s) = one_if (y == x) + count x s

abbrev pub total : ℕ → List (List ℕ) → ℕ
total x [] = 0
total x (c ∷ cs) = count x c + total x cs

abbrev pub total_length : List (List ℕ) → ℕ
total_length [] = 0
total_length (c ∷ cs) = length c + total_length cs

pub count-add :
    (x i : ℕ) (s : List ℕ) → count i s ≡ 0 → count x (add i s) ≡ one_if (i == x) + count x s
unfolding add
count-add x i [] h = refl
count-add x i (y ∷ s) h = ground (arith, count-add x i s (ground arith))

pub length-add : (i : ℕ) (s : List ℕ) → count i s ≡ 0 → length (add i s) ≡ length s + 1
unfolding add
length-add i [] h = refl
length-add i (y ∷ s) h = ground (arith, length-add i s (ground arith))

-- No number stands in the two classes together more than once.
abbrev pub Separate : List ℕ → List ℕ → Type 0
Separate s c = (x : ℕ) → count x s + count x c ≤ 1

count_head : (i : ℕ) (s : List ℕ) → count i (i ∷ s) ≡ 1 + count i s
count_head i s = ground arith

Separate-absent : (i : ℕ) (s c : List ℕ) → Separate (i ∷ s) c → count i c ≡ 0
Separate-absent i s c h = omega (arith, h i, count_head i s)

Separate-add : (i : ℕ) (s c : List ℕ) → Separate (i ∷ s) c → Separate s (add i c)
Separate-add i s c h x = omega (arith, h x, count-add x i c (Separate-absent i s c h))

pub count-add_all :
    (x : ℕ) (s c : List ℕ) → Separate s c → count x (add_all s c) ≡ count x s + count x c
unfolding add_all
count-add_all x [] c h = omega arith
count-add_all x (i ∷ s) c h = omega (
  arith,
  count-add_all x s (add i c) (Separate-add i s c h),
  count-add x i c (Separate-absent i s c h),
)

pub length-add_all : (s c : List ℕ) → Separate s c → length (add_all s c) ≡ length s + length c
unfolding add_all
length-add_all [] c h = omega arith
length-add_all (i ∷ s) c h = omega (
  arith,
  length-add_all s (add i c) (Separate-add i s c h),
  length-add i c (Separate-absent i s c h),
)

pub has-add : (x i : ℕ) (s : List ℕ) → has x (add i s) ≡ (i == x || has x s)
unfolding has add
has-add x i [] = refl
has-add x i (y ∷ s) = ground (arith, has-add x i s)

pub has-add_all : (x : ℕ) (s c : List ℕ) → has x (add_all s c) ≡ (has x s || has x c)
unfolding has add_all
has-add_all x [] c = refl
has-add_all x (i ∷ s) c = ground (arith, has-add_all x s (add i c), has-add x i c)

-- Taking the class `j` out.
pub total-erase :
    (x j : ℕ) (c : List ℕ) (cs : List (List ℕ))
    → find j cs ≡ ok c
    → total x cs ≡ count x c + total x (erase j cs)
unfolding find erase
total-erase x j c [] h = cc
total-erase x zero c (d ∷ cs) h = let q : d ≡ c = cc in rw q refl
total-erase x (suc j) c (d ∷ cs) h = omega (arith, total-erase x j c cs h)

pub total_length-erase :
    (j : ℕ) (c : List ℕ) (cs : List (List ℕ))
    → find j cs ≡ ok c
    → total_length cs ≡ length c + total_length (erase j cs)
unfolding find erase
total_length-erase j c [] h = cc
total_length-erase zero c (d ∷ cs) h = let q : d ≡ c = cc in rw q refl
total_length-erase (suc j) c (d ∷ cs) h = omega (arith, total_length-erase j c cs h)

pub length-erase :
    (j : ℕ) (c : List ℕ) (cs : List (List ℕ))
    → find j cs ≡ ok c
    → length cs ≡ length (erase j cs) + 1
unfolding find erase
length-erase j c [] h = cc
length-erase zero c (d ∷ cs) h = omega arith
length-erase (suc j) c (d ∷ cs) h = omega (arith, length-erase j c cs h)

-- Whether `x` and `y` stand in one class.
abbrev pub together : ℕ → ℕ → List (List ℕ) → Bool
together x y [] = false
together x y (c ∷ cs) = (has x c && has y c) || together x y cs

pub together-erase :
    (x y j : ℕ) (c : List ℕ) (cs : List (List ℕ))
    → find j cs ≡ ok c
    → together x y cs ≡ ((has x c && has y c) || together x y (erase j cs))
unfolding find erase
together-erase x y j c [] h = cc
together-erase x y zero c (d ∷ cs) h = let q : d ≡ c = cc in rw q refl
together-erase x y (suc j) c (d ∷ cs) h = ground (arith, together-erase x y j c cs h)

-- Finding a class that stands there, and one behind an erased class.
pub find_of_lt : (j : ℕ) (cs : List (List ℕ)) → j < length cs → (c : List ℕ) × (find j cs ≡ ok c)
unfolding find
find_of_lt j [] h = absurd (omega arith)
find_of_lt zero (c ∷ cs) h = (c, refl)
find_of_lt (suc j) (c ∷ cs) h = find_of_lt j cs (omega arith)

pub find-erase :
    (i j : ℕ) (c : List ℕ) (cs : List (List ℕ))
    → i < length cs
    → (i ≡ j → ⊥)
    → find j cs ≡ ok c
    → find (place_behind i j) (erase i cs) ≡ ok c
unfolding find erase
find-erase i j c [] k n h = cc
find-erase zero zero c (d ∷ cs) k n h = absurd (n refl)
find-erase zero (suc j) c (d ∷ cs) k n h =
    let e : place_behind 0 (suc j) ≡ j = ground arith in rw e h
find-erase (suc i) zero c (d ∷ cs) k n h =
    let e : place_behind (suc i) 0 ≡ 0 = ground arith in rw e h
find-erase (suc i) (suc j) c (d ∷ cs) k n h =
    let e : place_behind (suc i) (suc j) ≡ suc (place_behind i j) = ground arith in
    rw e (find-erase i j c cs (omega arith) (λ q. n (ap suc q)) h)
