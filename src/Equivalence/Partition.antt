-- ===== src/Equivalence/Partition.antt =====
-- The classes of an equivalence partition its underlying set, and gluing two of them keeps that.
use dynare.Base.{
  ℕ, zero, suc, ◌+◌, ◌<◌, ◌≡◌, refl, subst, List, [], ◌∷◌, Bool, true, false, ok, arith, length,
  ltb, ◌==◌, ◌||◌, ◌&&◌, Bool-cases, inl, inr,
}
use dynare.Equivalence.{less_class, add, add_all, has, find, insert, erase}
use dynare.Equivalence.Counts.{one_if, count, total, total_length, together}

-- Strictly increasing, above `p`.
abbrev pub IncreasesFrom : ℕ → List ℕ → Type 0
IncreasesFrom p [] = Unit
IncreasesFrom p (x ∷ s) = (p < x) × IncreasesFrom x s

-- A class: strictly increasing, and not empty.
abbrev pub IsClass : List ℕ → Type 0
IsClass [] = ⊥
IsClass (x ∷ s) = IncreasesFrom x s

abbrev pub AllClasses : List (List ℕ) → Type 0
AllClasses [] = Unit
AllClasses (c ∷ cs) = IsClass c × AllClasses cs

-- Each number below `n` stands in the classes once, and no other number does.
pub record IsPartition (n : ℕ) (cs : List (List ℕ)) : Type 0 where
  pub classes : AllClasses cs
  pub once : (x : ℕ) → total x cs ≡ one_if (ltb x n)
  pub size : total_length cs ≡ n

add-IncreasesFrom : (p i : ℕ) (s : List ℕ) → p < i → IncreasesFrom p s → IncreasesFrom p (add i s)
unfolding add
add-IncreasesFrom p i [] h k = (h, tt)
add-IncreasesFrom p i (x ∷ s) h k = elim (Bool-cases (ltb x i)) [
  | inl e ↦ rw e (k.0, add-IncreasesFrom x i s (ground arith) k.1)
  | inr e ↦ elim (Bool-cases (x == i)) [
    | inl f ↦ rw (e, f) k
    | inr f ↦ rw (e, f) (h, (ground arith, k.1))
  ]
]

pub add-IsClass : (i : ℕ) (c : List ℕ) → IsClass c → IsClass (add i c)
unfolding add
add-IsClass i [] h = absurd h
add-IsClass i (x ∷ s) h = elim (Bool-cases (ltb x i)) [
  | inl e ↦ rw e (add-IncreasesFrom x i s (ground arith) h)
  | inr e ↦ elim (Bool-cases (x == i)) [ inl f ↦ rw (e, f) h | inr f ↦ rw (e, f) (ground arith, h) ]
]

pub add_all-IsClass : (s c : List ℕ) → IsClass c → IsClass (add_all s c)
unfolding add_all
add_all-IsClass [] c h = h
add_all-IsClass (i ∷ s) c h = add_all-IsClass s (add i c) (add-IsClass i c h)

pub find-IsClass :
    (j : ℕ) (c : List ℕ) (cs : List (List ℕ)) → AllClasses cs → find j cs ≡ ok c → IsClass c
unfolding find
find-IsClass j c [] h e = cc
find-IsClass zero c (d ∷ cs) h e = let q : d ≡ c = cc in subst IsClass q h.0
find-IsClass (suc j) c (d ∷ cs) h e = find-IsClass j c cs h.1 e

pub erase-AllClasses : (j : ℕ) (cs : List (List ℕ)) → AllClasses cs → AllClasses (erase j cs)
unfolding erase
erase-AllClasses j [] h = h
erase-AllClasses zero (c ∷ cs) h = h.1
erase-AllClasses (suc j) (c ∷ cs) h = (h.0, erase-AllClasses j cs h.1)

-- `insert` of a class among classes succeeds, and adds it.
pub record IsInserted (s : List ℕ) (cs cs' : List (List ℕ)) : Type 0 where
  pub classes : AllClasses cs'
  pub counts : (x : ℕ) → total x cs' ≡ count x s + total x cs
  pub lengths : total_length cs' ≡ length s + total_length cs
  pub size : length cs' ≡ length cs + 1
  pub pairs : (x y : ℕ) → together x y cs' ≡ ((has x s && has y s) || together x y cs)

less_class_of : (c s : List ℕ) → IsClass c → IsClass s → (b : Bool) × (less_class c s ≡ ok b)
unfolding less_class
less_class_of [] s h k = absurd h
less_class_of (x ∷ c) [] h k = absurd k
less_class_of (x ∷ c) (y ∷ s) h k = (_, refl)

pub insert-IsInserted :
    (s : List ℕ) (cs : List (List ℕ))
    → IsClass s
    → AllClasses cs
    → (cs' : List (List ℕ)) × (insert s cs ≡ ok cs') × IsInserted s cs cs'
unfolding insert
insert-IsInserted s [] k h = (
  s ∷ [],
  refl,
  record {
    classes = (k, tt);
    counts = λ x. refl;
    lengths = refl;
    size = refl;
    pairs = λ x y. refl;
  },
)
insert-IsInserted s (c ∷ cs) k h =
    let (b, e) = less_class_of c s h.0 k in
    let (cs', f, i) = insert-IsInserted s cs k h.1 in go b e cs' f i
  where
    go :
        (b : Bool)
        → less_class c s ≡ ok b
        → (rest : List (List ℕ)) → insert s cs ≡ ok rest
        → IsInserted s cs rest
        → (cs' : List (List ℕ)) × (insert s (c ∷ cs) ≡ ok cs') × IsInserted s (c ∷ cs) cs'
    go true e rest f i = (
      c ∷ rest,
      rw (e, insert) (rw f refl),
      record {
        classes = (h.0, i.classes);
        counts = λ x. omega (arith, i.counts x);
        lengths = omega (arith, i.lengths);
        size = omega (arith, i.size);
        pairs = λ x y. ground (arith, i.pairs x y);
      },
    )
    go false e rest f i = (
      s ∷ c ∷ cs,
      rw (e, insert) refl,
      record {
        classes = (k, h);
        counts = λ x. refl;
        lengths = refl;
        size = omega arith;
        pairs = λ x y. refl;
      },
    )
