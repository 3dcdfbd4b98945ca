-- ===== src/Equivalence/Glue.antt =====
-- The constructors of Equivalence make partitions.
use dynare.Base.{
  ℕ, zero, suc, ◌+◌, ◌≤◌, ◌<◌, ◌≡◌, ◌≢◌, refl, List, [], ◌∷◌, Bool, false, ok, arith, length, ltb,
  leb, ◌==◌, ◌||◌, ◌&&◌,
}
use dynare.Equivalence.{
  add, add_all, has, find, erase, place_behind, Equivalence, singletons_from, finest, add_range,
  coarsest, glue,
}
use dynare.Equivalence.Counts.{
  one_if, count, total, total_length, count-add, length-add, Separate, count-add_all,
  length-add_all, has-add_all, total-erase, total_length-erase, length-erase, together,
  together-erase, find_of_lt, find-erase,
}
use dynare.Equivalence.Partition.{
  IsClass, AllClasses, IsPartition, insert-IsInserted, add-IsClass, add_all-IsClass, find-IsClass,
  erase-AllClasses,
}

abbrev between : ℕ → ℕ → ℕ → Bool
between i n x = leb i x && ltb x n

singletons-AllClasses : (n i : ℕ) → AllClasses (singletons_from n i)
unfolding singletons_from add
singletons-AllClasses zero i = tt
singletons-AllClasses (suc n) i = (tt, singletons-AllClasses n (i + 1))

singletons-total : (n i x : ℕ) → total x (singletons_from n i) ≡ one_if (between i (i + n) x)
unfolding singletons_from add
singletons-total zero i x = ground arith
singletons-total (suc n) i x = ground (arith, singletons-total n (i + 1) x)

singletons-length : (n i : ℕ) → total_length (singletons_from n i) ≡ n
unfolding singletons_from add
singletons-length zero i = refl
singletons-length (suc n) i = omega (arith, singletons-length n (i + 1))

-- The finest equivalence is a partition.
pub finest-IsPartition : (n : ℕ) → IsPartition n (finest n).classes
unfolding finest
finest-IsPartition n = record {
  classes = singletons-AllClasses n 0;
  once = λ x. ground (arith, singletons-total n 0 x);
  size = singletons-length n 0;
}

abbrev FreeFrom : ℕ → List ℕ → Type 0
FreeFrom i s = (x : ℕ) → i ≤ x → count x s ≡ 0

free_next : (i : ℕ) (s : List ℕ) → FreeFrom i s → FreeFrom (i + 1) (add i s)
free_next i s h x l = ground (arith, count-add x i s (h i (omega arith)), h x (omega arith))

add_range-count :
    (n i x : ℕ) (s : List ℕ)
    → FreeFrom i s
    → count x (add_range n i s) ≡ count x s + one_if (between i (i + n) x)
unfolding add_range
add_range-count zero i x s h = ground arith
add_range-count (suc n) i x s h = ground (
  arith,
  add_range-count n (i + 1) x (add i s) (free_next i s h),
  count-add x i s (h i (omega arith)),
)

add_range-length : (n i : ℕ) (s : List ℕ) → FreeFrom i s → length (add_range n i s) ≡ length s + n
unfolding add_range
add_range-length zero i s h = omega arith
add_range-length (suc n) i s h = omega (
  arith,
  add_range-length n (i + 1) (add i s) (free_next i s h),
  length-add i s (h i (omega arith)),
)

add_range-IsClass : (n i : ℕ) (c : List ℕ) → IsClass c → IsClass (add_range n i c)
unfolding add_range
add_range-IsClass zero i c h = h
add_range-IsClass (suc n) i c h = add_range-IsClass n (i + 1) (add i c) (add-IsClass i c h)

first-IsClass : (n : ℕ) → IsClass (add_range (suc n) 0 [])
unfolding add_range add
first-IsClass n = add_range-IsClass n (0 + 1) (0 ∷ []) tt

-- The coarsest equivalence of a set that is not empty is a partition.
pub coarsest-IsPartition : (n : ℕ) → IsPartition (suc n) (coarsest (suc n)).classes
unfolding coarsest
coarsest-IsPartition n = record {
  classes = (first-IsClass n, tt);
  once = λ x. ground (arith, add_range-count (suc n) 0 x [] (λ y l. refl));
  size = omega (arith, add_range-length (suc n) 0 [] (λ y l. refl));
}

-- What gluing the classes `c` and `d` makes of an equivalence.
pub record IsGlued (e : Equivalence) (c d : List ℕ) (e' : Equivalence) : Type 0 where
  pub same_n : e'.n ≡ e.n
  pub partition : IsPartition e'.n e'.classes
  pub one_less : length e.classes ≡ length e'.classes + 1
  pub pairs :
      (x y : ℕ)
      → together x y e'.classes
        ≡ (together x y e.classes || ((has x c && has y d) || (has x d && has y c)))

-- For two classes of a partition at different places the constructor succeeds: it makes a partition of
-- the same set with one class less, in which two numbers stand together when they did before, or when
-- one stood in each of the two classes.
pub glue-IsGlued :
    (e : Equivalence) (i1 i2 : ℕ)
    → IsPartition e.n e.classes
    → i1 < length e.classes
    → i2 < length e.classes
    → i1 ≢ i2
    → (c : List ℕ) × (d : List ℕ) × (e' : Equivalence) × (find i1 e.classes ≡ ok c)
      × (find i2 e.classes ≡ ok d)
      × (glue e i1 i2 ≡ ok e')
      × IsGlued e c d e'
unfolding glue
glue-IsGlued e i1 i2 p h k n =
    let (c, f) = find_of_lt i1 e.classes h in
    let (d, g) = find_of_lt i2 e.classes k in
    let cs = erase i1 e.classes in
    let g' : find (place_behind i1 i2) cs ≡ ok d = find-erase i1 i2 d e.classes h n g in
    let rest = erase (place_behind i1 i2) cs in
    let separate : Separate d c = (λ x. ground (
      arith,
      p.once x,
      total-erase x i1 c e.classes f,
      total-erase x (place_behind i1 i2) d cs g',
    )) in
    let (cs', i, s) =
      insert-IsInserted (add_all d c) rest
        (add_all-IsClass d c (find-IsClass i1 c e.classes p.classes f))
        (erase-AllClasses (place_behind i1 i2) cs (erase-AllClasses i1 e.classes p.classes)) in
    let test : (i1 == i2) ≡ false = ground arith in
    (
      c,
      d,
      record e { classes = cs' },
      f,
      g,
      rw (f, glue) (rw g (rw (test, i) refl)),
      record {
        same_n = refl;
        partition = record {
          classes = s.classes;
          once = λ x. omega (
            arith,
            s.counts x,
            count-add_all x d c separate,
            p.once x,
            total-erase x i1 c e.classes f,
            total-erase x (place_behind i1 i2) d cs g',
          );
          size = omega (
            arith,
            s.lengths,
            length-add_all d c separate,
            p.size,
            total_length-erase i1 c e.classes f,
            total_length-erase (place_behind i1 i2) d cs g',
          );
        };
        one_less = omega (
          arith,
          s.size,
          length-erase i1 c e.classes f,
          length-erase (place_behind i1 i2) d cs g',
        );
        pairs = λ x y. ground (
          arith,
          s.pairs x y,
          has-add_all x d c,
          has-add_all y d c,
          together-erase x y i1 c e.classes f,
          together-erase x y (place_behind i1 i2) d cs g',
        );
      },
    )
