-- ===== src/Sequence.antt =====
-- Integer sequences: IntSequence of tl/cc/int_sequence.cc and int_sequence.hh. The items are natural
-- numbers: in the tensor library a sequence is an index, a symmetry, the lengths of some ranges or a
-- class of an equivalence.
pub mod Order
pub mod Runs
pub mod Multinomial
pub mod Tests
use dynare.Base.{
  ℕ, zero, suc, ◌+◌, ◌-◌, ◌*◌, Bool, true, false, ◌&&◌, ◌||◌, List, [], ◌∷◌, ◌++◌, Option, none,
  some, Result, ok, err, Error, guard, ◌>>=◌, length, ltb, leb, ◌==◌, if◌then◌else◌, at, replicate,
  take, drop, get_or, set, max, not,
}
use dynare.IntPower.{times_int}
use dynare.Pascal.{Triangle, noverk, plus_int}

-- The constructors from a length and a value, and of a subsequence.
abbrev pub filled : ℕ → ℕ → List ℕ
filled l n = replicate l n

abbrev pub subsequence : List ℕ → ℕ → ℕ → List ℕ
subsequence s i1 i2 = take (i2 - i1) (drop i1 s)

unfoldable pub sum : List ℕ → ℕ
sum [] = 0
sum (x ∷ s) = x + sum s

pub product : List ℕ → ℕ
product [] = 1
product (x ∷ s) = x * product s

-- `mult(i1, i2)`
pub mult : List ℕ → ℕ → ℕ → ℕ
mult s i1 i2 = product (subsequence s i1 i2)

-- A read of item `i` for each of the `sy[i]` places; a symmetry longer than the sequence reads outside
-- it unless the counts there are 0.
unfoldable pub unfold_by : List ℕ → List ℕ → Result (List ℕ)
unfold_by s [] = ok []
unfold_by [] (n ∷ sy) = if n == 0 then unfold_by [] sy else err Error.out_of_range
unfold_by (x ∷ s) (n ∷ sy) = do rest ← unfold_by s sy; ok (replicate n x ++ rest)

-- `r[p]++`
unfoldable pub bump : List ℕ → ℕ → List ℕ
bump r p = set r p (get_or r p 0 + 1)

-- The loop of `getSymmetry`, behind the item `prev`.
pub count_runs : ℕ → List ℕ → ℕ → List ℕ → List ℕ
count_runs prev [] p r = r
count_runs prev (x ∷ s) p r =
    let p' = if x == prev then p else p + 1 in count_runs x s p' (bump r p')

pub num_distinct_from : ℕ → List ℕ → ℕ → ℕ
num_distinct_from prev [] res = res
num_distinct_from prev (x ∷ s) res = num_distinct_from x s (if x == prev then res else res + 1)

pub get_num_distinct : List ℕ → ℕ
get_num_distinct [] = 0
get_num_distinct (x ∷ s) = num_distinct_from x s 1

pub get_symmetry : List ℕ → List ℕ
get_symmetry [] = []
get_symmetry (x ∷ s) = count_runs x s 0 (set (replicate (get_num_distinct (x ∷ s)) 0) 0 1)

-- `insert(i)`: in front of the first item that is not smaller.
unfoldable pub insert : ℕ → List ℕ → List ℕ
insert i [] = i ∷ []
insert i (x ∷ s) = if ltb x i then x ∷ insert i s else i ∷ x ∷ s

-- `insert(i, pos)`
unfoldable pub insert_at : ℕ → ℕ → List ℕ → Result (List ℕ)
insert_at i pos s =
    if ltb (length s) pos then err Error.wrong_position else ok (take pos s ++ i ∷ drop pos s)

-- `operator==` and `operator<`, by `std::equal` and `std::lexicographical_compare`.
unfoldable pub equal : List ℕ → List ℕ → Bool
equal [] [] = true
equal [] (y ∷ t) = false
equal (x ∷ s) [] = false
equal (x ∷ s) (y ∷ t) = x == y && equal s t

pub lexicographic : List ℕ → List ℕ → Bool
lexicographic s [] = false
lexicographic [] (y ∷ t) = true
lexicographic (x ∷ s) (y ∷ t) = ltb x y || (x == y && lexicographic s t)

-- The loop of `lessEq` and `less` over two sequences of one length.
pub all_pairs : (ℕ → ℕ → Bool) → List ℕ → List ℕ → Bool
all_pairs test [] t = true
all_pairs test (x ∷ s) [] = true
all_pairs test (x ∷ s) (y ∷ t) = test x y && all_pairs test s t

pub less_eq : List ℕ → List ℕ → Result Bool
less_eq s t = if length s == length t then ok (all_pairs leb s t) else err Error.wrong_length

pub less : List ℕ → List ℕ → Result Bool
less s t = if length s == length t then ok (all_pairs ltb s t) else err Error.wrong_length

-- The pass of `monotone` behind an item whose value is already `prev`.
pub monotone_from : ℕ → List ℕ → List ℕ
monotone_from prev [] = []
monotone_from prev (x ∷ s) = let x' = if ltb x prev then prev else x in x' ∷ monotone_from x' s

pub monotone : List ℕ → List ℕ
monotone [] = []
monotone (x ∷ s) = x ∷ monotone_from x s

-- `pmonotone`: one pass for each count of the symmetry. A pass over two items or more reads the last.
pub pmonotone : List ℕ → List ℕ → Result (List ℕ)
pmonotone s [] = ok s
pmonotone s (n ∷ sy) =
    if ltb (length s) n && ltb 1 n
    then err Error.out_of_range
    else (do rest ← pmonotone (drop n s) sy; ok (monotone (take n s) ++ rest))

unfoldable pub prefix_length_from : ℕ → List ℕ → ℕ
prefix_length_from first [] = 0
prefix_length_from first (x ∷ s) = elim (x == first) [
  | true ↦ suc (prefix_length_from first s)
  | false ↦ 0
]

-- `getPrefixLength`, which is 1 on the empty sequence.
unfoldable pub get_prefix_length : List ℕ → ℕ
get_prefix_length [] = 1
get_prefix_length (x ∷ s) = suc (prefix_length_from x s)

-- `getMax`; `none` is the least value of `int`.
pub get_max : List ℕ → Option ℕ
get_max [] = none
get_max (x ∷ s) = elim (get_max s) [ none ↦ some x | some m ↦ some (max x m) ]

-- `add(i)` for a number that is not negative, and `add(-m)` for items that are `m` or more.
pub add : ℕ → List ℕ → List ℕ
add i [] = []
add i (x ∷ s) = (x + i) ∷ add i s

unfoldable pub subtract : ℕ → List ℕ → Result (List ℕ)
subtract m [] = ok []
subtract m (x ∷ s) =
    if ltb x m then err Error.internal else (do rest ← subtract m s; ok ((x - m) ∷ rest))

-- `add(f, s)`
pub add_scaled : ℕ → List ℕ → List ℕ → Result (List ℕ)
add_scaled f [] [] = ok []
add_scaled f [] (y ∷ t) = err Error.wrong_length
add_scaled f (x ∷ s) [] = err Error.wrong_length
add_scaled f (x ∷ s) (y ∷ t) = do rest ← add_scaled f s t; ok ((x + f * y) ∷ rest)

pub is_constant_from : ℕ → List ℕ → Bool
is_constant_from first [] = true
is_constant_from first (x ∷ s) = x == first && is_constant_from first s

pub is_constant : List ℕ → Bool
is_constant [] = true
is_constant (x ∷ s) = is_constant_from x s

pub is_sorted_from : ℕ → List ℕ → Bool
is_sorted_from prev [] = true
is_sorted_from prev (x ∷ s) = leb prev x && is_sorted_from x s

pub is_sorted : List ℕ → Bool
is_sorted [] = true
is_sorted (x ∷ s) = is_sorted_from x s

-- `noverseq` on a sequence with first item `x`: the value, the sequence as it is left, and the Pascal
-- triangle.
pub noverseq_from : ℕ → List ℕ → Triangle → Result (ℕ × List ℕ × Triangle)
noverseq_from x [] tr = ok (1, x ∷ [], tr)
noverseq_from x (y ∷ s) tr = do
  total ← plus_int y x
  (b, tr') ← noverk total x tr
  (v, s', tr'') ← noverseq_from total s tr'
  p ← times_int b v
  ok (p, x ∷ s', tr'')

pub noverseq : List ℕ → Triangle → Result (ℕ × List ℕ × Triangle)
noverseq [] tr = ok (1, [], tr)
noverseq (x ∷ s) tr = noverseq_from x s tr
