-- ===== src/Equivalence.antt =====
-- Equivalences on {0, ..., n-1}: OrdSequence, Equivalence, EquivalenceSet and EquivalenceBundle of
-- tl/cc/equivalence.cc and equivalence.hh. A class is the increasing sequence of its items.
pub mod Counts
pub mod Partition
pub mod Glue
pub mod Trace
pub mod Sets
pub mod Grown
pub mod Members
pub mod Tests
use dynare.Base.{
  ℕ, zero, suc, ◌+◌, ◌-◌, ◌*◌, List, [], ◌∷◌, ◌++◌, Bool, true, false, Result, ok, err, Error,
  ◌>>=◌, length, ltb, leb, ◌==◌, ◌&&◌, ◌||◌, if◌then◌else◌, at, set, take,
}
use dynare.Sequence.{sum}

-- `operator==` of OrdSequence: the lengths, then the items.
pub same_items : List ℕ → List ℕ → Bool
same_items [] t = true
same_items (x ∷ s) [] = false
same_items (x ∷ s) (y ∷ t) = x == y && same_items s t

pub same_class : List ℕ → List ℕ → Bool
same_class s t = length s == length t && same_items s t

-- The averages of two classes are compared as the fractions sum / length, cross-multiplied; no class is
-- empty. Of equal averages the one with the larger first item comes first.
pub less_class : List ℕ → List ℕ → Result Bool
less_class [] t = err Error.empty_class
less_class (x ∷ s) [] = err Error.empty_class
less_class (x ∷ s) (y ∷ t) =
    let ta = sum (x ∷ s) * length (y ∷ t) in
    let sa = sum (y ∷ t) * length (x ∷ s) in ok (ltb ta sa || (ta == sa && ltb y x))

-- `add(i)`: in front of the first item that is not smaller, unless it is `i`.
pub add : ℕ → List ℕ → List ℕ
add i [] = i ∷ []
add i (x ∷ s) =
    let rest = add i s in if ltb x i then x ∷ rest else if x == i then x ∷ s else i ∷ x ∷ s

-- `add(s)` to the class `c`.
pub add_all : List ℕ → List ℕ → List ℕ
add_all [] c = c
add_all (x ∷ s) c = add_all s (add x c)

pub has : ℕ → List ℕ → Bool
has i [] = false
has i (x ∷ s) = x == i || has i s

pub record Equivalence : Type 0 where
  pub n : ℕ
  pub classes : List (List ℕ)

-- {i}, {i+1}, ..., `count` classes.
pub singletons_from : ℕ → ℕ → List (List ℕ)
singletons_from zero i = []
singletons_from (suc count) i = add i [] ∷ singletons_from count (i + 1)

pub finest : ℕ → Equivalence
finest num = record { n = num; classes = singletons_from num 0 }

-- The loop that adds i, i+1, ..., `count` items, to the class `s`.
pub add_range : ℕ → ℕ → List ℕ → List ℕ
add_range zero i s = s
add_range (suc count) i s = add_range count (i + 1) (add i s)

-- The constructor with the dummy argument.
pub coarsest : ℕ → Equivalence
coarsest num = record { n = num; classes = add_range num 0 [] ∷ [] }

pub find_having : ℕ → List (List ℕ) → Result (List ℕ)
find_having i [] = err Error.not_found
find_having i (c ∷ cs) = let rest = find_having i cs in if has i c then ok c else rest

-- The class `j`.
unfoldable pub find : ℕ → List (List ℕ) → Result (List ℕ)
find j [] = err Error.not_found
find zero (c ∷ cs) = ok c
find (suc j) (c ∷ cs) = find j cs

pub insert : List ℕ → List (List ℕ) → Result (List (List ℕ))
insert s [] = ok (s ∷ [])
insert s (c ∷ cs) =
    let rest = insert s cs in
    do b ← less_class c s; if b then (do cs' ← rest; ok (c ∷ cs')) else ok (s ∷ c ∷ cs)

-- `classes.erase` of the class `j`.
pub erase : ℕ → List (List ℕ) → List (List ℕ)
erase j [] = []
erase zero (c ∷ cs) = cs
erase (suc j) (c ∷ cs) = c ∷ erase j cs

-- The place of the class `i2` once the class `i1` is erased.
abbrev pub place_behind : ℕ → ℕ → ℕ
place_behind i1 i2 = if ltb i1 i2 then i2 - 1 else i2

-- The constructor that glues the classes `i1` and `i2`.
pub glue : Equivalence → ℕ → ℕ → Result Equivalence
glue e i1 i2 = do
  s1 ← find i1 e.classes
  s2 ← find i2 e.classes
  if i1 == i2 then ok e else do
    cs ← insert (add_all s2 s1) (erase (place_behind i1 i2) (erase i1 e.classes))
    ok (record e { classes = cs })

pub same_classes : List (List ℕ) → List (List ℕ) → Bool
same_classes [] [] = true
same_classes [] (d ∷ ds) = false
same_classes (c ∷ cs) [] = false
same_classes (c ∷ cs) (d ∷ ds) = same_class c d && same_classes cs ds

pub equal : Equivalence → Equivalence → Bool
equal e f = same_classes e.classes f.classes && e.n == f.n

-- The items of a class are written from place `i` on.
pub write_items : ℕ → List ℕ → List ℕ → Result (List ℕ)
write_items i [] out = ok out
write_items i (x ∷ s) out =
    if leb (length out) i then err Error.wrong_length else write_items (i + 1) s (set out i x)

pub trace_from : ℕ → List (List ℕ) → List ℕ → Result (List ℕ)
trace_from i [] out = ok out
trace_from i (c ∷ cs) out = do out' ← write_items i c out; trace_from (i + length c) cs out'

-- `trace(out, num)` of the first `num` classes.
pub trace : List ℕ → ℕ → Equivalence → Result (List ℕ)
trace out num e = trace_from 0 (take num e.classes) out

pub trace_permuted_from : ℕ → List ℕ → List (List ℕ) → List ℕ → Result (List ℕ)
trace_permuted_from i [] cs out = ok out
trace_permuted_from i (p ∷ per) cs out = do
  c ← find p cs
  out' ← write_items i c out
  trace_permuted_from (i + length c) per cs out'

-- `trace(out, per)`
pub trace_permuted : List ℕ → List ℕ → Equivalence → Result (List ℕ)
trace_permuted out per e =
    if length out == e.n
    then (if length per == length e.classes
        then trace_permuted_from 0 per e.classes out
        else err Error.wrong_length)
    else err Error.wrong_length
