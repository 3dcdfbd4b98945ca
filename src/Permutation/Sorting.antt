-- ===== src/Permutation/Sorting.antt =====
-- The constructor of a permutation from a sequence: computeSortingMap of tl/cc/permutation.cc.
use dynare.Base.{
  ℕ, zero, suc, ◌+◌, ◌≤◌, ◌≡◌, refl, ap, ◌∙◌, List, [], ◌∷◌, Bool, true, false, not, some, Result,
  ok, err, Error, ◌>>=◌, arith, length, ◌==◌, ==_iff, ltb, ◌||◌, ◌&&◌, if◌then◌else◌, Bool-cases,
  inl, inr, at-of, set, get_elem?, replicate,
}
use dynare.Equivalence.Counts.{one_if, count}
use dynare.Permutation.{apply_items, apply}
use dynare.Permutation.Inverse.{NotIn, Places}

-- The place, from `j` on, of the first `x` without a flag; a flag is 1 or 0 in the source.
unfoldable pub find_place : ℕ → List Bool → List ℕ → ℕ → Result ℕ
find_place x [] srt j = err Error.not_found
find_place x (b ∷ flags) [] j = err Error.not_found
find_place x (b ∷ flags) (y ∷ srt) j =
    let rest = find_place x flags srt (j + 1) in if b || not (y == x) then rest else ok j

-- The loop over the sequence: `permap` of the items `s` that are left.
unfoldable pub sorting_from : List ℕ → List Bool → List ℕ → Result (List ℕ)
sorting_from [] flags srt = ok []
sorting_from (x ∷ s) flags srt = do
  j ← find_place x flags srt 0
  rest ← sorting_from s (set flags j true) srt
  ok (j ∷ rest)

-- `sort` is `std::sort`.
unfoldable pub compute_sorting_map : (List ℕ → List ℕ) → List ℕ → Result (List ℕ)
compute_sorting_map sort s = sorting_from s (replicate (length s) false) (sort s)

-- How often `x` stands in `srt` without a flag.
abbrev free : ℕ → List Bool → List ℕ → ℕ
free x [] srt = 0
free x (b ∷ flags) [] = 0
free x (b ∷ flags) (y ∷ srt) = one_if (not b && (y == x)) + free x flags srt

abbrev unflagged : ℕ → List Bool → ℕ
unflagged k [] = 0
unflagged zero (b ∷ flags) = one_if (not b)
unflagged (suc k) (b ∷ flags) = unflagged k flags

record Found (x : ℕ) (flags : List Bool) (srt : List ℕ) (i : ℕ) : Type 0 where
  place : ℕ
  returns : find_place x flags srt i ≡ ok (i + place)
  unset : get_elem? flags place ≡ some false
  item : get_elem? srt place ≡ some x

find_place-finds :
    (x : ℕ) (flags : List Bool) (srt : List ℕ) (i : ℕ) → 1 ≤ free x flags srt → Found x flags srt i
unfolding find_place
find_place-finds x [] srt i h = absurd (omega arith)
find_place-finds x (b ∷ flags) [] i h = absurd (omega arith)
find_place-finds x (b ∷ flags) (y ∷ srt) i h = elim (Bool-cases (b || not (y == x))) [
  | inl q ↦
      let r = find_place-finds x flags srt (i + 1) (ground arith) in
      let e : i + 1 + r.place ≡ i + suc r.place = omega arith in
      record {
        place = suc r.place;
        returns = rw (q, r.returns, e) refl;
        unset = r.unset;
        item = r.item;
      }
  | inr q ↦
      let e : i ≡ i + 0 = omega arith in
      let b' : b ≡ false = ground arith in
      let y' : y ≡ x = ground arith in
      record { place = 0; returns = rw q (ground arith); unset = rw b' refl; item = rw y' refl }
]

free-set :
    (x y j : ℕ) (flags : List Bool) (srt : List ℕ)
    → get_elem? flags j ≡ some false
    → get_elem? srt j ≡ some x
    → free y flags srt ≡ one_if (x == y) + free y (set flags j true) srt
free-set x y j [] srt h k = cc
free-set x y j (b ∷ flags) [] h k = cc
free-set x y zero (b ∷ flags) (z ∷ srt) h k =
    let b' : b ≡ false = cc in let z' : z ≡ x = cc in rw (b', z') (omega arith)
free-set x y (suc j) (b ∷ flags) (z ∷ srt) h k = omega (arith, free-set x y j flags srt h k)

unflagged-set :
    (k j : ℕ) (flags : List Bool)
    → get_elem? flags j ≡ some false
    → unflagged k flags ≡ one_if (j == k) + unflagged k (set flags j true)
unflagged-set k j [] h = cc
unflagged-set zero zero (b ∷ flags) h = let b' : b ≡ false = cc in rw b' refl
unflagged-set zero (suc j) (b ∷ flags) h = ground arith
unflagged-set (suc k) zero (b ∷ flags) h = ground arith
unflagged-set (suc k) (suc j) (b ∷ flags) h = ground (arith, unflagged-set k j flags h)

record Sorted (s : List ℕ) (flags : List Bool) (srt : List ℕ) : Type 0 where
  permap : List ℕ
  returns : sorting_from s flags srt ≡ ok permap
  size : length permap ≡ length s
  applied : apply_items permap srt ≡ ok s
  once : (k : ℕ) → count k permap ≤ unflagged k flags

sorting_from-sorts :
    (s : List ℕ) (flags : List Bool) (srt : List ℕ)
    → ((x : ℕ) → count x s ≤ free x flags srt)
    → Sorted s flags srt
unfolding sorting_from apply_items
sorting_from-sorts [] flags srt h = record {
  permap = [];
  returns = refl;
  size = refl;
  applied = refl;
  once = λ k. omega arith;
}
sorting_from-sorts (x ∷ s) flags srt h =
    let f = find_place-finds x flags srt 0 (ground (arith, h x)) in
    let first : find_place x flags srt 0 ≡ ok f.place = f.returns ∙ ap ok (omega arith) in
    let r =
      sorting_from-sorts s (set flags f.place true) srt
        (λ y. omega (arith, h y, free-set x y f.place flags srt f.unset f.item)) in
    record {
      permap = f.place ∷ r.permap;
      returns = rw (first, r.returns) refl;
      size = omega (arith, r.size);
      applied = rw (at-of srt f.place x f.item, r.applied) refl;
      once = λ k. omega (arith, r.once k, unflagged-set k f.place flags f.unset);
    }

free-replicate :
    (x n : ℕ) (srt : List ℕ) → length srt ≡ n → free x (replicate n false) srt ≡ count x srt
free-replicate x zero [] h = refl
free-replicate x zero (y ∷ srt) h = absurd (omega arith)
free-replicate x (suc n) [] h = absurd (omega arith)
free-replicate x (suc n) (y ∷ srt) h = omega (arith, free-replicate x n srt (omega arith))

unflagged-replicate : (k n : ℕ) → unflagged k (replicate n false) ≡ one_if (ltb k n)
unflagged-replicate k zero = ground arith
unflagged-replicate zero (suc n) = ground arith
unflagged-replicate (suc k) (suc n) = ground (arith, unflagged-replicate k n)

NotIn-of : (x : ℕ) (p : List ℕ) → count x p ≡ 0 → NotIn x p
NotIn-of x [] h = tt
NotIn-of x (y ∷ p) h = (λ e. ground arith, NotIn-of x p (omega arith))

-- Each place below `n` at most once.
pub Places-of : (n : ℕ) (p : List ℕ) → ((k : ℕ) → count k p ≤ one_if (ltb k n)) → Places n p
Places-of n [] h = tt
Places-of n (x ∷ p) h = (
  ground (arith, h x),
  NotIn-of x p (ground (arith, h x)),
  Places-of n p (λ k. omega (arith, h k)),
)

-- What the map needs of `std::sort`: it permutes the items.
pub record Permutes (sort : List ℕ → List ℕ) : Type 0 where
  pub same_items : (s : List ℕ) (x : ℕ) → count x (sort s) ≡ count x s
  pub same_length : (s : List ℕ) → length (sort s) ≡ length s

-- For a sort that permutes the items the map is computed without an error: it is a permutation of the
-- places of the sequence, and applied to the sorted sequence it gives the sequence back.
pub compute_sorting_map-applies :
    (sort : List ℕ → List ℕ)
    → Permutes sort
    → (s : List ℕ)
    → (permap : List ℕ) × (compute_sorting_map sort s ≡ ok permap)
      × (length permap ≡ length s)
      × Places (length s) permap
      × (apply permap (sort s) s ≡ ok s)
unfolding compute_sorting_map apply
compute_sorting_map-applies sort w s =
    let r = sorting_from-sorts s (replicate (length s) false) (sort s) (λ x.
      omega (arith, w.same_items s x, free-replicate x (length s) (sort s) (w.same_length s))) in
    let e : (length (sort s) == length r.permap) ≡ true =
      (==_iff _ _).1 (omega (arith, w.same_length s, r.size)) in
    let f : (length s == length r.permap) ≡ true = (==_iff _ _).1 (omega (arith, r.size)) in
    (
      r.permap,
      r.returns,
      r.size,
      Places-of (length s) r.permap
          (λ k. omega (arith, r.once k, unflagged-replicate k (length s))),
      rw (e, f) r.applied,
    )
