-- ===== src/Sequence/Runs.antt =====
-- Runs of equal items: `getSymmetry` counts them, and `unfold` restores the sequence from them.
use native.Mathlib.Nat.{suc-add}
use mathlib.Core.List.{append_assoc}
use dynare.Base.{
  ℕ, zero, suc, ◌+◌, ◌≡◌, refl, ap, ◌∙◌, List, [], ◌∷◌, ◌++◌, arith, ◌==◌, ==_iff, Bool-cases, inl,
  inr, length, replicate, ok, if◌then◌else◌, length-append,
}
use dynare.Sequence.{
  bump, count_runs, num_distinct_from, get_num_distinct, get_symmetry, unfold_by, sum,
}

-- The lengths of the runs of a sequence behind `c` items `prev`.
abbrev pub runs_from : ℕ → ℕ → List ℕ → List ℕ
runs_from prev c [] = c ∷ []
runs_from prev c (x ∷ s) = if x == prev then runs_from x (c + 1) s else c ∷ runs_from x 1 s

-- The first items of the runs.
abbrev pub heads_from : ℕ → List ℕ → List ℕ
heads_from prev [] = []
heads_from prev (x ∷ s) = if x == prev then heads_from x s else x ∷ heads_from x s

abbrev pub heads : List ℕ → List ℕ
heads [] = []
heads (x ∷ s) = x ∷ heads_from x s

abbrev zeros : ℕ → List ℕ
zeros n = replicate n 0

bump-append : (d : List ℕ) (c : ℕ) (r : List ℕ) → bump (d ++ c ∷ r) (length d) ≡ d ++ (c + 1) ∷ r
unfolding bump
bump-append [] c r = refl
bump-append (x ∷ d) c r = ap (◌∷◌ x) (bump-append d c r)

length-snoc : (d : List ℕ) (c : ℕ) → length (d ++ c ∷ []) ≡ length d + 1
length-snoc d c = length-append d (c ∷ [])

bump-next :
    (d : List ℕ) (c : ℕ) (n : ℕ)
    → bump (d ++ c ∷ zeros (suc n)) (length d + 1) ≡ (d ++ c ∷ []) ++ 1 ∷ zeros n
bump-next d c n =
    rw (← append_assoc d (c ∷ []) (0 ∷ zeros n), ← length-snoc d c)
      (bump-append (d ++ c ∷ []) 0 (zeros n))

-- The number of runs that begin in `s`.
abbrev new_runs : ℕ → List ℕ → ℕ
new_runs prev s = length (heads_from prev s)

num_distinct_from-new_runs :
    (prev : ℕ) (s : List ℕ) (res : ℕ) → num_distinct_from prev s res ≡ res + new_runs prev s
unfolding num_distinct_from
num_distinct_from-new_runs prev [] res = omega arith
num_distinct_from-new_runs prev (x ∷ s) res =
    ground (arith, num_distinct_from-new_runs x s res, num_distinct_from-new_runs x s (res + 1))

count_runs-runs_from :
    (prev : ℕ) (s d : List ℕ) (c : ℕ)
    → count_runs prev s (length d) (d ++ c ∷ zeros (new_runs prev s)) ≡ d ++ runs_from prev c s
unfolding count_runs
count_runs-runs_from prev [] d c = refl
count_runs-runs_from prev (x ∷ s) d c = elim (Bool-cases (x == prev)) [
  | inl e ↦ rw (e, bump-append d c (zeros (new_runs x s))) (count_runs-runs_from x s d (c + 1))
  | inr e ↦
      rw (e, bump-next d c (new_runs x s), ← length-snoc d c)
        (count_runs-runs_from x s (d ++ c ∷ []) 1 ∙ append_assoc d (c ∷ []) (runs_from x 1 s))
]

get_symmetry-runs : (x : ℕ) (s : List ℕ) → get_symmetry (x ∷ s) ≡ runs_from x 1 s
unfolding get_symmetry get_num_distinct
get_symmetry-runs x s =
    let size : 1 + new_runs x s ≡ suc (new_runs x s) = omega arith in
    rw (num_distinct_from-new_runs x s 1, size) (count_runs-runs_from x s [] 1)

replicate-next : (c x : ℕ) (s : List ℕ) → replicate (c + 1) x ++ s ≡ replicate c x ++ x ∷ s
replicate-next zero x s = refl
replicate-next (suc c) x s = simp (suc-add, ← replicate-next c x s)

unfold_by-runs_from :
    (prev c : ℕ) (s : List ℕ)
    → unfold_by (prev ∷ heads_from prev s) (runs_from prev c s) ≡ ok (replicate c prev ++ s)
unfolding unfold_by
unfold_by-runs_from prev c [] = refl
unfold_by-runs_from prev c (x ∷ s) = elim (Bool-cases (x == prev)) [
  | inl e ↦
      rw (e, ← (==_iff x prev).0 e) (unfold_by-runs_from x (c + 1) s ∙ ap ok (replicate-next c x s))
  | inr e ↦ rw (e, unfold_by-runs_from x 1 s)
]

length-runs_from : (prev c : ℕ) (s : List ℕ) → length (runs_from prev c s) ≡ suc (new_runs prev s)
length-runs_from prev c [] = refl
length-runs_from prev c (x ∷ s) =
    ground (arith, length-runs_from x (c + 1) s, length-runs_from x 1 s)

sum-runs_from : (prev c : ℕ) (s : List ℕ) → sum (runs_from prev c s) ≡ c + length s
unfolding sum
sum-runs_from prev c [] = refl
sum-runs_from prev c (x ∷ s) = ground (arith, sum-runs_from x (c + 1) s, sum-runs_from x 1 s)

num_distinct_lem : (x : ℕ) (s : List ℕ) → suc (new_runs x s) ≡ get_num_distinct (x ∷ s)
unfolding get_num_distinct
num_distinct_lem x s = omega (arith, num_distinct_from-new_runs x s 1)

-- `getSymmetry` returns the lengths of the runs of equal items: it has a count for each distinct
-- neighbour, the counts add up to the length, and `unfold` of the first items of the runs by it is the
-- sequence again.
pub unfold_by-get_symmetry :
    (s : List ℕ)
    → (unfold_by (heads s) (get_symmetry s) ≡ ok s)
      × (length (get_symmetry s) ≡ get_num_distinct s)
      × (sum (get_symmetry s) ≡ length s)
unfold_by-get_symmetry [] = unfold unfold_by get_symmetry get_num_distinct sum in (refl, refl, refl)
unfold_by-get_symmetry (x ∷ s) = rw (get_symmetry-runs x s) (
  unfold_by-runs_from x 1 s,
  length-runs_from x 1 s ∙ num_distinct_lem x s,
  sum-runs_from x 1 s ∙ omega arith,
)
