-- ===== src/Tensor/Decrement.antt =====
-- `FTensor::decrement` steps back to the index just before in the folded storage.
use dynare.Base.{
  ℕ, zero, suc, ◌+◌, ◌-◌, ◌≤◌, ◌<◌, ◌≡◌, ◌≢◌, ◌⊎◌, refl, ap, sym, ◌∙◌, List, [], ◌∷◌, arith, length,
  get_or, replicate, length-replicate, ◌==◌, ==_iff, Bool-cases, inl, inr, Result, ok, false, drop,
  subst, ◌>>=◌,
}
use dynare.Sequence.Order.{IsSortedFrom}
use dynare.Tensor.{run_start, lower_at, folded_decrement, folded_offset}
use dynare.Tensor.Multichoose.{multichoose, multichoose-suc, multichoose-one, multichoose_mono}
use dynare.Pascal.{Triangle}
use dynare.Pascal.Noverk.{IsPascal}
use dynare.Tensor.Rank.{AllBelow, IsIndex, rank}
use dynare.Tensor.Folded.{HasPlaces, folded_offset-rank}

-- The run that ends at place `suc i` of `x ∷ s` takes in `x`, or begins in `s`.
abbrev RunCase : ℕ → ℕ → List ℕ → Type 0
RunCase i x s =
    ((run_start (suc i) (x ∷ s) ≡ 0) × (run_start i s ≡ 0) × (x ≡ get_or s 0 0))
    ⊎ ((run_start (suc i) (x ∷ s) ≡ suc (run_start i s)) × (run_start i s ≡ 0 → x ≢ get_or s 0 0))

run_start-cases : (i x : ℕ) (s : List ℕ) → RunCase i x s
unfolding run_start
run_start-cases zero x s = elim (Bool-cases (x == get_or s 0 0)) [
  | inl e ↦ inl (rw e, refl, (==_iff _ _).0 e)
  | inr e ↦ inr (rw e, λ z. ground arith)
]
run_start-cases (suc i) x s = elim (Bool-cases (get_or s i 0 == get_or s (suc i) 0)) [
  | inl e ↦ rw e (run_start-cases i x s)
  | inr e ↦ rw e (inr (refl, λ z. absurd (omega arith)))
]

run_start-replicate :
    (x : ℕ) (s : List ℕ) → run_start (length s) (x ∷ s) ≡ 0 → s ≡ replicate (length s) x
run_start-replicate x [] e = refl
run_start-replicate x (y ∷ s) e =
    conclude (run_start-cases (length s) x (y ∷ s)) (run_start-replicate y s)
  where
    conclude :
        RunCase (length s) x (y ∷ s)
        → (run_start (length s) (y ∷ s) ≡ 0 → s ≡ replicate (length s) y)
        → y ∷ s ≡ replicate (length (y ∷ s)) x
    conclude (inl c) ih = rw (c.2, ← ih c.1)
    conclude (inr c) ih = absurd (omega (arith, e, c.0))

IsSortedFrom-replicate : (q c d : ℕ) → c ≤ d → IsSortedFrom c (replicate q d)
IsSortedFrom-replicate zero c d h = tt
IsSortedFrom-replicate (suc q) c d h = (h, IsSortedFrom-replicate q d d (omega arith))

AllBelow-replicate : (q c n : ℕ) → c < n → AllBelow n (replicate q c)
AllBelow-replicate zero c n h = tt
AllBelow-replicate (suc q) c n h = (h, AllBelow-replicate q c n h)

rank-replicate_base : (q x n : ℕ) → rank x n (replicate q x) ≡ 0
unfolding rank
rank-replicate_base zero x n = refl
rank-replicate_base (suc q) x n = omega (arith, rank-replicate_base q x n)

multichoose_pos : (n k : ℕ) → 0 < n → 1 ≤ multichoose n k
multichoose_pos n k h =
    let e : n - 1 + 1 ≡ n = omega arith in
    let m : multichoose 1 k ≤ multichoose n k = rw e at (multichoose_mono (n - 1) 1 k) in
    omega (arith, m, multichoose-one k)

-- The last index with items from `c` on stands behind all the others.
rank-replicate_last :
    (q c n : ℕ) → c < n → rank c n (replicate q (n - 1)) + 1 ≡ multichoose (n - c) q
unfolding rank
rank-replicate_last zero c n h = unfold multichoose in refl
rank-replicate_last (suc q) c n h =
    let one : n - (n - 1) ≡ 1 = omega arith in
    rw (one, length-replicate q (n - 1), rank-replicate_base q (n - 1) n, multichoose-one (suc q))
      (omega (arith, multichoose_pos (n - c) (suc q) (omega arith)))

-- The offsets of the two indices of `decrement` on a run `x, …, x` behind the base `b`.
rank-run :
    (b n x q : ℕ)
    → b < x
    → x < n
    → rank b n ((x - 1) ∷ replicate q (n - 1)) + 1 ≡ rank b n (x ∷ replicate q x)
unfolding rank
rank-run b n x q h k =
    let next : n - (x - 1) ≡ suc (n - x) = omega arith in
    let d = n - b - suc (n - x) in
    let base : d + suc (n - x) ≡ n - b = omega arith in
    let mono : multichoose (suc (n - x)) (suc q) ≤ multichoose (n - b) (suc q) =
      rw base at (multichoose_mono d (suc (n - x)) (suc q)) in
    rw (length-replicate q (n - 1), length-replicate q x, rank-replicate_base q x n, next)
      (omega (
        arith,
        mono,
        multichoose-suc (n - x) q,
        multichoose_pos (suc (n - x)) q (omega arith),
        rw next at (rank-replicate_last q (x - 1) n (omega arith)),
      ))

-- A step back that is one in the order of the folded storage.
pub record IsPrevious (b n : ℕ) (s w : List ℕ) : Type 0 where
  pub index : IsIndex b n w
  pub size : length w ≡ length s
  pub same_rank : rank b n w + 1 ≡ rank b n s

Steps : ℕ → ℕ → List ℕ → Result (List ℕ) → Type 0
Steps b n s r = (w : List ℕ) × (r ≡ ok w) × IsPrevious b n s w

lower_at-zero :
    (x : ℕ) (s : List ℕ) (n : ℕ)
    → 0 < x
    → lower_at 0 (x ∷ s) n ≡ ok ((x - 1) ∷ replicate (length s) (n - 1))
unfolding lower_at
lower_at-zero x s n h =
    let test : (x == 0) ≡ false = ground arith in
    let size : suc (length s) - 1 ≡ length s = omega arith in rw (test, size)

lower_at-suc :
    (i x : ℕ) (s w : List ℕ) (n : ℕ)
    → lower_at i s n ≡ ok w
    → lower_at (suc i) (x ∷ s) n ≡ ok (x ∷ w)
unfolding lower_at
lower_at-suc i x s w n e =
    let size : suc (length s) - suc (suc i) ≡ length s - suc i = omega arith in rw size ground arith

decrement_run :
    (b n x : ℕ) (s : List ℕ)
    → b < x
    → IsIndex b n (x ∷ s)
    → s ≡ replicate (length s) x
    → Steps b n (x ∷ s) (lower_at 0 (x ∷ s) n)
unfolding Steps
decrement_run b n x s h p e = (
  (x - 1) ∷ replicate (length s) (n - 1),
  lower_at-zero x s n (omega arith),
  record {
    index = record {
      sorted = (omega arith, IsSortedFrom-replicate (length s) (x - 1) (n - 1) (omega arith));
      below = (omega arith, AllBelow-replicate (length s) (n - 1) n (omega arith));
    };
    size = ap suc (length-replicate (length s) (n - 1));
    same_rank = rank-run b n x (length s) h (omega arith) ∙ ap (λ t. rank b n (x ∷ t)) (sym e);
  },
)

decrement_behind :
    (b n x i : ℕ) (s : List ℕ)
    → IsIndex b n (x ∷ s)
    → Steps x n s (lower_at i s n)
    → Steps b n (x ∷ s) (lower_at (suc i) (x ∷ s) n)
unfolding Steps rank
decrement_behind b n x i s p (w, e, q) = (
  x ∷ w,
  lower_at-suc i x s w n e,
  record {
    index = record { sorted = (p.sorted.0, q.index.sorted); below = (p.below.0, q.index.below) };
    size = ap suc q.size;
    same_rank = rw q.size (omega (arith, q.same_rank));
  },
)

run_start-zero : (v : List ℕ) → run_start 0 v ≡ 0
unfolding run_start
run_start-zero v = refl

decrement-Steps :
    (b n x : ℕ) (s : List ℕ)
    → IsIndex b n (x ∷ s)
    → (run_start (length s) (x ∷ s) ≡ 0 → b < x)
    → Steps b n (x ∷ s) (lower_at (run_start (length s) (x ∷ s)) (x ∷ s) n)
decrement-Steps b n x [] p h =
    rw (run_start-zero (x ∷ [])) (decrement_run b n x [] (h (run_start-zero (x ∷ []))) p refl)
decrement-Steps b n x (y ∷ s) p h =
    conclude (run_start-cases (length s) x (y ∷ s))
      (decrement-Steps x n y s (record { sorted = p.sorted.1; below = p.below.1 }))
  where
    conclude :
        RunCase (length s) x (y ∷ s)
        → ((run_start (length s) (y ∷ s) ≡ 0 → x < y)
            → Steps x n (y ∷ s) (lower_at (run_start (length s) (y ∷ s)) (y ∷ s) n))
        → Steps b n (x ∷ y ∷ s) (lower_at (run_start (suc (length s)) (x ∷ y ∷ s)) (x ∷ y ∷ s) n)
    conclude (inl c) ih =
        rw c.0 (decrement_run b n x (y ∷ s) (h c.0) p (run_start-replicate x (y ∷ s) c.0))
    conclude (inr c) ih = rw c.0 (
        decrement_behind b n x (run_start (length s) (y ∷ s)) (y ∷ s) p
          (ih (λ z. let ne = c.1 z in omega (arith, ne))))

-- For an index of increasing coordinates below `nv` that are not all 0, `decrement` returns an index
-- of the same length whose coordinates increase and stay below `nv`, and whose place in the folded
-- storage is the one just before.
pub folded_decrement-IsPrevious :
    (nv : ℕ) (v : List ℕ)
    → IsIndex 0 nv v
    → v ≢ replicate (length v) 0
    → (w : List ℕ) × (folded_decrement v nv ≡ ok w) × IsPrevious 0 nv v w
unfolding folded_decrement
folded_decrement-IsPrevious nv [] p h = absurd (h refl)
folded_decrement-IsPrevious nv (x ∷ s) p h =
    unfold Steps in decrement-Steps 0 nv x s p (λ z. positive (run_start-replicate x s z) x refl)
  where
    positive : s ≡ replicate (length s) x → (t : ℕ) → x ≡ t → 0 < x
    positive e zero z = absurd (h (rw z (ap (◌∷◌ 0) (e ∙ ap (replicate (length s)) z))))
    positive e (suc t) z = omega arith

-- Where a triangle with K + 1 rows of S + 1 items fits in `int` and has room for the sizes of the
-- tensor, the offsets that `getOffset` computes for such an index and for the one that `decrement`
-- makes of it differ by one.
pub folded_offset-decrement :
    (K S nv : ℕ) (v : List ℕ) (tr : Triangle)
    → HasPlaces K S nv (length v)
    → IsIndex 0 nv v
    → v ≢ replicate (length v) 0
    → IsPascal K S tr
    → (w : List ℕ) × (folded_decrement v nv ≡ ok w)
      × (o : ℕ) × (tr' : Triangle) × (folded_offset w nv tr ≡ ok (o, tr'))
      × (tr'' : Triangle) × (folded_offset v nv tr ≡ ok (o + 1, tr''))
folded_offset-decrement K S nv v tr places p h q =
    let (w, e, prev) = folded_decrement-IsPrevious nv v p h in
    let places' = subst (HasPlaces K S nv) (sym prev.size) places in
    let (tr', e', q') = folded_offset-rank K S nv w tr places' prev.index q in
    let (tr'', e'', q'') = folded_offset-rank K S nv v tr places p q in
    (w, e, rank 0 nv w, tr', e', tr'', e'' ∙ ap (λ t. ok (t, tr'')) (sym prev.same_rank))

-- `decrement` as many times as a number says.
unfoldable pub decrements : ℕ → ℕ → List ℕ → Result (List ℕ)
decrements zero nv v = ok v
decrements (suc count) nv v = do w ← folded_decrement v nv; decrements count nv w

zeros_or : (v : List ℕ) → (v ≡ replicate (length v) 0) ⊎ (v ≢ replicate (length v) 0)
zeros_or [] = inl refl
zeros_or (suc x ∷ s) = inr (λ e. cc)
zeros_or (zero ∷ s) = elim (zeros_or s) [
  | inl e ↦ inl (ap (◌∷◌ 0) e)
  | inr ne ↦ inr (λ e. ne (ap (drop 1) e))
]

rank-decrements :
    (o nv : ℕ) (v : List ℕ)
    → IsIndex 0 nv v
    → rank 0 nv v ≡ o
    → decrements o nv v ≡ ok (replicate (length v) 0)
unfolding decrements
rank-decrements zero nv v p e = elim (zeros_or v) [
  | inl z ↦ ap ok z
  | inr ne ↦
      let (w, f, prev) = folded_decrement-IsPrevious nv v p ne in
      absurd (omega (arith, prev.same_rank, e))
]
rank-decrements (suc o) nv v p e = elim (zeros_or v) [
  | inl z ↦
      let zero_rank = rank-replicate_base (length v) 0 nv in
      absurd (omega (arith, e, rw (← z) at zero_rank))
  | inr ne ↦
      let (w, f, prev) = folded_decrement-IsPrevious nv v p ne in
      rw f (
        rank-decrements o nv w prev.index (omega (arith, prev.same_rank, e))
        ∙ ap (λ k. ok (replicate k 0)) prev.size)
]

-- Where a triangle with K + 1 rows of S + 1 items fits in `int` and has room for the sizes of the
-- tensor, the offset that `getOffset` computes for an index of increasing coordinates below `nv` is the
-- number of calls of `decrement` that lead from it to the index of zeros: no sum overflows, and none of
-- the calls raises an error.
pub folded_offset-decrements :
    (K S nv : ℕ) (v : List ℕ) (tr : Triangle)
    → HasPlaces K S nv (length v)
    → IsIndex 0 nv v
    → IsPascal K S tr
    → (o : ℕ) × (tr' : Triangle) × (folded_offset v nv tr ≡ ok (o, tr'))
      × (decrements o nv v ≡ ok (replicate (length v) 0))
      × IsPascal K S tr'
folded_offset-decrements K S nv v tr places p q =
    let (tr', e, q') = folded_offset-rank K S nv v tr places p q in
    (rank 0 nv v, tr', e, rank-decrements (rank 0 nv v) nv v p refl, q')
