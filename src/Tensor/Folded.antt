-- ===== src/Tensor/Folded.antt =====
-- The offset of a folded index: `getOffsetRecurse` returns its place among the increasing sequences.
use Prim.Native.Nat.{◌^◌}
use native.Mathlib.Nat.{sub-zero, zero-add}
use dynare.Base.{
  subst, ℕ, zero, suc, ◌+◌, ◌-◌, ◌≤◌, ◌<◌, ◌≡◌, refl, ap, ◌∙◌, List, [], ◌∷◌, arith, length, drop,
  true, false, ◌==◌, ==_iff, ltb, Bool-cases, inl, inr, ok,
}
use dynare.Pascal.{Triangle, noverk}
use dynare.Pascal.Binomial.{binom}
use dynare.Pascal.Noverk.{IsPascal, noverk-binom, binom_lt}
use dynare.Pascal.Rows.{HasRoom, plus_int_of}
use dynare.Tensor.Rank.{
  AllBelow, rank, IsIndex, tail-IsIndex, rank-lt, multichoose-binom, choices-IsInside,
}
use dynare.Sequence.{get_prefix_length, prefix_length_from, subtract}
use dynare.Sequence.Order.{IsSortedFrom}
use dynare.Tensor.{offset_recurse, folded_offset}
use dynare.Tensor.Multichoose.{multichoose}

rest_of : ℕ → List ℕ → List ℕ
rest_of m s = drop (prefix_length_from m s) s

rest_of-same : (m x : ℕ) (s : List ℕ) → (x == m) ≡ true → rest_of m (x ∷ s) ≡ rest_of m s
unfolding rest_of prefix_length_from
rest_of-same m x s e = rw (e, prefix_length_from)

rest_of-other : (m x : ℕ) (s : List ℕ) → (x == m) ≡ false → rest_of m (x ∷ s) ≡ x ∷ s
unfolding rest_of prefix_length_from
rest_of-other m x s e = rw (e, prefix_length_from)

-- Dropping the items that equal the base changes nothing.
record IsRest (m n : ℕ) (s r : List ℕ) : Type 0 where
  index : IsIndex m n r
  size : length r ≤ length s
  same_rank : rank m n r ≡ rank m n s

grow-IsRest : (m n x : ℕ) (s r : List ℕ) → x ≡ m → IsRest m n s r → IsRest m n (x ∷ s) r
unfolding rank
grow-IsRest m n x s r e q = rw e (record {
  index = q.index;
  size = omega (arith, q.size);
  same_rank = q.same_rank ∙ omega arith;
})

rest_of-IsRest : (m n : ℕ) (s : List ℕ) → IsIndex m n s → IsRest m n s (rest_of m s)
unfolding rest_of prefix_length_from
rest_of-IsRest m n [] p = record { index = p; size = omega arith; same_rank = refl }
rest_of-IsRest m n (x ∷ s) p = elim (Bool-cases (x == m)) [
  | inl e ↦ rw (rest_of-same m x s e) (
      grow-IsRest m n x s _ ((==_iff x m).0 e)
        (rest_of-IsRest m n s (rw ((==_iff x m).0 e) at (tail-IsIndex m n x s p))))
  | inr e ↦ rw (rest_of-other m x s e) (record { index = p; size = omega arith; same_rank = refl })
]

-- Taking `m` from every item.
record IsShifted (m n : ℕ) (r r' : List ℕ) : Type 0 where
  sorted : (c : ℕ) → IsSortedFrom (c + m) r → IsSortedFrom c r'
  below : AllBelow (n - m) r'
  size : length r' ≡ length r
  same_rank : (c : ℕ) → rank c (n - m) r' ≡ rank (c + m) n r

subtract-IsShifted :
    (m n b : ℕ) (r : List ℕ)
    → m ≤ b
    → IsIndex b n r
    → (r' : List ℕ) × (subtract m r ≡ ok r') × IsShifted m n r r'
unfolding subtract rank
subtract-IsShifted m n b [] h p =
    ([], refl, record { sorted = λ c q. tt; below = tt; size = refl; same_rank = λ c. refl })
subtract-IsShifted m n b (x ∷ r) h p =
    let (r', e, q) =
      subtract-IsShifted m n x r (omega arith)
        (record { sorted = p.sorted.1; below = p.below.1 }) in
    let test : ltb x m ≡ false = ground arith in
    (
      (x - m) ∷ r',
      rw (test, e),
      record {
        sorted = λ c k.
            (omega arith, q.sorted (x - m) (let t : x - m + m ≡ x = omega arith in rw t k.1));
        below = (omega arith, q.below);
        size = ap suc q.size;
        same_rank = λ c.
            let t : x - m + m ≡ x = omega arith in
            let u : n - m - c ≡ n - (c + m) = omega arith in
            let v : n - m - (x - m) ≡ n - x = omega arith in
            rw (q.size, u, v, q.same_rank (x - m), t);
      },
    )

-- One call, from what the calls in it return.
offset_recurse_step :
    (fuel nv m : ℕ) (s r' : List ℕ) (a b v : ℕ) (tr tr1 tr2 tr3 : Triangle)
    → ltb nv m ≡ false
    → noverk (nv + suc (length s) - 1) (suc (length s)) tr ≡ ok (a, tr1)
    → noverk (nv - m + suc (length s) - 1) (suc (length s)) tr1 ≡ ok (b, tr2)
    → subtract m (drop (get_prefix_length (m ∷ s)) (m ∷ s)) ≡ ok r'
    → offset_recurse fuel r' (nv - m) tr2 ≡ ok (v, tr3)
    → a - b + v < 2 ^ 31
    → offset_recurse (suc fuel) (m ∷ s) nv tr ≡ ok (a - b + v, tr3)
unfolding offset_recurse
offset_recurse_step fuel nv m s r' a b v tr tr1 tr2 tr3 t e1 e2 e3 e4 fits =
    rw (t, offset_recurse)
      (rw (e1, e2, e3, e4) (rw (plus_int_of (a - b) v (a - b + v) refl fits) refl))

-- The bounds of a call: the triangle has room for the numbers of indices that it reads.
abbrev pub HasPlaces : ℕ → ℕ → ℕ → ℕ → Type 0
HasPlaces K S nv k = HasRoom K S × (nv + k ≤ S + 3) × (k ≤ K + 1)

-- Every offset fits in an `int`.
rank_fits :
    (K S nv : ℕ) (s : List ℕ) → HasPlaces K S nv (length s) → IsIndex 0 nv s → rank 0 nv s < 2 ^ 31
unfolding rank
rank_fits K S nv [] h p = omega arith
rank_fits K S nv (m ∷ s) (room, a, b) p =
    let k = suc (length s) in
    let inside = choices-IsInside K S nv k (omega arith) a b in
    let below =
      subst (λ j. rank 0 nv (m ∷ s) < multichoose j k) (sub-zero nv) (rank-lt 0 nv (m ∷ s) p) in
    omega (arith, below, multichoose-binom nv (length s), binom_lt K S (nv + k - 1) k room inside)

pub offset_recurse-rank :
    (fuel K S nv : ℕ) (s : List ℕ) (tr : Triangle)
    → length s ≤ fuel
    → HasPlaces K S nv (length s)
    → IsIndex 0 nv s
    → IsPascal K S tr
    → (tr' : Triangle) × (offset_recurse fuel s nv tr ≡ ok (rank 0 nv s, tr')) × IsPascal K S tr'
unfolding rest_of offset_recurse rank get_prefix_length
offset_recurse-rank fuel K S nv [] tr h places p q = (tr, refl, q)
offset_recurse-rank zero K S nv (m ∷ s) tr h places p q = absurd (omega arith)
offset_recurse-rank (suc fuel) K S nv (m ∷ s) tr h (room, a, b) p q =
    let k = suc (length s) in
    let in1 = choices-IsInside K S nv k (omega arith) a b in
    let (tr1, e1, q1) = noverk-binom K S room (nv + k - 1) k tr in1 q in
    let in2 = choices-IsInside K S (nv - m) k (omega arith) (omega arith) b in
    let (tr2, e2, q2) = noverk-binom K S room (nv - m + k - 1) k tr1 in2 q1 in
    let rest = rest_of-IsRest m nv s (tail-IsIndex 0 nv m s p) in
    let (r', e3, sh) = subtract-IsShifted m nv m (rest_of m s) (omega arith) rest.index in
    let size : length r' ≤ fuel = omega (arith, sh.size, rest.size) in
    let shorter : length r' ≤ length s = omega (arith, sh.size, rest.size) in
    let index : IsIndex 0 (nv - m) r' = record {
      sorted = sh.sorted 0 (rw (zero-add m) rest.index.sorted);
      below = sh.below;
    } in
    let places : HasPlaces K S (nv - m) (length r') =
      (room, omega (arith, shorter), omega (arith, shorter)) in
    let (tr3, e4, q3) = offset_recurse-rank fuel K S (nv - m) r' tr2 size places index q2 in
    let test : ltb nv m ≡ false = ground arith in
    let value : binom (nv + k - 1) k - binom (nv - m + k - 1) k + rank 0 (nv - m) r'
        ≡ rank 0 nv (m ∷ s) =
      rw (
        multichoose-binom nv (length s),
        multichoose-binom (nv - m) (length s),
        sub-zero nv,
        sh.same_rank 0,
        zero-add m,
        rest.same_rank,
      ) in
    let fits = rw (← value) at (rank_fits K S nv (m ∷ s) (room, a, b) p) in
    (
      tr3,
      offset_recurse_step fuel nv m s r' _ _ _ tr tr1 tr2 tr3 test e1 e2 e3 e4 fits
          ∙ ap (λ t. ok (t, tr3)) value,
      q3,
    )

-- The offset of an index is its place.
pub folded_offset-rank :
    (K S nv : ℕ) (v : List ℕ) (tr : Triangle)
    → HasPlaces K S nv (length v)
    → IsIndex 0 nv v
    → IsPascal K S tr
    → (tr' : Triangle) × (folded_offset v nv tr ≡ ok (rank 0 nv v, tr')) × IsPascal K S tr'
unfolding folded_offset
folded_offset-rank K S nv v tr places p q =
    offset_recurse-rank (length v) K S nv v tr (omega arith) places p q
