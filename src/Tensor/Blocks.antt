-- ===== src/Tensor/Blocks.antt =====
-- Offsets of tensors with a general symmetry: `calcFoldOffset` and `calcFoldMaxOffset` of TensorDimens in
-- tl/cc/gs_tensor.cc.
use Prim.Native.Nat.{◌^◌}
use mathlib.Core.List.{append_assoc, append-nil}
use dynare.Base.{
  ℕ, zero, suc, ◌+◌, ◌-◌, ◌*◌, ◌<◌, ◌≤◌, ◌≡◌, ◌≢◌, refl, sym, ap, ◌∙◌, subst, List, [], ◌∷◌, ◌++◌,
  true, false, some, ok, arith, length, length-append, ltb, ◌==◌, ==_iff, ◌&&◌, at-of, get_elem?,
  take, drop, replicate, length-replicate,
}
use dynare.IntPower.Bounds.{times_int-fits}
use dynare.Pascal.{Triangle, noverk}
use dynare.Pascal.Noverk.{IsPascal, noverk-binom}
use dynare.Pascal.Rows.{HasRoom, plus_int_of}
use dynare.Sequence.{sum}
use dynare.Tensor.Multichoose.{multichoose}
use dynare.Tensor.Rank.{rank, IsIndex, multichoose-binom, multichoose_nothing, choices-IsInside}
use dynare.Tensor.Folded.{folded_offset-rank}
use dynare.Tensor.Places.{
  AreBlocks, none_left, block, lengths, joined, spread, classes, sizes, place, rank_below,
  combined_lt, place-lt, place_injective,
}
use dynare.Tensor.Sizes.{calc_max_offset-multichoose}
use dynare.Tensor.Dimens.{
  fold_max_from, calc_fold_max_offset, fold_block, fold_blocks, calc_fold_offset,
}

-- Reading a block behind a prefix.
take_block : (c v : List ℕ) → take (length c) (c ++ v) ≡ c
take_block [] v = refl
take_block (x ∷ c) v = ap (◌∷◌ x) (take_block c v)

drop_prefix : (p v : List ℕ) → drop (length p) (p ++ v) ≡ v
drop_prefix [] v = refl
drop_prefix (x ∷ p) v = drop_prefix p v

get_behind : (p v : List ℕ) (x : ℕ) → get_elem? (p ++ x ∷ v) (length p) ≡ some x
get_behind [] v x = refl
get_behind (y ∷ p) v x = get_behind p v x

shrink : (b v m : ℕ) → 1 ≤ b → b * v < m → v < m
shrink zero v m h l = absurd (omega arith)
shrink (suc b) v m h l = omega (arith)

module _ (K S : ℕ) (room : HasRoom K S) where
  -- One block `c` behind `p`, with the offset `res` of what follows it.
  fold_block-next :
      (n : ℕ) (c p pn nvmax v : List ℕ) (res pow : ℕ) (pt : Triangle)
      → IsIndex 0 n c
      → n + length c ≤ S + 3
      → length c ≤ K + 1
      → length p ≡ length pn
      → IsPascal K S pt
      → res < pow
      → multichoose n (length c) * pow < 2 ^ 31
      → (pt' : Triangle) × (fold_block
            (length c)
            (pn ++ (replicate (length c) n ++ nvmax))
            (p ++ (c ++ v))
            (res, pow, length (p ++ c), pt)
          ≡ ok (res + rank 0 n c * pow, multichoose n (length c) * pow, length p, pt'))
        × IsPascal K S pt'
  unfolding fold_block rank
  fold_block-next n [] p pn nvmax v res pow pt i a b e q h big =
      let same : length (p ++ []) ≡ length p = ap length (append-nil p) in
      let product : multichoose n 0 * pow ≡ pow = rw (multichoose_nothing n) (omega arith) in
      let offset : res + 0 * pow ≡ res = omega arith in (pt, rw (product, same, offset) refl, q)
  fold_block-next n (x ∷ s) p pn nvmax v res pow pt i a b e q h big =
      let c = x ∷ s in
      let d = length c in
      let total : length (p ++ c) ≡ length p + d = length-append p c in
      let test : (d == 0) ≡ false = ground arith in
      let test' : ltb (length (p ++ c)) d ≡ false = ground (arith, total) in
      let start : length (p ++ c) - d ≡ length p = omega (arith, total) in
      let read : get_elem? (pn ++ (replicate d n ++ nvmax)) (length p) ≡ some n =
        rw e (get_behind pn (replicate (length s) n ++ nvmax) n) in
      let (pt1, f, q1) = folded_offset-rank K S n c pt (room, a, b) i q in
      let (pt2, g, q2) = calc_max_offset-multichoose K S room n d pt1 a b q1 in
      let width : length (p ++ c) - length p ≡ d = omega (arith, total) in
      let sub : take (length (p ++ c) - length p) (drop (length p) (p ++ (c ++ v))) ≡ c =
        rw (width, drop_prefix p (c ++ v)) (take_block c v) in
      let small = combined_lt res (rank 0 n c) pow (multichoose n d) h (rank_below n c i) in
      let turned : pow * multichoose n d ≡ multichoose n d * pow = omega arith in
      let part = times_int-fits (rank 0 n c) pow (unfold rank in omega (arith, small, big)) in
      let all = times_int-fits pow (multichoose n d) (omega (arith, turned, big)) in
      let added =
        plus_int_of res (rank 0 n c * pow) _ refl (unfold rank in omega (arith, small, big)) in
      (
        pt2,
        rw (test, test', start, at-of (pn ++ (replicate d n ++ nvmax)) (length p) n read, sub, f, g)
            (rw (part, added, all)
              (ap (λ m. ok (res + rank 0 n c * pow, m, length p, pt2)) turned)),
        q2,
      )

  fold_blocks-place :
      {nvs : List ℕ} {cs : List (List ℕ)}
      → AreBlocks K S nvs cs
      → (p pn : List ℕ) (pt : Triangle) → length p ≡ length pn
      → IsPascal K S pt
      → sizes nvs (lengths cs) < 2 ^ 31
      → (pt' : Triangle) × (fold_blocks
            (lengths cs)
            (pn ++ spread nvs (lengths cs))
            (p ++ joined cs)
            pt
          ≡ ok (place nvs cs, sizes nvs (lengths cs), length p, pt'))
        × IsPascal K S pt'
  unfolding fold_blocks place
  fold_blocks-place none_left p pn pt e q big =
      let same : length (p ++ []) ≡ length p = ap length (append-nil p) in (pt, rw same refl, q)
  fold_blocks-place (block {n} {nvs} {c} {cs} i a b d) p pn pt e q big =
      let k = length c in
      let below = rank_below n c i in
      let rest =
        shrink (multichoose n k) (sizes nvs (lengths cs)) (2 ^ 31) (omega (arith, below)) big in
      let size : length (p ++ c) ≡ length (pn ++ replicate k n) =
        omega (arith, length-append p c, length-append pn (replicate k n), length-replicate k n) in
      let (pt1, f, q1) = fold_blocks-place d (p ++ c) (pn ++ replicate k n) pt size q rest in
      let moved : fold_blocks (lengths cs) (pn ++ (replicate k n ++ spread nvs (lengths cs)))
            (p ++ (c ++ joined cs)) pt
          ≡ ok (place nvs cs, sizes nvs (lengths cs), length (p ++ c), pt1) =
        rw
          (
            sym (append_assoc pn (replicate k n) (spread nvs (lengths cs))),
            sym (append_assoc p c (joined cs)),
          )
          f in
      let (pt2, g, q2) =
        fold_block-next n c p pn (spread nvs (lengths cs)) (joined cs) (place nvs cs)
          (sizes nvs (lengths cs)) pt1 i a b e q1 (place-lt d) big in
      (pt2, rw moved g, q2)

  fold_max_from-sizes :
      {nvs : List ℕ} {cs : List (List ℕ)}
      → AreBlocks K S nvs cs
      → (res : ℕ) (pt : Triangle) → IsPascal K S pt
      → res * sizes nvs (lengths cs) < 2 ^ 31
      → (pt' : Triangle) × (fold_max_from res nvs (lengths cs) pt
          ≡ ok (res * sizes nvs (lengths cs), pt'))
        × IsPascal K S pt'
  unfolding fold_max_from
  fold_max_from-sizes none_left res pt q big = (pt, ap (λ m. ok (m, pt)) (omega arith), q)
  fold_max_from-sizes (block {n} {nvs} {c = []} {cs} i a b d) res pt q big =
      let rest = sizes nvs (lengths cs) in
      let e : res * (multichoose n 0 * rest) ≡ res * rest =
        rw (multichoose_nothing n) (omega arith) in
      let (pt', f, q') = fold_max_from-sizes d res pt q (omega (arith, e, big)) in
      let test : (n == 0 && ltb 0 0) ≡ false = ground arith in
      (pt', rw test (f ∙ ap (λ m. ok (m, pt')) (sym e)), q')
  fold_max_from-sizes (block {n} {nvs} {c = x ∷ s} {cs} i a b d) res pt q big =
      let k = suc (length s) in
      let m = multichoose n k in
      let rest = sizes nvs (lengths cs) in
      let inside = choices-IsInside K S n k (omega arith) a b in
      let (pt1, f, q1) = noverk-binom K S room (n + k - 1) k pt inside q in
      let g : noverk (n + k - 1) k pt ≡ ok (m, pt1) =
        f ∙ ap (λ j. ok (j, pt1)) (multichoose-binom n (length s)) in
      let e : res * m * rest ≡ res * (m * rest) = omega arith in
      let e' : rest * (res * m) ≡ res * (m * rest) = omega arith in
      let fits =
        shrink rest (res * m) (2 ^ 31) (omega (arith, place-lt d)) (omega (arith, e', big)) in
      let (pt2, h, q2) = fold_max_from-sizes d (res * m) pt1 q1 (omega (arith, e, big)) in
      let test : (n == 0 && ltb 0 k) ≡ false = ground arith in
      let test' : ltb 0 k ≡ true = ground arith in
      (pt2, rw (test, test', g) (rw (times_int-fits res m fits) (h ∙ ap (λ j. ok (j, pt2)) e)), q2)

joined-length :
    {K S : ℕ} {nvs : List ℕ} {cs : List (List ℕ)}
    → AreBlocks K S nvs cs
    → length (joined cs) ≡ sum (lengths cs)
unfolding sum
joined-length none_left = refl
joined-length (block {c} {cs} i a b d) = omega (arith, joined-length d, length-append c (joined cs))

calc_fold_offset-place :
    (K S : ℕ)
    → HasRoom K S
    → {nvs : List ℕ} {cs : List (List ℕ)} → AreBlocks K S nvs cs
    → sizes nvs (lengths cs) < 2 ^ 31
    → (pt : Triangle) → IsPascal K S pt
    → (pt' : Triangle) × (calc_fold_offset (classes nvs (lengths cs)) (joined cs) pt
        ≡ ok (place nvs cs, pt'))
unfolding calc_fold_offset
calc_fold_offset-place K S room {cs} d big pt q =
    let (pt', f, q') = fold_blocks-place K S room d [] [] pt refl q big in
    let test : (length (joined cs) == sum (lengths cs)) ≡ true = (==_iff _ _).1 (joined-length d) in
    (pt', rw (test, f) refl)

-- Where a triangle with K + 1 rows of S + 1 items fits in `int` and has room for the sizes of the
-- classes, and the number of indices fits in `int`, calcFoldOffset gives two different indices of the
-- same symmetry, each of increasing coordinates below the size of the class in each block, two different
-- offsets, both below what calcFoldMaxOffset returns; no sum or product overflows.
pub calc_fold_offset-ne :
    (K S : ℕ)
    → HasRoom K S
    → (nvs : List ℕ) (cs cs' : List (List ℕ)) (pt pt' : Triangle) → AreBlocks K S nvs cs
    → AreBlocks K S nvs cs'
    → lengths cs ≡ lengths cs'
    → cs ≢ cs'
    → sizes nvs (lengths cs) < 2 ^ 31
    → IsPascal K S pt
    → IsPascal K S pt'
    → (o : ℕ) × (o' : ℕ) × (m : ℕ) × (tr : Triangle) × (tr' : Triangle) × (tr'' : Triangle)
      × (calc_fold_offset (classes nvs (lengths cs)) (joined cs) pt ≡ ok (o, tr))
      × (calc_fold_offset (classes nvs (lengths cs)) (joined cs') pt' ≡ ok (o', tr'))
      × (calc_fold_max_offset (classes nvs (lengths cs)) pt ≡ ok (m, tr''))
      × (o ≢ o')
      × (o < m)
      × (o' < m)
unfolding calc_fold_max_offset
calc_fold_offset-ne K S room nvs cs cs' pt pt' d d' l ne big q q' =
    let (tr, f) = calc_fold_offset-place K S room d big pt q in
    let (tr', g) =
      calc_fold_offset-place K S room d' (subst (λ t. sizes nvs t < 2 ^ 31) l big) pt' q' in
    let all : 1 * sizes nvs (lengths cs) ≡ sizes nvs (lengths cs) = omega arith in
    let (tr'', h, q'') = fold_max_from-sizes K S room d 1 pt q (omega (arith, all, big)) in
    let below' = subst (λ t. place nvs cs' < sizes nvs t) (sym l) (place-lt d') in
    (
      place nvs cs,
      place nvs cs',
      1 * sizes nvs (lengths cs),
      tr,
      tr',
      tr'',
      f,
      rw l g,
      h,
      λ e. ne (place_injective d d' l e),
      omega (arith, place-lt d, all),
      omega (arith, below', all),
    )
