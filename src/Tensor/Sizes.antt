-- ===== src/Tensor/Sizes.antt =====
-- The sizes of folded tensors with full symmetry, and that places stay below them.
use dynare.Base.{
  ℕ, zero, suc, ◌+◌, ◌-◌, ◌≤◌, ◌≡◌, refl, sym, ap, ◌∙◌, true, false, ok, arith, ltb, ◌==◌,
}
use dynare.Pascal.{Triangle}
use dynare.Pascal.Binomial.{binom, binom-zero}
use dynare.Pascal.Noverk.{IsPascal, noverk-binom}
use dynare.Tensor.Multichoose.{multichoose, multichoose-zero}
use dynare.Tensor.Rank.{multichoose_nothing, multichoose-binom, choices-IsInside}
use dynare.Pascal.Rows.{HasRoom}
use dynare.Tensor.Dimens.{calc_max_offset}

-- `calcMaxOffset` counts the increasing indices.
pub calc_max_offset-multichoose :
    (K S : ℕ)
    → HasRoom K S
    → (nvar d : ℕ) (pt : Triangle) → nvar + d ≤ S + 3
    → d ≤ K + 1
    → IsPascal K S pt
    → (pt' : Triangle) × (calc_max_offset nvar d pt ≡ ok (multichoose nvar d, pt'))
      × IsPascal K S pt'
unfolding calc_max_offset
calc_max_offset-multichoose K S room zero zero pt a h q = (pt, rw (multichoose_nothing 0) refl, q)
calc_max_offset-multichoose K S room zero (suc d) pt a h q =
    let test : (suc d == 0) ≡ false = ground arith in
    let test' : ltb 0 (suc d) ≡ true = ground arith in
    (pt, rw (multichoose-zero d, test, test') refl, q)
calc_max_offset-multichoose K S room (suc n) zero pt a h q =
    let inside = choices-IsInside K S (suc n) 0 (omega arith) a h in
    let (pt', e, q') = noverk-binom K S room (suc n + 0 - 1) 0 pt inside q in
    let test : (suc n == 0) ≡ false = ground arith in
    let value : binom (suc n + 0 - 1) 0 ≡ multichoose (suc n) 0 =
      binom-zero (suc n + 0 - 1) ∙ sym (multichoose_nothing (suc n)) in
    (pt', rw test (e ∙ ap (λ m. ok (m, pt')) value), q')
calc_max_offset-multichoose K S room (suc n) (suc d) pt a h q =
    let inside = choices-IsInside K S (suc n) (suc d) (omega arith) a h in
    let (pt', e, q') = noverk-binom K S room (suc n + suc d - 1) (suc d) pt inside q in
    let test : (suc n == 0) ≡ false = ground arith in
    (pt', rw test (e ∙ ap (λ m. ok (m, pt')) (multichoose-binom (suc n) d)), q')
