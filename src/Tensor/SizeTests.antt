-- ===== src/Tensor/SizeTests.antt =====
-- Offsets of a tensor with two derivatives by one of three variables and one by one of two others.
use Prim.Native.Nat.{◌^◌}
use dynare.Base.{List, ℕ, ◌<◌, ◌≡◌, ◌≢◌, refl, [], ◌∷◌, ok, arith}
use dynare.Pascal.{Triangle, initial}
use dynare.Pascal.Binomial.{binom}
use dynare.Pascal.Noverk.{initial-IsPascal}
use dynare.Pascal.Rows.{HasRoom}
use dynare.Sequence.{unfold_by}
use dynare.Tensor.{folded_decrement, lower_at, run_start}
use dynare.Tensor.Multichoose.{multichoose}
use dynare.Tensor.Rank.{IsIndex}
use dynare.Tensor.Dimens.{
  TensorDimens, dimens, calc_fold_offset, calc_fold_max_offset, dimens_decrement, trailing_blocks,
  to_maximum,
}
use dynare.Tensor.Places.{AreBlocks, block, none_left, sizes}
use dynare.Tensor.Blocks.{calc_fold_offset-ne}

abbrev y_y_u : TensorDimens
y_y_u = record { nvs = 3 ∷ 2 ∷ []; sym = 2 ∷ 1 ∷ []; nvmax = 3 ∷ 3 ∷ 2 ∷ [] }

dimens_run : dimens (2 ∷ 1 ∷ []) (3 ∷ 2 ∷ []) ≡ ok y_y_u
unfolding dimens unfold_by
dimens_run = refl

abbrev last_index : List (List ℕ)
last_index = (2 ∷ 2 ∷ []) ∷ (1 ∷ []) ∷ []

abbrev other_index : List (List ℕ)
other_index = (1 ∷ 2 ∷ []) ∷ (0 ∷ []) ∷ []

two_two-IsIndex : IsIndex 0 3 (2 ∷ 2 ∷ [])
two_two-IsIndex = omega arith

one_two-IsIndex : IsIndex 0 3 (1 ∷ 2 ∷ [])
one_two-IsIndex = omega arith

one-IsIndex : IsIndex 0 2 (1 ∷ [])
one-IsIndex = omega arith

zero-IsIndex : IsIndex 0 2 (0 ∷ [])
zero-IsIndex = omega arith

last_index-AreBlocks : AreBlocks 2 4 (3 ∷ 2 ∷ []) last_index
last_index-AreBlocks =
    block two_two-IsIndex (omega arith) (omega arith)
      (block one-IsIndex (omega arith) (omega arith) none_left)

other_index-AreBlocks : AreBlocks 2 4 (3 ∷ 2 ∷ []) other_index
other_index-AreBlocks =
    block one_two-IsIndex (omega arith) (omega arith)
      (block zero-IsIndex (omega arith) (omega arith) none_left)

y_y_u-fits : sizes (3 ∷ 2 ∷ []) (2 ∷ 1 ∷ []) < 2 ^ 31
unfolding multichoose binom
y_y_u-fits = omega arith

small-HasRoom : HasRoom 2 4
unfolding binom
small-HasRoom = omega arith

calc_fold_offset-ne_example :
    (o : ℕ) × (o' : ℕ) × (m : ℕ) × (tr : Triangle) × (tr' : Triangle) × (tr'' : Triangle)
    × (calc_fold_offset y_y_u (2 ∷ 2 ∷ 1 ∷ []) initial ≡ ok (o, tr))
    × (calc_fold_offset y_y_u (1 ∷ 2 ∷ 0 ∷ []) initial ≡ ok (o', tr'))
    × (calc_fold_max_offset y_y_u initial ≡ ok (m, tr''))
    × (o ≢ o')
    × (o < m)
    × (o' < m)
calc_fold_offset-ne_example =
    calc_fold_offset-ne 2 4 small-HasRoom (3 ∷ 2 ∷ []) last_index other_index initial initial
      last_index-AreBlocks other_index-AreBlocks refl (λ e. cc) y_y_u-fits (initial-IsPascal 2 4)
      (initial-IsPascal 2 4)

-- The trailing block of zeros is set to the size of its class, one past the last coordinate.
dimens_decrement_run : dimens_decrement y_y_u (1 ∷ 2 ∷ 0 ∷ []) ≡ ok (1 ∷ 1 ∷ 2 ∷ [])
unfolding dimens_decrement trailing_blocks to_maximum folded_decrement lower_at run_start
dimens_decrement_run = refl
