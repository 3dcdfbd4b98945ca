-- ===== src/Tensor/Tests.antt =====
-- Runs of the index functions, and the theorems at small indices.
use dynare.Base.{ℕ, zero, suc, ◌+◌, ◌≡◌, ◌≢◌, refl, List, [], ◌∷◌, arith, length, replicate, ok}
use dynare.Pascal.{Triangle, initial}
use dynare.Pascal.Noverk.{IsPascal, initial-IsPascal}
use dynare.Pascal.Binomial.{binom}
use dynare.Tensor.Rank.{IsIndex}
use dynare.Tensor.{
  increment, get_offset, decrement, folded_decrement, folded_offset, carry, offset_from, borrow,
  run_start, lower_at,
}
use dynare.Tensor.Carry.{AreBelow, IsStepped}
use dynare.Tensor.Unfolded.{get_offset-increment}
use dynare.Tensor.Borrow.{get_offset-decrement}
use dynare.Tensor.Folded.{HasPlaces}
use dynare.Tensor.Decrement.{
  IsPrevious, folded_decrement-IsPrevious, folded_offset-decrement, decrements,
  folded_offset-decrements,
}

-- Coordinates (0, 2, 2) under the bounds (2, 3, 3): the carry runs to the first coordinate.
increment_run : increment (0 ∷ 2 ∷ 2 ∷ []) (2 ∷ 3 ∷ 3 ∷ []) ≡ 1 ∷ 0 ∷ 0 ∷ []
unfolding increment carry
increment_run = refl

decrement_by_borrow_run : decrement (1 ∷ 0 ∷ 0 ∷ []) (2 ∷ 3 ∷ 3 ∷ []) ≡ ok (0 ∷ 2 ∷ 2 ∷ [])
unfolding decrement borrow
decrement_by_borrow_run = refl

folded_decrement_run : folded_decrement (0 ∷ 2 ∷ 2 ∷ []) 4 ≡ ok (0 ∷ 1 ∷ 3 ∷ [])
unfolding folded_decrement run_start lower_at
folded_decrement_run = refl

below_bounds : AreBelow (0 ∷ 2 ∷ 2 ∷ []) (2 ∷ 3 ∷ 3 ∷ [])
below_bounds zero h = omega arith
below_bounds (suc zero) h = omega arith
below_bounds (suc (suc zero)) h = omega arith
below_bounds (suc (suc (suc j))) h = absurd (omega arith)

get_offset-increment_example :
    (get_offset (increment (0 ∷ 2 ∷ 2 ∷ []) (2 ∷ 3 ∷ 3 ∷ [])) (2 ∷ 3 ∷ 3 ∷ [])
      ≡ get_offset (0 ∷ 2 ∷ 2 ∷ []) (2 ∷ 3 ∷ 3 ∷ []) + 1)
    × IsStepped (increment (0 ∷ 2 ∷ 2 ∷ []) (2 ∷ 3 ∷ 3 ∷ [])) (2 ∷ 3 ∷ 3 ∷ [])
get_offset-increment_example =
    get_offset-increment (0 ∷ 2 ∷ 2 ∷ []) (2 ∷ 3 ∷ 3 ∷ []) refl (omega arith) below_bounds

get_offset-decrement_example :
    (w : List ℕ) × (decrement (1 ∷ 0 ∷ 0 ∷ []) (2 ∷ 3 ∷ 3 ∷ []) ≡ ok w)
    × (length w ≡ 3)
    × (get_offset w (2 ∷ 3 ∷ 3 ∷ []) + 1 ≡ get_offset (1 ∷ 0 ∷ 0 ∷ []) (2 ∷ 3 ∷ 3 ∷ []))
get_offset-decrement_example =
    get_offset-decrement (1 ∷ 0 ∷ 0 ∷ []) (2 ∷ 3 ∷ 3 ∷ []) (omega arith) refl
      (unfold get_offset offset_from in omega arith)

abbrev index_022 : List ℕ
index_022 = 0 ∷ 2 ∷ 2 ∷ []

index_022-IsIndex : IsIndex 0 4 index_022
index_022-IsIndex = omega arith

index_022-ne-zeros : index_022 ≢ replicate 3 0
index_022-ne-zeros e = cc

places_022 : HasPlaces 2 4 4 3
unfolding binom
places_022 = (omega arith, omega arith, omega arith)

folded_offset-decrements_example :
    (o : ℕ) × (tr' : Triangle) × (folded_offset index_022 4 initial ≡ ok (o, tr'))
    × (decrements o 4 index_022 ≡ ok (0 ∷ 0 ∷ 0 ∷ []))
    × IsPascal 2 4 tr'
folded_offset-decrements_example =
    folded_offset-decrements 2 4 4 index_022 initial places_022 index_022-IsIndex
      (initial-IsPascal 2 4)

folded_decrement-IsPrevious_example :
    (w : List ℕ) × (folded_decrement index_022 4 ≡ ok w) × IsPrevious 0 4 index_022 w
folded_decrement-IsPrevious_example =
    folded_decrement-IsPrevious 4 index_022 index_022-IsIndex index_022-ne-zeros

folded_offset-decrement_example :
    (w : List ℕ) × (folded_decrement index_022 4 ≡ ok w)
    × (o : ℕ) × (tr' : Triangle) × (folded_offset w 4 initial ≡ ok (o, tr'))
    × (tr'' : Triangle) × (folded_offset index_022 4 initial ≡ ok (o + 1, tr''))
folded_offset-decrement_example =
    folded_offset-decrement 2 4 4 index_022 initial places_022 index_022-IsIndex index_022-ne-zeros
      (initial-IsPascal 2 4)
