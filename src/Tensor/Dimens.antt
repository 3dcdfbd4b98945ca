-- ===== src/Tensor/Dimens.antt =====
-- Indices of fully symmetric tensors, FFSTensor of tl/cc/fs_tensor.cc, and of tensors with a general
-- symmetry, TensorDimens of tl/cc/gs_tensor.cc and gs_tensor.hh.
use dynare.Base.{
  ℕ, zero, suc, ◌+◌, ◌-◌, List, [], ◌∷◌, ◌++◌, Result, ok, err, Error, ◌>>=◌, length, ltb, leb,
  ◌==◌, ◌&&◌, if◌then◌else◌, at, get_or, set, take, drop,
}
use dynare.IntPower.{times_int}
use dynare.Pascal.{Triangle, noverk, plus_int}
use dynare.Sequence.{sum, mult, unfold_by, subsequence, monotone, is_sorted, filled}
use dynare.Tensor.{increment_full, folded_decrement, folded_offset, bump}

-- `FFSTensor::calcMaxOffset`
unfoldable pub calc_max_offset : ℕ → ℕ → Triangle → Result (ℕ × Triangle)
calc_max_offset nvar d tr =
    if nvar == 0 && d == 0
    then ok (1, tr)
    else if nvar == 0 && ltb 0 d
    then ok (0, tr)
    else noverk (nvar + d - 1) d tr

-- `FFSTensor::increment`, with `dimen` coordinates.
unfoldable pub full_increment : ℕ → ℕ → List ℕ → Result (List ℕ)
full_increment dimen nv v =
    if length v == dimen then ok (monotone (increment_full v nv)) else err Error.wrong_length

unfoldable pub full_decrement : ℕ → ℕ → List ℕ → Result (List ℕ)
full_decrement dimen nv v =
    if length v == dimen then folded_decrement v nv else err Error.wrong_length

unfoldable pub full_offset : ℕ → ℕ → List ℕ → Triangle → Result (ℕ × Triangle)
full_offset dimen nv v tr =
    if length v == dimen then folded_offset v nv tr else err Error.wrong_length

pub record TensorDimens : Type 0 where
  pub nvs : List ℕ
  pub sym : List ℕ
  pub nvmax : List ℕ

-- The constructors from a symmetry, and of the fully symmetric case.
unfoldable pub dimens : List ℕ → List ℕ → Result TensorDimens
dimens s nvars = do nvmax ← unfold_by nvars s; ok (record { nvs = nvars; sym = s; nvmax = nvmax })

unfoldable pub full_dimens : ℕ → ℕ → TensorDimens
full_dimens nvar dimen = record { nvs = nvar ∷ []; sym = dimen ∷ []; nvmax = filled dimen nvar }

-- The loop of the slicing constructor.
unfoldable pub slice_from : List ℕ → List ℕ → List ℕ → Result (List ℕ × List ℕ)
slice_from ss [] sym = ok (sym, [])
slice_from ss (c ∷ coor) sym = do
  n ← at ss c
  (sym', nvmax) ← slice_from ss coor (bump sym c)
  ok (sym', n ∷ nvmax)

-- The slicing constructor; without coordinates it reads outside the sequence.
unfoldable pub slice : List ℕ → List ℕ → Result TensorDimens
slice ss [] = err Error.out_of_range
slice ss (c ∷ coor) =
    if is_sorted (c ∷ coor)
    then (if leb (length ss) (get_or (c ∷ coor) (length coor) 0)
        then err Error.out_of_range
        else (do
          (sym, nvmax) ← slice_from ss (c ∷ coor) (filled (length ss) 0)
          ok (record { nvs = ss; sym = sym; nvmax = nvmax })))
    else err Error.wrong_order

unfoldable pub calc_unfold_max_offset : TensorDimens → ℕ
calc_unfold_max_offset td = mult td.nvmax 0 (length td.nvmax)

-- The loop of `calcFoldMaxOffset`, over the sizes and the symmetry.
unfoldable pub fold_max_from : ℕ → List ℕ → List ℕ → Triangle → Result (ℕ × Triangle)
fold_max_from res [] sym tr = ok (res, tr)
fold_max_from res (n ∷ nvs) [] tr = err Error.out_of_range
fold_max_from res (n ∷ nvs) (s ∷ sym) tr =
    if n == 0 && ltb 0 s
    then ok (0, tr)
    else if ltb 0 s
    then (do
      (m, tr') ← noverk (n + s - 1) s tr
      res' ← times_int res m
      fold_max_from res' nvs sym tr')
    else fold_max_from res nvs sym tr

unfoldable pub calc_fold_max_offset : TensorDimens → Triangle → Result (ℕ × Triangle)
calc_fold_max_offset td tr = fold_max_from 1 td.nvs td.sym tr

-- One block of `calcFoldOffset`, which ends before the coordinate `blstart`.
unfoldable pub fold_block :
    ℕ → List ℕ → List ℕ → ℕ × ℕ × ℕ × Triangle → Result (ℕ × ℕ × ℕ × Triangle)
fold_block bldim nvmax v (res, pow, blstart, tr) =
    if bldim == 0
    then ok (res, pow, blstart, tr)
    else if ltb blstart bldim
    then err Error.out_of_range
    else (do
      blnvar ← at nvmax (blstart - bldim)
      (offset, tr1) ← folded_offset (subsequence v (blstart - bldim) blstart) blnvar tr
      (m, tr2) ← calc_max_offset blnvar bldim tr1
      part ← times_int offset pow
      res' ← plus_int res part
      pow' ← times_int pow m
      ok (res', pow', blstart - bldim, tr2))

-- The loop from the last block of the symmetry to the first.
unfoldable pub fold_blocks : List ℕ → List ℕ → List ℕ → Triangle → Result (ℕ × ℕ × ℕ × Triangle)
fold_blocks [] nvmax v tr = ok (0, 1, length v, tr)
fold_blocks (bldim ∷ sym) nvmax v tr = do
  inner ← fold_blocks sym nvmax v tr
  fold_block bldim nvmax v inner

unfoldable pub calc_fold_offset : TensorDimens → List ℕ → Triangle → Result (ℕ × Triangle)
calc_fold_offset td v tr =
    if length v == sum td.sym
    then (do
      (res, pow, blstart, tr') ← fold_blocks td.sym td.nvmax v tr
      if blstart == 0 then ok (res, tr') else err Error.internal)
    else err Error.wrong_length

-- `v[i] = getNVX(i)` for `count` coordinates from `i` on.
unfoldable pub to_maximum : ℕ → ℕ → List ℕ → List ℕ → List ℕ
to_maximum zero i nvmax v = v
to_maximum (suc count) i nvmax v = to_maximum count (i + 1) nvmax (set v i (get_or nvmax i 0))

-- The loop of `decrement` from the block `iblock` back: the sequence, and where the block starts and ends.
unfoldable pub trailing_blocks : ℕ → TensorDimens → ℕ → List ℕ → Result (List ℕ × ℕ × ℕ)
trailing_blocks zero td block_last v = do size ← at td.sym 0; ok (v, block_last - size, block_last)
trailing_blocks (suc iblock) td block_last v = do
  size ← at td.sym (suc iblock)
  let block_first = block_last - size
  let rest = trailing_blocks iblock td block_first (to_maximum size block_first td.nvmax v)
  (if block_last == 0
      then err Error.out_of_range
      else if get_or v (block_last - 1) 0 == 0
      then rest
      else ok (v, block_first, block_last))

-- `vtmp` is a view of the block in `v`.
unfoldable pub dimens_decrement : TensorDimens → List ℕ → Result (List ℕ)
dimens_decrement td v =
    if length td.nvmax == length v
    then (do
      (v', block_first, block_last) ← trailing_blocks (length td.sym - 1) td (length v) v
      n ← at td.nvmax block_first
      block ← folded_decrement (subsequence v' block_first block_last) n
      ok (take block_first v' ++ (block ++ drop block_last v')))
    else err Error.wrong_length
