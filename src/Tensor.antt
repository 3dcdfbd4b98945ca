-- ===== src/Tensor.antt =====
-- Indices of tensors: the static methods of UTensor and FTensor in tl/cc/tensor.cc, which step
-- through the coordinates of an unfolded and of a folded tensor and number them.
pub mod Carry
pub mod Unfolded
pub mod Borrow
pub mod Multichoose
pub mod Rank
pub mod Folded
pub mod Decrement
pub mod Dimens
pub mod Sizes
pub mod Apart
pub mod Places
pub mod Blocks
pub mod SizeTests
pub mod Tests
use dynare.Base.{
  ℕ, zero, suc, ◌+◌, ◌-◌, ◌*◌, List, [], ◌∷◌, ◌++◌, Result, ok, err, Error, ◌>>=◌, length, ltb,
  ◌==◌, if◌then◌else◌, get_or, set, replicate, take, drop, true, false,
}
use dynare.Pascal.{Triangle, noverk, plus_int}
use dynare.Sequence.{get_prefix_length, subtract}

-- `v[i]++`
abbrev pub bump : List ℕ → ℕ → List ℕ
bump v i = set v i (get_or v i 0 + 1)

-- The loop of `UTensor::increment(v, nvmx)` from coordinate `i` down.
pub carry : ℕ → List ℕ → List ℕ → List ℕ
carry zero v nvmx = v
carry (suc i) v nvmx =
    let rest = carry i (bump (set v (suc i) 0) i) nvmx in
    if get_or v (suc i) 0 == get_or nvmx (suc i) 0 then rest else v

pub increment : List ℕ → List ℕ → List ℕ
increment [] nvmx = []
increment (x ∷ s) nvmx = let i = length s in carry i (bump (x ∷ s) i) nvmx

-- The same for one bound `nv` on all coordinates: `UTensor::increment(v, nv)`.
pub carry_full : ℕ → List ℕ → ℕ → List ℕ
carry_full zero v nv = v
carry_full (suc i) v nv =
    let rest = carry_full i (bump (set v (suc i) 0) i) nv in
    if get_or v (suc i) 0 == nv then rest else v

pub increment_full : List ℕ → ℕ → List ℕ
increment_full [] nv = []
increment_full (x ∷ s) nv = let i = length s in carry_full i (bump (x ∷ s) i) nv

-- `v[i]--` and the loop of `UTensor::decrement(v, nvmx)`. A coordinate that would become -1 is set to
-- the last one of its range; the leftmost is left at -1, which is the error `before_first`.
pub borrow : ℕ → List ℕ → List ℕ → Result (List ℕ)
borrow zero v nvmx =
    if get_or v 0 0 == 0 then err Error.before_first else ok (set v 0 (get_or v 0 0 - 1))
borrow (suc i) v nvmx =
    let rest = borrow i (set v (suc i) (get_or nvmx (suc i) 0 - 1)) nvmx in
    if get_or v (suc i) 0 == 0 then rest else ok (set v (suc i) (get_or v (suc i) 0 - 1))

pub decrement : List ℕ → List ℕ → Result (List ℕ)
decrement [] nvmx = ok []
decrement (x ∷ s) nvmx = borrow (length s) (x ∷ s) nvmx

-- `UTensor::getOffset(v, nvmx)` behind the result `res`.
pub offset_from : ℕ → List ℕ → List ℕ → ℕ
offset_from res [] nvmx = res
offset_from res (x ∷ v) [] = res
offset_from res (x ∷ v) (n ∷ nvmx) = offset_from (res * n + x) v nvmx

pub get_offset : List ℕ → List ℕ → ℕ
get_offset v nvmx = offset_from 0 v nvmx

pub offset_full_from : ℕ → List ℕ → ℕ → ℕ
offset_full_from res [] nv = res
offset_full_from res (x ∷ v) nv = offset_full_from (res * nv + x) v nv

pub get_offset_full : List ℕ → ℕ → ℕ
get_offset_full v nv = offset_full_from 0 v nv

-- The loop of `FTensor::decrement`: the first place of the run of equal coordinates that ends at `i`.
pub run_start : ℕ → List ℕ → ℕ
run_start zero v = 0
run_start (suc i) v =
    let rest = run_start i v in if get_or v i 0 == get_or v (suc i) 0 then rest else suc i

-- `v[i]--`, and `nv - 1` in all coordinates behind it; at -1 it is the error `before_first`.
pub lower_at : ℕ → List ℕ → ℕ → Result (List ℕ)
lower_at i v nv =
    if get_or v i 0 == 0
    then err Error.before_first
    else ok (take i v ++ (get_or v i 0 - 1) ∷ replicate (length v - suc i) (nv - 1))

-- `FTensor::decrement(v, nv)`; on no coordinates it writes outside the array.
pub folded_decrement : List ℕ → ℕ → Result (List ℕ)
folded_decrement [] nv = err Error.out_of_range
folded_decrement (x ∷ s) nv = lower_at (run_start (length s) (x ∷ s)) (x ∷ s) nv

-- `FTensor::getOffsetRecurse(v, nv)`, on fuel. With a first coordinate above `nv` the source calls
-- `noverk` outside its domain.
pub offset_recurse : ℕ → List ℕ → ℕ → Triangle → Result (ℕ × Triangle)
offset_recurse fuel [] nv tr = ok (0, tr)
offset_recurse zero (m ∷ s) nv tr = err Error.no_fuel
offset_recurse (suc fuel) (m ∷ s) nv tr = elim (ltb nv m) [
  | true ↦ err Error.out_of_range
  | false ↦ do
    let k = length (m ∷ s)
    (a, tr1) ← noverk (nv + k - 1) k tr
    (b, tr2) ← noverk (nv - m + k - 1) k tr1
    subv ← subtract m (drop (get_prefix_length (m ∷ s)) (m ∷ s))
    (s2, tr3) ← offset_recurse fuel subv (nv - m) tr2
    offset ← plus_int (a - b) s2
    ok (offset, tr3)
]

pub folded_offset : List ℕ → ℕ → Triangle → Result (ℕ × Triangle)
folded_offset v nv tr = offset_recurse (length v) v nv tr
