-- ===== src/Permutation.antt =====
-- Permutations: Permutation of tl/cc/permutation.cc and permutation.hh. A permutation is the sequence
-- `permap` of the places that its items are taken from.
pub mod Inverse
pub mod Sorting
pub mod Sets
pub mod Complete
pub mod Bundle
pub mod Preserving
pub mod SetTests
pub mod Tests
use dynare.Base.{
  ℕ, zero, suc, ◌+◌, ◌-◌, List, [], ◌∷◌, Result, ok, err, Error, ◌>>=◌, length, ◌==◌, ◌&&◌,
  if◌then◌else◌, at, get_or, set,
}
use dynare.Sequence.{insert_at}

-- `permap[i] = i` for `count` places from `i` on.
pub identity_from : ℕ → ℕ → List ℕ
identity_from i zero = []
identity_from i (suc count) = i ∷ identity_from (i + 1) count

pub identity : ℕ → List ℕ
identity len = identity_from 0 len

-- `tar[i] = src[permap[i]]` for each item of `permap`.
pub apply_items : List ℕ → List ℕ → Result (List ℕ)
apply_items [] src = ok []
apply_items (p ∷ permap) src = do x ← at src p; rest ← apply_items permap src; ok (x ∷ rest)

-- `apply(src, tar)` returns the new target.
pub apply : List ℕ → List ℕ → List ℕ → Result (List ℕ)
apply permap src tar =
    if length src == length permap && length tar == length permap
    then apply_items permap src
    else err Error.wrong_length

pub apply_in_place : List ℕ → List ℕ → Result (List ℕ)
apply_in_place permap tar = apply permap tar tar

-- The constructors from two permutations, and from a permutation and a place for a last item.
pub compose : List ℕ → List ℕ → Result (List ℕ)
compose p1 p2 = apply_in_place p1 p2

pub extend : List ℕ → ℕ → Result (List ℕ)
extend p i = insert_at (length p) i p

-- The loop of `inverse` from place `i` on; a place outside the array is not written.
pub inverse_from : ℕ → List ℕ → List ℕ → List ℕ
inverse_from i [] permap = permap
inverse_from i (x ∷ former) permap = inverse_from (i + 1) former (set permap x i)

pub inverse : List ℕ → List ℕ
inverse permap = inverse_from 0 permap permap

-- The loop of `tailIdentity`: the place behind the last item that is not identical.
pub tail_start : ℕ → List ℕ → ℕ
tail_start zero permap = 0
tail_start (suc i) permap =
    let rest = tail_start i permap in if get_or permap i 0 == i then rest else suc i

pub tail_identity : List ℕ → ℕ
tail_identity permap = length permap - tail_start (length permap) permap
