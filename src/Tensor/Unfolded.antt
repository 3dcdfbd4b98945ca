-- ===== src/Tensor/Unfolded.antt =====
-- Stepping through an unfolded tensor: `increment` and `decrement` move the offset by one.
use dynare.Base.{
  ℕ, zero, suc, ◌+◌, ◌*◌, ◌<◌, ◌≡◌, refl, ◌∙◌, List, [], ◌∷◌, arith, length, get_or, set, ◌==◌,
  ==_iff, Bool-cases, inl, inr, length-set,
}
use dynare.Tensor.{bump, carry, increment, offset_from, get_offset}
use dynare.Tensor.Carry.{
  AreBelow, IsStepped, bump-AreBelowBut, carry-IsStepped, offset_from-carry, offset_from-bump_last,
}

module _ (nvmx : List ℕ) where
  offset_from-carry_loop :
      (i : ℕ) (v : List ℕ)
      → length v ≡ length nvmx
      → i < length v
      → offset_from 0 (carry i v nvmx) nvmx ≡ offset_from 0 v nvmx
  unfolding carry
  offset_from-carry_loop zero v l h = refl
  offset_from-carry_loop (suc i) v l h =
      elim (Bool-cases (get_or v (suc i) 0 == get_or nvmx (suc i) 0)) [
        | inl e ↦ rw e (
            offset_from-carry_loop i (bump (set v (suc i) 0) i)
              (length-set (set v (suc i) 0) i _ ∙ length-set v (suc i) 0 ∙ l)
              (rw
                (
                  length-set (set v (suc i) 0) i (get_or (set v (suc i) 0) i 0 + 1),
                  length-set v (suc i) 0,
                )
                (omega arith))
            ∙ offset_from-carry i 0 v nvmx l h ((==_iff _ _).0 e))
        | inr e ↦ rw e
      ]

offset_step :
    (v nvmx : List ℕ)
    → length v ≡ length nvmx
    → 0 < length v
    → get_offset (increment v nvmx) nvmx ≡ get_offset v nvmx + 1
unfolding get_offset increment
offset_step [] nvmx l h = absurd (omega arith)
offset_step (x ∷ s) nvmx l h =
    offset_from-carry_loop nvmx (length s) (bump (x ∷ s) (length s))
      (length-set (x ∷ s) (length s) _ ∙ l)
      (rw (length-set (x ∷ s) (length s) (get_or (x ∷ s) (length s) 0 + 1)) (omega arith))
    ∙ offset_from-bump_last (length s) 0 (x ∷ s) nvmx l refl

increment-IsStepped :
    (v nvmx : List ℕ)
    → length v ≡ length nvmx
    → 0 < length v
    → AreBelow v nvmx
    → IsStepped (increment v nvmx) nvmx
unfolding increment
increment-IsStepped [] nvmx l h b = absurd (omega arith)
increment-IsStepped (x ∷ s) nvmx l h b =
    let w = bump (x ∷ s) (length s) in
    let size = length-set (x ∷ s) (length s) (get_or (x ∷ s) (length s) 0 + 1) in
    carry-IsStepped (length s) w nvmx (size ∙ l) (rw size (omega arith))
      (λ j k. (let q = b j k in omega (arith, q)))
      (bump-AreBelowBut (length s) (x ∷ s) nvmx l (omega arith) b)

-- On one coordinate or more, each below its bound, `increment` adds one to the offset, however far the
-- carry runs. It keeps the number of coordinates, and all of them below their bounds but the first,
-- which reaches its bound at most.
pub get_offset-increment :
    (v nvmx : List ℕ)
    → length v ≡ length nvmx
    → 0 < length v
    → AreBelow v nvmx
    → (get_offset (increment v nvmx) nvmx ≡ get_offset v nvmx + 1)
      × IsStepped (increment v nvmx) nvmx
get_offset-increment v nvmx l h b = (offset_step v nvmx l h, increment-IsStepped v nvmx l h b)

-- The number of offsets below one step of coordinate `i`.
abbrev pub product : List ℕ → ℕ
product [] = 1
product (n ∷ nvmx) = n * product nvmx

abbrev pub weight : ℕ → List ℕ → ℕ
weight i [] = 1
weight zero (n ∷ nvmx) = product nvmx
weight (suc i) (n ∷ nvmx) = weight i nvmx

offset_from-linear :
    (res d : ℕ) (v nvmx : List ℕ)
    → length v ≡ length nvmx
    → offset_from (res + d) v nvmx ≡ offset_from res v nvmx + d * product nvmx
unfolding offset_from
offset_from-linear res d [] [] l = omega arith
offset_from-linear res d [] (n ∷ nvmx) l = absurd (omega arith)
offset_from-linear res d (x ∷ v) [] l = absurd (omega arith)
offset_from-linear res d (x ∷ v) (n ∷ nvmx) l =
    let e : (res + d) * n + x ≡ res * n + x + d * n = omega arith in
    rw e (offset_from-linear (res * n + x) (d * n) v nvmx (omega arith) ∙ omega arith)

pub offset_from-set :
    (i res a : ℕ) (v nvmx : List ℕ)
    → length v ≡ length nvmx
    → i < length v
    → offset_from res (set v i a) nvmx + get_or v i 0 * weight i nvmx
      ≡ offset_from res v nvmx + a * weight i nvmx
unfolding offset_from
offset_from-set i res a [] nvmx l h = absurd (omega arith)
offset_from-set i res a (x ∷ v) [] l h = absurd (omega arith)
offset_from-set zero res a (x ∷ v) (n ∷ nvmx) l h = omega (
  arith,
  offset_from-linear (res * n) a v nvmx (omega arith),
  offset_from-linear (res * n) x v nvmx (omega arith),
)
offset_from-set (suc i) res a (x ∷ v) (n ∷ nvmx) l h =
    offset_from-set i (res * n + x) a v nvmx (omega arith) (omega arith)

pub weight-suc :
    (i : ℕ) (nvmx : List ℕ)
    → suc i < length nvmx
    → weight i nvmx ≡ get_or nvmx (suc i) 0 * weight (suc i) nvmx
weight-suc i [] h = absurd (omega arith)
weight-suc zero (n ∷ []) h = absurd (omega arith)
weight-suc zero (n ∷ p ∷ nvmx) h = refl
weight-suc (suc i) (n ∷ nvmx) h = weight-suc i nvmx (omega arith)

pub weight-last : (i : ℕ) (nvmx : List ℕ) → length nvmx ≡ suc i → weight i nvmx ≡ 1
weight-last i [] h = refl
weight-last zero (n ∷ []) h = refl
weight-last zero (n ∷ p ∷ nvmx) h = absurd (omega arith)
weight-last (suc i) (n ∷ nvmx) h = weight-last i nvmx (omega arith)
