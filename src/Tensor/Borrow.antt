-- ===== src/Tensor/Borrow.antt =====
-- `UTensor::decrement` moves the offset of an unfolded index back by one, and stops before the first.
use native.Mathlib.Decide.{dec_le}
use dynare.Base.{
  ℕ, zero, suc, ◌+◌, ◌-◌, ◌*◌, ◌≤◌, ◌<◌, ◌≡◌, ◌≢◌, ◌⊎◌, refl, ap, sym, ◌∙◌, List, [], ◌∷◌, arith,
  length, get_or, set, ◌==◌, ==_iff, Bool-cases, inl, inr, length-set, ok, err, Error,
}
use dynare.Tensor.{borrow, decrement, offset_from, get_offset}
use dynare.Tensor.Unfolded.{weight, offset_from-set, weight-suc, weight-last}

-- Every coordinate has a value.
abbrev pub AllPositive : List ℕ → Type 0
AllPositive [] = Unit
AllPositive (n ∷ nvmx) = (0 < n) × AllPositive nvmx

get_or-AllPositive :
    (nvmx : List ℕ) (i : ℕ) → AllPositive nvmx → i < length nvmx → 0 < get_or nvmx i 0
get_or-AllPositive [] i p h = absurd (omega arith)
get_or-AllPositive (n ∷ nvmx) zero p h = p.0
get_or-AllPositive (n ∷ nvmx) (suc i) p h = get_or-AllPositive nvmx i p.1 (omega arith)

get_or-set_other : (v : List ℕ) (i j a : ℕ) → j < i → get_or (set v i a) j 0 ≡ get_or v j 0
get_or-set_other [] i j a h = refl
get_or-set_other (x ∷ v) zero j a h = absurd (omega arith)
get_or-set_other (x ∷ v) (suc i) zero a h = refl
get_or-set_other (x ∷ v) (suc i) (suc j) a h = get_or-set_other v i j a (omega arith)

-- What a borrow from coordinate `i` down does: it moves the offset back by the weight of that
-- coordinate, or finds only zeros.
record Lowers (i : ℕ) (v nvmx w : List ℕ) : Type 0 where
  size : length w ≡ length v
  offset : offset_from 0 w nvmx + weight i nvmx ≡ offset_from 0 v nvmx

abbrev Borrows : ℕ → List ℕ → List ℕ → Type 0
Borrows i v nvmx =
    ((w : List ℕ) × (borrow i v nvmx ≡ ok w) × Lowers i v nvmx w)
    ⊎ ((borrow i v nvmx ≡ err Error.before_first) × ((j : ℕ) → j ≤ i → get_or v j 0 ≡ 0))

module _ (nvmx : List ℕ) (pos : AllPositive nvmx) where
  lower_here :
      (i : ℕ) (v : List ℕ)
      → length v ≡ length nvmx
      → i < length v
      → get_or v i 0 ≢ 0
      → Lowers i v nvmx (set v i (get_or v i 0 - 1))
  lower_here i v l h ne = record {
    size = length-set v i _;
    offset =
        let x = get_or v i 0 in
        let y = x - 1 in
        let e : x ≡ y + 1 = omega arith in
        let s = offset_from-set i 0 y v nvmx l h in
        omega (arith, ap (λ (t : ℕ). t * weight i nvmx) e);
  }

  borrow-next :
      (i : ℕ) (v : List ℕ)
      → length v ≡ length nvmx
      → suc i < length v
      → get_or v (suc i) 0 ≡ 0
      → borrow (suc i) v nvmx ≡ borrow i (set v (suc i) (get_or nvmx (suc i) 0 - 1)) nvmx
      → Borrows i (set v (suc i) (get_or nvmx (suc i) 0 - 1)) nvmx
      → Borrows (suc i) v nvmx
  borrow-next i v l h z e (inl (w, r, low)) = inl (
    w,
    e ∙ r,
    record {
      size = low.size ∙ length-set v (suc i) _;
      offset =
          let n = get_or nvmx (suc i) 0 in
          let m = n - 1 in
          let p = get_or-AllPositive nvmx (suc i) pos (omega arith) in
          let q : n ≡ m + 1 = omega arith in
          omega (
            arith,
            low.offset,
            offset_from-set (suc i) 0 m v nvmx l h,
            weight-suc i nvmx (omega arith),
            ap (λ (t : ℕ). t * weight (suc i) nvmx) q,
            ap (λ (t : ℕ). t * weight (suc i) nvmx) z,
          );
    },
  )
  borrow-next i v l h z e (inr (r, zs)) = inr (
    e ∙ r,
    λ j q. elim (dec_le j i) [
      | yes p ↦ sym (get_or-set_other v (suc i) j _ (omega arith)) ∙ zs j p
      | no p ↦ let t : j ≡ suc i = omega arith in rw t z
    ],
  )

  borrow-cases : (i : ℕ) (v : List ℕ) → length v ≡ length nvmx → i < length v → Borrows i v nvmx
  unfolding borrow
  borrow-cases zero v l h = elim (Bool-cases (get_or v 0 0 == 0)) [
    | inl e ↦ inr (rw e, λ j q. let z : j ≡ 0 = omega arith in rw z ((==_iff _ _).0 e))
    | inr e ↦ inl (_, rw e, lower_here zero v l h (ground arith))
  ]
  borrow-cases (suc i) v l h = elim (Bool-cases (get_or v (suc i) 0 == 0)) [
    | inl e ↦ borrow-next i v l h ((==_iff _ _).0 e) (rw e) (
        borrow-cases i (set v (suc i) (get_or nvmx (suc i) 0 - 1)) (length-set v (suc i) _ ∙ l)
          (rw (length-set v (suc i) (get_or nvmx (suc i) 0 - 1)) (omega arith)))
    | inr e ↦ inl (_, rw e, lower_here (suc i) v l h (ground arith))
  ]

offset_from-zeros :
    (v nvmx : List ℕ) → ((j : ℕ) → j < length v → get_or v j 0 ≡ 0) → offset_from 0 v nvmx ≡ 0
unfolding offset_from
offset_from-zeros [] nvmx z = refl
offset_from-zeros (x ∷ v) [] z = refl
offset_from-zeros (x ∷ v) (n ∷ nvmx) z =
    let e : 0 * n + x ≡ 0 = omega (arith, z 0 (omega arith)) in
    rw e (offset_from-zeros v nvmx (λ j h. z (suc j) (omega arith)))

-- For as many positive bounds as coordinates, `decrement` of an index that is not the first succeeds,
-- and takes one from the offset.
pub get_offset-decrement :
    (v nvmx : List ℕ)
    → AllPositive nvmx
    → length v ≡ length nvmx
    → 0 < get_offset v nvmx
    → (w : List ℕ) × (decrement v nvmx ≡ ok w)
      × (length w ≡ length v)
      × (get_offset w nvmx + 1 ≡ get_offset v nvmx)
unfolding get_offset decrement
get_offset-decrement [] nvmx pos l h = absurd (unfold offset_from in omega arith)
get_offset-decrement (x ∷ s) nvmx pos l h =
    conclude (borrow-cases nvmx pos (length s) (x ∷ s) l (omega arith))
  where
    conclude :
        Borrows (length s) (x ∷ s) nvmx
        → (w : List ℕ) × (borrow (length s) (x ∷ s) nvmx ≡ ok w)
          × (length w ≡ length (x ∷ s))
          × (offset_from 0 w nvmx + 1 ≡ offset_from 0 (x ∷ s) nvmx)
    conclude (inl (w, r, low)) =
        (w, r, low.size, omega (arith, low.offset, weight-last (length s) nvmx (sym l)))
    conclude (inr (r, zs)) =
        absurd (omega (arith, offset_from-zeros (x ∷ s) nvmx (λ j q. zs j (omega arith))))
