-- ===== src/Tensor/Carry.antt =====
-- One round of the carry and of the borrow keeps the offset.
use dynare.Base.{
  ℕ, zero, suc, ◌+◌, ◌*◌, ◌<◌, ◌≤◌, ◌≡◌, ◌≢◌, refl, ◌∙◌, ap, List, [], ◌∷◌, arith, length, get_or,
  set, length-set, Bool-cases, inl, inr, ◌==◌, ==_iff,
}
use dynare.Tensor.{carry, bump, offset_from}

-- A coordinate at its bound counts as one more of the coordinate to the left.
pub offset_from-carry :
    (i res : ℕ) (v nvmx : List ℕ)
    → length v ≡ length nvmx
    → suc i < length v
    → get_or v (suc i) 0 ≡ get_or nvmx (suc i) 0
    → offset_from res (bump (set v (suc i) 0) i) nvmx ≡ offset_from res v nvmx
unfolding offset_from
offset_from-carry zero res (x ∷ y ∷ v) (p ∷ q ∷ nvmx) l h e =
    ap (λ t. offset_from t v nvmx) (omega (arith, ap (λ (t : ℕ). t) e))
offset_from-carry (suc i) res (x ∷ v) (p ∷ nvmx) l h e =
    offset_from-carry i (res * p + x) v nvmx (omega arith) (omega arith) e
offset_from-carry i res [] nvmx l h e = absurd (omega arith)
offset_from-carry i res (x ∷ v) [] l h e = absurd (omega arith)
offset_from-carry zero res (x ∷ []) nvmx l h e = absurd (omega arith)
offset_from-carry zero res (x ∷ y ∷ v) (p ∷ []) l h e = absurd (omega arith)

pub offset_from-bump_last :
    (i res : ℕ) (v nvmx : List ℕ)
    → length v ≡ length nvmx
    → length v ≡ suc i
    → offset_from res (bump v i) nvmx ≡ offset_from res v nvmx + 1
unfolding offset_from
offset_from-bump_last zero res (x ∷ []) (p ∷ []) l h = omega arith
offset_from-bump_last (suc i) res (x ∷ v) (p ∷ nvmx) l h =
    offset_from-bump_last i (res * p + x) v nvmx (omega arith) (omega arith)
offset_from-bump_last i res [] nvmx l h = absurd (omega arith)
offset_from-bump_last i res (x ∷ v) [] l h = absurd (omega arith)
offset_from-bump_last zero res (x ∷ y ∷ v) nvmx l h = absurd (omega arith)
offset_from-bump_last zero res (x ∷ []) (p ∷ q ∷ nvmx) l h = absurd (omega arith)

get_or-set_self : (v : List ℕ) (i a : ℕ) → i < length v → get_or (set v i a) i 0 ≡ a
get_or-set_self [] i a h = absurd (omega arith)
get_or-set_self (x ∷ v) zero a h = refl
get_or-set_self (x ∷ v) (suc i) a h = get_or-set_self v i a (omega arith)

get_or-set_ne : (v : List ℕ) (i j a : ℕ) → i ≢ j → get_or (set v i a) j 0 ≡ get_or v j 0
get_or-set_ne [] i j a h = refl
get_or-set_ne (x ∷ v) zero zero a h = absurd (h refl)
get_or-set_ne (x ∷ v) zero (suc j) a h = refl
get_or-set_ne (x ∷ v) (suc i) zero a h = refl
get_or-set_ne (x ∷ v) (suc i) (suc j) a h = get_or-set_ne v i j a (λ e. h (ap suc e))

-- The coordinates are below their bounds: all of them, all but one, and all but the first, which may
-- have reached its bound.
abbrev pub AreBelow : List ℕ → List ℕ → Type 0
AreBelow v nvmx = (j : ℕ) → j < length nvmx → get_or v j 0 < get_or nvmx j 0

pub record AreBelowBut (i : ℕ) (v nvmx : List ℕ) : Type 0 where
  others : (j : ℕ) → j < length nvmx → i ≢ j → get_or v j 0 < get_or nvmx j 0
  reached : get_or v i 0 ≤ get_or nvmx i 0

pub record IsStepped (v nvmx : List ℕ) : Type 0 where
  pub size : length v ≡ length nvmx
  pub rest : (j : ℕ) → suc j < length nvmx → get_or v (suc j) 0 < get_or nvmx (suc j) 0
  pub first : get_or v 0 0 ≤ get_or nvmx 0 0

pub bump-AreBelowBut :
    (i : ℕ) (v nvmx : List ℕ)
    → length v ≡ length nvmx
    → i < length v
    → AreBelow v nvmx
    → AreBelowBut i (bump v i) nvmx
bump-AreBelowBut i v nvmx l h b = record {
  others = λ j k ne. rw (get_or-set_ne v i j (get_or v i 0 + 1) ne) (b j k);
  reached =
      rw (get_or-set_self v i (get_or v i 0 + 1) h)
        (let k = b i (omega (arith, l)) in omega (arith, k));
}

reset-AreBelow :
    (i : ℕ) (v nvmx : List ℕ)
    → length v ≡ length nvmx
    → i < length v
    → 0 < get_or nvmx i 0
    → AreBelowBut i v nvmx
    → AreBelow (set v i 0) nvmx
reset-AreBelow i v nvmx l h p b j k = elim (Bool-cases (i == j)) [
  | inl e ↦ rw (← (==_iff i j).0 e) (rw (get_or-set_self v i 0 h) p)
  | inr e ↦
      let ne : i ≢ j = λ q. (let t = (==_iff i j).1 q in cc) in
      rw (get_or-set_ne v i j 0 ne) (b.others j k ne)
]

pub carry-IsStepped :
    (i : ℕ) (v nvmx : List ℕ)
    → length v ≡ length nvmx
    → i < length v
    → ((j : ℕ) → j < length nvmx → 0 < get_or nvmx j 0)
    → AreBelowBut i v nvmx
    → IsStepped (carry i v nvmx) nvmx
unfolding carry
carry-IsStepped zero v nvmx l h p b = record {
  size = l;
  rest = λ j k. b.others (suc j) k (λ e. omega (arith));
  first = b.reached;
}
carry-IsStepped (suc i) v nvmx l h p b =
    let w = set v (suc i) 0 in
    let size : length w ≡ length nvmx = length-set v (suc i) 0 ∙ l in
    elim (Bool-cases (get_or v (suc i) 0 == get_or nvmx (suc i) 0)) [
      | inl e ↦ rw e (
          carry-IsStepped i (bump w i) nvmx (length-set w i (get_or w i 0 + 1) ∙ size)
            (rw (length-set w i (get_or w i 0 + 1), size) (omega (arith, l))) p
            (bump-AreBelowBut i w nvmx size (omega (arith, size, l))
              (reset-AreBelow (suc i) v nvmx l h (p (suc i) (omega (arith, l))) b)))
      | inr e ↦ rw e (record {
        size = l;
        rest = λ j k. elim (Bool-cases (suc i == suc j)) [
          | inl q ↦
              let eq = (==_iff (suc i) (suc j)).0 q in
              rw (← eq) (let r = b.reached in ground (arith, r))
          | inr q ↦ b.others (suc j) k (λ t. (let u = (==_iff (suc i) (suc j)).1 t in cc))
        ];
        first = let k = b.others 0 (omega (arith, l)) (λ t. omega arith) in omega (arith, k);
      })
    ]
