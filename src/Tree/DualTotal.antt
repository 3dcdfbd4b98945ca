-- ===== src/Tree/DualTotal.antt =====
-- Every term of a tree of parser/cc/tree.cc has one value and one derivative, present or missing.
use dynare.Base.{
  subst, zero, suc, get_elem?_of_lt, ℕ, ◌<◌, ◌≡◌, refl, sym, ◌∙◌, Option, some, arith, List,
  get_elem?, length,
}
use dynare.Tree.{Operation, nulary, unary, binary, OperationTree}
use dynare.Tree.Invariant.{IsTree, OperandsBelow}
use dynare.Tree.Meaning.{Arithmetic}
use dynare.Tree.Dual.{op1, op2, rule1, rule2, leaf_value, leaf_derivative, Dual, leaf, step1, step2}

module _ {D : Type 0} (a : Arithmetic D) (env : ℕ → D) where
  -- A term has one value and one derivative.
  pub Dual-unique :
      {terms : List Operation} {v i : ℕ} {z dz z' dz' : Option D}
      → Dual a env terms v i z dz
      → Dual a env terms v i z' dz'
      → (z ≡ z') × (dz ≡ dz')
  Dual-unique (leaf e f g) (leaf e' f' g') = (sym f ∙ f', sym g ∙ g')
  Dual-unique (leaf e f g) (step1 code' e' d' f' g') = cc
  Dual-unique (leaf e f g) (step2 code' e' d' c' f' g') = cc
  Dual-unique (step1 code e d f g) (leaf e' f' g') = cc
  Dual-unique {terms} {v} {z} {z'} (step1 {j} {x} {dx} code e d f g)
        (step1 {j = j'} {x = x'} {dx = dx'} code' e' d' f' g') =
      let place : j' ≡ j = cc in
      let codes : code ≡ code' = cc in
      let same = Dual-unique d (subst (λ i. Dual a env terms v i x' dx') place d') in
      let value : z ≡ z' = sym f ∙ rw (codes, same.0) f' in
      (value, sym g ∙ rw (codes, value, same.0, same.1) g')
  Dual-unique (step1 code e d f g) (step2 code' e' d' c' f' g') = cc
  Dual-unique (step2 code e d c f g) (leaf e' f' g') = cc
  Dual-unique (step2 code e d c f g) (step1 code' e' d' f' g') = cc
  Dual-unique {terms} {v} {z} {z'} (step2 {j} {k} {x} {dx} {y} {dy} code e d c f g)
        (step2 {j = j'} {k = k'} {x = x'} {dx = dx'} {y = y'} {dy = dy'} code' e' d' c' f' g') =
      let place : j' ≡ j = cc in
      let place' : k' ≡ k = cc in
      let codes : code ≡ code' = cc in
      let same = Dual-unique d (subst (λ i. Dual a env terms v i x' dx') place d') in
      let same' = Dual-unique c (subst (λ i. Dual a env terms v i y' dy') place' c') in
      let value : z ≡ z' = sym f ∙ rw (codes, same.0, same'.0) f' in
      (value, sym g ∙ rw (codes, value, same.0, same'.0, same.1, same'.1) g')

  module _ (t : OperationTree) (w : IsTree t) (v : ℕ) where
    abbrev Total : ℕ → Type 0
    Total i = (z dz : Option D) × Dual a env t.terms v i z dz

    Total-from :
        (i : ℕ) (o : Operation)
        → get_elem? t.terms i ≡ some o
        → OperandsBelow i o
        → ((j : ℕ) → j < i → Total j)
        → Total i
    Total-from i nulary e b rec =
        (leaf_value a env i, some (leaf_derivative a env v i), leaf e refl refl)
    Total-from i (unary code j) e b rec =
        let (x, dx, d) = rec j b in
        (op1 a code x, rule1 a code (op1 a code x) x dx, step1 code e d refl refl)
    Total-from i (binary code j k) e b rec =
        let (x, dx, d) = rec j b.0 in
        let (y, dy, d') = rec k b.1 in
        (op2 a code x y, rule2 a code (op2 a code x y) x y dx dy, step2 code e d d' refl refl)

    -- Every term has a value and a derivative, present or missing.
    pub Dual-Total : (n i : ℕ) → i < n → i < length t.terms → Total i
    Dual-Total zero i h k = absurd (omega arith)
    Dual-Total (suc n) i h k =
        let (o, e) = get_elem?_of_lt t.terms i k in
        Total-from i o e (w.ordered i o e) (λ j b. Dual-Total n j (omega arith) (omega arith))
