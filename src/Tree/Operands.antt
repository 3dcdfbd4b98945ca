-- ===== src/Tree/Operands.antt =====
-- The values of the operands of a term that has a value.
use dynare.Base.{ℕ, ◌≡◌, subst, some, get_elem?}
use dynare.Tree.{UnaryCode, BinaryCode, unary, binary, OperationTree}
use dynare.Tree.Invariant.{IsTree}
use dynare.Tree.Meaning.{Arithmetic, Denotes, constant, atom, value1, value2}

module _ {D : Type 0} (a : Arithmetic D) (env : ℕ → D) (s : OperationTree) (w : IsTree s) where
  pub operand_value :
      {i j : ℕ} {x : D} (code : UnaryCode)
      → get_elem? s.terms i ≡ some (unary code j)
      → Denotes a env s.terms i x
      → (y : D) × Denotes a env s.terms j y × (a.apply1 code y ≡ some x)
  operand_value {i} code e (constant h f) = cc (w.constants i h)
  operand_value code e (atom h f g) = cc
  operand_value {j} code e (value1 {j = j'} {x = y} code' f d g) =
      let place : j' ≡ j = cc in (y, subst (λ i. Denotes a env s.terms i y) place d, cc)
  operand_value code e (value2 code' f d d' g) = cc

  pub operand_values :
      {i j k : ℕ} {x : D} (code : BinaryCode)
      → get_elem? s.terms i ≡ some (binary code j k)
      → Denotes a env s.terms i x
      → (y : D) × (z : D) × Denotes a env s.terms j y
        × Denotes a env s.terms k z
        × (a.apply2 code y z ≡ some x)
  operand_values {i} code e (constant h f) = cc (w.constants i h)
  operand_values code e (atom h f g) = cc
  operand_values code e (value1 code' f d g) = cc
  operand_values {j} {k} code e (value2 {j = j'} {k = k'} {x = y} {y = z} code' f d d' g) =
      let place : j' ≡ j = cc in
      let place' : k' ≡ k = cc in
      (
        y,
        z,
        subst (λ i. Denotes a env s.terms i y) place d,
        subst (λ i. Denotes a env s.terms i z) place' d',
        cc,
      )
