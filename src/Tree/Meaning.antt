-- ===== src/Tree/Meaning.antt =====
-- What a term stands for: the value of its operation in an arithmetic, where that is defined.
use dynare.Base.{
  subst, ℕ, ◌≤◌, ◌<◌, ◌≡◌, sym, ◌∙◌, Option, none, some, arith, List, get_elem?, ◌==◌,
  if◌then◌else◌,
}
use mathlib.Core.Option.{some-injective}
use dynare.Tree.{
  UnaryCode, BinaryCode, uminus, log, exp, sin, cos, tan, sqrt, erf, erfc, plus, minus, times,
  divide, power, Operation, nulary, unary, binary, OperationTree, num_constants, zero_term,
  one_term, two_over_pi,
}
use dynare.Tree.Invariant.{IsTree, Grows}

-- The mathematical functions of the operation codes, `none` where a function is not defined, with the
-- laws that simplification relies on. They hold of the real numbers with 0 ^ 0 left undefined.
pub record Arithmetic (D : Type 0) : Type 0 where
  pub zero_value : D
  pub one_value : D
  pub two_over_pi_value : D
  pub apply1 : UnaryCode → D → Option D
  pub apply2 : BinaryCode → D → D → Option D
  pub uminus_zero : apply1 uminus zero_value ≡ some zero_value
  pub sin_zero : apply1 sin zero_value ≡ some zero_value
  pub tan_zero : apply1 tan zero_value ≡ some zero_value
  pub sqrt_zero : apply1 sqrt zero_value ≡ some zero_value
  pub erf_zero : apply1 erf zero_value ≡ some zero_value
  pub log_zero : apply1 log zero_value ≡ none
  pub exp_zero : apply1 exp zero_value ≡ some one_value
  pub cos_zero : apply1 cos zero_value ≡ some one_value
  pub erfc_zero : apply1 erfc zero_value ≡ some one_value
  pub zero-plus : (x : D) → apply2 plus zero_value x ≡ some x
  pub plus_comm : (x y : D) → apply2 plus x y ≡ apply2 plus y x
  pub zero-minus : (x : D) → apply2 minus zero_value x ≡ apply1 uminus x
  pub minus-zero : (x : D) → apply2 minus x zero_value ≡ some x
  pub zero-times : (x : D) → apply2 times zero_value x ≡ some zero_value
  pub one-times : (x : D) → apply2 times one_value x ≡ some x
  pub times_comm : (x y : D) → apply2 times x y ≡ apply2 times y x
  pub divide_self : (x y : D) → apply2 divide x x ≡ some y → y ≡ one_value
  pub zero-divide : (x y : D) → apply2 divide zero_value x ≡ some y → y ≡ zero_value
  pub divide-zero : (x : D) → apply2 divide x zero_value ≡ none
  pub divide_cancel :
      (x y p q r : D)
      → apply2 times x y ≡ some p
      → apply2 times y y ≡ some q
      → apply2 divide p q ≡ some r
      → apply2 divide x y ≡ some r
  pub zero-power-zero : apply2 power zero_value zero_value ≡ none
  pub zero-power : (x y : D) → apply2 power zero_value x ≡ some y → y ≡ zero_value
  pub power-zero : (x y : D) → apply2 power x zero_value ≡ some y → y ≡ one_value
  pub one-power : (x y : D) → apply2 power one_value x ≡ some y → y ≡ one_value
  pub power-one : (x y : D) → apply2 power x one_value ≡ some y → y ≡ x

module _ {D : Type 0} (a : Arithmetic D) (env : ℕ → D) where
  -- The constants; nan has no value.
  abbrev pub constant_value : ℕ → Option D
  constant_value i =
      if i == zero_term
      then some a.zero_value
      else if i == one_term
      then some a.one_value
      else if i == two_over_pi
      then some a.two_over_pi_value
      else none

  -- The term `i` among `terms` has the value `x`, with the values `env` of the nulary terms.
  pub data Denotes (terms : List Operation) : ℕ → D → Type 0 where
    constant : {i : ℕ} {x : D} → i < num_constants → constant_value i ≡ some x → Denotes terms i x
    atom :
        {i : ℕ} {x : D}
        → num_constants ≤ i
        → get_elem? terms i ≡ some nulary
        → env i ≡ x
        → Denotes terms i x
    value1 :
        {i j : ℕ} {x y : D} (code : UnaryCode)
        → get_elem? terms i ≡ some (unary code j)
        → Denotes terms j x
        → a.apply1 code x ≡ some y
        → Denotes terms i y
    value2 :
        {i j k : ℕ} {x y z : D} (code : BinaryCode)
        → get_elem? terms i ≡ some (binary code j k)
        → Denotes terms j x
        → Denotes terms k y
        → a.apply2 code x y ≡ some z
        → Denotes terms i z

  pub Denotes-Grows :
      {t t' : OperationTree} {i : ℕ} {x : D}
      → Grows t t'
      → Denotes t.terms i x
      → Denotes t'.terms i x
  Denotes-Grows g (constant h e) = constant h e
  Denotes-Grows g (atom h e e') = atom h (g.kept _ _ e) e'
  Denotes-Grows g (value1 code e d e') = value1 code (g.kept _ _ e) (Denotes-Grows g d) e'
  Denotes-Grows g (value2 code e d d' e') =
      value2 code (g.kept _ _ e) (Denotes-Grows g d) (Denotes-Grows g d') e'

  module _ (t : OperationTree) (w : IsTree t) where
    -- A term has one value at most.
    pub Denotes-unique : {i : ℕ} {x y : D} → Denotes t.terms i x → Denotes t.terms i y → x ≡ y
    Denotes-unique {i} (constant h e) (constant h' e') = some-injective _ _ (sym e ∙ e')
    Denotes-unique (constant h e) (atom h' e' e'') = absurd (omega arith)
    Denotes-unique {i} (constant h e) (value1 code e' d e'') = cc (w.constants i h)
    Denotes-unique {i} (constant h e) (value2 code e' d d' e'') = cc (w.constants i h)
    Denotes-unique (atom h e e') (constant h' f) = absurd (omega arith)
    Denotes-unique (atom h e e') (atom h' f f') = cc
    Denotes-unique (atom h e e') (value1 code f d f') = cc
    Denotes-unique (atom h e e') (value2 code f d d' f') = cc
    Denotes-unique {i} (value1 code e d e') (constant h f) = cc (w.constants i h)
    Denotes-unique (value1 code e d e') (atom h f f') = cc
    Denotes-unique (value1 {j} {x = u} code e d e') (value1 {j = j'} {x = u'} code' f c f') =
        let place : j' ≡ j = cc in
        let same : u ≡ u' = Denotes-unique d (subst (λ i. Denotes t.terms i u') place c) in
        let codes : code ≡ code' = cc in cc
    Denotes-unique (value1 code e d e') (value2 code' f c c' f') = cc
    Denotes-unique {i} (value2 code e d d' e') (constant h f) = cc (w.constants i h)
    Denotes-unique (value2 code e d d' e') (atom h f f') = cc
    Denotes-unique (value2 code e d d' e') (value1 code' f c f') = cc
    Denotes-unique (value2 {j} {k} {x = u} {y = v} code e d d' e')
          (value2 {j = j'} {k = k'} {x = u'} {y = v'} code' f c c' f') =
        let place : j' ≡ j = cc in
        let place' : k' ≡ k = cc in
        let same : u ≡ u' = Denotes-unique d (subst (λ i. Denotes t.terms i u') place c) in
        let same' : v ≡ v' = Denotes-unique d' (subst (λ i. Denotes t.terms i v') place' c') in
        let codes : code ≡ code' = cc in cc

    pub Denotes-constant :
        {i : ℕ} {x : D} → i < num_constants → Denotes t.terms i x → constant_value i ≡ some x
    Denotes-constant h (constant h' e) = e
    Denotes-constant h (atom h' e e') = absurd (omega arith)
    Denotes-constant {i} h (value1 code e d e') = cc (w.constants i h)
    Denotes-constant {i} h (value2 code e d d' e') = cc (w.constants i h)
