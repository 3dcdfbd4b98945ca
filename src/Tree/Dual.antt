-- ===== src/Tree/Dual.antt =====
-- Values and derivatives of terms by the rules of calculus, for the theorem on `add_derivative` of
-- parser/cc/tree.cc.
use dynare.Base.{
  ℕ, ◌<◌, ◌≡◌, refl, ◌∙◌, Option, none, some, arith, List, get_elem?, ltb, ltb→lt, lt→ltb,
  Bool-cases, inl, inr, ◌==◌, if◌then◌else◌, length,
}
use mathlib.Core.Option.{some-injective}
use dynare.Tree.{
  UnaryCode, BinaryCode, uminus, log, exp, sin, cos, tan, sqrt, erf, erfc, plus, minus, times,
  divide, power, Operation, nulary, unary, binary, OperationTree, num_constants,
}
use dynare.Tree.Invariant.{IsTree, Grows}
use dynare.Tree.Meaning.{Arithmetic, Denotes, constant, atom, value1, value2, constant_value}
use dynare.Tree.Incidence.{Grows-at}

module _ {D : Type 0} (a : Arithmetic D) where
  -- The functions on values that may be missing.
  abbrev pub op1 : UnaryCode → Option D → Option D
  op1 code none = none
  op1 code (some x) = a.apply1 code x

  abbrev pub op2 : BinaryCode → Option D → Option D → Option D
  op2 code none y = none
  op2 code (some x) none = none
  op2 code (some x) (some y) = a.apply2 code x y

  -- exp(-(x * x))
  abbrev pub gauss_value : Option D → Option D
  gauss_value x = op1 exp (op1 uminus (op2 times x x))

  -- The derivative of z = code(x), where that of x is dx.
  abbrev pub rule1 : UnaryCode → Option D → Option D → Option D → Option D
  rule1 uminus z x dx = op1 uminus dx
  rule1 log z x dx = op2 divide dx x
  rule1 exp z x dx = op2 times z dx
  rule1 sin z x dx = op2 times (op1 cos x) dx
  rule1 cos z x dx = op1 uminus (op2 times (op1 sin x) dx)
  rule1 tan z x dx = op2 divide dx (op2 times (op1 cos x) (op1 cos x))
  rule1 sqrt z x dx = op2 divide dx (op2 plus z z)
  rule1 erf z x dx = op2 times (some a.two_over_pi_value) (op2 times (gauss_value x) dx)
  rule1 erfc z x dx =
      op1 uminus (op2 times (some a.two_over_pi_value) (op2 times (gauss_value x) dx))

  -- The derivative of z = code(x, y), where those of x and y are dx and dy.
  abbrev pub rule2 : BinaryCode → Option D → Option D → Option D → Option D → Option D → Option D
  rule2 plus z x y dx dy = op2 plus dx dy
  rule2 minus z x y dx dy = op2 minus dx dy
  rule2 times z x y dx dy = op2 plus (op2 times x dy) (op2 times dx y)
  rule2 divide z x y dx dy =
      op2 divide (op2 minus (op2 times dx y) (op2 times dy x)) (op2 times y y)
  rule2 power z x y dx dy =
      op2 plus (op2 times dy (op2 times z (op1 log x)))
        (op2 times dx (op2 times y (op2 power x (op2 minus y (some a.one_value)))))

  pub op1-some :
      (code : UnaryCode) (o : Option D) (y : D)
      → op1 code o ≡ some y
      → (x : D) × (o ≡ some x) × (a.apply1 code x ≡ some y)
  op1-some code none y e = cc
  op1-some code (some x) y e = (x, refl, e)

  pub op2-some :
      (code : BinaryCode) (o p : Option D) (z : D)
      → op2 code o p ≡ some z
      → (x y : D) × (o ≡ some x) × (p ≡ some y) × (a.apply2 code x y ≡ some z)
  op2-some code none p z e = cc
  op2-some code (some x) none z e = cc
  op2-some code (some x) (some y) z e = (x, y, refl, refl, e)

  module _ (env : ℕ → D) where
    abbrev pub leaf_value : ℕ → Option D
    leaf_value i = if ltb i num_constants then constant_value a env i else some (env i)

    abbrev pub leaf_derivative : ℕ → ℕ → D
    leaf_derivative v i = if i == v then a.one_value else a.zero_value

    -- The value of a term and its derivative by the nulary term `v`, with the values `env` of the
    -- nulary terms; either may be missing.
    pub data Dual (terms : List Operation) (v : ℕ) : ℕ → Option D → Option D → Type 0 where
      leaf :
          {i : ℕ} {z dz : Option D}
          → get_elem? terms i ≡ some nulary
          → leaf_value i ≡ z
          → some (leaf_derivative v i) ≡ dz
          → Dual terms v i z dz
      step1 :
          {i j : ℕ} {z dz x dx : Option D} (code : UnaryCode)
          → get_elem? terms i ≡ some (unary code j)
          → Dual terms v j x dx
          → op1 code x ≡ z
          → rule1 code z x dx ≡ dz
          → Dual terms v i z dz
      step2 :
          {i j k : ℕ} {z dz x dx y dy : Option D} (code : BinaryCode)
          → get_elem? terms i ≡ some (binary code j k)
          → Dual terms v j x dx
          → Dual terms v k y dy
          → op2 code x y ≡ z
          → rule2 code z x y dx dy ≡ dz
          → Dual terms v i z dz

    -- The term has the value, where there is one.
    abbrev pub Has : List Operation → ℕ → Option D → Type 0
    Has terms i o = (y : D) → o ≡ some y → Denotes a env terms i y

    pub Dual-Has :
        {terms : List Operation} {v i : ℕ} {z dz : Option D} → Dual terms v i z dz → Has terms i z
    Dual-Has (leaf {i} e f g) y q = elim (Bool-cases (ltb i num_constants)) [
      | inl h ↦ constant (ltb→lt i num_constants h) (rw h at f ∙ q)
      | inr h ↦ atom (ground (arith, lt→ltb i num_constants)) e (some-injective _ _ (rw h at f ∙ q))
    ]
    Dual-Has (step1 {z} {x} code e d f g) y q =
        let (u, p, r) = op1-some code x y (f ∙ q) in value1 code e (Dual-Has d u p) r
    Dual-Has (step2 {x} {y = y'} code e d d' f g) y q =
        let (u, v, p, p', r) = op2-some code x y' y (f ∙ q) in
        value2 code e (Dual-Has d u p) (Dual-Has d' v p') r

    -- A term of a smaller tree has the same value and derivative there.
    pub Dual-before :
        {t u : OperationTree}
        → IsTree t
        → Grows t u
        → {v i : ℕ} {z dz : Option D} → i < length t.terms
        → Dual u.terms v i z dz
        → Dual t.terms v i z dz
    Dual-before w g h (leaf e f q) = leaf (Grows-at g h e) f q
    Dual-before w g {i} h (step1 code e d f q) =
        let e' = Grows-at g h e in
        step1 code e' (Dual-before w g (omega (arith, w.ordered i _ e')) d) f q
    Dual-before w g {i} h (step2 code e d d' f q) =
        let e' = Grows-at g h e in
        step2 code e' (Dual-before w g (omega (arith, (w.ordered i _ e').0)) d)
          (Dual-before w g (omega (arith, (w.ordered i _ e').1)) d') f q

    pub Dual-Grows :
        {t u : OperationTree} {v i : ℕ} {z dz : Option D}
        → Grows t u
        → Dual t.terms v i z dz
        → Dual u.terms v i z dz
    Dual-Grows g (leaf e f q) = leaf (g.kept _ _ e) f q
    Dual-Grows g (step1 code e d f q) = step1 code (g.kept _ _ e) (Dual-Grows g d) f q
    Dual-Grows g (step2 code e d d' f q) =
        step2 code (g.kept _ _ e) (Dual-Grows g d) (Dual-Grows g d') f q
