-- ===== src/Tree/Textbook.antt =====
-- The rules of `add_derivative` in parser/cc/tree.cc give terms with the values of the rules of calculus.
use dynare.Base.{ℕ, ◌<◌, Option, arith, length}
use dynare.Tree.{
  UnaryCode, BinaryCode, uminus, log, exp, sin, cos, tan, sqrt, erf, erfc, plus, minus, times,
  divide, power, OperationTree, M, ◌>>=◌, gauss, derive_unary, derive_quotient, derive_power,
  derive_binary, two_over_pi, add_binary,
}
use dynare.Tree.Invariant.{Grows, Grows-trans}
use dynare.Tree.Meaning.{Arithmetic}
use dynare.Tree.Dual.{rule1, rule2, Has, Dual, Dual-Grows, Dual-Has}
use dynare.Tree.Calculus.{IsSound, Term, Term-Grows, Gives, Gives-bind, unary-Gives, binary-Gives}
use dynare.Tree.QuotientPower.{two_over_pi_is, gauss-Gives, quotient-Gives, power-Gives}

-- Differentiation of the operands.
module _ {D : Type 0} (a : Arithmetic D) (env : ℕ → D) (derive : ℕ → M ℕ) (t v : ℕ)
    (rec : (u : OperationTree)
      → IsSound a env u
      → t < length u.terms
      → (j : ℕ) → j < t
      → (x dx : Option D) → Dual a env u.terms v j x dx
      → Gives a env u (derive j) dx)
    (u : OperationTree) (s : IsSound a env u) (k : t < length u.terms) {z : Option D}
    (here : Has a env u.terms t z) where
  pub unary_rule-Gives :
      (code : UnaryCode) (i : ℕ)
      → i < t
      → {x dx : Option D} → Dual a env u.terms v i x dx
      → Gives a env u (derive_unary derive t code i) (rule1 a code z x dx)
  unfolding derive_unary
  unary_rule-Gives code i h {x} {dx} d = by_code code
    where
      inner : Gives a env u (derive i) dx
      inner = rec u s k i h x dx d

      operand : Term a env u i x
      operand = (omega arith, Dual-Has a env d)

      term : Term a env u t z
      term = (k, here)

      erf_rule :
          Gives a env u
            (gauss i >>= λ r.
              derive i >>= λ e. add_binary times r e >>= λ p. add_binary times two_over_pi p)
            (rule1 a erf z x dx)
      erf_rule = Gives-bind a env (gauss-Gives a env u s operand) λ r u1 s1 g1 h1.
          Gives-bind a env (rec u1 s1 (omega (arith, g1.size)) i h x dx (Dual-Grows a env g1 d))
            λ e u2 s2 g2 h2.
              Gives-bind a env (binary-Gives a env u2 s2 times (Term-Grows a env g2 h1) h2)
                λ p u3 s3 g3 h3. binary-Gives a env u3 s3 times (two_over_pi_is a env u3 s3) h3

      by_code : (c : UnaryCode) → Gives a env u (derive_unary derive t c i) (rule1 a c z x dx)
      by_code uminus = Gives-bind a env inner λ r u1 s1 g1 h1. unary-Gives a env u1 s1 uminus h1
      by_code log =
          Gives-bind a env inner
            λ r u1 s1 g1 h1. binary-Gives a env u1 s1 divide h1 (Term-Grows a env g1 operand)
      by_code exp =
          Gives-bind a env inner
            λ r u1 s1 g1 h1. binary-Gives a env u1 s1 times (Term-Grows a env g1 term) h1
      by_code sin = Gives-bind a env inner λ r u1 s1 g1 h1.
          Gives-bind a env (unary-Gives a env u1 s1 cos (Term-Grows a env g1 operand))
            λ c u2 s2 g2 h2. binary-Gives a env u2 s2 times h2 (Term-Grows a env g2 h1)
      by_code cos = Gives-bind a env inner λ r u1 s1 g1 h1.
          Gives-bind a env (unary-Gives a env u1 s1 sin (Term-Grows a env g1 operand))
            λ c u2 s2 g2 h2.
              Gives-bind a env (binary-Gives a env u2 s2 times h2 (Term-Grows a env g2 h1))
                λ p u3 s3 g3 h3. unary-Gives a env u3 s3 uminus h3
      by_code tan = Gives-bind a env inner λ r u1 s1 g1 h1.
          Gives-bind a env (unary-Gives a env u1 s1 cos (Term-Grows a env g1 operand))
            λ c u2 s2 g2 h2.
              Gives-bind a env (binary-Gives a env u2 s2 times h2 h2) λ p u3 s3 g3 h3.
                binary-Gives a env u3 s3 divide (Term-Grows a env (Grows-trans g2 g3) h1) h3
      by_code sqrt = Gives-bind a env inner λ r u1 s1 g1 h1.
          Gives-bind a env
            (binary-Gives a env u1 s1 plus (Term-Grows a env g1 term) (Term-Grows a env g1 term))
            λ c u2 s2 g2 h2. binary-Gives a env u2 s2 divide (Term-Grows a env g2 h1) h2
      by_code erf = erf_rule
      by_code erfc = Gives-bind a env (gauss-Gives a env u s operand) λ r u1 s1 g1 h1.
          Gives-bind a env (rec u1 s1 (omega (arith, g1.size)) i h x dx (Dual-Grows a env g1 d))
            λ e u2 s2 g2 h2.
              Gives-bind a env (binary-Gives a env u2 s2 times (Term-Grows a env g2 h1) h2)
                λ p u3 s3 g3 h3.
                  Gives-bind a env (binary-Gives a env u3 s3 times (two_over_pi_is a env u3 s3) h3)
                    λ q u4 s4 g4 h4. unary-Gives a env u4 s4 uminus h4

  -- The derivatives of both operands, and a rule that goes on with them.
  both-Gives :
      (i j : ℕ)
      → i < t
      → j < t
      → {x y dx dy o : Option D} → Dual a env u.terms v i x dx
      → Dual a env u.terms v j y dy
      → (rule : ℕ → ℕ → M ℕ)
      → ((d e : ℕ) (u' : OperationTree)
          → IsSound a env u'
          → Grows u u'
          → Term a env u' d dx
          → Term a env u' e dy
          → Gives a env u' (rule d e) o)
      → Gives a env u (derive i >>= λ d. derive j >>= λ e. rule d e) o
  both-Gives i j h h' {x} {y} {dx} {dy} p q rule next =
      Gives-bind a env (rec u s k i h x dx p) λ d u1 s1 g1 h1.
        Gives-bind a env (rec u1 s1 (omega (arith, g1.size)) j h' y dy (Dual-Grows a env g1 q))
          λ e u2 s2 g2 h2. next d e u2 s2 (Grows-trans g1 g2) (Term-Grows a env g2 h1) h2

  pub binary_rule-Gives :
      (code : BinaryCode) (i j : ℕ)
      → i < t
      → j < t
      → {x y dx dy : Option D} → Dual a env u.terms v i x dx
      → Dual a env u.terms v j y dy
      → Gives a env u (derive_binary derive t code i j) (rule2 a code z x y dx dy)
  unfolding derive_binary
  binary_rule-Gives code i j h h' {x} {y} {dx} {dy} p q = by_code code
    where
      first : Term a env u i x
      first = (omega arith, Dual-Has a env p)

      second : Term a env u j y
      second = (omega arith, Dual-Has a env q)

      by_code :
          (c : BinaryCode) → Gives a env u (derive_binary derive t c i j) (rule2 a c z x y dx dy)
      by_code plus =
          both-Gives i j h h' p q (add_binary plus)
            λ d e u' s' g hd he. binary-Gives a env u' s' plus hd he
      by_code minus =
          both-Gives i j h h' p q (add_binary minus)
            λ d e u' s' g hd he. binary-Gives a env u' s' minus hd he
      by_code times = both-Gives i j h h' p q _ λ d e u' s' g hd he.
          Gives-bind a env (binary-Gives a env u' s' times (Term-Grows a env g first) he)
            λ r u1 s1 g1 h1.
              Gives-bind a env
                (binary-Gives a env u1 s1 times (Term-Grows a env g1 hd)
                  (Term-Grows a env (Grows-trans g g1) second))
                λ r' u2 s2 g2 h2. binary-Gives a env u2 s2 plus (Term-Grows a env g2 h1) h2
      by_code divide = both-Gives i j h h' p q (derive_quotient i j) λ d e u' s' g hd he.
          quotient-Gives a env u' s' z (Term-Grows a env g first) (Term-Grows a env g second) hd he
      by_code power = both-Gives i j h h' p q (derive_power t i j) λ d e u' s' g hd he.
          power-Gives a env u' s' (Term-Grows a env g (k, here)) (Term-Grows a env g first)
            (Term-Grows a env g second) hd he
