-- ===== src/Tree/QuotientPower.antt =====
-- The parts of `add_derivative` in parser/cc/tree.cc that several rules share, and those for quotients and
-- powers, give terms with the values of the rules of calculus.
use dynare.Base.{
  ap, ℕ, ◌≡◌, inl, inr, sym, ◌∙◌, subst, Option, some, true, arith, ◌==◌, ==_iff, Bool-cases,
}
use mathlib.Core.Option.{some-injective}
use dynare.Tree.{
  uminus, log, exp, plus, minus, times, divide, power, OperationTree, gauss, derive_quotient,
  derive_power, zero_term, one_term, two_over_pi,
}
use dynare.Tree.Invariant.{Grows-trans}
use dynare.Tree.Meaning.{Arithmetic, constant}
use dynare.Tree.Simplify.{size, zero_is}
use dynare.Tree.Dual.{op2, op2-some, gauss_value, rule2}
use dynare.Tree.Calculus.{
  IsSound, Term, Term-Grows, Gives, Gives-bind, Gives-map, unary-Gives, binary-Gives,
}

module _ {D : Type 0} (a : Arithmetic D) (env : ℕ → D) where
  pub two_over_pi_is :
      (u : OperationTree) → IsSound a env u → Term a env u two_over_pi (some a.two_over_pi_value)
  two_over_pi_is u s = (omega (arith, size a env u s.tree), λ y e. constant (omega arith) e)

  one_is : (u : OperationTree) → IsSound a env u → Term a env u one_term (some a.one_value)
  one_is u s = (omega (arith, size a env u s.tree), λ y e. constant (omega arith) e)

  -- The quotient rule for a divisor whose derivative is zero.
  quotient_cancel :
      (x y dx dy : Option D)
      → ((k : D) → dy ≡ some k → k ≡ a.zero_value)
      → (r : D)
      → op2 a divide (op2 a minus (op2 a times dx y) (op2 a times dy x)) (op2 a times y y) ≡ some r
      → op2 a divide dx y ≡ some r
  quotient_cancel x y dx dy vanishes r f =
      let (p, q, ep, eq, er) = op2-some a divide _ (op2 a times y y) r f in
      let (m, n, em, en, e1) = op2-some a minus (op2 a times dx y) (op2 a times dy x) p ep in
      let (dx', y', f1, f2, e2) = op2-some a times dx y m em in
      let (dy', x', f3, f4, e3) = op2-some a times dy x n en in
      let (y1, y2, f5, f6, e4) = op2-some a times y y q eq in
      let zero : dy' ≡ a.zero_value = vanishes dy' f3 in
      let zero' : a.zero_value ≡ n = some-injective _ _ (sym (a.zero-times x') ∙ rw zero at e3) in
      let same : m ≡ p = some-injective _ _ (sym (a.minus-zero m) ∙ rw (← zero') at e1) in
      let y_is : y1 ≡ y' = some-injective _ _ (sym f5 ∙ f2) in
      let y_is' : y2 ≡ y' = some-injective _ _ (sym f6 ∙ f2) in
      let cancelled =
        a.divide_cancel dx' y' m q r e2 (rw (y_is, y_is') at e4) (rw (← same) at er) in
      ap (λ k. op2 a divide k y) f1 ∙ ap (op2 a divide (some dx')) f2 ∙ cancelled

  pub gauss-Gives :
      (u : OperationTree)
      → IsSound a env u
      → {i : ℕ} {x : Option D} → Term a env u i x
      → Gives a env u (gauss i) (gauss_value a x)
  unfolding gauss
  gauss-Gives u s h = Gives-bind a env (binary-Gives a env u s times h h) λ r u1 s1 g1 h1.
      Gives-bind a env (unary-Gives a env u1 s1 uminus h1)
        λ r' u2 s2 g2 h2. unary-Gives a env u2 s2 exp h2

  pub quotient-Gives :
      (u : OperationTree)
      → IsSound a env u
      → {i j d e : ℕ} {x y dx dy : Option D} (z : Option D) → Term a env u i x
      → Term a env u j y
      → Term a env u d dx
      → Term a env u e dy
      → Gives a env u (derive_quotient i j d e) (rule2 a divide z x y dx dy)
  unfolding derive_quotient
  quotient-Gives u s {i} {j} {d} {e} {x} {y} {dx} {dy} z hi hj hd he =
      elim (Bool-cases (e == zero_term)) [
        | inl c ↦
            subst (λ m. Gives a env u m (rule2 a divide z x y dx dy))
              (sym (rw (c, derive_quotient)))
              (Gives-map a env (constant_divisor c) (binary-Gives a env u s divide hd hj))
        | inr c ↦
            subst (λ m. Gives a env u m (rule2 a divide z x y dx dy))
              (sym (rw (c, derive_quotient)))
              (Gives-bind a env (binary-Gives a env u s times hd hj) λ p u1 s1 g1 h1.
                Gives-bind a env
                  (binary-Gives a env u1 s1 times (Term-Grows a env g1 he) (Term-Grows a env g1 hi))
                  λ q u2 s2 g2 h2.
                    Gives-bind a env (binary-Gives a env u2 s2 minus (Term-Grows a env g2 h1) h2)
                      λ n u3 s3 g3 h3.
                        let g = Grows-trans g1 (Grows-trans g2 g3) in
                        Gives-bind a env
                          (binary-Gives a env u3 s3 times (Term-Grows a env g hj)
                            (Term-Grows a env g hj))
                          λ m u4 s4 g4 h4.
                            binary-Gives a env u4 s4 divide (Term-Grows a env g4 h3) h4)
      ]
    where
      constant_divisor :
          (e == zero_term) ≡ true
          → (r : D) → rule2 a divide z x y dx dy ≡ some r
          → op2 a divide dx y ≡ some r
      constant_divisor c r f =
          quotient_cancel x y dx dy
            (λ k q. zero_is a env u s.tree ((==_iff e zero_term).0 c) (he.1 k q)) r f

  pub power-Gives :
      (u : OperationTree)
      → IsSound a env u
      → {t i j d e : ℕ} {z x y dx dy : Option D} → Term a env u t z
      → Term a env u i x
      → Term a env u j y
      → Term a env u d dx
      → Term a env u e dy
      → Gives a env u (derive_power t i j d e) (rule2 a power z x y dx dy)
  unfolding derive_power
  power-Gives u s ht hi hj hd he = Gives-bind a env (unary-Gives a env u s log hi) λ l u1 s1 g1 h1.
      Gives-bind a env (binary-Gives a env u1 s1 times (Term-Grows a env g1 ht) h1) λ m u2 s2 g2 h2.
        let k2 = Grows-trans g1 g2 in
        Gives-bind a env (binary-Gives a env u2 s2 times (Term-Grows a env k2 he) h2)
          λ p1 u3 s3 g3 h3.
            let k3 = Grows-trans k2 g3 in
            Gives-bind a env
              (binary-Gives a env u3 s3 minus (Term-Grows a env k3 hj) (one_is u3 s3))
              λ n u4 s4 g4 h4.
                let k4 = Grows-trans k3 g4 in
                Gives-bind a env (binary-Gives a env u4 s4 power (Term-Grows a env k4 hi) h4)
                  λ q u5 s5 g5 h5.
                    let k5 = Grows-trans k4 g5 in
                    Gives-bind a env (binary-Gives a env u5 s5 times (Term-Grows a env k5 hj) h5)
                      λ r u6 s6 g6 h6.
                        let k6 = Grows-trans k5 g6 in
                        Gives-bind a env
                          (binary-Gives a env u6 s6 times (Term-Grows a env k6 hd) h6)
                          λ p2 u7 s7 g7 h7.
                            let k = Grows-trans (Grows-trans g4 g5) (Grows-trans g6 g7) in
                            binary-Gives a env u7 s7 plus (Term-Grows a env k h3) h7
