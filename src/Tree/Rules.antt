-- ===== src/Tree/Rules.antt =====
-- The rules of `add_derivative` succeed on the terms of a tree, and keep the tree's invariant, if the
-- recursive call does so on the operands.
use dynare.Base.{
  ℕ, ◌≤◌, ◌<◌, ◌≡◌, ◌≢◌, refl, sym, subst, none, some, arith, length, ◌==◌, Bool-cases, inl, inr,
}
use dynare.Tree.{
  UnaryCode, BinaryCode, uminus, log, exp, sin, cos, tan, sqrt, erf, erfc, plus, minus, times,
  divide, power, Operation, nulary, unary, binary, OperationTree, M, ◌>>=◌, add_unary, add_binary,
  gauss, derive_unary, derive_quotient, derive_power, derive_binary, derive_operation, zero_term,
  one_term, two_over_pi,
}
use dynare.Tree.Invariant.{IsTree, Grows, Grows-trans, OperandsBelow}
use dynare.Tree.Growth.{Builds, Anything, Builds-bind, Builds-map}
use dynare.Tree.Meaning.{Arithmetic}
use dynare.Tree.Simplify.{add_unary-Builds, size}
use dynare.Tree.Binary.{add_binary-Builds}

undefined : {A : Type 0} {x : Unit {0}} → none ≡ some x → A
undefined e = cc

-- An arithmetic with one value, for theorems that do not speak of values.
abbrev one_point : Arithmetic (Unit {0})
one_point = record {
  zero_value = tt;
  one_value = tt;
  two_over_pi_value = tt;
  apply1 = λ code x. elim code [ log ↦ none | _ ↦ some tt ];
  apply2 = λ code x y. elim code [ divide ↦ none | power ↦ none | _ ↦ some tt ];
  uminus_zero = refl;
  sin_zero = refl;
  tan_zero = refl;
  sqrt_zero = refl;
  erf_zero = refl;
  log_zero = refl;
  exp_zero = refl;
  cos_zero = refl;
  erfc_zero = refl;
  zero-plus = λ x. refl;
  plus_comm = λ x y. refl;
  zero-minus = λ x. refl;
  minus-zero = λ x. refl;
  zero-times = λ x. refl;
  one-times = λ x. refl;
  times_comm = λ x y. refl;
  divide_self = λ x y e. refl;
  zero-divide = λ x y e. refl;
  divide-zero = λ x. refl;
  divide_cancel = λ x y p q r e f. undefined;
  zero-power-zero = refl;
  zero-power = λ x y e. refl;
  power-zero = λ x y e. refl;
  one-power = λ x y e. refl;
  power-one = λ x y e. refl;
}

-- A computation that succeeds, keeps the invariant, and returns a term.
abbrev pub Safe : OperationTree → M ℕ → Type 0
Safe t m = Builds t m Anything

unary-Safe :
    (t : OperationTree)
    → IsTree t
    → (code : UnaryCode) (i : ℕ) → i < length t.terms
    → Safe t (add_unary code i)
unary-Safe t w code i h =
    Builds-map (add_unary-Builds one_point (λ j. tt) t w code i h) λ r u v g p. tt

binary-Safe :
    (t : OperationTree)
    → IsTree t
    → (code : BinaryCode) (i j : ℕ) → i < length t.terms
    → j < length t.terms
    → Safe t (add_binary code i j)
binary-Safe t w code i j h h' =
    Builds-map (add_binary-Builds one_point (λ k. tt) t w i j h h' code) λ r u v g p. tt

pub term_count : (t : OperationTree) → IsTree t → 4 ≤ length t.terms
term_count t w = size one_point (λ j. tt) t w

gauss-Safe : (t : OperationTree) → IsTree t → (i : ℕ) → i < length t.terms → Safe t (gauss i)
unfolding gauss
gauss-Safe t w i h = Builds-bind (binary-Safe t w times i i h h) λ r u w' g h' _.
    Builds-bind (unary-Safe u w' uminus r h') λ r' u' w'' g' h'' _. unary-Safe u' w'' exp r' h''

module _ (derive : ℕ → M ℕ) (t : ℕ)
    (rec : (u : OperationTree)
      → IsTree u
      → (j : ℕ) → j < t
      → t < length u.terms
      → Safe u (derive j)) where
  derive_unary-Safe :
      (u : OperationTree)
      → IsTree u
      → (code : UnaryCode) (i : ℕ) → i < t
      → t < length u.terms
      → Safe u (derive_unary derive t code i)
  unfolding derive_unary
  derive_unary-Safe u w uminus i h k =
      Builds-bind (rec u w i h k) λ r u1 w1 g1 h1 _. unary-Safe u1 w1 uminus r h1
  derive_unary-Safe u w log i h k =
      Builds-bind (rec u w i h k)
        λ r u1 w1 g1 h1 _. binary-Safe u1 w1 divide r i h1 (omega (arith, g1.size))
  derive_unary-Safe u w exp i h k =
      Builds-bind (rec u w i h k)
        λ r u1 w1 g1 h1 _. binary-Safe u1 w1 times t r (omega (arith, g1.size)) h1
  derive_unary-Safe u w sin i h k = Builds-bind (rec u w i h k) λ r u1 w1 g1 h1 _.
      Builds-bind (unary-Safe u1 w1 cos i (omega (arith, g1.size)))
        λ c u2 w2 g2 h2 _. binary-Safe u2 w2 times c r h2 (omega (arith, g2.size))
  derive_unary-Safe u w cos i h k = Builds-bind (rec u w i h k) λ r u1 w1 g1 h1 _.
      Builds-bind (unary-Safe u1 w1 sin i (omega (arith, g1.size))) λ c u2 w2 g2 h2 _.
        Builds-bind (binary-Safe u2 w2 times c r h2 (omega (arith, g2.size)))
          λ p u3 w3 g3 h3 _. unary-Safe u3 w3 uminus p h3
  derive_unary-Safe u w tan i h k = Builds-bind (rec u w i h k) λ r u1 w1 g1 h1 _.
      Builds-bind (unary-Safe u1 w1 cos i (omega (arith, g1.size))) λ c u2 w2 g2 h2 _.
        Builds-bind (binary-Safe u2 w2 times c c h2 h2)
          λ p u3 w3 g3 h3 _. binary-Safe u3 w3 divide r p (omega (arith, g2.size, g3.size)) h3
  derive_unary-Safe u w sqrt i h k = Builds-bind (rec u w i h k) λ r u1 w1 g1 h1 _.
      Builds-bind (binary-Safe u1 w1 plus t t (omega (arith, g1.size)) (omega (arith, g1.size)))
        λ c u2 w2 g2 h2 _. binary-Safe u2 w2 divide r c (omega (arith, g2.size)) h2
  derive_unary-Safe u w erf i h k = Builds-bind (gauss-Safe u w i (omega arith)) λ r u1 w1 g1 h1 _.
      Builds-bind (rec u1 w1 i h (omega (arith, g1.size))) λ d u2 w2 g2 h2 _.
        Builds-bind (binary-Safe u2 w2 times r d (omega (arith, g2.size)) h2) λ p u3 w3 g3 h3 _.
          binary-Safe u3 w3 times two_over_pi p (omega (arith, term_count u3 w3)) h3
  derive_unary-Safe u w erfc i h k = Builds-bind (gauss-Safe u w i (omega arith)) λ r u1 w1 g1 h1 _.
      Builds-bind (rec u1 w1 i h (omega (arith, g1.size))) λ d u2 w2 g2 h2 _.
        Builds-bind (binary-Safe u2 w2 times r d (omega (arith, g2.size)) h2) λ p u3 w3 g3 h3 _.
          Builds-bind (binary-Safe u3 w3 times two_over_pi p (omega (arith, term_count u3 w3)) h3)
            λ q u4 w4 g4 h4 _. unary-Safe u4 w4 uminus q h4

quotient-Safe :
    (u : OperationTree)
    → IsTree u
    → (a b d e : ℕ) → a < length u.terms
    → b < length u.terms
    → d < length u.terms
    → e < length u.terms
    → Safe u (derive_quotient a b d e)
unfolding derive_quotient
quotient-Safe u w a b d e ha hb hd he = elim (Bool-cases (e == zero_term)) [
  | inl z ↦ subst (Safe u) (sym (rw (z, derive_quotient))) (binary-Safe u w divide d b hd hb)
  | inr z ↦ subst (Safe u) (sym (rw (z, derive_quotient))) (
      Builds-bind (binary-Safe u w times d b hd hb) λ p u1 w1 g1 h1 _.
        Builds-bind (binary-Safe u1 w1 times e a (omega (arith, g1.size)) (omega (arith, g1.size)))
          λ q u2 w2 g2 h2 _.
            Builds-bind (binary-Safe u2 w2 minus p q (omega (arith, g2.size)) h2) λ n u3 w3 g3 h3 _.
              let hb' : b < length u3.terms = omega (arith, g1.size, g2.size, g3.size) in
              Builds-bind (binary-Safe u3 w3 times b b hb' hb')
                λ m u4 w4 g4 h4 _. binary-Safe u4 w4 divide n m (omega (arith, g4.size)) h4)
]

power-Safe :
    (u : OperationTree)
    → IsTree u
    → (t a b d e : ℕ) → t < length u.terms
    → a < length u.terms
    → b < length u.terms
    → d < length u.terms
    → e < length u.terms
    → Safe u (derive_power t a b d e)
unfolding derive_power
power-Safe u w t a b d e ht ha hb hd he = Builds-bind (unary-Safe u w log a ha) λ l u1 w1 g1 h1 _.
    Builds-bind (binary-Safe u1 w1 times t l (omega (arith, g1.size)) h1) λ m u2 w2 g2 h2 _.
      Builds-bind (binary-Safe u2 w2 times e m (omega (arith, g1.size, g2.size)) h2)
        λ s1 u3 w3 g3 h3 _.
          let hb' : b < length u3.terms = omega (arith, g1.size, g2.size, g3.size) in
          Builds-bind (binary-Safe u3 w3 minus b one_term hb' (omega (arith, term_count u3 w3)))
            λ x u4 w4 g4 h4 _.
              let ha' : a < length u4.terms = omega (arith, g1.size, g2.size, g3.size, g4.size) in
              Builds-bind (binary-Safe u4 w4 power a x ha' h4) λ p u5 w5 g5 h5 _.
                Builds-bind (binary-Safe u5 w5 times b p (omega (arith, hb', g4.size, g5.size)) h5)
                  λ q u6 w6 g6 h6 _.
                    let hd' : d < length u6.terms =
                      omega (arith, g1.size, g2.size, g3.size, g4.size, g5.size, g6.size) in
                    Builds-bind (binary-Safe u6 w6 times d q hd' h6) λ s2 u7 w7 g7 h7 _.
                      binary-Safe u7 w7 plus s1 s2
                        (omega (arith, h3, g4.size, g5.size, g6.size, g7.size)) h7

module _ (derive : ℕ → M ℕ) (t : ℕ)
    (rec : (u : OperationTree)
      → IsTree u
      → (j : ℕ) → j < t
      → t < length u.terms
      → Safe u (derive j)) where
  -- The derivatives of both operands, and a rule that goes on with them.
  both-Safe :
      (u : OperationTree)
      → IsTree u
      → (a b : ℕ) → a < t
      → b < t
      → t < length u.terms
      → (rule : ℕ → ℕ → M ℕ)
      → ((d e : ℕ) (u' : OperationTree)
          → IsTree u'
          → Grows u u'
          → d < length u'.terms
          → e < length u'.terms
          → Safe u' (rule d e))
      → Safe u (derive a >>= λ d. derive b >>= λ e. rule d e)
  both-Safe u w a b ha hb k rule next = Builds-bind (rec u w a ha k) λ d u1 w1 g1 h1 _.
      Builds-bind (rec u1 w1 b hb (omega (arith, g1.size)))
        λ e u2 w2 g2 h2 _. next d e u2 w2 (Grows-trans g1 g2) (omega (arith, g2.size)) h2

  derive_binary-Safe :
      (u : OperationTree)
      → IsTree u
      → (code : BinaryCode) (a b : ℕ) → a < t
      → b < t
      → t < length u.terms
      → Safe u (derive_binary derive t code a b)
  unfolding derive_binary
  derive_binary-Safe u w plus a b ha hb k =
      both-Safe u w a b ha hb k (add_binary plus)
        λ d e u' w' g hd he. binary-Safe u' w' plus d e hd he
  derive_binary-Safe u w minus a b ha hb k =
      both-Safe u w a b ha hb k (add_binary minus)
        λ d e u' w' g hd he. binary-Safe u' w' minus d e hd he
  derive_binary-Safe u w times a b ha hb k = both-Safe u w a b ha hb k _ λ d e u' w' g hd he.
      Builds-bind (binary-Safe u' w' times a e (omega (arith, g.size)) he) λ p u1 w1 g1 h1 _.
        Builds-bind
          (binary-Safe u1 w1 times d b (omega (arith, g1.size)) (omega (arith, g.size, g1.size)))
          λ q u2 w2 g2 h2 _. binary-Safe u2 w2 plus p q (omega (arith, g2.size)) h2
  derive_binary-Safe u w divide a b ha hb k =
      both-Safe u w a b ha hb k (derive_quotient a b) λ d e u' w' g hd he.
        quotient-Safe u' w' a b d e (omega (arith, g.size)) (omega (arith, g.size)) hd he
  derive_binary-Safe u w power a b ha hb k =
      both-Safe u w a b ha hb k (derive_power t a b) λ d e u' w' g hd he.
        power-Safe u' w' t a b d e (omega (arith, g.size)) (omega (arith, g.size))
          (omega (arith, g.size)) hd he

  pub derive_operation-Safe :
      (u : OperationTree)
      → IsTree u
      → (op : Operation) → op ≢ nulary
      → OperandsBelow t op
      → t < length u.terms
      → Safe u (derive_operation derive t op)
  unfolding derive_operation
  derive_operation-Safe u w nulary ne h k = absurd (ne refl)
  derive_operation-Safe u w (unary code i) ne h k = derive_unary-Safe derive t rec u w code i h k
  derive_operation-Safe u w (binary code i j) ne h k = derive_binary-Safe u w code i j h.0 h.1 k
