-- ===== src/Tree/Binary.antt =====
-- `add_binary` succeeds on the terms of a tree, keeps it a tree, and returns a term with the value of
-- the operation wherever that is defined.
use dynare.Base.{
  ℕ, ◌<◌, ◌≡◌, ◌⊎◌, refl, sym, ◌∙◌, subst, arith, List, length, ◌==◌, ==_iff, Bool-cases, inl, inr,
  true, false, ◌&&◌, ltb, ok, at-of, get_elem?_of_lt,
}
use dynare.Tree.{
  BinaryCode, uminus, plus, minus, times, divide, power, binary, OperationTree, zero_term, one_term,
  nan_term, Shortcut, index, negated, no_shortcut, shortcut_by_code, binary_shortcut, add_binary,
  add_ordered, order_operands, is_commutative, binary_incidence, insert_all,
}
use dynare.Tree.Invariant.{IsTree}
use dynare.Tree.Growth.{Builds, Builds-return, Builds-map, find_or_add-Builds}
use dynare.Tree.Meaning.{Arithmetic, value2, Denotes-Grows}
use dynare.Tree.Simplify.{nan_is, add_unary-Builds}
use dynare.Tree.Shortcuts.{
  Means2, ShortcutMeans, term_lt, plus_left, plus_right, minus_left, minus_right, times_left,
  times_right, times_one_left, times_one_right, divide_same, divide_left, divide_right, power_both,
  power_left, power_right, power_one_left, power_one_right,
}

module _ {D : Type 0} (a : Arithmetic D) (env : ℕ → D) (t : OperationTree) (w : IsTree t)
    (op1 op2 : ℕ) (h1 : op1 < length t.terms) (h2 : op2 < length t.terms) where
  is_term : {i j : ℕ} → (i == j) ≡ true → i ≡ j
  is_term e = (==_iff _ _).0 e

  shortcut_by_code-Means :
      (code : BinaryCode) → ShortcutMeans a env code op1 op2 t (shortcut_by_code code op1 op2)
  unfolding shortcut_by_code
  shortcut_by_code-Means plus = elim (Bool-cases (op1 == zero_term)) [
    | inl e1 ↦ elim (Bool-cases (op2 == zero_term)) [
      | inl e2 ↦
          rw (e1, e2)
            (
              term_lt a env t w op1 op2 h1 h2 0 (omega arith),
              subst (λ i. Means2 a env plus op1 op2 t i t) (is_term e2)
                  (plus_left a env t w op1 op2 h1 h2 (is_term e1)),
            )
      | inr e2 ↦ rw (e1, e2) (h2, plus_left a env t w op1 op2 h1 h2 (is_term e1))
    ]
    | inr e1 ↦ elim (Bool-cases (op2 == zero_term)) [
      | inl e2 ↦ rw (e1, e2) (h1, plus_right a env t w op1 op2 h1 h2 (is_term e2))
      | inr e2 ↦ rw (e1, e2) tt
    ]
  ]
  shortcut_by_code-Means minus = elim (Bool-cases (op1 == zero_term)) [
    | inl e1 ↦ elim (Bool-cases (op2 == zero_term)) [
      | inl e2 ↦
          rw (e1, e2)
            (
              term_lt a env t w op1 op2 h1 h2 0 (omega arith),
              subst (λ i. Means2 a env minus op1 op2 t i t) (is_term e1)
                  (minus_right a env t w op1 op2 h1 h2 (is_term e2)),
            )
      | inr e2 ↦ rw (e1, e2) (h2, minus_left a env t w op1 op2 h1 h2 (is_term e1))
    ]
    | inr e1 ↦ elim (Bool-cases (op2 == zero_term)) [
      | inl e2 ↦ rw (e1, e2) (h1, minus_right a env t w op1 op2 h1 h2 (is_term e2))
      | inr e2 ↦ rw (e1, e2) tt
    ]
  ]
  shortcut_by_code-Means times = elim (Bool-cases (op1 == zero_term)) [
    | inl e1 ↦ rw e1 (
      term_lt a env t w op1 op2 h1 h2 0 (omega arith),
      times_left a env t w op1 op2 h1 h2 (is_term e1),
    )
    | inr e1 ↦ elim (Bool-cases (op2 == zero_term)) [
      | inl e2 ↦
          rw (e1, e2)
            (
              term_lt a env t w op1 op2 h1 h2 0 (omega arith),
              times_right a env t w op1 op2 h1 h2 (is_term e2),
            )
      | inr e2 ↦ elim (Bool-cases (op1 == one_term)) [
        | inl e3 ↦ rw (e1, e2, e3) (h2, times_one_left a env t w op1 op2 h1 h2 (is_term e3))
        | inr e3 ↦ elim (Bool-cases (op2 == one_term)) [
          | inl e4 ↦ rw (e1, e2, e3, e4) (h1, times_one_right a env t w op1 op2 h1 h2 (is_term e4))
          | inr e4 ↦ rw (e1, e2, e3, e4) tt
        ]
      ]
    ]
  ]
  shortcut_by_code-Means divide = elim (Bool-cases (op1 == op2)) [
    | inl e ↦ rw e (
      term_lt a env t w op1 op2 h1 h2 1 (omega arith),
      divide_same a env t w op1 op2 h1 h2 (is_term e),
    )
    | inr e ↦ elim (Bool-cases (op1 == zero_term)) [
      | inl e1 ↦
          rw (e, e1)
            (
              term_lt a env t w op1 op2 h1 h2 0 (omega arith),
              divide_left a env t w op1 op2 h1 h2 (is_term e1),
            )
      | inr e1 ↦ elim (Bool-cases (op2 == zero_term)) [
        | inl e2 ↦
            rw (e, e1, e2)
              (
                term_lt a env t w op1 op2 h1 h2 2 (omega arith),
                divide_right a env t w op1 op2 h1 h2 (is_term e2),
              )
        | inr e2 ↦ rw (e, e1, e2) tt
      ]
    ]
  ]
  shortcut_by_code-Means power = elim (Bool-cases (op1 == zero_term)) [
    | inl e1 ↦ elim (Bool-cases (op2 == zero_term)) [
      | inl e2 ↦
          rw (e1, e2)
            (
              term_lt a env t w op1 op2 h1 h2 2 (omega arith),
              power_both a env t w op1 op2 h1 h2 (is_term e1) (is_term e2),
            )
      | inr e2 ↦
          rw (e1, e2)
            (
              term_lt a env t w op1 op2 h1 h2 0 (omega arith),
              power_left a env t w op1 op2 h1 h2 (is_term e1),
            )
    ]
    | inr e1 ↦ elim (Bool-cases (op2 == zero_term)) [
      | inl e2 ↦
          rw (e1, e2)
            (
              term_lt a env t w op1 op2 h1 h2 1 (omega arith),
              power_right a env t w op1 op2 h1 h2 (is_term e2),
            )
      | inr e2 ↦ elim (Bool-cases (op1 == one_term)) [
        | inl e3 ↦
            rw (e1, e2, e3)
              (
                term_lt a env t w op1 op2 h1 h2 1 (omega arith),
                power_one_left a env t w op1 op2 h1 h2 (is_term e3),
              )
        | inr e3 ↦ elim (Bool-cases (op2 == one_term)) [
          | inl e4 ↦ rw (e1, e2, e3, e4) (h1, power_one_right a env t w op1 op2 h1 h2 (is_term e4))
          | inr e4 ↦ rw (e1, e2, e3, e4) tt
        ]
      ]
    ]
  ]

  binary_shortcut-Means :
      (code : BinaryCode) → ShortcutMeans a env code op1 op2 t (binary_shortcut code op1 op2)
  unfolding binary_shortcut
  binary_shortcut-Means code = elim (Bool-cases (op1 == nan_term)) [
    | inl e1 ↦ rw e1 (
      term_lt a env t w op1 op2 h1 h2 2 (omega arith),
      λ x y z d d' q. absurd (nan_is a env t w (is_term e1) d),
    )
    | inr e1 ↦ elim (Bool-cases (op2 == nan_term)) [
      | inl e2 ↦
          rw (e1, e2)
            (
              term_lt a env t w op1 op2 h1 h2 2 (omega arith),
              λ x y z d d' q. absurd (nan_is a env t w (is_term e2) d'),
            )
      | inr e2 ↦ rw (e1, e2) (shortcut_by_code-Means code)
    ]
  ]

  commutes :
      (code : BinaryCode) (x y : D)
      → is_commutative code ≡ true
      → a.apply2 code x y ≡ a.apply2 code y x
  unfolding is_commutative
  commutes plus x y e = a.plus_comm x y
  commutes times x y e = a.times_comm x y
  commutes minus x y e = cc
  commutes divide x y e = cc
  commutes power x y e = cc

  incidence_of :
      (i j : ℕ)
      → i < length t.terms
      → j < length t.terms
      → (s : List ℕ) × (binary_incidence i j t ≡ ok s)
  unfolding binary_incidence
  incidence_of i j h h' =
      let (s, e) = get_elem?_of_lt t.nul_incidence i (omega (arith, w.incidence_size)) in
      let (s', e') = get_elem?_of_lt t.nul_incidence j (omega (arith, w.incidence_size)) in
      (
        insert_all s' s,
        rw (at-of t.nul_incidence i s e, binary_incidence)
            (rw (at-of t.nul_incidence j s' e', binary_incidence)),
      )

  add_pair :
      (code : BinaryCode) (i j : ℕ)
      → i < length t.terms
      → j < length t.terms
      → Builds t (add_ordered code (i, j)) (Means2 a env code i j t)
  unfolding add_ordered
  add_pair code i j h h' =
      let (s, f) = incidence_of i j h h' in
      let b =
        find_or_add-Builds (binary code i j) (binary_incidence i j) s t w (λ q. cc) (h, h') f in
      Builds-map b λ r u v g p x y z d d' q.
        value2 code p (Denotes-Grows a env g d) (Denotes-Grows a env g d') q

  add_ordered-Builds :
      (code : BinaryCode)
      → Builds t (add_ordered code (order_operands code op1 op2)) (Means2 a env code op1 op2 t)
  add_ordered-Builds code = go (Bool-cases (is_commutative code && ltb op2 op1))
    where
      go :
          ((is_commutative code && ltb op2 op1) ≡ true)
            ⊎ ((is_commutative code && ltb op2 op1) ≡ false)
          → Builds t (add_ordered code (order_operands code op1 op2)) (Means2 a env code op1 op2 t)
      go (inl e) =
          let pair : (op2, op1) ≡ order_operands code op1 op2 = unfold order_operands in rw e in
          subst (λ p. Builds t (add_ordered code p) (Means2 a env code op1 op2 t)) pair
            (Builds-map (add_pair code op2 op1 h2 h1)
              λ r u v g m x y z d d' q. m y x z d' d (sym (commutes code x y (ground arith)) ∙ q))
      go (inr e) =
          let pair : (op1, op2) ≡ order_operands code op1 op2 = unfold order_operands in rw e in
          subst (λ p. Builds t (add_ordered code p) (Means2 a env code op1 op2 t)) pair
            (add_pair code op1 op2 h1 h2)

  add_binary-at :
      (code : BinaryCode) (s : Shortcut)
      → binary_shortcut code op1 op2 ≡ s
      → ShortcutMeans a env code op1 op2 t s
      → Builds t (add_binary code op1 op2) (Means2 a env code op1 op2 t)
  unfolding add_binary
  add_binary-at code (index i) e m =
      subst (λ c. Builds t c (Means2 a env code op1 op2 t)) (sym (rw (e, add_binary)))
        (Builds-return i w m.0 m.1)
  add_binary-at code (negated i) e m =
      subst (λ c. Builds t c (Means2 a env code op1 op2 t)) (sym (rw (e, add_binary)))
        (Builds-map (add_unary-Builds a env t w uminus i m.0)
          λ r u v g n x y z d d' q. let (v', dv, e') = m.1 x y z d d' q in n v' z dv e')
  add_binary-at code no_shortcut e m =
      subst (λ c. Builds t c (Means2 a env code op1 op2 t)) (sym (rw (e, add_binary)))
        (add_ordered-Builds code)

  -- On two terms of the tree `add_binary` succeeds, keeps the tree's invariant and terms, and returns a
  -- term whose value is that of the operation at the operands' values, wherever it is defined.
  pub add_binary-Builds :
      (code : BinaryCode) → Builds t (add_binary code op1 op2) (Means2 a env code op1 op2 t)
  add_binary-Builds code =
      add_binary-at code (binary_shortcut code op1 op2) refl (binary_shortcut-Means code)
