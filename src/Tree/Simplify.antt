-- ===== src/Tree/Simplify.antt =====
-- `add_unary` and `add_binary` succeed on the terms of a tree, keep it a tree, and return a term with
-- the value of the operation wherever that is defined.
use dynare.Base.{
  ℕ, ◌≤◌, ◌<◌, ◌≡◌, inl, inr, sym, ◌∙◌, subst, none, some, arith, List, ok, length, get_elem?_of_lt,
  get_elem?_lt, at, ◌==◌, ==_iff, Bool-cases,
}
use mathlib.Core.Option.{some-injective}
use dynare.Tree.{
  UnaryCode, uminus, log, exp, sin, cos, tan, sqrt, erf, erfc, nulary, unary, OperationTree,
  num_constants, value_at_zero, zero_term, one_term, nan_term, unary_shortcut, add_unary,
  unary_incidence,
}
use dynare.Tree.Invariant.{IsTree}
use dynare.Tree.Growth.{Builds, Builds-return, Builds-map, find_or_add-Builds}
use dynare.Tree.Meaning.{Arithmetic, Denotes, constant, value1, Denotes-Grows, Denotes-constant}

module _ {D : Type 0} (a : Arithmetic D) (env : ℕ → D) where
  -- The result stands for the value of `code` at the value of the operand.
  abbrev pub Means1 : UnaryCode → ℕ → OperationTree → ℕ → OperationTree → Type 0
  Means1 code op t r t' =
      (x y : D) → Denotes a env t.terms op x → a.apply1 code x ≡ some y → Denotes a env t'.terms r y

  at_zero :
      (code : UnaryCode) (t : OperationTree) (y : D)
      → a.apply1 code a.zero_value ≡ some y
      → Denotes a env t.terms (value_at_zero code) y
  unfolding value_at_zero
  at_zero uminus t y e = constant (omega arith) (sym a.uminus_zero ∙ e)
  at_zero sin t y e = constant (omega arith) (sym a.sin_zero ∙ e)
  at_zero tan t y e = constant (omega arith) (sym a.tan_zero ∙ e)
  at_zero sqrt t y e = constant (omega arith) (sym a.sqrt_zero ∙ e)
  at_zero erf t y e = constant (omega arith) (sym a.erf_zero ∙ e)
  at_zero log t y e = cc a.log_zero
  at_zero exp t y e = constant (omega arith) (sym a.exp_zero ∙ e)
  at_zero cos t y e = constant (omega arith) (sym a.cos_zero ∙ e)
  at_zero erfc t y e = constant (omega arith) (sym a.erfc_zero ∙ e)

  value_at_zero-lt : (code : UnaryCode) → value_at_zero code < num_constants
  unfolding value_at_zero
  value_at_zero-lt code = ground arith

  module _ (t : OperationTree) (w : IsTree t) where
    pub size : num_constants ≤ length t.terms
    size = get_elem?_lt t.terms 3 nulary (w.constants 3 (omega arith))

    pub zero_is : {i : ℕ} {x : D} → i ≡ zero_term → Denotes a env t.terms i x → x ≡ a.zero_value
    zero_is {x} e d = some-injective _ _ (
        sym (Denotes-constant a env t w (omega arith) (subst (λ i. Denotes a env t.terms i x) e d)))

    pub one_is : {i : ℕ} {x : D} → i ≡ one_term → Denotes a env t.terms i x → x ≡ a.one_value
    one_is {x} e d = some-injective _ _ (
        sym (Denotes-constant a env t w (omega arith) (subst (λ i. Denotes a env t.terms i x) e d)))

    pub nan_is : {i : ℕ} {x : D} → i ≡ nan_term → Denotes a env t.terms i x → ⊥
    nan_is {x} e d =
        cc (Denotes-constant a env t w (omega arith) (subst (λ i. Denotes a env t.terms i x) e d))

    incidence_of : (op : ℕ) → op < length t.terms → (s : List ℕ) × (unary_incidence op t ≡ ok s)
    unfolding unary_incidence
    incidence_of op h =
        let (s, e) = get_elem?_of_lt t.nul_incidence op (omega (arith, w.incidence_size)) in
        (s, rw (e, at))

    return_value :
        (code : UnaryCode) (op i : ℕ)
        → unary_shortcut code op ≡ some i
        → i < length t.terms
        → Means1 code op t i t
        → Builds t (add_unary code op) (Means1 code op t)
    unfolding add_unary
    return_value code op i e h m =
        subst (λ c. Builds t c (Means1 code op t)) (sym (rw (e, add_unary))) (Builds-return i w h m)

    add_value1 :
        (code : UnaryCode) (op : ℕ)
        → unary_shortcut code op ≡ none
        → op < length t.terms
        → Builds t (add_unary code op) (Means1 code op t)
    unfolding add_unary
    add_value1 code op e h =
        let (s, f) = incidence_of op h in
        let b = find_or_add-Builds (unary code op) (unary_incidence op) s t w (λ q. cc) h f in
        subst (λ c. Builds t c (Means1 code op t)) (sym (rw (e, add_unary)))
          (Builds-map b λ r u v g p x y d q. value1 code p (Denotes-Grows a env g d) q)

    -- On a term of the tree `add_unary` succeeds, keeps the tree's invariant and terms, and returns a
    -- term whose value is that of the function at the operand's value, wherever it is defined.
    pub add_unary-Builds :
        (code : UnaryCode) (op : ℕ)
        → op < length t.terms
        → Builds t (add_unary code op) (Means1 code op t)
    add_unary-Builds code op h = elim (Bool-cases (op == zero_term)) [
      | inl e ↦
          let z = (==_iff op zero_term).0 e in
          return_value code op (value_at_zero code) (unfold unary_shortcut in rw e)
            (omega (arith, value_at_zero-lt code, size))
            (λ x y d q. at_zero code t y (rw (zero_is z d) at q))
      | inr e ↦ elim (Bool-cases (op == nan_term)) [
        | inl e' ↦
            return_value code op nan_term (unfold unary_shortcut in rw (e, e'))
              (omega (arith, size)) (λ x y d q. absurd (nan_is ((==_iff op nan_term).0 e') d))
        | inr e' ↦ add_value1 code op (unfold unary_shortcut in rw (e, e')) h
      ]
    ]
