-- ===== src/Tree/Shortcuts.antt =====
-- The quick exits of `add_binary` give the value of the operation.
use dynare.Base.{ℕ, ◌<◌, ◌≡◌, sym, ap, ◌∙◌, subst, some, arith, length}
use mathlib.Core.Option.{some-injective}
use dynare.Tree.{
  BinaryCode, uminus, plus, minus, times, divide, power, OperationTree, zero_term, one_term,
  nan_term, Shortcut, index, negated, no_shortcut,
}
use dynare.Tree.Invariant.{IsTree}
use dynare.Tree.Meaning.{Arithmetic, Denotes, constant, Denotes-unique}
use dynare.Tree.Simplify.{size, zero_is, one_is}

module _ {D : Type 0} (a : Arithmetic D) (env : ℕ → D) where
  abbrev pub Means2 : BinaryCode → ℕ → ℕ → OperationTree → ℕ → OperationTree → Type 0
  Means2 code op1 op2 t r t' =
      (x y z : D)
      → Denotes a env t.terms op1 x
      → Denotes a env t.terms op2 y
      → a.apply2 code x y ≡ some z
      → Denotes a env t'.terms r z

  -- What a quick exit must return.
  abbrev pub ShortcutMeans : BinaryCode → ℕ → ℕ → OperationTree → Shortcut → Type 0
  ShortcutMeans code op1 op2 t (index i) = (i < length t.terms) × Means2 code op1 op2 t i t
  ShortcutMeans code op1 op2 t (negated i) =
      (i < length t.terms)
      × ((x y z : D)
          → Denotes a env t.terms op1 x
          → Denotes a env t.terms op2 y
          → a.apply2 code x y ≡ some z
          → (v : D) × Denotes a env t.terms i v × (a.apply1 uminus v ≡ some z))
  ShortcutMeans code op1 op2 t no_shortcut = Unit

  module _ (t : OperationTree) (w : IsTree t) (op1 op2 : ℕ) (h1 : op1 < length t.terms)
      (h2 : op2 < length t.terms) where
    is_zero : (z : D) → z ≡ a.zero_value → Denotes a env t.terms zero_term z
    is_zero z e = constant (omega arith) (ap some (sym e))

    is_one : (z : D) → z ≡ a.one_value → Denotes a env t.terms one_term z
    is_one z e = constant (omega arith) (ap some (sym e))

    pub term_lt : (i : ℕ) → i < 4 → i < length t.terms
    term_lt i h = omega (arith, size a env t w)

    -- The laws in the form in which the exits use them.
    pub plus_left : op1 ≡ zero_term → Means2 plus op1 op2 t op2 t
    plus_left e x y z d d' q =
        subst (Denotes a env t.terms op2)
          (some-injective _ _ (sym (a.zero-plus y) ∙ (rw (zero_is a env t w e d) at q))) d'

    pub plus_right : op2 ≡ zero_term → Means2 plus op1 op2 t op1 t
    plus_right e x y z d d' q =
        subst (Denotes a env t.terms op1)
          (some-injective _ _ (
            sym (a.zero-plus x)
            ∙ sym (a.plus_comm x a.zero_value)
            ∙ (rw (zero_is a env t w e d') at q)))
          d

    pub minus_left :
        op1 ≡ zero_term
        → (x y z : D) → Denotes a env t.terms op1 x
        → Denotes a env t.terms op2 y
        → a.apply2 minus x y ≡ some z
        → (v : D) × Denotes a env t.terms op2 v × (a.apply1 uminus v ≡ some z)
    minus_left e x y z d d' q = (y, d', sym (a.zero-minus y) ∙ (rw (zero_is a env t w e d) at q))

    pub minus_right : op2 ≡ zero_term → Means2 minus op1 op2 t op1 t
    minus_right e x y z d d' q =
        subst (Denotes a env t.terms op1)
          (some-injective _ _ (sym (a.minus-zero x) ∙ (rw (zero_is a env t w e d') at q))) d

    pub times_left : op1 ≡ zero_term → Means2 times op1 op2 t zero_term t
    times_left e x y z d d' q =
        is_zero z
          (sym (some-injective _ _ (sym (a.zero-times y) ∙ (rw (zero_is a env t w e d) at q))))

    pub times_right : op2 ≡ zero_term → Means2 times op1 op2 t zero_term t
    times_right e x y z d d' q = is_zero z (
        sym (
          some-injective _ _ (
            sym (a.zero-times x)
            ∙ sym (a.times_comm x a.zero_value)
            ∙ (rw (zero_is a env t w e d') at q))))

    pub times_one_left : op1 ≡ one_term → Means2 times op1 op2 t op2 t
    times_one_left e x y z d d' q =
        subst (Denotes a env t.terms op2)
          (some-injective _ _ (sym (a.one-times y) ∙ (rw (one_is a env t w e d) at q))) d'

    pub times_one_right : op2 ≡ one_term → Means2 times op1 op2 t op1 t
    times_one_right e x y z d d' q =
        subst (Denotes a env t.terms op1)
          (some-injective _ _ (
            sym (a.one-times x)
            ∙ sym (a.times_comm x a.one_value)
            ∙ (rw (one_is a env t w e d') at q)))
          d

    pub divide_same : op1 ≡ op2 → Means2 divide op1 op2 t one_term t
    divide_same e x y z d d' q =
        let same : x ≡ y =
          Denotes-unique a env t w d (subst (λ i. Denotes a env t.terms i y) (sym e) d') in
        is_one z (a.divide_self y z (rw same at q))

    pub divide_left : op1 ≡ zero_term → Means2 divide op1 op2 t zero_term t
    divide_left e x y z d d' q = is_zero z (a.zero-divide y z (rw (zero_is a env t w e d) at q))

    pub divide_right : op2 ≡ zero_term → Means2 divide op1 op2 t nan_term t
    divide_right e x y z d d' q = absurd (cc (a.divide-zero x, (rw (zero_is a env t w e d') at q)))

    pub power_both : op1 ≡ zero_term → op2 ≡ zero_term → Means2 power op1 op2 t nan_term t
    power_both e e' x y z d d' q =
        absurd (cc (zero_is a env t w e d, zero_is a env t w e' d', a.zero-power-zero, q))

    pub power_left : op1 ≡ zero_term → Means2 power op1 op2 t zero_term t
    power_left e x y z d d' q = is_zero z (a.zero-power y z (rw (zero_is a env t w e d) at q))

    pub power_right : op2 ≡ zero_term → Means2 power op1 op2 t one_term t
    power_right e x y z d d' q = is_one z (a.power-zero x z (rw (zero_is a env t w e d') at q))

    pub power_one_left : op1 ≡ one_term → Means2 power op1 op2 t one_term t
    power_one_left e x y z d d' q = is_one z (a.one-power y z (rw (one_is a env t w e d) at q))

    pub power_one_right : op2 ≡ one_term → Means2 power op1 op2 t op1 t
    power_one_right e x y z d d' q =
        subst (Denotes a env t.terms op1) (sym (a.power-one x z (rw (one_is a env t w e d') at q)))
          d
