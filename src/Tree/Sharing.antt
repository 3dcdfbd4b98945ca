-- ===== src/Tree/Sharing.antt =====
-- Equal operations are stored once, and the order of the operands of a commutative one does not matter.
use mathlib.Core.Option.{some-injective}
use dynare.Base.{
  ℕ, ◌<◌, ◌≡◌, ◌≢◌, refl, sym, ◌∙◌, Option, none, some, List, Result, ok, length, get_elem?, arith,
  ltb, Bool-cases, inl, inr, ◌&&◌, subst, at, at-of, get_elem?_of_lt,
}
use dynare.Tree.{
  Operation, nulary, unary, binary, UnaryCode, BinaryCode, OperationTree, M, find_or_add, add_unary,
  add_binary, unary_shortcut, unary_incidence, order_operands, is_commutative, plus, times,
  binary_shortcut, shortcut_by_code, add_ordered, Shortcut, index, negated, no_shortcut, uminus,
  minus, divide, power, binary_incidence, insert_all, return,
}
use dynare.Tree.Invariant.{IsTree}
use dynare.Tree.Growth.{Builds, find_or_add-Builds}

-- Two terms with one operation that is not nulary are one term.
pub IsTree-unique :
    (t : OperationTree)
    → IsTree t
    → (o : Operation) (i j : ℕ) → o ≢ nulary
    → get_elem? t.terms i ≡ some o
    → get_elem? t.terms j ≡ some o
    → i ≡ j
IsTree-unique t w o i j ne h k = some-injective _ _ (sym (w.shared o i h ne) ∙ w.shared o j k ne)

-- The end of `add_binary`, for a quick exit and ordered operands.
abbrev finish : BinaryCode → Shortcut → ℕ × ℕ → M ℕ
finish code s p = elim s [
  | index i ↦ return i
  | negated i ↦ add_unary uminus i
  | no_shortcut ↦ add_ordered code p
]

-- A computation returns the same term when it is run again, and leaves the tree as it is.
abbrev pub Repeats : M ℕ → OperationTree → Type 0
Repeats m t = (r : ℕ) × (t' : OperationTree) × (m t ≡ ok (r, t')) × (m t' ≡ ok (r, t'))

find_or_add-Repeats :
    (o : Operation) (incidence : OperationTree → Result (List ℕ)) (t : OperationTree)
    → o ≢ nulary
    → Builds t (find_or_add o incidence) (λ r t'. get_elem? t'.terms r ≡ some o)
    → Repeats (find_or_add o incidence) t
unfolding find_or_add
find_or_add-Repeats o incidence t ne b =
    (b.result, b.tree, b.returns, rw (b.invariant.shared o b.result b.holds ne, find_or_add))

module _ (t : OperationTree) (w : IsTree t) where
  incidence_of : (op : ℕ) → op < length t.terms → (s : List ℕ) × (at t.nul_incidence op ≡ ok s)
  incidence_of op h =
      let (s, e) = get_elem?_of_lt t.nul_incidence op (omega (arith, w.incidence_size)) in
      (s, at-of t.nul_incidence op s e)

  -- `add_unary` on a term of the tree, called again with the same arguments, returns the same term
  -- and leaves the tree as it is.
  pub add_unary-Repeats :
      (code : UnaryCode) (op : ℕ) → op < length t.terms → Repeats (add_unary code op) t
  unfolding add_unary unary_incidence
  add_unary-Repeats code op h = go (unary_shortcut code op) refl
    where
      go : (s : Option ℕ) → unary_shortcut code op ≡ s → Repeats (add_unary code op) t
      go (some i) e = (i, t, rw (e, add_unary), rw (e, add_unary))
      go none e =
          let (s, f) = incidence_of op h in
          let b = find_or_add-Builds (unary code op) (unary_incidence op) s t w (λ q. cc) h f in
          subst (λ c. Repeats c t) (sym (rw (e, add_unary)))
            (find_or_add-Repeats (unary code op) (unary_incidence op) t (λ q. cc) b)

  add_pair-Repeats :
      (code : BinaryCode) (i j : ℕ)
      → i < length t.terms
      → j < length t.terms
      → Repeats (add_ordered code (i, j)) t
  unfolding add_ordered binary_incidence
  add_pair-Repeats code i j h k =
      let (s, e) = incidence_of i h in
      let (s', e') = incidence_of j k in
      let f : binary_incidence i j t ≡ ok (insert_all s' s) =
        rw (e, binary_incidence) (rw (e', binary_incidence)) in
      let b =
        find_or_add-Builds (binary code i j) (binary_incidence i j) (insert_all s' s) t w (λ q. cc)
          (h, k) f in
      find_or_add-Repeats (binary code i j) (binary_incidence i j) t (λ q. cc) b

  module _ (op1 op2 : ℕ) (h : op1 < length t.terms) (k : op2 < length t.terms) where
    shortcut_below :
        (code : BinaryCode) (i : ℕ) → binary_shortcut code op1 op2 ≡ negated i → i < length t.terms
    unfolding binary_shortcut shortcut_by_code
    shortcut_below plus i e = ground arith
    shortcut_below minus i e = ground arith
    shortcut_below times i e = ground arith
    shortcut_below divide i e = ground arith
    shortcut_below power i e = ground arith

    add_ordered-Repeats :
        (code : BinaryCode) → Repeats (add_ordered code (order_operands code op1 op2)) t
    unfolding order_operands
    add_ordered-Repeats code = elim (Bool-cases (is_commutative code && ltb op2 op1)) [
      | inl e ↦ rw e (add_pair-Repeats code op2 op1 k h)
      | inr e ↦ rw e (add_pair-Repeats code op1 op2 h k)
    ]

    -- `add_binary` on two terms of the tree, called again with the same arguments, returns the same
    -- term and leaves the tree as it is.
    pub add_binary-Repeats : (code : BinaryCode) → Repeats (add_binary code op1 op2) t
    unfolding add_binary
    add_binary-Repeats code = go (binary_shortcut code op1 op2) refl
      where
        go : (s : Shortcut) → binary_shortcut code op1 op2 ≡ s → Repeats (add_binary code op1 op2) t
        go (index i) e = (i, t, rw (e, add_binary), rw (e, add_binary))
        go (negated i) e =
            subst (λ c. Repeats c t) (sym (rw (e, add_binary)))
              (add_unary-Repeats uminus i (shortcut_below code i e))
        go no_shortcut e =
            subst (λ c. Repeats c t) (sym (rw (e, add_binary))) (add_ordered-Repeats code)
