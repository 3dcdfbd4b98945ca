-- ===== src/Tree/Kept.antt =====
-- What the state of parser/cc/tree.cc is after `add_unary` and `add_binary`: the old one, or the one with
-- one more term.
use dynare.Base.{
  ℕ, ◌<◌, ◌≡◌, inl, inr, refl, subst, List, Option, none, some, Result, ok, err, arith, length, ltb,
  ◌&&◌, Bool-cases,
}
use dynare.Tree.{
  UnaryCode, BinaryCode, uminus, Operation, unary, binary, OperationTree, M, find, push,
  push_operation, find_or_add, read, ◌>>=◌, unary_shortcut, add_unary, unary_incidence,
  binary_incidence, Shortcut, index, negated, no_shortcut, binary_shortcut, shortcut_by_code,
  order_operands, is_commutative, add_ordered, add_binary,
}
use dynare.Tree.Invariant.{IsTree, OperandsBelow, new_state}
use dynare.Tree.Exact.{IncidenceOf}

negated_operand : (code : BinaryCode) (i j k : ℕ) → binary_shortcut code i j ≡ negated k → k ≡ j
unfolding binary_shortcut shortcut_by_code
negated_operand code i j k e = ground arith

-- A property of states, which `t` has, and `t` with one more term.
module _ (t : OperationTree) (w : IsTree t) (Q : OperationTree → Type 0) (q : Q t)
    (step : (o : Operation) (s : List ℕ)
      → OperandsBelow (length t.terms) o
      → IncidenceOf t o s
      → Q (new_state t w o s)) where
  -- Every tree that the computation leaves has the property.
  abbrev pub Keeps : M ℕ → Type 0
  Keeps m = (r : ℕ) (u : OperationTree) → m t ≡ ok (r, u) → Q u

  find_or_add-Keeps :
      (o : Operation) (incidence : OperationTree → Result (List ℕ))
      → OperandsBelow (length t.terms) o
      → ((s : List ℕ) → incidence t ≡ ok s → IncidenceOf t o s)
      → Keeps (find_or_add o incidence)
  unfolding find_or_add push_operation push new_state
  find_or_add-Keeps o incidence h e r u f = go (find o t.opmap) (incidence t) refl refl
    where
      go : (p : Option ℕ) (c : Result (List ℕ)) → find o t.opmap ≡ p → incidence t ≡ c → Q u
      go (some i) c g k = let same : t ≡ u = cc (rw (find_or_add, g) at f) in subst Q same q
      go none (ok s) g k =
          let same : new_state t w o s ≡ u = cc (rw (k, read, ◌>>=◌) at rw (find_or_add, g) at f) in
          subst Q same (step o s h (e s k))
      go none (err x) g k = cc (rw (k, read, ◌>>=◌) at rw (find_or_add, g) at f)

  pub add_unary-Keeps : (code : UnaryCode) (i : ℕ) → i < length t.terms → Keeps (add_unary code i)
  unfolding add_unary
  add_unary-Keeps code i h r u f = go (unary_shortcut code i) refl
    where
      go : (p : Option ℕ) → unary_shortcut code i ≡ p → Q u
      go (some j) g = let same : t ≡ u = cc (rw (add_unary, g) at f) in subst Q same q
      go none g =
          find_or_add-Keeps (unary code i) (unary_incidence i) h (λ s e. e) r u
            (rw (add_unary, g) at f)

  ordered-Keeps :
      (code : BinaryCode) (i j : ℕ)
      → i < length t.terms
      → j < length t.terms
      → Keeps (add_ordered code (order_operands code i j))
  unfolding add_ordered order_operands
  ordered-Keeps code i j h h' r u f = elim (Bool-cases (is_commutative code && ltb j i)) [
    | inl g ↦
        find_or_add-Keeps (binary code j i) (binary_incidence j i) (h', h) (λ s e. e) r u
          (rw (order_operands, g) at f)
    | inr g ↦
        find_or_add-Keeps (binary code i j) (binary_incidence i j) (h, h') (λ s e. e) r u
          (rw (order_operands, g) at f)
  ]

  pub add_binary-Keeps :
      (code : BinaryCode) (i j : ℕ)
      → i < length t.terms
      → j < length t.terms
      → Keeps (add_binary code i j)
  unfolding add_binary
  add_binary-Keeps code i j h h' r u f = go (binary_shortcut code i j) refl
    where
      go : (p : Shortcut) → binary_shortcut code i j ≡ p → Q u
      go (index k) g = let same : t ≡ u = cc (rw (add_binary, g) at f) in subst Q same q
      go (negated k) g =
          add_unary-Keeps uminus k (omega (arith, negated_operand code i j k g)) r u
            (rw (add_binary, g) at f)
      go no_shortcut g = ordered-Keeps code i j h h' r u (rw (add_binary, g) at f)
