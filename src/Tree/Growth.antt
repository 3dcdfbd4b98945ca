-- ===== src/Tree/Growth.antt =====
-- Computations that build terms: what holds of them, and the rule for a chain of them.
use dynare.Base.{
  ℕ, ◌<◌, ◌≡◌, ◌≢◌, ◌⊎◌, inl, inr, refl, List, [], ◌∷◌, none, some, Result, ok, arith, length,
  get_elem?, length-append, get_elem?-last, get_elem?_lt, Option-cases,
}
use dynare.Tree.{
  Operation, nulary, OperationTree, M, find, push, push_operation, find_or_add, read, ◌>>=◌, return,
}
use dynare.Tree.Invariant.{
  OperandsBelow, IsTree, Grows, Grows-refl, Grows-trans, new_state, new_state-Grows,
  new_state-IsTree,
}

-- A computation succeeds on a tree, keeps the invariant and all terms, and returns a term with `P`.
pub record Builds (t : OperationTree) (m : M ℕ) (P : ℕ → OperationTree → Type 0) : Type 0 where
  pub result : ℕ
  pub tree : OperationTree
  pub returns : m t ≡ ok (result, tree)
  pub invariant : IsTree tree
  pub grows : Grows t tree
  pub below : result < length tree.terms
  pub holds : P result tree

abbrev pub Anything : ℕ → OperationTree → Type 0
Anything r t = Unit

-- What `find_or_add` returns is the term of the operation.
pub find_or_add-Builds :
    (o : Operation) (incidence : OperationTree → Result (List ℕ)) (s : List ℕ) (t : OperationTree)
    → IsTree t
    → o ≢ nulary
    → OperandsBelow (length t.terms) o
    → incidence t ≡ ok s
    → Builds t (find_or_add o incidence) (λ r t'. get_elem? t'.terms r ≡ some o)
unfolding find_or_add push_operation push new_state
find_or_add-Builds o incidence s t w ne below e = go (Option-cases (find o t.opmap))
  where
    go :
        (find o t.opmap ≡ none) ⊎ ((i : ℕ) × (find o t.opmap ≡ some i))
        → Builds t (find_or_add o incidence) (λ r t'. get_elem? t'.terms r ≡ some o)
    go (inl fresh) = record {
      result = length t.terms;
      tree = new_state t w o s;
      returns = rw (fresh, find_or_add) (rw (e, read, ◌>>=◌));
      invariant = new_state-IsTree t w o s ne fresh below;
      grows = new_state-Grows t w o s;
      below = omega (arith, length-append t.terms (o ∷ []));
      holds = get_elem?-last t.terms o;
    }
    go (inr (i, e')) = record {
      result = i;
      tree = t;
      returns = rw (e', find_or_add);
      invariant = w;
      grows = Grows-refl t;
      below = get_elem?_lt t.terms i o (w.found o i e');
      holds = w.found o i e';
    }

module _ {P : ℕ → OperationTree → Type 0} {t : OperationTree} where
  pub Builds-return : (r : ℕ) → IsTree t → r < length t.terms → P r t → Builds t (return r) P
  Builds-return r w h p = record {
    result = r;
    tree = t;
    returns = refl;
    invariant = w;
    grows = Grows-refl t;
    below = h;
    holds = p;
  }

  pub Builds-bind :
      {m : M ℕ} {f : ℕ → M ℕ} {Q : ℕ → OperationTree → Type 0}
      → Builds t m P
      → ((r : ℕ) (u : OperationTree)
          → IsTree u
          → Grows t u
          → r < length u.terms
          → P r u
          → Builds u (f r) Q)
      → Builds t (m >>= f) Q
  Builds-bind {m} {f} b k =
      let c = k b.result b.tree b.invariant b.grows b.below b.holds in
      record {
        result = c.result;
        tree = c.tree;
        returns = rw (b.returns, ◌>>=◌) c.returns;
        invariant = c.invariant;
        grows = Grows-trans b.grows c.grows;
        below = c.below;
        holds = c.holds;
      }

  pub Builds-map :
      {m : M ℕ} {Q : ℕ → OperationTree → Type 0}
      → Builds t m P
      → ((r : ℕ) (u : OperationTree) → IsTree u → Grows t u → P r u → Q r u)
      → Builds t m Q
  Builds-map b k = record {
    result = b.result;
    tree = b.tree;
    returns = b.returns;
    invariant = b.invariant;
    grows = b.grows;
    below = b.below;
    holds = k b.result b.tree b.invariant b.grows b.holds;
  }
