-- ===== src/Tree/Nulary.antt =====
-- The constructor of OperationTree makes a tree, and `add_nulary` keeps it one.
use dynare.Base.{
  subst, ℕ, zero, suc, ◌<◌, ◌≡◌, ◌≢◌, ◌⊎◌, inl, inr, refl, sym, List, [], ◌∷◌, ◌++◌, some, ok,
  arith, length, get_elem?, length-append, get_elem?-append, get_elem?-last, get_elem?-snoc,
}
use mathlib.Core.Option.{some-injective}
use dynare.Tree.{
  Operation, nulary, OperationTree, find, lookup, push, add_nulary, new_tree, num_constants,
}
use dynare.Tree.Invariant.{OperandsBelow, IsTree, Grows}
use dynare.Tree.Growth.{Builds}

-- The tree of the four constants.
abbrev pub constants_tree : OperationTree
constants_tree = record {
  terms = nulary ∷ nulary ∷ nulary ∷ nulary ∷ [];
  opmap = [];
  nul_incidence = (0 ∷ []) ∷ (1 ∷ []) ∷ (2 ∷ []) ∷ (3 ∷ []) ∷ [];
  derivatives = [] ∷ [] ∷ [] ∷ [] ∷ [];
  last_nulary = some 3;
}

constants_nulary : (i : ℕ) (o : Operation) → get_elem? constants_tree.terms i ≡ some o → nulary ≡ o
constants_nulary zero o h = some-injective _ _ h
constants_nulary (suc zero) o h = some-injective _ _ h
constants_nulary (suc (suc zero)) o h = some-injective _ _ h
constants_nulary (suc (suc (suc zero))) o h = some-injective _ _ h
constants_nulary (suc (suc (suc (suc i)))) o h = cc

constants_present : (i : ℕ) → i < num_constants → get_elem? constants_tree.terms i ≡ some nulary
constants_present zero h = refl
constants_present (suc zero) h = refl
constants_present (suc (suc zero)) h = refl
constants_present (suc (suc (suc zero))) h = refl
constants_present (suc (suc (suc (suc i)))) h = absurd (omega arith)

pub no_derivatives :
    (i : ℕ) (m : List (ℕ × ℕ)) → get_elem? constants_tree.derivatives i ≡ some m → [] ≡ m
no_derivatives zero m h = some-injective _ _ h
no_derivatives (suc zero) m h = some-injective _ _ h
no_derivatives (suc (suc zero)) m h = some-injective _ _ h
no_derivatives (suc (suc (suc zero))) m h = some-injective _ _ h
no_derivatives (suc (suc (suc (suc i)))) m h = cc

nulary_operands : (i : ℕ) (o : Operation) → nulary ≡ o → OperandsBelow i o
nulary_operands i o e = rw (← e) tt

pub constants_tree-IsTree : IsTree constants_tree
constants_tree-IsTree = record {
  incidence_size = refl;
  derivatives_size = refl;
  constants = constants_present;
  ordered = λ i o h. nulary_operands i o (constants_nulary i o h);
  found = λ o i h. absurd (unfold find in cc h);
  shared = λ o i h ne. absurd (ne (sym (constants_nulary i o h)));
  registered = λ i v d m h e. absurd (unfold lookup in cc (rw (← no_derivatives i m h) at e));
}

pub new_tree_run : new_tree ≡ ok (3, constants_tree)
unfolding new_tree add_nulary push
new_tree_run = refl

-- The constructor makes the four constants, a tree that meets the invariant.
new_tree-IsTree :
    (r : ℕ) × (t : OperationTree) × (new_tree ≡ ok (r, t))
    × IsTree t
    × (length t.terms ≡ num_constants)
new_tree-IsTree = (3, constants_tree, new_tree_run, constants_tree-IsTree, refl)

module _ (t : OperationTree) (w : IsTree t) where
  unfoldable pub nulary_state : OperationTree
  nulary_state = record t {
    terms = t.terms ++ nulary ∷ [];
    nul_incidence = t.nul_incidence ++ (length t.terms ∷ []) ∷ [];
    derivatives = t.derivatives ++ [] ∷ [];
    last_nulary = some (length t.terms);
  }

  pub nulary_result : add_nulary t ≡ ok (length t.terms, nulary_state)
  unfolding add_nulary push nulary_state
  nulary_result = refl

  pub nulary_state-Grows : Grows t nulary_state
  unfolding nulary_state
  nulary_state-Grows = record {
    size = omega (arith, length-append t.terms (nulary ∷ []));
    kept = λ i o h. get_elem?-append t.terms (nulary ∷ []) i o h;
  }

  is_old :
      (i : ℕ) (o : Operation)
      → get_elem? (t.terms ++ nulary ∷ []) i ≡ some o
      → (get_elem? t.terms i ≡ some o) ⊎ (nulary ≡ o)
  is_old i o h = go (get_elem?-snoc t.terms nulary i o h)
    where
      go :
          (get_elem? t.terms i ≡ some o) ⊎ ((i ≡ length t.terms) × (nulary ≡ o))
          → (get_elem? t.terms i ≡ some o) ⊎ (nulary ≡ o)
      go (inl e) = inl e
      go (inr e) = inr e.1

  nulary_ordered :
      (i : ℕ) (o : Operation) → get_elem? nulary_state.terms i ≡ some o → OperandsBelow i o
  unfolding nulary_state
  nulary_ordered i o h = go (is_old i o h)
    where
      go : (get_elem? t.terms i ≡ some o) ⊎ (nulary ≡ o) → OperandsBelow i o
      go (inl e) = w.ordered i o e
      go (inr e) = nulary_operands i o e

  nulary_shared :
      (o : Operation) (i : ℕ)
      → get_elem? nulary_state.terms i ≡ some o
      → o ≢ nulary
      → find o t.opmap ≡ some i
  unfolding nulary_state
  nulary_shared o i h ne = go (is_old i o h)
    where
      go : (get_elem? t.terms i ≡ some o) ⊎ (nulary ≡ o) → find o t.opmap ≡ some i
      go (inl e) = w.shared o i e ne
      go (inr e) = absurd (ne (sym e))

  nulary_registered :
      (i v d : ℕ) (m : List (ℕ × ℕ))
      → get_elem? nulary_state.derivatives i ≡ some m
      → lookup v m ≡ some d
      → d < length nulary_state.terms
  unfolding nulary_state lookup
  nulary_registered i v d m h e = go (get_elem?-snoc t.derivatives [] i m h)
    where
      go :
          (get_elem? t.derivatives i ≡ some m) ⊎ ((i ≡ length t.derivatives) × ([] ≡ m))
          → d < length (t.terms ++ nulary ∷ [])
      go (inl old) = omega (arith, w.registered i v d m old e, length-append t.terms (nulary ∷ []))
      go (inr (q, f)) = absurd (cc (rw (← f) at e))

  -- `add_nulary` adds a nulary term behind the others, and keeps the tree's invariant.
  pub add_nulary-Builds : Builds t add_nulary (λ r t'. get_elem? t'.terms r ≡ some nulary)
  unfolding add_nulary push nulary_state
  add_nulary-Builds = record {
    result = length t.terms;
    tree = nulary_state;
    returns = refl;
    invariant = record {
      incidence_size = omega (
        arith,
        length-append t.nul_incidence ((length t.terms ∷ []) ∷ []),
        length-append t.terms (nulary ∷ []),
        w.incidence_size,
      );
      derivatives_size = omega (
        arith,
        length-append t.derivatives ([] ∷ []),
        length-append t.terms (nulary ∷ []),
        w.derivatives_size,
      );
      constants = λ i h. get_elem?-append t.terms (nulary ∷ []) i nulary (w.constants i h);
      ordered = nulary_ordered;
      found = λ o i h. get_elem?-append t.terms (nulary ∷ []) i o (w.found o i h);
      shared = nulary_shared;
      registered = nulary_registered;
    };
    grows = nulary_state-Grows;
    below = omega (arith, length-append t.terms (nulary ∷ []));
    holds = get_elem?-last t.terms nulary;
  }

  pub nulary_state-IsTree : IsTree nulary_state
  nulary_state-IsTree =
      subst IsTree (cc (nulary_result, add_nulary-Builds.returns)) add_nulary-Builds.invariant
