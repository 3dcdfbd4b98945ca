-- ===== src/Tree/Sound.antt =====
-- The constructor, `add_nulary` and `forget_derivative_maps` of parser/cc/tree.cc keep the incidence sets
-- exact and the registered derivatives right.
use dynare.Base.{
  ℕ, zero, suc, ◌≡◌, inl, inr, ◌∙◌, List, [], ◌∷◌, some, arith, length, get_elem?, get_elem?_lt,
  get_elem?-last, get_elem?-snoc, map, length-map,
}
use mathlib.Core.Option.{some-injective}
use dynare.Tree.{nulary, OperationTree, lookup, add_nulary, forget_derivative_maps}
use dynare.Tree.Invariant.{IsTree}
use dynare.Tree.Meaning.{Arithmetic, Denotes-Grows, atom}
use dynare.Tree.Simplify.{size}
use dynare.Tree.Nulary.{
  constants_tree, constants_tree-IsTree, no_derivatives, nulary_state, nulary_state-Grows,
  nulary_state-IsTree, nulary_result,
}
use dynare.Tree.Incidence.{IsExact}
use dynare.Tree.Exact.{nulary_state-IsExact, constants_tree-IsExact}
use dynare.Tree.Dual.{Dual-before}
use dynare.Tree.Calculus.{IsSound, Gives}

get_elem?-map_const :
    {A B : Type 0} (b c : B) (xs : List A) (i : ℕ) → get_elem? (map (λ x. b) xs) i ≡ some c → b ≡ c
get_elem?-map_const b c [] i h = cc
get_elem?-map_const b c (x ∷ xs) zero h = some-injective _ _ h
get_elem?-map_const b c (x ∷ xs) (suc i) h = get_elem?-map_const b c xs i h

-- An empty map has no entry.
no_entry : {A : Type 0} (v d : ℕ) (m : List (ℕ × ℕ)) → [] ≡ m → lookup v m ≡ some d → A
unfolding lookup
no_entry v d m e h = absurd (cc (rw (← e) at h))

forget_derivative_maps-IsTree : (t : OperationTree) → IsTree t → IsTree (forget_derivative_maps t)
unfolding forget_derivative_maps
forget_derivative_maps-IsTree t w = record {
  incidence_size = w.incidence_size;
  derivatives_size = length-map t.derivatives _ ∙ w.derivatives_size;
  constants = w.constants;
  ordered = w.ordered;
  found = w.found;
  shared = w.shared;
  registered = λ i v d m h e. no_entry v d m (get_elem?-map_const [] m t.derivatives i h) e;
}

module _ {D : Type 0} (a : Arithmetic D) (env : ℕ → D) where
  pub constants_tree-IsSound : IsSound a env constants_tree
  constants_tree-IsSound = record {
    tree = constants_tree-IsTree;
    exact = constants_tree-IsExact;
    derived = λ i v d m h e z dz c. no_entry v d m (no_derivatives i m h) e;
  }

  pub forget_derivative_maps-IsSound :
      (t : OperationTree) → IsTree t → IsExact t → IsSound a env (forget_derivative_maps t)
  unfolding forget_derivative_maps
  forget_derivative_maps-IsSound t w x = record {
    tree = forget_derivative_maps-IsTree t w;
    exact = record { occurring = x.occurring; present = x.present };
    derived = λ i v d m h e z dz c. no_entry v d m (get_elem?-map_const [] m t.derivatives i h) e;
  }

  nulary_state-IsSound :
      (t : OperationTree) (s : IsSound a env t)
      → IsTree (nulary_state t s.tree)
      → IsSound a env (nulary_state t s.tree)
  unfolding nulary_state
  nulary_state-IsSound t s w = record {
    tree = w;
    exact = nulary_state-IsExact t s.tree s.exact;
    derived = λ i v d m h e z dz c. elim (get_elem?-snoc t.derivatives [] i m h) [
      | inl old ↦
          let here = get_elem?_lt t.derivatives i m old in
          let g = nulary_state-Grows t s.tree in
          let before =
            Dual-before a env s.tree g (omega (arith, here, s.tree.derivatives_size)) c in
          λ y q. Denotes-Grows a env g (s.derived i v d m old e z dz before y q)
      | inr new ↦ no_entry v d m new.1 e
    ];
  }

  -- A new nulary term has the value of its variable.
  pub add_nulary-Gives :
      (t : OperationTree) → IsSound a env t → Gives a env t add_nulary (some (env (length t.terms)))
  unfolding nulary_state
  add_nulary-Gives t s =
      let w = nulary_state-IsTree t s.tree in
      record {
        result = length t.terms;
        tree = nulary_state t s.tree;
        returns = nulary_result t s.tree;
        invariant = w;
        grows = nulary_state-Grows t s.tree;
        below = get_elem?_lt _ _ _ (get_elem?-last t.terms nulary);
        holds = (
          nulary_state-IsSound t s w,
          λ y e. atom (size a env t s.tree) (get_elem?-last t.terms nulary) (some-injective _ _ e),
        );
      }
