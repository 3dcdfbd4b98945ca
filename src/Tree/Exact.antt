-- ===== src/Tree/Exact.antt =====
-- Adding terms keeps the incidence sets of parser/cc/tree.cc exact.
use dynare.Base.{
  ℕ, zero, suc, ◌<◌, ◌≡◌, ◌⊎◌, inl, inr, refl, sym, ◌∙◌, subst, List, [], ◌∷◌, ◌++◌, some, true, ok,
  arith, length, get_elem?, get_elem?_of_lt, get_elem?_lt, get_elem?-last, get_elem?-snoc, at-of,
}
use mathlib.Core.Option.{some-injective}
use dynare.Tree.{
  Operation, nulary, unary, binary, OperationTree, has, insert_all, unary_incidence,
  binary_incidence,
}
use dynare.Tree.Invariant.{IsTree, OperandsBelow, new_state, new_state-Grows}
use dynare.Tree.Nulary.{constants_tree, nulary_state, nulary_state-Grows}
use dynare.Tree.Incidence.{
  Occurs, itself, under, left, right, Occurs-Grows, Occurs-before, Occurs-nulary, Occurs-unary,
  Occurs-binary, singleton_has, IsExact, has-insert_all,
}

-- The set of an operation's operands.
abbrev pub IncidenceOf : OperationTree → Operation → List ℕ → Type 0
IncidenceOf t nulary s = ⊥
IncidenceOf t (unary code i) s = unary_incidence i t ≡ ok s
IncidenceOf t (binary code i j) s = binary_incidence i j t ≡ ok s

module _ (t : OperationTree) (w : IsTree t) (x : IsExact t) where
  unary-exact :
      (v i : ℕ) (s : List ℕ)
      → i < length t.terms
      → unary_incidence i t ≡ ok s
      → ((has v s ≡ true) → Occurs t.terms v i) × (Occurs t.terms v i → (has v s ≡ true))
  unfolding unary_incidence
  unary-exact v i s h e =
      let (r, f) = get_elem?_of_lt t.nul_incidence i (omega (arith, w.incidence_size)) in
      let same : r ≡ s = cc (at-of t.nul_incidence i r f) in
      rw (← same) (x.occurring i v r f, x.present i v r f)

  binary-exact :
      (v i j : ℕ) (s : List ℕ)
      → i < length t.terms
      → j < length t.terms
      → binary_incidence i j t ≡ ok s
      → ((has v s ≡ true) → (Occurs t.terms v i ⊎ Occurs t.terms v j))
        × ((Occurs t.terms v i ⊎ Occurs t.terms v j) → (has v s ≡ true))
  unfolding binary_incidence
  binary-exact v i j s h h' e =
      let (p, f) = get_elem?_of_lt t.nul_incidence i (omega (arith, w.incidence_size)) in
      let (q, f') = get_elem?_of_lt t.nul_incidence j (omega (arith, w.incidence_size)) in
      let same : insert_all q p ≡ s =
        cc
          (rw (binary_incidence, at-of t.nul_incidence i p f, at-of t.nul_incidence j q f') at e) in
      let m = has-insert_all v q p in
      rw (← same) (
        (λ z. elim (m.0 z) [
          | inl l ↦ inl (x.occurring i v p f l)
          | inr l ↦ inr (x.occurring j v q f' l)
        ]),
        λ o.
            m.1 (elim o [ inl l ↦ inl (x.present i v p f l) | inr l ↦ inr (x.present j v q f' l) ]),
      )

  -- The two directions for the new term, by its operation.
  new_occurring :
      (o : Operation) (s : List ℕ) (v : ℕ)
      → OperandsBelow (length t.terms) o
      → IncidenceOf t o s
      → has v s ≡ true
      → Occurs (new_state t w o s).terms v (length t.terms)
  unfolding new_state
  new_occurring nulary s v h e z = absurd e
  new_occurring (unary code i) s v h e z =
      under code (get_elem?-last t.terms _)
        (Occurs-Grows (new_state-Grows t w (unary code i) s) ((unary-exact v i s h e).0 z))
  new_occurring (binary code i j) s v h e z = elim ((binary-exact v i j s h.0 h.1 e).0 z) [
    | inl o ↦
        left code (get_elem?-last t.terms _)
          (Occurs-Grows (new_state-Grows t w (binary code i j) s) o)
    | inr o ↦
        right code (get_elem?-last t.terms _)
          (Occurs-Grows (new_state-Grows t w (binary code i j) s) o)
  ]

  new_present :
      (o : Operation) (s : List ℕ) (v i : ℕ)
      → i ≡ length t.terms
      → OperandsBelow (length t.terms) o
      → IncidenceOf t o s
      → get_elem? (new_state t w o s).terms i ≡ some o
      → Occurs (new_state t w o s).terms v i
      → has v s ≡ true
  new_present nulary s v i at_end h e last z = absurd e
  new_present (unary code a) s v i at_end h e last z =
      (unary-exact v a s h e).1
        (Occurs-before w (new_state-Grows t w (unary code a) s) h (Occurs-unary last z))
  new_present (binary code a b) s v i at_end h e last z =
      let g = new_state-Grows t w (binary code a b) s in
      (binary-exact v a b s h.0 h.1 e).1 (elim (Occurs-binary last z) [
        | inl o ↦ inl (Occurs-before w g h.0 o)
        | inr o ↦ inr (Occurs-before w g h.1 o)
      ])

  pub new_state-IsExact :
      (o : Operation) (s : List ℕ)
      → OperandsBelow (length t.terms) o
      → IncidenceOf t o s
      → IsExact (new_state t w o s)
  unfolding new_state
  new_state-IsExact o s h e = record {
    occurring = λ i v r f z. elim (get_elem?-snoc t.nul_incidence s i r f) [
      | inl old ↦ Occurs-Grows (new_state-Grows t w o s) (x.occurring i v r old z)
      | inr new ↦
          let place : length t.terms ≡ i = cc w.incidence_size in
          subst (λ k. Occurs (t.terms ++ o ∷ []) v k) place (new_occurring o s v h e (rw new.1 z))
    ];
    present = λ i v r f z. elim (get_elem?-snoc t.nul_incidence s i r f) [
      | inl old ↦
          let here = get_elem?_lt t.nul_incidence i r old in
          x.present i v r old
            (Occurs-before w (new_state-Grows t w o s) (omega (arith, w.incidence_size)) z)
      | inr new ↦
          let place : i ≡ length t.terms = cc w.incidence_size in
          rw (← new.1) (new_present o s v i place h e (rw place (get_elem?-last t.terms o)) z)
    ];
  }

-- A nulary term behind the others keeps the sets exact.
pub nulary_state-IsExact :
    (t : OperationTree) (w : IsTree t) → IsExact t → IsExact (nulary_state t w)
unfolding nulary_state
nulary_state-IsExact t w x = record {
  occurring = λ i v r f z. elim (get_elem?-snoc t.nul_incidence _ i r f) [
    | inl old ↦ Occurs-Grows (nulary_state-Grows t w) (x.occurring i v r old z)
    | inr new ↦
        let place : length t.terms ≡ i = cc w.incidence_size in
        itself (rw (← place) (get_elem?-last t.terms nulary))
          (sym place ∙ (singleton_has v (length t.terms)).0 (rw new.1 z))
  ];
  present = λ i v r f z. elim (get_elem?-snoc t.nul_incidence _ i r f) [
    | inl old ↦
        let here = get_elem?_lt t.nul_incidence i r old in
        x.present i v r old
          (Occurs-before w (nulary_state-Grows t w) (omega (arith, w.incidence_size)) z)
    | inr new ↦
        let place : length t.terms ≡ i = cc w.incidence_size in
        rw (← new.1) (
          (singleton_has v (length t.terms)).1
            (place ∙ Occurs-nulary (rw (← place) (get_elem?-last t.terms nulary)) z))
  ];
}

constant_sets :
    (i : ℕ) (s : List ℕ)
    → get_elem? constants_tree.nul_incidence i ≡ some s
    → (i ∷ [] ≡ s) × (get_elem? constants_tree.terms i ≡ some nulary)
constant_sets zero s h = (some-injective _ _ h, refl)
constant_sets (suc zero) s h = (some-injective _ _ h, refl)
constant_sets (suc (suc zero)) s h = (some-injective _ _ h, refl)
constant_sets (suc (suc (suc zero))) s h = (some-injective _ _ h, refl)
constant_sets (suc (suc (suc (suc i)))) s h = cc

pub constants_tree-IsExact : IsExact constants_tree
constants_tree-IsExact = record {
  occurring =
      λ i v s f z. let (e, n) = constant_sets i s f in itself n ((singleton_has v i).0 (rw e z));
  present = λ i v s f z.
      let (e, n) = constant_sets i s f in rw (← e) ((singleton_has v i).1 (Occurs-nulary n z));
}
