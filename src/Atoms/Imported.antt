-- ===== src/Atoms/Imported.antt =====
-- `import_constants` of parser/cc/dynamic_atoms.cc gives every constant a nulary term of the tree.
use dynare.Base.{
  ℕ, ◌<◌, ◌≡◌, ◌≢◌, inl, inr, refl, sym, ap, ◌∙◌, subst, List, [], ◌∷◌, none, some, suc, ◌==◌,
  ==_iff, Option-cases, length-append, get_elem?-last, ok, arith, length, get_elem?, Bool-cases,
}
use dynare.Tree.{nulary, OperationTree, ◌>>=◌}
use dynare.Tree.Invariant.{IsTree, Grows, Grows-refl, Grows-trans}
use dynare.Tree.Nulary.{nulary_state-IsTree, nulary_result, nulary_state, nulary_state-Grows}
use dynare.Atoms.Map.{Order, find_key, emplace_key, IsMap, numbers, numbers-IsOrder}
use dynare.Atoms.Entries.{
  find_cases, find_here, find_there, find_key-emplace_key, find_key-emplace_other, Above-absent,
}
use dynare.Atoms.Constants.{
  Constants, add_constant, import_from, import_constants, get_constant_value,
}

module _ {V : Type 0} ⦃o : Order V⦄ where
  -- The constants of the object are terms of the tree.
  abbrev pub AreTerms : Constants V → OperationTree → Type 0
  AreTerms c t = (i : ℕ) (v : V) → find_key i c.cmap ≡ some v → i < length t.terms

  -- What the import of the constants `m` leaves.
  pub record Imports (m : List (ℕ × V)) (c : Constants V) (tmap : List (ℕ × ℕ)) (t : OperationTree)
      : Type 0 where
    pub constants : Constants V
    pub indices : List (ℕ × ℕ)
    pub tree : OperationTree
    pub returns : import_from m c tmap t ≡ ok ((constants, indices), tree)
    pub invariant : IsTree tree
    pub grows : Grows t tree
    pub old_constants :
        (i : ℕ) (v : V) → find_key i c.cmap ≡ some v → find_key i constants.cmap ≡ some v
    pub old_indices : (k : ℕ) → find_key k m ≡ none → find_key k indices ≡ find_key k tmap
    pub imported :
        (k : ℕ) (v : V)
        → find_key k m ≡ some v
        → (i : ℕ) × (find_key k indices ≡ some i)
          × (get_elem? tree.terms i ≡ some nulary)
          × (find_key i constants.cmap ≡ some v)

  module _ (told : ℕ) (val : V) (m : List (ℕ × V)) (c : Constants V) (tmap : List (ℕ × ℕ))
      (t : OperationTree) (w : IsTree t) (x : IsMap ((told, val) ∷ m)) (h : AreTerms c t)
      (fresh : find_key told tmap ≡ none) where
    free : find_key (length t.terms) c.cmap ≡ none
    free = elim (Option-cases (find_key (length t.terms) c.cmap)) [
      | inl e ↦ e
      | inr (v, e) ↦ absurd (omega (arith, h (length t.terms) v e))
    ]

    grown : length (nulary_state t w).terms ≡ suc (length t.terms)
    unfolding nulary_state
    grown = omega (arith, length-append t.terms (nulary ∷ []))

    last_nulary_term : get_elem? (nulary_state t w).terms (length t.terms) ≡ some nulary
    unfolding nulary_state
    last_nulary_term = get_elem?-last t.terms nulary

    -- Another index has the constant that it had.
    other_constant :
        (i : ℕ)
        → length t.terms ≢ i
        → find_key i (add_constant (length t.terms) val c).cmap ≡ find_key i c.cmap
    unfolding add_constant
    other_constant i ne = find_key-emplace_other numbers-IsOrder (length t.terms) i val c.cmap ne

    new_constant : find_key (length t.terms) (add_constant (length t.terms) val c).cmap ≡ some val
    unfolding add_constant
    new_constant = find_key-emplace_key numbers-IsOrder (length t.terms) val c.cmap free

    next-AreTerms : AreTerms (add_constant (length t.terms) val c) (nulary_state t w)
    next-AreTerms i v e = elim (Bool-cases (length t.terms == i)) [
      | inl q ↦ omega (arith, (==_iff (length t.terms) i).0 q, grown)
      | inr q ↦ omega (arith, h i v (sym (other_constant i (λ p. ground arith)) ∙ e), grown)
    ]

    next-Imports :
        Imports m
          (add_constant (length t.terms) val c)
          (emplace_key told (length t.terms) tmap)
          (nulary_state t w)
        → Imports ((told, val) ∷ m) c tmap t
    unfolding import_from
    next-Imports r = record {
      constants = r.constants;
      indices = r.indices;
      tree = r.tree;
      returns = rw (nulary_result t w, ◌>>=◌) r.returns;
      invariant = r.invariant;
      grows = Grows-trans (nulary_state-Grows t w) r.grows;
      old_constants =
          λ i v e. r.old_constants i v (other_constant i (λ q. omega (arith, h i v e)) ∙ e);
      old_indices = λ k e.
          let ne : told ≢ k = (λ q. cc (
            find_here numbers-IsOrder told val m,
            subst (λ i. find_key i ((told, val) ∷ m) ≡ none) (sym q) e,
          )) in
          r.old_indices k (sym (find_there numbers-IsOrder told k val m ne) ∙ e)
          ∙ find_key-emplace_other numbers-IsOrder told k (length t.terms) tmap ne;
      imported = λ k v e. elim (find_cases numbers-IsOrder told k v val m e) [
        | inl (q, q') ↦ (
          length t.terms,
          subst (λ i. find_key i r.indices ≡ some (length t.terms)) q
              (r.old_indices told (Above-absent numbers-IsOrder told m x.0)
                ∙ find_key-emplace_key numbers-IsOrder told (length t.terms) tmap fresh),
          r.grows.kept _ _ last_nulary_term,
          r.old_constants _ _ (new_constant ∙ ap some q'),
        )
        | inr (q, f) ↦ r.imported k v f
      ];
    }

  import_from-Imports :
      (m : List (ℕ × V)) (c : Constants V) (tmap : List (ℕ × ℕ)) (t : OperationTree)
      → IsTree t
      → IsMap m
      → AreTerms c t
      → ((k : ℕ) (v : V) → find_key k m ≡ some v → find_key k tmap ≡ none)
      → Imports m c tmap t
  unfolding import_from find_key
  import_from-Imports [] c tmap t w x h fresh = record {
    constants = c;
    indices = tmap;
    tree = t;
    returns = refl;
    invariant = w;
    grows = Grows-refl t;
    old_constants = λ i v e. e;
    old_indices = λ k e. refl;
    imported = λ k v e. absurd (cc e);
  }
  import_from-Imports ((told, val) ∷ m) c tmap t w x h fresh =
      let here = fresh told val (find_here numbers-IsOrder told val m) in
      next-Imports told val m c tmap t w x h here (
        import_from-Imports m (add_constant (length t.terms) val c)
          (emplace_key told (length t.terms) tmap) (nulary_state t w) (nulary_state-IsTree t w) x.1
          (next-AreTerms told val m c tmap t w x h here)
          (λ k v e.
            let ne : told ≢ k = (λ q. cc (
              Above-absent numbers-IsOrder told m x.0,
              subst (λ i. find_key i m ≡ some v) (sym q) e,
            )) in
            find_key-emplace_other numbers-IsOrder told k (length t.terms) tmap ne
            ∙ fresh k v (find_there numbers-IsOrder told k val m ne ∙ e)))

  -- For a tree that meets the invariant, constants that are terms of it, and a map of indices that has none
  -- of the other object's constants, `import_constants` raises nothing: the tree keeps its invariant and its
  -- terms, and each constant of the other object is a nulary term to which its old index leads, with the
  -- value that it had.
  pub import_constants-Imports :
      (other c : Constants V) (tmap : List (ℕ × ℕ)) (t : OperationTree)
      → IsTree t
      → IsMap other.cmap
      → AreTerms c t
      → ((k : ℕ) (v : V) → find_key k other.cmap ≡ some v → find_key k tmap ≡ none)
      → (c' : Constants V) × (tmap' : List (ℕ × ℕ)) × (t' : OperationTree) × (import_constants other
            c tmap t
          ≡ ok ((c', tmap'), t'))
        × IsTree t'
        × Grows t t'
        × ((k : ℕ) (v : V)
            → find_key k other.cmap ≡ some v
            → (i : ℕ) × (find_key k tmap' ≡ some i)
              × (get_elem? t'.terms i ≡ some nulary)
              × (get_constant_value i c' ≡ ok v))
  unfolding import_constants get_constant_value
  import_constants-Imports other c tmap t w x h fresh =
      let r = import_from-Imports other.cmap c tmap t w x h fresh in
      (
        r.constants,
        r.indices,
        r.tree,
        r.returns,
        r.invariant,
        r.grows,
        λ k v e. let (i, f, g, q) = r.imported k v e in (i, f, g, rw (get_constant_value, q) refl),
      )
