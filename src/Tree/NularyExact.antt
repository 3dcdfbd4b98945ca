-- ===== src/Tree/NularyExact.antt =====
-- `nularify` of parser/cc/tree.cc keeps the incidence sets exact.
use dynare.Base.{
  ℕ, ◌+◌, ◌-◌, ◌≤◌, ◌<◌, ◌≡◌, ◌≢◌, refl, sym, ◌∙◌, List, [], some, ok, arith, length, at-of, set,
  get_elem?, get_elem?_of_lt, get_elem?_lt, length-set, get_elem?-set_self, get_elem?-set_ne,
}
use dynare.Tree.{
  Operation, nulary, OperationTree, erase, has, num_constants, later_nulary,
  update_nul_incidence_after_nularify, nularify,
}
use dynare.Tree.Invariant.{IsTree}
use dynare.Tree.Incidence.{IsExact, itself, Occurs-nulary}
use dynare.Tree.Nularised.{nularised_ordered, nularised-IsTree}
use dynare.Tree.NularyIncidence.{ExactAt, Fixed, update_from-Fixed}

module _ (tree : OperationTree) (w : IsTree tree) (x : IsExact tree) (t : ℕ)
    (above : num_constants ≤ t) (h : t < length tree.terms) where
  abbrev new_terms : List Operation
  new_terms = set tree.terms t nulary

  unchanged : (i : ℕ) → t ≢ i → get_elem? new_terms i ≡ get_elem? tree.terms i
  unchanged i ne = get_elem?-set_ne tree.terms nulary ne

  changed : get_elem? new_terms t ≡ some nulary
  changed = get_elem?-set_self tree.terms t nulary h

  exact0 : (i : ℕ) (s : List ℕ) → get_elem? tree.nul_incidence i ≡ some s → ExactAt tree.terms i s
  exact0 i s e v = (x.occurring i v s e, x.present i v s e)

  abbrev Round : ℕ → List (List ℕ) → List ℕ → Type 0
  Round = Fixed tree.terms new_terms t unchanged changed tree.nul_incidence exact0

  -- Before the first round only the constants count.
  start : Round num_constants tree.nul_incidence []
  unfolding has
  start = record {
    size = w.incidence_size ∙ sym (length-set tree.terms t nulary);
    done = λ i s k e v.
        let was = w.constants i k in
        let is = unchanged i (λ q. omega arith) ∙ was in
        (
          λ q. itself is (Occurs-nulary was (x.occurring i v s e q)),
          λ p. x.present i v s e (itself was (Occurs-nulary is p)),
        );
    later = λ i k. refl;
    marked = λ i q. absurd (cc q);
    marks = λ i k p.
        let q = Occurs-nulary (unchanged i (λ q. omega arith) ∙ w.constants i k) p in
        absurd (omega arith);
  }

  -- The tree that `nularify` leaves, with its incidence sets.
  abbrev final : Operation → List (List ℕ) → OperationTree
  final op inc = record tree {
    opmap = erase op tree.opmap;
    terms = new_terms;
    last_nulary = later_nulary tree.last_nulary t;
    nul_incidence = inc;
  }

  -- For a term of a tree that meets the invariant, and not a constant, `nularify` raises nothing: where the
  -- incidence set of every term had the nulary terms that occur in it and no other, so it has afterwards;
  -- the term becomes nulary, every other term stays, and the invariant is kept.
  pub nularify-IsExact :
      (tree' : OperationTree) × (nularify t tree ≡ ok tree')
      × IsExact tree'
      × IsTree tree'
      × (get_elem? tree'.terms t ≡ some nulary)
      × ((i : ℕ) → t ≢ i → get_elem? tree'.terms i ≡ get_elem? tree.terms i)
  unfolding nularify update_nul_incidence_after_nularify
  nularify-IsExact =
      let (op, e) = get_elem?_of_lt tree.terms t h in
      let size = length-set tree.terms t nulary in
      let (inc, updated, f, y) =
        update_from-Fixed tree.terms new_terms t unchanged changed tree.nul_incidence exact0
          (length new_terms - num_constants) num_constants tree.nul_incidence []
          (nularised_ordered tree w t op e above) (omega arith) start in
      let below : (i : ℕ) (s : List ℕ)
          → get_elem? inc i ≡ some s
          → i < num_constants + (length new_terms - num_constants) =
        λ i s k. omega (arith, get_elem?_lt inc i s k, y.size) in
      (
        final op inc,
        rw (at-of tree.terms t op e, f) refl,
        record {
          occurring = λ i v s k. (y.done i s (below i s k) k v).0;
          present = λ i v s k. (y.done i s (below i s k) k v).1;
        },
        nularised-IsTree tree w t op e above inc (y.size ∙ size ∙ sym w.incidence_size),
        changed,
        unchanged,
      )
