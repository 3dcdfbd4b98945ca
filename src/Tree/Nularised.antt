-- ===== src/Tree/Nularised.antt =====
-- What `nularify` keeps of a tree.
use dynare.Base.{
  ℕ, zero, suc, ◌+◌, ◌-◌, ◌≤◌, ◌<◌, ◌≡◌, ◌≢◌, ◌⊎◌, refl, ap, sym, ◌∙◌, subst, List, [], ◌∷◌, none,
  some, Result, ok, arith, length, at-of, set, get_or, get_elem?, get_elem?_of_lt, get_elem?_lt,
  length-set, get_elem?-set_self, get_elem?-set_ne, leb, ◌==◌, ==_iff, ◌||◌, Bool-cases, inl, inr,
  false,
}
use mathlib.Core.Option.{some-injective}
use dynare.Tree.{
  Operation, nulary, unary, binary, OperationTree, Operation-discrete, find, erase, insert,
  insert_all, has, num_constants, update_term, update_from, update_nul_incidence_after_nularify,
  nularify, later_nulary,
}
use dynare.Tree.Invariant.{IsTree, OperandsBelow, find-other}

find-erase_ne :
    (o op : Operation) (m : List (Operation × ℕ)) → op ≢ o → find o (erase op m) ≡ find o m
unfolding find erase
find-erase_ne o op [] h = refl
find-erase_ne o op ((p, i) ∷ m) h =
    elim (Operation-discrete p op)
      as (λ d.
        find o (elim d [ yes e ↦ erase op m | no n ↦ (p, i) ∷ erase op m ]) ≡ find o ((p, i) ∷ m)) [
          | yes e ↦ find-erase_ne o op m h ∙ sym (find-other o p i m (λ f. h (sym e ∙ f)))
          | no n ↦
              elim (Operation-discrete p o)
                as (λ d.
                  elim d [ yes e ↦ some i | no n ↦ find o (erase op m) ]
                  ≡ elim d [ yes e ↦ some i | no n ↦ find o m ]) [
                    | yes e ↦ refl
                    | no n ↦ find-erase_ne o op m h
                  ]
        ]

find-erase_self : (op : Operation) (m : List (Operation × ℕ)) → find op (erase op m) ≡ none
unfolding find erase
find-erase_self op [] = refl
find-erase_self op ((p, i) ∷ m) =
    elim (Operation-discrete p op)
      as (λ d. find op (elim d [ yes e ↦ erase op m | no n ↦ (p, i) ∷ erase op m ]) ≡ none) [
        | yes e ↦ find-erase_self op m
        | no n ↦ find-other op p i (erase op m) n ∙ find-erase_self op m
      ]

-- A result with as many incidences.
abbrev KeepsSize : List (List ℕ) → Result (List (List ℕ) × List ℕ) → Type 0
KeepsSize inc r =
    (inc' : List (List ℕ)) × (updated' : List ℕ) × (r ≡ ok (inc', updated'))
    × (length inc' ≡ length inc)

changed :
    (inc : List (List ℕ)) (tnode : ℕ) (s updated : List ℕ)
    → KeepsSize inc (ok (set inc tnode s, updated))
changed inc tnode s updated = (set inc tnode s, updated, refl, length-set inc tnode s)

unchanged : (inc : List (List ℕ)) (updated : List ℕ) → KeepsSize inc (ok (inc, updated))
unchanged inc updated = (inc, updated, refl, refl)

update_term-KeepsSize :
    (t tnode : ℕ) (op : Operation) (inc : List (List ℕ)) (updated : List ℕ)
    → OperandsBelow tnode op
    → KeepsSize inc (update_term t tnode op inc updated)
unfolding update_term
update_term-KeepsSize t tnode nulary inc updated h = elim (Bool-cases (tnode == t)) [
  | inl e ↦ rw e (changed inc tnode (tnode ∷ []) (insert tnode updated))
  | inr e ↦ rw e (unchanged inc updated)
]
update_term-KeepsSize t tnode (unary code a) inc updated h =
    let ordered : leb tnode a ≡ false = ground arith in
    elim (Bool-cases (has a updated)) [
      | inl e ↦ rw (ordered, e) (changed inc tnode (get_or inc a []) (insert tnode updated))
      | inr e ↦ rw (ordered, e) (unchanged inc updated)
    ]
update_term-KeepsSize t tnode (binary code a b) inc updated h =
    let ordered : leb tnode a ≡ false = ground arith in
    let ordered' : leb tnode b ≡ false = ground arith in
    elim (Bool-cases (has a updated || has b updated)) [
      | inl e ↦
          rw (ordered, ordered', e)
            (changed inc tnode (insert_all (get_or inc b []) (get_or inc a []))
              (insert tnode updated))
      | inr e ↦ rw (ordered, ordered', e) (unchanged inc updated)
    ]

update_from-length :
    (count t tnode : ℕ) (terms : List Operation) (inc : List (List ℕ)) (updated : List ℕ)
    → ((i : ℕ) (o : Operation) → get_elem? terms i ≡ some o → OperandsBelow i o)
    → tnode + count ≤ length terms
    → (inc' : List (List ℕ)) × (update_from count t tnode terms inc updated ≡ ok inc')
      × (length inc' ≡ length inc)
unfolding update_from
update_from-length zero t tnode terms inc updated h k = (inc, refl, refl)
update_from-length (suc count) t tnode terms inc updated h k =
    let (op, e) = get_elem?_of_lt terms tnode (omega arith) in
    let (inc1, updated1, f, l) = update_term-KeepsSize t tnode op inc updated (h tnode op e) in
    let (inc2, g, l') =
      update_from-length count t (tnode + 1) terms inc1 updated1 h (omega arith) in
    (inc2, rw (at-of terms tnode op e, f) g, l' ∙ l)

module _ (tree : OperationTree) (w : IsTree tree) (t : ℕ) (op : Operation)
    (e : get_elem? tree.terms t ≡ some op) (above : num_constants ≤ t) where
  -- Every other term of the changed terms is an old one.
  old_term :
      (i : ℕ) (o : Operation)
      → get_elem? (set tree.terms t nulary) i ≡ some o
      → ((t ≡ i) × (nulary ≡ o)) ⊎ ((t ≢ i) × (get_elem? tree.terms i ≡ some o))
  old_term i o h = elim (Bool-cases (t == i)) [
    | inl f ↦
        let q : t ≡ i = (==_iff t i).0 f in
        inl (
          q,
          some-injective _ _ (
              sym (get_elem?-set_self tree.terms t nulary (get_elem?_lt tree.terms t op e))
              ∙ subst (λ k. get_elem? (set tree.terms t nulary) k ≡ some o) (sym q) h),
        )
    | inr f ↦
        let n : t ≢ i = (λ q. ground arith) in
        inr (n, sym (get_elem?-set_ne tree.terms nulary n) ∙ h)
  ]

  pub nularised_ordered :
      (i : ℕ) (o : Operation) → get_elem? (set tree.terms t nulary) i ≡ some o → OperandsBelow i o
  nularised_ordered i o h = elim (old_term i o h) [
    | inl (q, f) ↦ rw (← f) tt
    | inr (n, k) ↦ w.ordered i o k
  ]

  nularised_found :
      (o : Operation) (i : ℕ)
      → find o (erase op tree.opmap) ≡ some i
      → get_elem? (set tree.terms t nulary) i ≡ some o
  nularised_found o i h = elim (Operation-discrete op o) [
    | yes q ↦
        let gone : find o (erase op tree.opmap) ≡ none =
          subst (λ p. find p (erase op tree.opmap) ≡ none) q (find-erase_self op tree.opmap) in
        absurd (cc)
    | no n ↦
        let k = w.found o i (sym (find-erase_ne o op tree.opmap n) ∙ h) in
        get_elem?-set_ne tree.terms nulary (λ q.
          n (some-injective _ _ (sym e ∙ subst (λ j. get_elem? tree.terms j ≡ some o) (sym q) k)))
        ∙ k
  ]

  nularised_shared :
      (o : Operation) (i : ℕ)
      → get_elem? (set tree.terms t nulary) i ≡ some o
      → o ≢ nulary
      → find o (erase op tree.opmap) ≡ some i
  nularised_shared o i h ne = elim (old_term i o h) [
    | inl (q, f) ↦ absurd (ne (sym f))
    | inr (n, k) ↦
        find-erase_ne o op tree.opmap
          (λ q. n (some-injective _ _ (sym (w.shared o t (e ∙ ap some q) ne) ∙ w.shared o i k ne)))
        ∙ w.shared o i k ne
  ]

  pub nularised-IsTree :
      (inc : List (List ℕ))
      → length inc ≡ length tree.nul_incidence
      → IsTree (record tree {
        opmap = erase op tree.opmap;
        terms = set tree.terms t nulary;
        last_nulary = later_nulary tree.last_nulary t;
        nul_incidence = inc;
      })
  nularised-IsTree inc l = record {
    incidence_size = l ∙ w.incidence_size ∙ sym (length-set tree.terms t nulary);
    derivatives_size = w.derivatives_size ∙ sym (length-set tree.terms t nulary);
    constants = λ i h. get_elem?-set_ne tree.terms nulary (λ q. omega arith) ∙ w.constants i h;
    ordered = nularised_ordered;
    found = nularised_found;
    shared = nularised_shared;
    registered =
        λ i v d m h q. omega (arith, w.registered i v d m h q, length-set tree.terms t nulary);
  }

-- For a term of a tree that meets the invariant, and not a constant, `nularify` raises nothing: the term
-- becomes nulary, every other term stays, and the invariant is kept.
nularify-IsTree :
    (tree : OperationTree) (t : ℕ)
    → IsTree tree
    → num_constants ≤ t
    → t < length tree.terms
    → (tree' : OperationTree) × (nularify t tree ≡ ok tree')
      × IsTree tree'
      × (get_elem? tree'.terms t ≡ some nulary)
      × ((i : ℕ) → t ≢ i → get_elem? tree'.terms i ≡ get_elem? tree.terms i)
unfolding nularify update_nul_incidence_after_nularify
nularify-IsTree tree t w above h =
    let (op, e) = get_elem?_of_lt tree.terms t h in
    let size = length-set tree.terms t nulary in
    let (inc, f, l) =
      update_from-length (length (set tree.terms t nulary) - num_constants) t num_constants
        (set tree.terms t nulary) tree.nul_incidence [] (nularised_ordered tree w t op e above)
        (omega arith) in
    (
      _,
      rw (at-of tree.terms t op e, f) refl,
      nularised-IsTree tree w t op e above inc l,
      get_elem?-set_self tree.terms t nulary h,
      λ i n. get_elem?-set_ne tree.terms nulary n,
    )
