-- ===== src/Tree/Invariant.antt =====
-- The invariant of the class OperationTree, and that a new operation keeps it.
use mathlib.Core.Option.{some-injective}
use dynare.Base.{
  subst, ℕ, ◌≤◌, ◌<◌, ◌≡◌, ◌≢◌, ◌⊎◌, inl, inr, refl, ap, sym, ◌∙◌, List, [], ◌∷◌, ◌++◌, none, some,
  arith, length, get_elem?, length-append, get_elem?-append, get_elem?-last, get_elem?-snoc,
}
use dynare.Tree.{
  Operation, nulary, unary, binary, OperationTree, find, lookup, num_constants, Operation-discrete,
}

abbrev pub OperandsBelow : ℕ → Operation → Type 0
OperandsBelow i nulary = Unit
OperandsBelow i (unary code a) = a < i
OperandsBelow i (binary code a b) = (a < i) × (b < i)

-- The vectors have one length, the constants are there, operands stand before their term, `opmap` leads
-- to terms and knows every operation that is not nulary, and registered derivatives are terms.
pub record IsTree (t : OperationTree) : Type 0 where
  pub incidence_size : length t.nul_incidence ≡ length t.terms
  pub derivatives_size : length t.derivatives ≡ length t.terms
  pub constants : (i : ℕ) → i < num_constants → get_elem? t.terms i ≡ some nulary
  pub ordered : (i : ℕ) (o : Operation) → get_elem? t.terms i ≡ some o → OperandsBelow i o
  pub found : (o : Operation) (i : ℕ) → find o t.opmap ≡ some i → get_elem? t.terms i ≡ some o
  pub shared :
      (o : Operation) (i : ℕ) → get_elem? t.terms i ≡ some o → o ≢ nulary → find o t.opmap ≡ some i
  pub registered :
      (i v d : ℕ) (m : List (ℕ × ℕ))
      → get_elem? t.derivatives i ≡ some m
      → lookup v m ≡ some d
      → d < length t.terms

-- Every term of the one tree is a term of the other, under its index.
pub record Grows (t t' : OperationTree) : Type 0 where
  pub size : length t.terms ≤ length t'.terms
  pub kept : (i : ℕ) (o : Operation) → get_elem? t.terms i ≡ some o → get_elem? t'.terms i ≡ some o

pub Grows-refl : (t : OperationTree) → Grows t t
Grows-refl t = record { size = omega arith; kept = λ i o h. h }

pub Grows-trans : {t u w : OperationTree} → Grows t u → Grows u w → Grows t w
Grows-trans g h = record {
  size = omega (arith, g.size, h.size);
  kept = λ i o e. h.kept i o (g.kept i o e);
}

find-same : (o : Operation) (i : ℕ) (m : List (Operation × ℕ)) → find o ((o, i) ∷ m) ≡ some i
unfolding find
find-same o i m =
    elim (Operation-discrete o o) as (λ d. elim d [ yes e ↦ some i | no n ↦ find o m ] ≡ some i) [
      | yes e ↦ refl
      | no n ↦ absurd (n refl)
    ]

pub find-other :
    (o p : Operation) (i : ℕ) (m : List (Operation × ℕ)) → p ≢ o → find o ((p, i) ∷ m) ≡ find o m
unfolding find
find-other o p i m h =
    elim (Operation-discrete p o) as (λ d. elim d [ yes e ↦ some i | no n ↦ find o m ] ≡ find o m) [
      | yes e ↦ absurd (h e)
      | no n ↦ refl
    ]

module _ (t : OperationTree) (w : IsTree t) (o : Operation) (s : List ℕ) where
  unfoldable pub new_state : OperationTree
  new_state = record t {
    terms = t.terms ++ o ∷ [];
    opmap = (o, length t.terms) ∷ t.opmap;
    nul_incidence = t.nul_incidence ++ s ∷ [];
    derivatives = t.derivatives ++ [] ∷ [];
  }

  pub new_state-Grows : Grows t new_state
  unfolding new_state
  new_state-Grows = record {
    size = omega (arith, length-append t.terms (o ∷ []));
    kept = λ i p h. get_elem?-append t.terms (o ∷ []) i p h;
  }

  new_found :
      o ≢ nulary
      → find o t.opmap ≡ none
      → (p : Operation) (i : ℕ) → find p new_state.opmap ≡ some i
      → get_elem? new_state.terms i ≡ some p
  unfolding new_state
  new_found ne fresh p i h = elim (Operation-discrete o p) [
    | yes e ↦
        let here : find p ((o, length t.terms) ∷ t.opmap) ≡ some (length t.terms) =
          subst (λ q. find q ((o, length t.terms) ∷ t.opmap) ≡ some (length t.terms)) e
            (find-same o (length t.terms) t.opmap) in
        let at_end : length t.terms ≡ i = some-injective _ _ (sym here ∙ h) in
        rw (← at_end) (get_elem?-last t.terms o ∙ ap some e)
    | no n ↦
        get_elem?-append t.terms (o ∷ []) i p
          (w.found p i (sym (find-other p o (length t.terms) t.opmap n) ∙ h))
  ]

  new_shared :
      find o t.opmap ≡ none
      → (p : Operation) (i : ℕ) → get_elem? new_state.terms i ≡ some p
      → p ≢ nulary
      → find p new_state.opmap ≡ some i
  unfolding new_state
  new_shared fresh p i h ne = go (get_elem?-snoc t.terms o i p h)
    where
      go :
          (get_elem? t.terms i ≡ some p) ⊎ ((i ≡ length t.terms) × (o ≡ p))
          → find p ((o, length t.terms) ∷ t.opmap) ≡ some i
      go (inl old) =
          find-other p o (length t.terms) t.opmap (λ e. cc (w.shared p i old ne))
          ∙ w.shared p i old ne
      go (inr (e, f)) = rw (e, ← f) (find-same o (length t.terms) t.opmap)

  new_ordered :
      OperandsBelow (length t.terms) o
      → (i : ℕ) (p : Operation) → get_elem? new_state.terms i ≡ some p
      → OperandsBelow i p
  unfolding new_state
  new_ordered below i p h = go (get_elem?-snoc t.terms o i p h)
    where
      go : (get_elem? t.terms i ≡ some p) ⊎ ((i ≡ length t.terms) × (o ≡ p)) → OperandsBelow i p
      go (inl old) = w.ordered i p old
      go (inr (e, f)) = rw (e, ← f) below

  new_registered :
      (i v d : ℕ) (m : List (ℕ × ℕ))
      → get_elem? new_state.derivatives i ≡ some m
      → lookup v m ≡ some d
      → d < length new_state.terms
  unfolding new_state lookup
  new_registered i v d m h e = go (get_elem?-snoc t.derivatives [] i m h)
    where
      go :
          (get_elem? t.derivatives i ≡ some m) ⊎ ((i ≡ length t.derivatives) × ([] ≡ m))
          → d < length (t.terms ++ o ∷ [])
      go (inl old) = omega (arith, w.registered i v d m old e, length-append t.terms (o ∷ []))
      go (inr (q, f)) = absurd (cc (rw (← f) at e))

  new_constants : (i : ℕ) → i < num_constants → get_elem? new_state.terms i ≡ some nulary
  unfolding new_state
  new_constants i h = get_elem?-append t.terms (o ∷ []) i nulary (w.constants i h)

  pub new_state-IsTree :
      o ≢ nulary → find o t.opmap ≡ none → OperandsBelow (length t.terms) o → IsTree new_state
  new_state-IsTree ne fresh below = record {
    incidence_size =
        unfold new_state in
        omega (
          arith,
          length-append t.nul_incidence (s ∷ []),
          length-append t.terms (o ∷ []),
          w.incidence_size,
        );
    derivatives_size =
        unfold new_state in
        omega (
          arith,
          length-append t.derivatives ([] ∷ []),
          length-append t.terms (o ∷ []),
          w.derivatives_size,
        );
    constants = new_constants;
    ordered = new_ordered below;
    found = new_found ne fresh;
    shared = new_shared fresh;
    registered = new_registered;
  }
