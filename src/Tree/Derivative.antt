-- ===== src/Tree/Derivative.antt =====
-- `add_derivative` ends with a term of the tree, and keeps the tree's invariant: each recursive call is
-- on an operand, which stands before its term.
use dynare.Base.{
  ℕ, zero, suc, ◌<◌, ◌≡◌, ◌≢◌, ◌⊎◌, refl, ap, ◌∙◌, Option, none, some, arith, List, [], ◌∷◌, length,
  Bool, inl, inr, true, false, Result, ok, at, at-of, get_elem?, get_elem?_of_lt, get_or,
  get_elem?-eq-get_or, set, length-set,
}
use mathlib.Core.Option.{some-injective}
use dynare.Tree.{
  Operation, nulary, unary, binary, OperationTree, M, ◌>>=◌, return, read, lookup, has, emplace,
  derive_operation, derive_new, derive_incident, term_at, derive_term, add_derivative,
  register_derivative, zero_term,
}
use dynare.Tree.Invariant.{IsTree, Grows, OperandsBelow}
use dynare.Tree.Growth.{Builds, Anything, Builds-return, Builds-bind}
use dynare.Tree.Rules.{Safe, term_count, derive_operation-Safe}

pub lookup-emplace :
    (u v d e : ℕ) (m : List (ℕ × ℕ))
    → lookup u (emplace v d m) ≡ some e
    → (lookup u m ≡ some e) ⊎ ((d ≡ e) × (v ≡ u))
unfolding emplace lookup
lookup-emplace u v d e m h = ground arith

pub get_elem?-set :
    (xs : List (List (ℕ × ℕ))) (i j : ℕ) (x y : List (ℕ × ℕ))
    → get_elem? (set xs i x) j ≡ some y
    → (get_elem? xs j ≡ some y) ⊎ ((x ≡ y) × (i ≡ j))
get_elem?-set [] i j x y h = inl h
get_elem?-set (z ∷ xs) zero zero x y h = inr (some-injective _ _ h, refl)
get_elem?-set (z ∷ xs) zero (suc j) x y h = inl h
get_elem?-set (z ∷ xs) (suc i) zero x y h = inl h
get_elem?-set (z ∷ xs) (suc i) (suc j) x y h = shift (get_elem?-set xs i j x y h)
  where
    shift :
        (get_elem? xs j ≡ some y) ⊎ ((x ≡ y) × (i ≡ j))
        → (get_elem? xs j ≡ some y) ⊎ ((x ≡ y) × (suc i ≡ suc j))
    shift (inl e) = inl e
    shift (inr (e, f)) = inr (e, ap suc f)

pub register_derivative-IsTree :
    (t v d : ℕ) (u : OperationTree)
    → IsTree u
    → t < length u.terms
    → d < length u.terms
    → IsTree (register_derivative t v d u)
unfolding register_derivative
register_derivative-IsTree t v d u w ht h = record {
  incidence_size = w.incidence_size;
  derivatives_size = length-set u.derivatives t _ ∙ w.derivatives_size;
  constants = w.constants;
  ordered = w.ordered;
  found = w.found;
  shared = w.shared;
  registered = λ i v' d' m e f.
      in_range v' d' m f (w.registered i v' d' m) (get_elem?-set u.derivatives t i _ m e);
}
  where
    old : List (ℕ × ℕ)
    old = get_or u.derivatives t []

    entry : (v' d' : ℕ) → (lookup v' old ≡ some d') ⊎ ((d ≡ d') × (v ≡ v')) → d' < length u.terms
    entry v' d' (inl e) =
        w.registered t v' d' old
          (get_elem?-eq-get_or u.derivatives t [] (omega (arith, w.derivatives_size))) e
    entry v' d' (inr e) = omega (arith, e.0)

    in_range :
        {i : ℕ} (v' d' : ℕ) (m : List (ℕ × ℕ))
        → lookup v' m ≡ some d'
        → (get_elem? u.derivatives i ≡ some m → lookup v' m ≡ some d' → d' < length u.terms)
        → (get_elem? u.derivatives i ≡ some m) ⊎ ((emplace v d old ≡ m) × (t ≡ i))
        → d' < length u.terms
    in_range v' d' m f next (inl e) = next e f
    in_range v' d' m f next (inr (e, q)) =
        entry v' d' (lookup-emplace v' v d d' old (rw (← e) at f))

pub register_derivative-Grows :
    (t v d : ℕ) (u : OperationTree) → Grows u (register_derivative t v d u)
unfolding register_derivative
register_derivative-Grows t v d u = record { size = omega arith; kept = λ i o h. h }

register-Safe :
    (t v : ℕ) (m : M ℕ) (u : OperationTree)
    → t < length u.terms
    → Safe u m
    → Safe u (m >>= λ res tree. ok (res, register_derivative t v res tree))
register-Safe t v m u h b = Builds-bind b λ r u' w g k _. record {
  result = r;
  tree = register_derivative t v r u';
  returns = refl;
  invariant = register_derivative-IsTree t v r u' w (omega (arith, g.size)) k;
  grows = register_derivative-Grows t v r u';
  below = omega (arith, k, (register_derivative-Grows t v r u').size);
  holds = tt;
}

-- A read that succeeds changes nothing.
read-Safe :
    {A : Type 0} (f : OperationTree → Result A) (x : A) (next : A → M ℕ) (u : OperationTree)
    → f u ≡ ok x
    → Safe u (next x)
    → Safe u (read f >>= next)
read-Safe f x next u e b = record {
  result = b.result;
  tree = b.tree;
  returns = rw (e, read, ◌>>=◌) b.returns;
  invariant = b.invariant;
  grows = b.grows;
  below = b.below;
  holds = tt;
}

module _ (derive : ℕ → M ℕ) (t v : ℕ)
    (rec : (u : OperationTree)
      → IsTree u
      → (j : ℕ) → j < t
      → t < length u.terms
      → Safe u (derive j))
    (u : OperationTree) (w : IsTree u) (k : t < length u.terms) where
  derive_new-Safe :
      (op : Operation) → op ≢ nulary → OperandsBelow t op → Safe u (derive_new derive t v op)
  unfolding derive_new
  derive_new-Safe op ne h =
      let (m, e) = get_elem?_of_lt u.derivatives t (omega (arith, w.derivatives_size)) in
      read-Safe (λ tree. at tree.derivatives t) m _ u (at-of u.derivatives t m e)
        (registered_or_new m e (lookup v m) refl)
    where
      after : List (ℕ × ℕ) → Option ℕ → M ℕ
      after m o = elim o [
        | some d ↦ return d
        | none ↦
            derive_operation derive t op >>= λ res tree. ok (res, register_derivative t v res tree)
      ]

      registered_or_new :
          (m : List (ℕ × ℕ))
          → get_elem? u.derivatives t ≡ some m
          → (o : Option ℕ) → lookup v m ≡ o
          → Safe u (after m o)
      registered_or_new m e (some d) f = Builds-return d w (w.registered t v d m e f) tt
      registered_or_new m e none f =
          register-Safe t v (derive_operation derive t op) u k
            (derive_operation-Safe derive t rec u w op ne h k)

  derive_incident-Safe :
      (op : Operation) → op ≢ nulary → OperandsBelow t op → Safe u (derive_incident derive t v op)
  unfolding derive_incident
  derive_incident-Safe op ne h =
      let (s, e) = get_elem?_of_lt u.nul_incidence t (omega (arith, w.incidence_size)) in
      read-Safe (λ tree. at tree.nul_incidence t) s _ u (at-of u.nul_incidence t s e)
        (by_incidence (has v s))
    where
      by_incidence :
          (b : Bool)
          → Safe u (elim b [ true ↦ derive_new derive t v op | false ↦ return zero_term ])
      by_incidence true = derive_new-Safe op ne h
      by_incidence false = Builds-return zero_term w (omega arith) tt

  derive_term-Safe : (op : Operation) → OperandsBelow t op → Safe u (derive_term derive t v op)
  unfolding derive_term
  derive_term-Safe nulary h = Builds-return _ w (ground (arith, term_count u w)) tt
  derive_term-Safe (unary code i) h = derive_incident-Safe (unary code i) (λ e. cc) h
  derive_term-Safe (binary code i j) h = derive_incident-Safe (binary code i j) (λ e. cc) h

-- For a term `t` of a tree that meets the invariant, and any `v`, `add_derivative` ends within t + 1
-- nested calls: it raises nothing, returns a term, and keeps the invariant and every term.
add_derivative-Builds :
    (fuel t v : ℕ) (u : OperationTree)
    → IsTree u
    → t < length u.terms
    → t < fuel
    → Builds u (add_derivative fuel t v) Anything
unfolding add_derivative
add_derivative-Builds zero t v u w h k = absurd (omega arith)
add_derivative-Builds (suc fuel) t v u w h k =
    let (op, e) = get_elem?_of_lt u.terms t h in
    read-Safe (term_at t) op _ u (unfold term_at in rw (at-of u.terms t op e, term_at)) (
      derive_term-Safe (λ a. add_derivative fuel a v) t v
        (λ u' w' j l l'. add_derivative-Builds fuel j v u' w' (omega arith) (omega arith)) u w h op
        (w.ordered t op e))
