-- ===== src/Tree/Derived.antt =====
-- `add_derivative` of parser/cc/tree.cc returns the derivative that the rules of calculus give, and keeps
-- every registered derivative right.
use dynare.Base.{
  ℕ, zero, suc, ◌<◌, ◌≡◌, ◌≢◌, inl, inr, refl, sym, ◌∙◌, subst, Option, none, some, arith, List,
  length, Bool, true, false, ok, at, at-of, get_elem?, get_elem?_of_lt, ◌==◌, if◌then◌else◌,
  Bool-cases,
}
use dynare.Tree.{
  Operation, nulary, unary, binary, OperationTree, M, ◌>>=◌, return, lookup, has, derive_operation,
  derive_new, derive_incident, term_at, derive_term, add_derivative, register_derivative, zero_term,
  one_term,
}
use dynare.Tree.Growth.{Builds, Builds-map}
use dynare.Tree.Meaning.{Arithmetic, Denotes, constant}
use dynare.Tree.Simplify.{size}
use dynare.Tree.Incidence.{Occurs}
use dynare.Tree.Dual.{Dual, leaf, step1, step2, Dual-Has}
use dynare.Tree.Vanish.{Dual-absent}
use dynare.Tree.DualTotal.{Dual-unique, Dual-Total}
use dynare.Tree.Calculus.{IsSound, Term, Gives, return-Gives}
use dynare.Tree.Textbook.{unary_rule-Gives, binary_rule-Gives}
use dynare.Tree.Registered.{register-Gives, read-Gives}

module _ {D : Type 0} (a : Arithmetic D) (env : ℕ → D) where
  leaf-Term :
      (t v : ℕ) (u : OperationTree)
      → IsSound a env u
      → get_elem? u.terms t ≡ some nulary
      → {z dz : Option D} → Dual a env u.terms v t z dz
      → Term a env u (if t == v then one_term else zero_term) dz
  leaf-Term t v u s e (step1 code f c p q) = cc
  leaf-Term t v u s e (step2 code f c c' p q) = cc
  leaf-Term t v u s e (leaf f p q) = (
    ground (arith, size a env u s.tree),
    λ y r. elim (Bool-cases (t == v)) [
      | inl h ↦ rw h (constant (omega arith) (rw h at q ∙ r))
      | inr h ↦ rw h (constant (omega arith) (rw h at q ∙ r))
    ],
  )

  module _ (derive : ℕ → M ℕ) (t v : ℕ)
      (rec : (u : OperationTree)
        → IsSound a env u
        → t < length u.terms
        → (j : ℕ) → j < t
        → (x dx : Option D) → Dual a env u.terms v j x dx
        → Gives a env u (derive j) dx)
      (u : OperationTree) (s : IsSound a env u) (k : t < length u.terms) where
    operation-Gives :
        (op : Operation)
        → get_elem? u.terms t ≡ some op
        → op ≢ nulary
        → {z dz : Option D} → Dual a env u.terms v t z dz
        → Gives a env u (derive_operation derive t op) dz
    unfolding derive_operation
    operation-Gives nulary e ne c = absurd (ne refl)
    operation-Gives (unary code i) e ne (leaf f p q) = cc
    operation-Gives (unary code i) e ne {z} (step1 {j} {x} {dx} code' f c p q) =
        let place : j ≡ i = cc in
        let codes : code' ≡ code = cc in
        subst (Gives a env u _) (rw (← codes) q) (
          unary_rule-Gives a env derive t v rec u s k (Dual-Has a env (step1 code' f c p q)) code i
            (s.tree.ordered t _ e) (subst (λ l. Dual a env u.terms v l x dx) place c))
    operation-Gives (unary code i) e ne (step2 code' f c c' p q) = cc
    operation-Gives (binary code i j) e ne (leaf f p q) = cc
    operation-Gives (binary code i j) e ne (step1 code' f c p q) = cc
    operation-Gives (binary code i j) e ne
          (step2 {j = i'} {k = j'} {x} {dx} {y} {dy} code' f c c' p q) =
        let place : i' ≡ i = cc in
        let place' : j' ≡ j = cc in
        let codes : code' ≡ code = cc in
        let below = s.tree.ordered t _ e in
        subst (Gives a env u _) (rw (← codes) q) (
          binary_rule-Gives a env derive t v rec u s k (Dual-Has a env (step2 code' f c c' p q))
            code i j below.0 below.1 (subst (λ l. Dual a env u.terms v l x dx) place c)
            (subst (λ l. Dual a env u.terms v l y dy) place' c'))

    module _ {z dz : Option D} (c : Dual a env u.terms v t z dz) where
      new-Gives :
          (op : Operation)
          → get_elem? u.terms t ≡ some op
          → op ≢ nulary
          → Gives a env u (derive_new derive t v op) dz
      unfolding derive_new
      new-Gives op e ne =
          let (m, f) = get_elem?_of_lt u.derivatives t (omega (arith, s.tree.derivatives_size)) in
          read-Gives a env (λ tree. at tree.derivatives t) m _ u (at-of u.derivatives t m f)
            (registered_or_new m f (lookup v m) refl)
        where
          after : List (ℕ × ℕ) → Option ℕ → M ℕ
          after m o = elim o [
            | some d ↦ return d
            | none ↦ derive_operation derive t op >>= λ res tree.
                ok (res, register_derivative t v res tree)
          ]

          registered_or_new :
              (m : List (ℕ × ℕ))
              → get_elem? u.derivatives t ≡ some m
              → (o : Option ℕ) → lookup v m ≡ o
              → Gives a env u (after m o) dz
          registered_or_new m f (some d) g =
              return-Gives a env u s (s.tree.registered t v d m f g, s.derived t v d m f g z dz c)
          registered_or_new m f none g =
              register-Gives a env t v (derive_operation derive t op) u s.tree k c
                (operation-Gives op e ne c)

      incident-Gives :
          (op : Operation)
          → get_elem? u.terms t ≡ some op
          → op ≢ nulary
          → Gives a env u (derive_incident derive t v op) dz
      unfolding derive_incident
      incident-Gives op e ne =
          let (r, f) = get_elem?_of_lt u.nul_incidence t (omega (arith, s.tree.incidence_size)) in
          read-Gives a env (λ tree. at tree.nul_incidence t) r _ u (at-of u.nul_incidence t r f)
            (by_incidence (has v r) (λ q o. cc (s.exact.present t v r f o)))
        where
          absent : (Occurs u.terms v t → ⊥) → Gives a env u (return zero_term) dz
          absent fresh = return-Gives a env u s (
            omega arith,
            λ y e'. constant (omega arith) (sym (rw (Dual-absent a env fresh c y e') refl)),
          )

          by_incidence :
              (b : Bool)
              → (b ≡ false → Occurs u.terms v t → ⊥)
              → Gives a env u
                  (elim b [ true ↦ derive_new derive t v op | false ↦ return zero_term ])
                  dz
          by_incidence true g = new-Gives op e ne
          by_incidence false g = absent (g refl)

      term-Gives :
          (op : Operation)
          → get_elem? u.terms t ≡ some op
          → Gives a env u (derive_term derive t v op) dz
      unfolding derive_term
      term-Gives nulary e = return-Gives a env u s (leaf-Term t v u s e c)
      term-Gives (unary code i) e = incident-Gives (unary code i) e (λ q. cc)
      term-Gives (binary code i j) e = incident-Gives (binary code i j) e (λ q. cc)

  add_derivative-Gives :
      (fuel t v : ℕ) (u : OperationTree)
      → IsSound a env u
      → t < length u.terms
      → t < fuel
      → (z dz : Option D) → Dual a env u.terms v t z dz
      → Gives a env u (add_derivative fuel t v) dz
  unfolding add_derivative
  add_derivative-Gives zero t v u s h k z dz c = absurd (omega arith)
  add_derivative-Gives (suc fuel) t v u s h k z dz c =
      let (op, e) = get_elem?_of_lt u.terms t h in
      read-Gives a env (term_at t) op _ u (unfold term_at in rw (at-of u.terms t op e, term_at)) (
        term-Gives (λ i. add_derivative fuel i v) t v
          (λ u' s' l j l' x dx c'.
            add_derivative-Gives fuel j v u' s' (omega arith) (omega arith) x dx c')
          u s h c op e)

  -- On a tree whose incidence sets are exact and whose registered derivatives are right, `add_derivative`
  -- ends within t + 1 nested calls, raises nothing and leaves such a tree. Where the rules of calculus, with
  -- each of their parts defined, give the term a derivative, the term returned has that value.
  pub add_derivative-Derives :
      (fuel t v : ℕ) (u : OperationTree)
      → IsSound a env u
      → t < length u.terms
      → t < fuel
      → Builds u (add_derivative fuel t v) (λ r u'.
        IsSound a env u'
        × ((z : Option D) (y : D) → Dual a env u.terms v t z (some y) → Denotes a env u'.terms r y))
  add_derivative-Derives fuel t v u s h k =
      let (z, dz, c) = Dual-Total a env u s.tree v (suc t) t (omega arith) h in
      Builds-map (add_derivative-Gives fuel t v u s h k z dz c)
        λ r u' w g p. (p.0, λ z' y c'. p.1 y ((Dual-unique a env c c').1))
