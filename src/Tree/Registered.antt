-- ===== src/Tree/Registered.antt =====
-- `register_derivative` of parser/cc/tree.cc keeps the registered derivatives right.
use dynare.Base.{
  ℕ, ◌<◌, ◌≡◌, ◌⊎◌, inl, inr, refl, sym, subst, Option, some, arith, List, [], length, Result, ok,
  get_elem?, get_or, get_elem?-eq-get_or,
}
use dynare.Tree.{OperationTree, M, ◌>>=◌, read, lookup, emplace, register_derivative}
use dynare.Tree.Invariant.{IsTree}
use dynare.Tree.Growth.{Builds-bind}
use dynare.Tree.Meaning.{Arithmetic}
use dynare.Tree.Dual.{Dual, Has}
use dynare.Tree.DualTotal.{Dual-unique}
use dynare.Tree.Dual.{Dual-before}
use dynare.Tree.Derivative.{
  lookup-emplace, get_elem?-set, register_derivative-IsTree, register_derivative-Grows,
}
use dynare.Tree.Calculus.{IsSound, Gives}

module _ {D : Type 0} (a : Arithmetic D) (env : ℕ → D) where
  module _ (t v d : ℕ) (u : OperationTree) (s : IsSound a env u) (h : t < length u.terms)
      (k : d < length u.terms)
      (right : (z dz : Option D) → Dual a env u.terms v t z dz → Has a env u.terms d dz) where
    registered_right :
        (i v' d' : ℕ) (m : List (ℕ × ℕ))
        → get_elem? (register_derivative t v d u).derivatives i ≡ some m
        → lookup v' m ≡ some d'
        → (z dz : Option D) → Dual a env u.terms v' i z dz
        → Has a env u.terms d' dz
    unfolding register_derivative
    registered_right i v' d' m e f z dz c = by_place (get_elem?-set u.derivatives t i _ m e)
      where
        old : List (ℕ × ℕ)
        old = get_or u.derivatives t []

        by_key :
            (lookup v' old ≡ some d') ⊎ ((d ≡ d') × (v ≡ v'))
            → Dual a env u.terms v' t z dz
            → Has a env u.terms d' dz
        by_key (inl q) c' =
            s.derived t v' d' old
              (get_elem?-eq-get_or u.derivatives t [] (omega (arith, s.tree.derivatives_size))) q z
              dz c'
        by_key (inr (q, q')) c' =
            subst (λ j. Has a env u.terms j dz) q
              (right z dz (subst (λ j. Dual a env u.terms j t z dz) (sym q') c'))

        by_place :
            (get_elem? u.derivatives i ≡ some m) ⊎ ((emplace v d old ≡ m) × (t ≡ i))
            → Has a env u.terms d' dz
        by_place (inl q) = s.derived i v' d' m q f z dz c
        by_place (inr (q, q')) =
            by_key (lookup-emplace v' v d d' old (rw (← q) at f))
              (subst (λ j. Dual a env u.terms v' j z dz) (sym q') c)

    register-IsSound : IsSound a env (register_derivative t v d u)
    unfolding register_derivative
    register-IsSound = record {
      tree = register_derivative-IsTree t v d u s.tree h k;
      exact = record { occurring = s.exact.occurring; present = s.exact.present };
      derived = registered_right;
    }

  pub register-Gives :
      (t v : ℕ) (m : M ℕ) (u : OperationTree)
      → IsTree u
      → t < length u.terms
      → {z dz : Option D} → Dual a env u.terms v t z dz
      → Gives a env u m dz
      → Gives a env u (m >>= λ res tree. ok (res, register_derivative t v res tree)) dz
  register-Gives t v m u w h {z} {dz} c b = Builds-bind b λ r u' w' g k p. record {
    result = r;
    tree = register_derivative t v r u';
    returns = refl;
    invariant = register_derivative-IsTree t v r u' w' (omega (arith, g.size)) k;
    grows = register_derivative-Grows t v r u';
    below = omega (arith, k, (register_derivative-Grows t v r u').size);
    holds = (
      register-IsSound t v r u' p.0 (omega (arith, g.size)) k
          (λ z' dz' c'. rw ((Dual-unique a env (Dual-before a env w g h c') c).1) p.1),
      unfold register_derivative in p.1,
    );
  }

  pub read-Gives :
      {A : Type 0} (f : OperationTree → Result A) (x : A) (next : A → M ℕ) (u : OperationTree)
      {o : Option D}
      → f u ≡ ok x
      → Gives a env u (next x) o
      → Gives a env u (read f >>= next) o
  read-Gives f x next u e b = record {
    result = b.result;
    tree = b.tree;
    returns = rw (e, read, ◌>>=◌) b.returns;
    invariant = b.invariant;
    grows = b.grows;
    below = b.below;
    holds = b.holds;
  }
