-- ===== src/Tree/Calculus.antt =====
-- Computations of parser/cc/tree.cc that build terms with known values, on trees whose registered
-- derivatives are right.
use dynare.Base.{
  ℕ, ◌<◌, ◌≡◌, inl, inr, List, [], Option, some, arith, length, get_elem?, get_elem?_lt,
  get_elem?-snoc,
}
use dynare.Tree.{
  UnaryCode, BinaryCode, Operation, OperationTree, M, lookup, ◌>>=◌, return, add_unary, add_binary,
}
use dynare.Tree.Invariant.{IsTree, Grows, OperandsBelow, new_state, new_state-Grows}
use dynare.Tree.Growth.{Builds, Builds-return, Builds-bind, Builds-map}
use dynare.Tree.Meaning.{Arithmetic, Denotes-Grows}
use dynare.Tree.Simplify.{add_unary-Builds}
use dynare.Tree.Binary.{add_binary-Builds}
use dynare.Tree.Incidence.{IsExact}
use dynare.Tree.Exact.{IncidenceOf, new_state-IsExact}
use dynare.Tree.Kept.{add_unary-Keeps, add_binary-Keeps}
use dynare.Tree.Dual.{op1, op2, op1-some, op2-some, Has, Dual, Dual-before}

module _ {D : Type 0} (a : Arithmetic D) (env : ℕ → D) where
  -- The invariant; the incidence sets are exact; and a registered derivative has the value that the
  -- rules give.
  pub record IsSound (t : OperationTree) : Type 0 where
    pub tree : IsTree t
    pub exact : IsExact t
    pub derived :
        (i v d : ℕ) (m : List (ℕ × ℕ))
        → get_elem? t.derivatives i ≡ some m
        → lookup v m ≡ some d
        → (z dz : Option D) → Dual a env t.terms v i z dz
        → Has a env t.terms d dz

  -- A term of the tree, with its value.
  abbrev pub Term : OperationTree → ℕ → Option D → Type 0
  Term t i o = (i < length t.terms) × Has a env t.terms i o

  pub Term-Grows :
      {t u : OperationTree} {i : ℕ} {o : Option D} → Grows t u → Term t i o → Term u i o
  Term-Grows g h = (omega (arith, g.size, h.0), λ y e. Denotes-Grows a env g (h.1 y e))

  -- A computation that keeps the tree sound and returns a term with the value.
  abbrev pub Gives : OperationTree → M ℕ → Option D → Type 0
  Gives t m o = Builds t m (λ r u. IsSound u × Has a env u.terms r o)

  pub Gives-bind :
      {t : OperationTree} {m : M ℕ} {f : ℕ → M ℕ} {o p : Option D}
      → Gives t m o
      → ((r : ℕ) (u : OperationTree) → IsSound u → Grows t u → Term u r o → Gives u (f r) p)
      → Gives t (m >>= f) p
  Gives-bind b k = Builds-bind b λ r u w g h s. k r u s.0 g (h, s.1)

  pub Gives-map :
      {t : OperationTree} {m : M ℕ} {o p : Option D}
      → ((y : D) → p ≡ some y → o ≡ some y)
      → Gives t m o
      → Gives t m p
  Gives-map k b = Builds-map b λ r u w g s. (s.0, λ y e. s.1 y (k y e))

  module _ (t : OperationTree) (s : IsSound t) where
    new_derived :
        (o : Operation) (set : List ℕ) (i v d : ℕ) (m : List (ℕ × ℕ))
        → get_elem? (new_state t s.tree o set).derivatives i ≡ some m
        → lookup v m ≡ some d
        → (z dz : Option D) → Dual a env (new_state t s.tree o set).terms v i z dz
        → Has a env (new_state t s.tree o set).terms d dz
    unfolding new_state lookup
    new_derived o set i v d m e f z dz c = elim (get_elem?-snoc t.derivatives [] i m e) [
      | inl old ↦
          let here = get_elem?_lt t.derivatives i m old in
          let g = new_state-Grows t s.tree o set in
          let before =
            Dual-before a env s.tree g (omega (arith, here, s.tree.derivatives_size)) c in
          λ y q. Denotes-Grows a env g (s.derived i v d m old f z dz before y q)
      | inr new ↦ absurd (cc (rw (← new.1) at f))
    ]

    new_state-IsSound :
        (o : Operation) (set : List ℕ)
        → OperandsBelow (length t.terms) o
        → IncidenceOf t o set
        → IsTree (new_state t s.tree o set)
        → IsSound (new_state t s.tree o set)
    new_state-IsSound o set h e w = record {
      tree = w;
      exact = new_state-IsExact t s.tree s.exact o set h e;
      derived = new_derived o set;
    }

    abbrev SoundTree : OperationTree → Type 0
    SoundTree u = IsTree u → IsSound u

    pub unary-Gives :
        (code : UnaryCode) {i : ℕ} {o : Option D}
        → Term t i o
        → Gives t (add_unary code i) (op1 a code o)
    unary-Gives code {i} {o} h =
        let b = add_unary-Builds a env t s.tree code i h.0 in
        let sound =
          add_unary-Keeps t s.tree SoundTree (λ w. s) new_state-IsSound code i h.0 b.result b.tree
            b.returns b.invariant in
        record {
          result = b.result;
          tree = b.tree;
          returns = b.returns;
          invariant = b.invariant;
          grows = b.grows;
          below = b.below;
          holds = (sound, λ y e. let (x, f, g) = op1-some a code o y e in b.holds x y (h.1 x f) g);
        }

    pub binary-Gives :
        (code : BinaryCode) {i j : ℕ} {o p : Option D}
        → Term t i o
        → Term t j p
        → Gives t (add_binary code i j) (op2 a code o p)
    binary-Gives code {i} {j} {o} {p} h h' =
        let b = add_binary-Builds a env t s.tree i j h.0 h'.0 code in
        let sound =
          add_binary-Keeps t s.tree SoundTree (λ w. s) new_state-IsSound code i j h.0 h'.0 b.result
            b.tree b.returns b.invariant in
        record {
          result = b.result;
          tree = b.tree;
          returns = b.returns;
          invariant = b.invariant;
          grows = b.grows;
          below = b.below;
          holds = (
            sound,
            λ z e.
                let (x, y, f, f', g) = op2-some a code o p z e in
                b.holds x y z (h.1 x f) (h'.1 y f') g,
          );
        }

    pub return-Gives : {i : ℕ} {o : Option D} → Term t i o → Gives t (return i) o
    return-Gives {i} h = Builds-return i s.tree h.0 (s, h.1)
