-- ===== src/Tree/Substitution.antt =====
-- A substitution by terms of equal value keeps the value of a term.
use dynare.Base.{
  ℕ, zero, suc, ◌≤◌, ◌<◌, ◌≡◌, refl, sym, ◌∙◌, subst, Option, none, some, ok, arith, List, length,
  get_elem?, get_elem?_of_lt, get_elem?_lt, at-of, inl, inr, ltb, Bool-cases, Result,
}
use dynare.Tree.{
  UnaryCode, BinaryCode, Operation, nulary, unary, binary, OperationTree, M, ◌>>=◌, return, read,
  lookup, num_constants, add_substitution, substitute_operands, term_of, is_own,
}
use dynare.Tree.Invariant.{IsTree, Grows, Grows-trans, OperandsBelow}
use dynare.Tree.Growth.{Builds, Builds-return, Builds-bind, Builds-map}
use dynare.Tree.Meaning.{
  Arithmetic, Denotes, constant, atom, value1, value2, Denotes-Grows, Denotes-constant,
}
use dynare.Tree.Operands.{operand_value, operand_values}
use dynare.Tree.Simplify.{add_unary-Builds}
use dynare.Tree.Binary.{add_binary-Builds}

-- The terms of `s` are those that the substitution reads: `s` is the other tree, or an earlier state of
-- the tree `u` itself.
abbrev pub ReadsFrom : Option OperationTree → OperationTree → OperationTree → Type 0
ReadsFrom none s u = Grows s u
ReadsFrom (some o) s u = o ≡ s

Builds-read :
    {P : ℕ → OperationTree → Type 0} {A : Type 0} (f : OperationTree → Result A) (x : A)
    (next : A → M ℕ) (u : OperationTree)
    → f u ≡ ok x
    → Builds u (next x) P
    → Builds u (read f >>= next) P
Builds-read f x next u e b = record {
  result = b.result;
  tree = b.tree;
  returns = rw (e, read, ◌>>=◌) b.returns;
  invariant = b.invariant;
  grows = b.grows;
  below = b.below;
  holds = b.holds;
}

module _ {D : Type 0} (a : Arithmetic D) (env env' : ℕ → D) (s : OperationTree) (map : List (ℕ × ℕ))
    (from : Option OperationTree) where
  -- The right sides of the map are terms of `u` with the values of the left sides, and a nulary term
  -- that is neither a constant nor in the map is of the tree itself and keeps its value.
  pub record Substitutes (u : OperationTree) : Type 0 where
    pub reads : ReadsFrom from s u
    pub terms : (i r : ℕ) → lookup i map ≡ some r → r < length u.terms
    pub values :
        (i r : ℕ) (x : D)
        → lookup i map ≡ some r
        → Denotes a env s.terms i x
        → Denotes a env' u.terms r x
    pub kept :
        (i : ℕ)
        → num_constants ≤ i
        → get_elem? s.terms i ≡ some nulary
        → lookup i map ≡ none
        → (from ≡ none) × (env i ≡ env' i)

  ReadsFrom-Grows :
      (f : Option OperationTree) {u u' : OperationTree}
      → Grows u u'
      → ReadsFrom f s u
      → ReadsFrom f s u'
  ReadsFrom-Grows none g r = Grows-trans r g
  ReadsFrom-Grows (some o) g r = r

  Substitutes-Grows : {u u' : OperationTree} → Grows u u' → Substitutes u → Substitutes u'
  Substitutes-Grows g h = record {
    reads = ReadsFrom-Grows from g h.reads;
    terms = λ i r e. omega (arith, h.terms i r e, g.size);
    values = λ i r x e d. Denotes-Grows a env' g (h.values i r x e d);
    kept = h.kept;
  }

  -- The value of `t` is that of the term returned.
  abbrev pub Keeps : ℕ → ℕ → OperationTree → Type 0
  Keeps t r u = (x : D) → Denotes a env s.terms t x → Denotes a env' u.terms r x

  read_term :
      (f : Option OperationTree) (u : OperationTree) (t : ℕ) (op : Operation)
      → ReadsFrom f s u
      → get_elem? s.terms t ≡ some op
      → term_of f t u ≡ ok op
  unfolding term_of
  read_term none u t op r e = at-of u.terms t op (r.kept t op e)
  read_term (some o) u t op r e =
      at-of o.terms t op (subst (λ q. get_elem? q.terms t ≡ some op) (sym r) e)

  module _ (w : IsTree s) where
    atom_value :
        (u : OperationTree) {t : ℕ} {x : D}
        → num_constants ≤ t
        → get_elem? s.terms t ≡ some nulary
        → get_elem? u.terms t ≡ some nulary
        → env t ≡ env' t
        → Denotes a env s.terms t x
        → Denotes a env' u.terms t x
    atom_value u l e e' same (constant h f) = absurd (omega arith)
    atom_value u l e e' same (atom h f g) = atom l e' (sym same ∙ g)
    atom_value u l e e' same (value1 code f d g) = cc
    atom_value u l e e' same (value2 code f d d' g) = cc

    module _ (substitute : ℕ → M ℕ) (t : ℕ)
        (rec : (u : OperationTree)
          → IsTree u
          → Substitutes u
          → (j : ℕ) → j < t
          → Builds u (substitute j) (Keeps j))
        (u : OperationTree) (v : IsTree u) (h : Substitutes u) where
      keep_unary :
          (code : UnaryCode) (j : ℕ)
          → get_elem? s.terms t ≡ some (unary code j)
          → j < t
          → Builds u (substitute_operands substitute from t (unary code j)) (Keeps t)
      unfolding substitute_operands
      keep_unary code j e l = Builds-bind (rec u v h j l) λ r u' v' g below k.
          Builds-map (add_unary-Builds a env' u' v' code r below) λ r' u'' v'' g' m x d.
            let (y, d', q) = operand_value a env s w code e d in m y x (k y d') q

      keep_binary :
          (code : BinaryCode) (i j : ℕ)
          → get_elem? s.terms t ≡ some (binary code i j)
          → i < t
          → j < t
          → Builds u (substitute_operands substitute from t (binary code i j)) (Keeps t)
      unfolding substitute_operands
      keep_binary code i j e l l' = Builds-bind (rec u v h i l) λ r1 u1 v1 g1 below1 k1.
          Builds-bind (rec u1 v1 (Substitutes-Grows g1 h) j l') λ r2 u2 v2 g2 below2 k2.
            Builds-map
              (add_binary-Builds a env' u2 v2 r1 r2 (omega (arith, below1, g2.size)) below2 code)
              λ r u' v' g m x d.
                let (y, z, d1, d2, q) = operand_values a env s w code e d in
                m y z x (Denotes-Grows a env' g2 (k1 y d1)) (k2 z d2) q

      keep_nulary :
          get_elem? s.terms t ≡ some nulary
          → lookup t map ≡ none
          → Builds u (substitute_operands substitute from t nulary) (Keeps t)
      unfolding substitute_operands is_own
      keep_nulary e f = elim (Bool-cases (ltb t num_constants)) [
        | inl b ↦
            let l : t < num_constants = ground arith in
            rw b (
              Builds-return t v
                (omega (arith, l, get_elem?_lt u.terms 3 nulary (v.constants 3 (omega arith))))
                (λ x d. constant l (Denotes-constant a env s w l d)))
        | inr b ↦
            let l : num_constants ≤ t = ground arith in
            let (own, same) = h.kept t l e f in
            let g : Grows s u = subst (λ f. ReadsFrom f s u) own h.reads in
            rw (b, own)
              (Builds-return t v (get_elem?_lt u.terms t nulary (g.kept t nulary e))
                (λ x d. atom_value u l e (g.kept t nulary e) same d))
      ]

      keep_operands :
          (op : Operation)
          → get_elem? s.terms t ≡ some op
          → OperandsBelow t op
          → lookup t map ≡ none
          → Builds u (substitute_operands substitute from t op) (Keeps t)
      keep_operands nulary e b f = keep_nulary e f
      keep_operands (unary code i) e b f = keep_unary code i e b
      keep_operands (binary code i j) e b f = keep_binary code i j e b.0 b.1

      keep_term :
          t < length s.terms
          → (o : Option ℕ) → lookup t map ≡ o
          → Builds u
              (elim o [
                | some r ↦ return r
                | none ↦ read (term_of from t) >>= λ op. substitute_operands substitute from t op
              ])
              (Keeps t)
      keep_term l (some r) e = Builds-return r v (h.terms t r e) (λ x d. h.values t r x e d)
      keep_term l none e =
          let (op, f) = get_elem?_of_lt s.terms t l in
          Builds-read (term_of from t) op (λ op. substitute_operands substitute from t op) u
            (read_term from u t op h.reads f) (keep_operands op f (w.ordered t op f) e)

    -- For a term of a tree that meets the invariant, and a map to terms of equal value,
    -- `add_substitution` ends within t + 1 nested calls, raises nothing, keeps the invariant and every
    -- term of the tree it adds to, and returns a term with the value of the given term.
    pub add_substitution-Builds :
        (fuel t : ℕ) (u : OperationTree)
        → IsTree u
        → Substitutes u
        → t < length s.terms
        → t < fuel
        → Builds u (add_substitution fuel t map from) (Keeps t)
    unfolding add_substitution
    add_substitution-Builds zero t u v h l k = absurd (omega arith)
    add_substitution-Builds (suc fuel) t u v h l k =
        keep_term (λ i. add_substitution fuel i map from) t
          (λ u' v' h' j q. add_substitution-Builds fuel j u' v' h' (omega arith) (omega arith)) u v
          h l (lookup t map) refl
