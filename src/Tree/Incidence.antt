-- ===== src/Tree/Incidence.antt =====
-- The sets `nul_incidence` of parser/cc/tree.hh: the nulary terms that occur in a term.
use dynare.Base.{
  inl, inr, ℕ, ◌<◌, ◌≡◌, ◌⊎◌, sym, ap, ◌∙◌, List, [], ◌∷◌, ◌++◌, some, true, arith, length,
  get_elem?, get_elem?_of_lt,
}
use mathlib.Core.Option.{some-injective}
use dynare.Tree.{
  UnaryCode, BinaryCode, Operation, nulary, unary, binary, OperationTree, has, insert, insert_all,
}
use dynare.Tree.Invariant.{IsTree, Grows}

-- The nulary term `v` occurs in the term, through operands.
pub data Occurs (terms : List Operation) (v : ℕ) : ℕ → Type 0 where
  itself : {i : ℕ} → get_elem? terms i ≡ some nulary → i ≡ v → Occurs terms v i
  under :
      {i j : ℕ} (code : _)
      → get_elem? terms i ≡ some (unary code j)
      → Occurs terms v j
      → Occurs terms v i
  left :
      {i j k : ℕ} (code : _)
      → get_elem? terms i ≡ some (binary code j k)
      → Occurs terms v j
      → Occurs terms v i
  right :
      {i j k : ℕ} (code : _)
      → get_elem? terms i ≡ some (binary code j k)
      → Occurs terms v k
      → Occurs terms v i

-- A term of the smaller tree has its operation already there.
pub Grows-at :
    {t u : OperationTree} {i : ℕ} {o : Operation}
    → Grows t u
    → i < length t.terms
    → get_elem? u.terms i ≡ some o
    → get_elem? t.terms i ≡ some o
Grows-at {t} {i} {o} g h e =
    let (p, f) = get_elem?_of_lt t.terms i h in
    let same : p ≡ o = some-injective _ _ (sym (g.kept i p f) ∙ e) in f ∙ ap some same

pub Occurs-Grows :
    {t u : OperationTree} {v i : ℕ} → Grows t u → Occurs t.terms v i → Occurs u.terms v i
Occurs-Grows g (itself e f) = itself (g.kept _ _ e) f
Occurs-Grows g (under code e o) = under code (g.kept _ _ e) (Occurs-Grows g o)
Occurs-Grows g (left code e o) = left code (g.kept _ _ e) (Occurs-Grows g o)
Occurs-Grows g (right code e o) = right code (g.kept _ _ e) (Occurs-Grows g o)

module _ {t u : OperationTree} (w : IsTree t) (g : Grows t u) where
  pub Occurs-before : {v i : ℕ} → i < length t.terms → Occurs u.terms v i → Occurs t.terms v i
  Occurs-before h (itself e f) = itself (Grows-at g h e) f
  Occurs-before {i} h (under code e o) =
      let e' = Grows-at g h e in under code e' (Occurs-before (omega (arith, w.ordered i _ e')) o)
  Occurs-before {i} h (left code e o) =
      let e' = Grows-at g h e in
      left code e' (Occurs-before (omega (arith, (w.ordered i _ e').0)) o)
  Occurs-before {i} h (right code e o) =
      let e' = Grows-at g h e in
      right code e' (Occurs-before (omega (arith, (w.ordered i _ e').1)) o)

-- What occurs in a term, by its operation.
pub Occurs-nulary :
    {terms : List Operation} {v i : ℕ} → get_elem? terms i ≡ some nulary → Occurs terms v i → i ≡ v
Occurs-nulary e (itself f q) = q
Occurs-nulary e (under code f o) = cc
Occurs-nulary e (left code f o) = cc
Occurs-nulary e (right code f o) = cc

pub Occurs-unary :
    {terms : List Operation} {v i a : ℕ} {code : UnaryCode}
    → get_elem? terms i ≡ some (unary code a)
    → Occurs terms v i
    → Occurs terms v a
Occurs-unary e (itself f q) = cc
Occurs-unary {a} e (under {j} code f o) = let place : j ≡ a = cc in rw place at o
Occurs-unary e (left code f o) = cc
Occurs-unary e (right code f o) = cc

pub Occurs-binary :
    {terms : List Operation} {v i a b : ℕ} {code : BinaryCode}
    → get_elem? terms i ≡ some (binary code a b)
    → Occurs terms v i
    → Occurs terms v a ⊎ Occurs terms v b
Occurs-binary e (itself f q) = cc
Occurs-binary e (under code f o) = cc
Occurs-binary {a} e (left {j} code f o) = let place : j ≡ a = cc in inl (rw place at o)
Occurs-binary {b} e (right {k} code f o) = let place : k ≡ b = cc in inr (rw place at o)

-- Every incidence set has the nulary terms that occur in its term, and no other number.
pub record IsExact (t : OperationTree) : Type 0 where
  pub occurring :
      (i v : ℕ) (s : List ℕ)
      → get_elem? t.nul_incidence i ≡ some s
      → has v s ≡ true
      → Occurs t.terms v i
  pub present :
      (i v : ℕ) (s : List ℕ)
      → get_elem? t.nul_incidence i ≡ some s
      → Occurs t.terms v i
      → has v s ≡ true

has-append :
    (v u : ℕ) (s : List ℕ)
    → ((has v (s ++ u ∷ []) ≡ true) → ((has v s ≡ true) ⊎ (u ≡ v)))
      × (((has v s ≡ true) ⊎ (u ≡ v)) → (has v (s ++ u ∷ []) ≡ true))
unfolding has
has-append v u [] = ground arith
has-append v u (x ∷ s) = let r = has-append v u s in ground (arith, r.0, r.1)

pub has-insert :
    (v u : ℕ) (s : List ℕ)
    → ((has v (insert u s) ≡ true) → ((has v s ≡ true) ⊎ (u ≡ v)))
      × (((has v s ≡ true) ⊎ (u ≡ v)) → (has v (insert u s) ≡ true))
unfolding insert
has-insert v u s = let r = has-append v u s in ground (arith, r.0, r.1)

pub has-insert_all :
    (v : ℕ) (r s : List ℕ)
    → ((has v (insert_all r s) ≡ true) → ((has v s ≡ true) ⊎ (has v r ≡ true)))
      × (((has v s ≡ true) ⊎ (has v r ≡ true)) → (has v (insert_all r s) ≡ true))
unfolding insert_all has
has-insert_all v [] s = ground arith
has-insert_all v (u ∷ r) s =
    let p = has-insert_all v r (insert u s) in
    let q = has-insert v u s in ground (arith, p.0, p.1, q.0, q.1)

pub singleton_has :
    (v i : ℕ) → ((has v (i ∷ []) ≡ true) → i ≡ v) × (i ≡ v → (has v (i ∷ []) ≡ true))
unfolding has
singleton_has v i = ground arith
