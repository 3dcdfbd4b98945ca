-- ===== src/Tree/Assign.antt =====
-- What `set_nulary` does to the cache, and when.
use dynare.Base.{
  ℕ, suc, ◌+◌, ◌≤◌, ◌<◌, ◌≡◌, ◌≢◌, ◌⊎◌, inl, inr, refl, sym, some, true, false, Result, ok, err,
  Error, arith, length, at-of, get_elem?, get_elem?_of_lt, get_elem?-set_self, get_elem?-set_ne,
  ltb, ◌||◌, if◌then◌else◌, Bool-cases,
}
use mathlib.Core.Option.{some-injective}
use mathlib.Core.Path.{◌∙◌}
use dynare.Tree.{Operation, nulary, unary, binary, OperationTree, num_constants}
use dynare.Tree.Evaluate.{Floats, EvalTree, store, is_nulary, set_nulary, eval, eval_term}

abbrev pub IsAssignable : {D : Type 0} → OperationTree → EvalTree D → ℕ → Type 0
IsAssignable otree e t =
    (t ≤ e.last_operation) × (num_constants ≤ t) × (get_elem? otree.terms t ≡ some nulary)

-- The term has the value: `eval` returns it and leaves the cache. The other entries are as before.
pub record IsAssigned {D : Type 0} (f : Floats D) (otree : OperationTree) (e : EvalTree D) (t : ℕ)
    (val : D) (e' : EvalTree D) : Type 0 where
  pub evaluated : (fuel : ℕ) → eval f otree (suc fuel) t e' ≡ ok (val, e')
  pub same_values : (i : ℕ) → t ≢ i → get_elem? e'.values i ≡ get_elem? e.values i
  pub same_flags : (i : ℕ) → t ≢ i → get_elem? e'.flags i ≡ get_elem? e.flags i
  pub same_last : e'.last_operation ≡ e.last_operation

-- The two arrays of the cache have a place for each term up to the last operation.
abbrev pub HasCells : {D : Type 0} → EvalTree D → Type 0
HasCells e = (length e.values ≡ e.last_operation + 1) × (length e.flags ≡ e.last_operation + 1)

module _ {D : Type 0} (f : Floats D) (otree : OperationTree) (e : EvalTree D) (t : ℕ)
    (val : D) where
  store-IsAssigned : HasCells e → t ≤ e.last_operation → IsAssigned f otree e t val (store t val e)
  unfolding store eval eval_term
  store-IsAssigned (a, b) h =
      let test : ltb e.last_operation t ≡ false = ground arith in
      let value = get_elem?-set_self e.values t val (omega (arith, a)) in
      let flag = get_elem?-set_self e.flags t true (omega (arith, b)) in
      record {
        evaluated =
            λ fuel. rw (test, at-of _ t true flag) (rw (at-of _ t val value, eval_term) refl);
        same_values = λ i ne. get_elem?-set_ne e.values val ne;
        same_flags = λ i ne. get_elem?-set_ne e.flags true ne;
        same_last = refl;
      }

  Decides : Result (EvalTree D) → Type 0
  Decides r =
      (IsAssignable otree e t × (e' : EvalTree D) × (r ≡ ok e') × IsAssigned f otree e t val e')
      ⊎ ((¬ IsAssignable otree e t) × (x : Error) × (r ≡ err x))

  refuses :
      (x : Error) (op : Operation)
      → get_elem? otree.terms t ≡ some op
      → (r : Result (EvalTree D)) → r ≡ err x
      → op ≢ nulary
      → Decides r
  unfolding Decides
  refuses x op g r e ne = inr (λ p. ne (some-injective _ _ (sym g ∙ p.2)), x, e)

  decided :
      (op : Operation)
      → get_elem? otree.terms t ≡ some op
      → t ≤ e.last_operation
      → HasCells e
      → Decides (
          if ltb t num_constants || (if is_nulary op then false else true)
          then err Error.not_assignable
          else ok (store t val e))
  unfolding is_nulary Decides
  decided nulary g l h = elim (Bool-cases (ltb t num_constants)) [
    | inl c ↦ rw c (inr (λ p. ground (arith, p.1), Error.not_assignable, refl))
    | inr c ↦ rw c (inl ((l, ground arith, g), store t val e, refl, store-IsAssigned h l))
  ]
  decided (unary code i) g l h =
      refuses Error.not_assignable (unary code i) g _ (ground arith) (λ p. cc)
  decided (binary code i j) g l h =
      refuses Error.not_assignable (binary code i j) g _ (ground arith) (λ p. cc)

  set_nulary-Decides :
      e.last_operation < length otree.terms → HasCells e → Decides (set_nulary f otree t val e)
  unfolding set_nulary
  set_nulary-Decides last h = elim (Bool-cases (ltb e.last_operation t)) [
    | inl b ↦ rw b (unfold Decides in inr (λ p. ground (arith, p.0), Error.wrong_tree_index, refl))
    | inr b ↦
        let (op, g) = get_elem?_of_lt otree.terms t (ground arith) in
        rw (b, at-of otree.terms t op g) (decided op g (ground arith) h)
  ]

-- Where the last operation is a term and the cache has a place for each term up to it, `set_nulary`
-- raises an error unless the index is up to the last operation and is that of a nulary term that is not
-- a constant. There it returns a cache in which `eval` finds the value at that term without a change,
-- and in which the other entries are as before.
pub set_nulary-eval :
    {D : Type 0} (f : Floats D) (otree : OperationTree) (e : EvalTree D) (t : ℕ) (val : D)
    → e.last_operation < length otree.terms
    → HasCells e
    → (IsAssignable otree e t
        × (e' : EvalTree D) × (set_nulary f otree t val e ≡ ok e')
        × IsAssigned f otree e t val e')
      ⊎ ((¬ IsAssignable otree e t) × (x : Error) × (set_nulary f otree t val e ≡ err x))
set_nulary-eval f otree e t val last h = unfold Decides in set_nulary-Decides f otree e t val last h
