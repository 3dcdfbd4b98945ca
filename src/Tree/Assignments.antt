-- ===== src/Tree/Assignments.antt =====
-- Sequences of assignments in which each term stands behind its operands.
use Prim.Native.String.{String, ◌++◌}
use dynare.Base.{
  ℕ, ◌<◌, ◌≡◌, refl, sym, ap, ◌∙◌, subst, List, [], ◌∷◌, some, true, false, Result, ok, arith,
  get_elem?, ◌==◌, ==_iff, ◌||◌, Bool-cases, ◌⊎◌, inl, inr,
}
use dynare.Tree.{Operation, nulary, unary, binary, OperationTree, has, insert}
use dynare.Tree.Format.{Formatter, print_statement}

-- The terms of `done`, and then those of `ts`.
abbrev pub after : List ℕ → List ℕ → List ℕ
after done [] = done
after done (t ∷ ts) = after (t ∷ done) ts

abbrev pub joined : List ℕ → List ℕ → List ℕ
joined [] us = us
joined (t ∷ ts) us = t ∷ joined ts us

pub has-after : (k : ℕ) (done ts : List ℕ) → has k (after done ts) ≡ (has k done || has k ts)
unfolding has
has-after k done [] = ground arith
has-after k done (t ∷ ts) = ground (arith, has-after k (t ∷ done) ts)

pub has-joined : (k : ℕ) (ts us : List ℕ) → has k (joined ts us) ≡ (has k ts || has k us)
unfolding has
has-joined k [] us = refl
has-joined k (t ∷ ts) us = ground (arith, has-joined k ts us)

pub after-joined : (done ts us : List ℕ) → after done (joined ts us) ≡ after (after done ts) us
after-joined done [] us = refl
after-joined done (t ∷ ts) us = after-joined (t ∷ done) ts us

pub has-append : (k t : ℕ) (s : List ℕ) → has k (joined s (t ∷ [])) ≡ (t == k || has k s)
unfolding has
has-append k t [] = ground arith
has-append k t (u ∷ s) = ground (arith, has-append k t s)

pub has-insert : (k t : ℕ) (s : List ℕ) → has k (insert t s) ≡ (t == k || has k s)
unfolding insert
has-insert k t s = elim (Bool-cases (has t s)) [
  | inl e ↦ elim (Bool-cases (t == k)) [
    | inl f ↦ rw (e, f) (ap (λ v. has v s) (sym ((==_iff t k).0 f)) ∙ e)
    | inr f ↦ rw (e, f) refl
  ]
  | inr e ↦ rw e (has-append k t s)
]

module _ (otree : OperationTree) (decimal : ℕ → String) where
  -- A nulary term needs no assignment.
  abbrev pub IsReady : List ℕ → ℕ → Type 0
  IsReady done i = (get_elem? otree.terms i ≡ some nulary) ⊎ (has i done ≡ true)

  abbrev pub OperandsReady : List ℕ → Operation → Type 0
  OperandsReady done nulary = Unit
  OperandsReady done (unary code i) = IsReady done i
  OperandsReady done (binary code i j) = IsReady done i × IsReady done j

  -- The terms `ts` can be assigned one after another: none is done, and its operands are.
  abbrev pub Ordered : List ℕ → List ℕ → Type 0
  Ordered done [] = Unit
  Ordered done (t ∷ ts) =
      (has t done ≡ false)
      × ((op : Operation) × (get_elem? otree.terms t ≡ some op) × OperandsReady done op)
      × Ordered (t ∷ done) ts

  -- Their assignments, one after another.
  abbrev pub Wrote : String → List ℕ → String → Type 0
  Wrote os [] os' = os ≡ os'
  Wrote os (t ∷ ts) os' =
      (op : Operation) × (s : String) × (get_elem? otree.terms t ≡ some op)
      × (print_statement otree decimal op t ≡ ok s)
      × Wrote (os ++ s) ts os'

  pub Ordered-joined :
      (done ts us : List ℕ)
      → Ordered done ts
      → Ordered (after done ts) us
      → Ordered done (joined ts us)
  Ordered-joined done [] us h k = k
  Ordered-joined done (t ∷ ts) us h k = (h.0, h.1, Ordered-joined (t ∷ done) ts us h.2 k)

  pub Wrote-joined :
      (o p q : String) (ts us : List ℕ) → Wrote o ts p → Wrote p us q → Wrote o (joined ts us) q
  Wrote-joined o p q [] us h k = subst (λ v. Wrote v us q) (sym h) k
  Wrote-joined o p q (t ∷ ts) us h k = (h.0, h.1, h.2, h.3, Wrote-joined (o ++ h.1) p q ts us h.4 k)

  -- A call that writes the assignments of terms below `bound` and then meets `P`.
  pub record Formats (n : Result Formatter) (s : Formatter) (done : List ℕ) (bound : ℕ)
      (P : List ℕ → Type 0) : Type 0 where
    pub state : Formatter
    pub terms : List ℕ
    pub returns : n ≡ ok state
    pub below : (k : ℕ) → has k terms ≡ true → k < bound
    pub in_order : Ordered done terms
    pub wrote : Wrote s.os terms state.os
    pub stops : (k : ℕ) → has k state.stop_set ≡ (has k s.stop_set || has k terms)
    pub reached : P (after done terms)

  -- Below `bound` the set of the formatter holds what is done.
  abbrev pub Agrees : ℕ → Formatter → List ℕ → Type 0
  Agrees bound s done = (k : ℕ) → k < bound → has k s.stop_set ≡ has k done

  pub IsReady-after : (i : ℕ) (done ts : List ℕ) → IsReady done i → IsReady (after done ts) i
  IsReady-after i done ts (inl e) = inl e
  IsReady-after i done ts (inr e) = inr (ground (arith, has-after i done ts))
