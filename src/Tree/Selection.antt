-- ===== src/Tree/Selection.antt =====
-- Which terms `select_terms` selects.
use dynare.Base.{
  ℕ, zero, suc, ◌<◌, ◌≡◌, ◌⊎◌, ◌↔◌, inl, inr, refl, sym, ◌∙◌, subst, List, [], ◌∷◌, ◌++◌, some,
  Bool, true, false, Result, ok, ◌>>=◌, arith, length, get_elem?, get_elem?_of_lt, at-of,
  Bool-cases, ◌==◌, ==_iff, ◌||◌,
}
use dynare.Tree.{
  UnaryCode, BinaryCode, Operation, nulary, unary, binary, OperationTree, has, insert,
  select_operands, select_into, select_terms,
}
use dynare.Tree.Invariant.{IsTree, OperandsBelow}

module _ (terms : List Operation) (sel : ℕ → Bool) where
  -- The term `x` is selected, and is reached from `t` through terms that are not.
  pub data Selected : ℕ → ℕ → Type 0 where
    here : {t : ℕ} → sel t ≡ true → Selected t t
    through :
        {t i x : ℕ} (code : UnaryCode)
        → sel t ≡ false
        → get_elem? terms t ≡ some (unary code i)
        → Selected i x
        → Selected t x
    left :
        {t i j x : ℕ} (code : BinaryCode)
        → sel t ≡ false
        → get_elem? terms t ≡ some (binary code i j)
        → Selected i x
        → Selected t x
    right :
        {t i j x : ℕ} (code : BinaryCode)
        → sel t ≡ false
        → get_elem? terms t ≡ some (binary code i j)
        → Selected j x
        → Selected t x

abbrev pub Has : ℕ → List ℕ → Type 0
Has x s = has x s ≡ true

has-append : (x v : ℕ) (s : List ℕ) → has x (s ++ v ∷ []) ≡ (has x s || (v == x))
unfolding has
has-append x v [] = ground arith
has-append x v (u ∷ s) = ground (arith, has-append x v s)

Has-insert : (x v : ℕ) (s : List ℕ) → Has x (insert v s) ↔ ((v ≡ x) ⊎ Has x s)
unfolding insert
Has-insert x v s = elim (Bool-cases (has v s)) [
  | inl e ↦ rw e ((λ h. inr h), λ h. elim h [ inl f ↦ subst (λ y. Has y s) f e | inr h ↦ h ])
  | inr e ↦ rw e ((λ h. after (sym (has-append x v s) ∙ h)), λ h. has-append x v s ∙ before h)
]
  where
    after : (has x s || (v == x)) ≡ true → (v ≡ x) ⊎ Has x s
    after h = ground (arith, ==_iff v x)

    before : (v ≡ x) ⊎ Has x s → (has x s || (v == x)) ≡ true
    before h = ground (arith, ==_iff v x)

module _ (tree : OperationTree) (w : IsTree tree) (sel : ℕ → Bool) where
  -- The set gains the selected terms under `t`.
  abbrev Adds : ℕ → List ℕ → Result (List ℕ) → Type 0
  Adds t s m =
      (s' : List ℕ) × (m ≡ ok s') × ((x : ℕ) → Has x s' ↔ (Selected tree.terms sel t x ⊎ Has x s))

  only_here : (t x : ℕ) → sel t ≡ true → Selected tree.terms sel t x → t ≡ x
  only_here t x e (here f) = refl
  only_here t x e (through code f g h) = cc
  only_here t x e (left code f g h) = cc
  only_here t x e (right code f g h) = cc

  selected_itself : (t : ℕ) (s : List ℕ) → sel t ≡ true → Adds t s (ok (insert t s))
  selected_itself t s e = (
    insert t s,
    refl,
    λ x. (λ h. add x ((Has-insert x t s).0 h), λ h. (Has-insert x t s).1 (drop x h)),
  )
    where
      add : (x : ℕ) → (t ≡ x) ⊎ Has x s → Selected tree.terms sel t x ⊎ Has x s
      add x (inl f) = inl (subst (λ y. Selected tree.terms sel t y) f (here e))
      add x (inr h) = inr h

      drop : (x : ℕ) → Selected tree.terms sel t x ⊎ Has x s → (t ≡ x) ⊎ Has x s
      drop x (inl d) = inl (only_here t x e d)
      drop x (inr h) = inr h

  module _ (select : ℕ → List ℕ → Result (List ℕ)) (t : ℕ) (e : sel t ≡ false)
      (rec : (j : ℕ) (s : List ℕ) → j < t → Adds j s (select j s)) (s : List ℕ) where
    under_nulary : get_elem? tree.terms t ≡ some nulary → Adds t s (ok s)
    under_nulary f = (s, refl, λ x. ((λ h. inr h), drop x))
      where
        drop : (x : ℕ) → Selected tree.terms sel t x ⊎ Has x s → Has x s
        drop x (inl (here g)) = cc
        drop x (inl (through code g h k)) = cc
        drop x (inl (left code g h k)) = cc
        drop x (inl (right code g h k)) = cc
        drop x (inr h) = h

    under_unary :
        (code : UnaryCode) (i : ℕ)
        → get_elem? tree.terms t ≡ some (unary code i)
        → i < t
        → Adds t s (select i s)
    under_unary code i f l =
        let (s', g, h) = rec i s l in
        (s', g, λ x. ((λ k. add x ((h x).0 k)), λ k. (h x).1 (drop x k)))
      where
        add :
            (x : ℕ) → Selected tree.terms sel i x ⊎ Has x s → Selected tree.terms sel t x ⊎ Has x s
        add x (inl d) = inl (through code e f d)
        add x (inr h) = inr h

        drop :
            (x : ℕ) → Selected tree.terms sel t x ⊎ Has x s → Selected tree.terms sel i x ⊎ Has x s
        drop x (inl (here g)) = cc
        drop x (inl (through {i = i'} code' g h k)) =
            let place : i' ≡ i = cc in inl (subst (λ i. Selected tree.terms sel i x) place k)
        drop x (inl (left code' g h k)) = cc
        drop x (inl (right code' g h k)) = cc
        drop x (inr h) = inr h

    under_binary :
        (code : BinaryCode) (i j : ℕ)
        → get_elem? tree.terms t ≡ some (binary code i j)
        → i < t
        → j < t
        → Adds t s (select i s >>= select j)
    under_binary code i j f l l' =
        let (s1, g1, h1) = rec i s l in
        let (s2, g2, h2) = rec j s1 l' in
        (
          s2,
          rw (g1, ◌>>=◌) g2,
          λ x. ((λ k. add x s1 (h1 x).0 ((h2 x).0 k)), λ k. (h2 x).1 (drop x s1 (h1 x).1 k)),
        )
      where
        add :
            (x : ℕ) (s1 : List ℕ)
            → (Has x s1 → Selected tree.terms sel i x ⊎ Has x s)
            → Selected tree.terms sel j x ⊎ Has x s1
            → Selected tree.terms sel t x ⊎ Has x s
        add x s1 h (inl d) = inl (right code e f d)
        add x s1 h (inr k) = elim (h k) [ inl d ↦ inl (left code e f d) | inr k' ↦ inr k' ]

        drop :
            (x : ℕ) (s1 : List ℕ)
            → (Selected tree.terms sel i x ⊎ Has x s → Has x s1)
            → Selected tree.terms sel t x ⊎ Has x s
            → Selected tree.terms sel j x ⊎ Has x s1
        drop x s1 h (inl (here g)) = cc
        drop x s1 h (inl (through code' g k d)) = cc
        drop x s1 h (inl (left {i = i'} code' g k d)) =
            let place : i' ≡ i = cc in
            inr (h (inl (subst (λ i. Selected tree.terms sel i x) place d)))
        drop x s1 h (inl (right {j = j'} code' g k d)) =
            let place : j' ≡ j = cc in inl (subst (λ i. Selected tree.terms sel i x) place d)
        drop x s1 h (inr k) = inr (h (inr k))

    under_operands :
        (op : Operation)
        → get_elem? tree.terms t ≡ some op
        → OperandsBelow t op
        → Adds t s (select_operands select op s)
    unfolding select_operands
    under_operands nulary f l = under_nulary f
    under_operands (unary code i) f l = under_unary code i f l
    under_operands (binary code i j) f l = under_binary code i j f l.0 l.1

  select_into-Adds :
      (fuel t : ℕ) (s : List ℕ)
      → t < length tree.terms
      → t < fuel
      → Adds t s (select_into fuel tree sel t s)
  unfolding select_into
  select_into-Adds zero t s l k = absurd (omega arith)
  select_into-Adds (suc fuel) t s l k =
      let (op, f) = get_elem?_of_lt tree.terms t l in
      let below = w.ordered t op f in
      let m = at-of tree.terms t op f in
      elim (Bool-cases (sel t)) [
        | inl e ↦ rw (m, select_into) (rw e (selected_itself t s e))
        | inr e ↦
            rw (m, select_into)
              (rw e (
                under_operands (λ i r. select_into fuel tree sel i r) t e
                  (λ j r q. select_into-Adds fuel j r (omega arith) (omega arith)) s op f below))
      ]

-- For a term of a tree that meets the invariant `select_terms` ends within t + 1 nested calls, and
-- returns the set of the selected terms that are reached from it through terms that are not selected.
pub select_terms-Selected :
    (tree : OperationTree) (sel : ℕ → Bool) (fuel t : ℕ)
    → IsTree tree
    → t < length tree.terms
    → t < fuel
    → (s : List ℕ) × (select_terms fuel tree sel t ≡ ok s)
      × ((x : ℕ) → Has x s ↔ Selected tree.terms sel t x)
unfolding select_terms has
select_terms-Selected tree sel fuel t w l k =
    let (s, e, h) = select_into-Adds tree w sel fuel t [] l k in
    (s, e, λ x. ((λ q. not_empty ((h x).0 q)), λ q. (h x).1 (inl q)))
  where
    not_empty : {A : Type 0} → A ⊎ (false ≡ true) → A
    not_empty (inl a) = a
    not_empty (inr q) = cc
