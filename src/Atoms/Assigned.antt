-- ===== src/Atoms/Assigned.antt =====
-- `assign_variable` of parser/cc/dynamic_atoms.cc keeps the tables consistent.
use dynare.Base.{
  ℕ, ◌≤◌, ◌≡◌, ◌≢◌, ◌⊎◌, inl, inr, refl, sym, ap, ◌∙◌, subst, none, some, ok, ◌↔◌, arith,
  Option-cases, Bool-cases, ◌==◌, ==_iff, min, max,
}
use mathlib.Core.Option.{some-injective}
use dynare.Atoms.Map.{Order, IsOrder, find_key, emplace_key, numbers, numbers-IsOrder, same_key}
use dynare.Atoms.Entries.{
  find_key-emplace_key, find_key-emplace_other, emplace_key-IsMap, length-emplace_key, same_iff,
}
use dynare.Atoms.Dynamic.{DynamicAtoms, at_lag, index_of, int_max, with_variable, assign_variable}
use dynare.Atoms.Consistent.{IsSpan, IsAtoms}
use dynare.Atoms.Added.{Added, add_lag-Added, taken}

pub min_either : (a b : ℕ) → (min a b ≡ a) ⊎ (min a b ≡ b)
min_either a b = ground arith

pub max_either : (a b : ℕ) → (max a b ≡ a) ⊎ (max a b ≡ b)
max_either a b = ground arith

module _ {N : Type 0} ⦃o : Order N⦄ (w : IsOrder N) where
  module _ (a : DynamicAtoms N) (x : IsAtoms a) (n : N) (ll t : ℕ)
      (free : find_key t a.indices ≡ none) (fresh : index_of a n ll ≡ none)
      (b : Added w a.vars n ll t) where
    abbrev with_new : DynamicAtoms N
    with_new = with_variable a b.result n ll t

    is_new :
        (k : N) (l u : ℕ)
        → index_of with_new k l ≡ some u
        → ((n ≡ k) × (ll ≡ l) × (t ≡ u)) ⊎ (index_of a k l ≡ some u)
    unfolding with_variable
    is_new k l u e = elim (Bool-cases (same_key n k)) [
      | inl q ↦ elim (Bool-cases (ll == l)) [
        | inl p ↦
            let name : n ≡ k = (same_iff w n k).0 q in
            let lag : ll ≡ l = (==_iff ll l).0 p in
            let here : at_lag b.result n ll ≡ some u =
              subst (λ i. at_lag b.result i ll ≡ some u) (sym name)
                (subst (λ i. at_lag b.result k i ≡ some u) (sym lag) e) in
            inl (name, lag, some-injective _ _ (sym b.here ∙ here))
        | inr p ↦ inr (sym (b.others k l (inr (λ q'. ground arith))) ∙ e)
      ]
      | inr q ↦ inr (sym (b.others k l (inl (λ p. cc ((same_iff w n k).1 p, q)))) ∙ e)
    ]

    stays : (k : N) (l u : ℕ) → index_of a k l ≡ some u → index_of with_new k l ≡ some u
    unfolding with_variable
    stays k l u e = elim (Bool-cases (same_key n k)) [
      | inl q ↦ elim (Bool-cases (ll == l)) [
        | inl p ↦
            let name : n ≡ k = (same_iff w n k).0 q in
            let lag : ll ≡ l = (==_iff ll l).0 p in
            let here : at_lag a.vars n ll ≡ some u =
              subst (λ i. at_lag a.vars i ll ≡ some u) (sym name)
                (subst (λ i. at_lag a.vars k i ≡ some u) (sym lag) e) in
            absurd (cc fresh)
        | inr p ↦ b.others k l (inr (λ q'. ground arith)) ∙ e
      ]
      | inr q ↦ b.others k l (inl (λ p. cc ((same_iff w n k).1 p, q))) ∙ e
    ]

    -- The tree index of an old variable is another one.
    other_index : (k : N) (l u : ℕ) → index_of a k l ≡ some u → t ≢ u
    other_index k l u e q =
        cc (subst (λ i. find_key i a.indices ≡ some k) (sym q) (x.known k l u e), free)

    with_new-IsSpan : ll ≤ int_max → IsSpan with_new (min ll a.minlag) (max ll a.maxlead)
    unfolding with_variable
    with_new-IsSpan h = record {
      within = λ k l u e. elim (is_new k l u e) [
        | inl q ↦ (omega (arith, q.1), omega (arith, q.1))
        | inr q ↦ let r = x.span.within k l u q in (omega (arith, r.0), omega (arith, r.1))
      ];
      least = elim x.span.least [
        | inl (k, u, e) ↦ inl (elim (min_either ll a.minlag) [
          | inl q ↦ (n, t, subst (λ i. at_lag b.result n i ≡ some t) (sym q) b.here)
          | inr q ↦ (k, u, subst (λ i. at_lag b.result k i ≡ some u) (sym q) (stays k a.minlag u e))
        ])
        | inr q ↦ inl (n, t, subst (λ i. at_lag b.result n i ≡ some t) (omega (arith, q)) b.here)
      ];
      greatest = elim x.span.greatest [
        | inl (k, u, e) ↦ inl (elim (max_either ll a.maxlead) [
          | inl q ↦ (n, t, subst (λ i. at_lag b.result n i ≡ some t) (sym q) b.here)
          | inr q ↦
              (k, u, subst (λ i. at_lag b.result k i ≡ some u) (sym q) (stays k a.maxlead u e))
        ])
        | inr q ↦ inl (n, t, subst (λ i. at_lag b.result n i ≡ some t) (omega (arith, q)) b.here)
      ];
    }

    with_new-IsAtoms : ll ≤ int_max → IsAtoms with_new
    unfolding with_variable
    with_new-IsAtoms h = record {
      vars_map = b.vars_map;
      indices_map = emplace_key-IsMap numbers-IsOrder t n a.indices x.indices_map;
      lags_map = b.lags_map;
      known = λ k l u e. elim (is_new k l u e) [
        | inl q ↦
            subst (λ i. find_key i (emplace_key t n a.indices) ≡ some k) q.2
              (find_key-emplace_key numbers-IsOrder t n a.indices free ∙ ap some q.0)
        | inr q ↦
            find_key-emplace_other numbers-IsOrder t u n a.indices (other_index k l u q)
            ∙ x.known k l u q
      ];
      single = λ k l l' u e e'. elim (is_new k l u e) [
        | inl q ↦ elim (is_new k l' u e') [
          | inl q' ↦ sym q.1 ∙ q'.1
          | inr q' ↦ absurd (other_index k l' u q' q.2)
        ]
        | inr q ↦ elim (is_new k l' u e') [
          | inl q' ↦ absurd (other_index k l u q q'.2)
          | inr q' ↦ x.single k l l' u q q'
        ]
      ];
      placed = λ k u e. elim (Bool-cases (t == u)) [
        | inl q ↦
            let place : t ≡ u = (==_iff t u).0 q in
            let name : n ≡ k = some-injective _ _ (
              sym (find_key-emplace_key numbers-IsOrder t n a.indices free)
              ∙ subst (λ i. find_key i (emplace_key t n a.indices) ≡ some k) (sym place) e) in
            (ll, subst (λ i. at_lag b.result i ll ≡ some u) name (b.here ∙ ap some place))
        | inr q ↦
            let old =
              sym (find_key-emplace_other numbers-IsOrder t u n a.indices (λ p. ground arith))
              ∙ e in
            let (l, f) = x.placed k u old in (l, stays k l u f)
      ];
      counted = omega (arith, x.counted, length-emplace_key numbers-IsOrder t n a.indices free);
      span = with_new-IsSpan h;
    }

  -- In consistent tables, where the tree index is not taken and the variable has no index at the lag, which
  -- is an `int`, `assign_variable` leaves consistent tables: the variable has the index at that lag, and
  -- every other variable and lag has the index that it had.
  pub assign_variable-IsAtoms :
      (a : DynamicAtoms N) (n : N) (ll t : ℕ)
      → IsAtoms a
      → ll ≤ int_max
      → find_key t a.indices ≡ none
      → index_of a n ll ≡ none
      → (a' : DynamicAtoms N) × (assign_variable a n ll t ≡ ok a')
        × IsAtoms a'
        × (index_of a' n ll ≡ some t)
        × ((k : N) (l : ℕ) → (n ≢ k) ⊎ (ll ≢ l) → index_of a' k l ≡ index_of a k l)
  unfolding assign_variable with_variable
  assign_variable-IsAtoms a n ll t x h e f =
      let b = add_lag-Added w a.vars n ll t x.vars_map x.lags_map f in
      (
        with_new a x n ll t e f b,
        rw (assign_variable, e) (rw b.returns refl),
        with_new-IsAtoms a x n ll t e f b h,
        b.here,
        b.others,
      )

  -- In consistent tables `assign_variable` raises no exception exactly where the tree index is not taken and
  -- the variable has no index at the lag.
  assign_variable_iff :
      (a : DynamicAtoms N) (n : N) (ll t : ℕ)
      → IsAtoms a
      → ((a' : DynamicAtoms N) × (assign_variable a n ll t ≡ ok a'))
        ↔ ((find_key t a.indices ≡ none) × (index_of a n ll ≡ none))
  unfolding assign_variable
  assign_variable_iff a n ll t x = (
    λ r. elim (Option-cases (find_key t a.indices)) [
      | inl e ↦ elim (Option-cases (index_of a n ll)) [
        | inl f ↦ (e, f)
        | inr (u, f) ↦ absurd (cc (rw (taken w a n ll t u f) at rw (assign_variable, e) at r.1))
      ]
      | inr (k, e) ↦ absurd (cc (rw (assign_variable, e) at r.1))
    ],
    λ q.
        let b = add_lag-Added w a.vars n ll t x.vars_map x.lags_map q.1 in
        (with_variable a b.result n ll t, rw (assign_variable, q.0) (rw b.returns refl)),
  )
