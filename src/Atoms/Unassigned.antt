-- ===== src/Atoms/Unassigned.antt =====
-- `unassign_variable` of parser/cc/dynamic_atoms.cc keeps the tables consistent.
use dynare.Base.{
  ℕ, ◌-◌, ◌≡◌, ◌≢◌, ◌⊎◌, ◌↔◌, inl, inr, refl, sym, ap, ◌∙◌, subst, none, some, ok, arith,
  Option-cases, Bool-cases, ◌==◌, ◌||◌, ==_iff,
}
use mathlib.Core.Option.{some-injective}
use dynare.Atoms.Map.{Order, IsOrder, find_key, erase_key, numbers, numbers-IsOrder, same_key}
use dynare.Atoms.Entries.{
  find_key-erase_key, find_key-erase_other, erase_key-IsMap, length-erase_key, same_iff,
}
use dynare.Atoms.Dynamic.{
  DynamicAtoms, at_lag, index_of, int_min, int_max, Lagmap, remove_lag, without_variable,
  unassign_variable, update_minmaxll, span_vars,
}
use dynare.Atoms.Consistent.{IsSpan, IsAtoms}
use dynare.Atoms.Added.{at_lag-some, at_lag-none}
use dynare.Atoms.Removed.{Removed, remove_lag-Removed}
use dynare.Atoms.Span.{span_vars-Covers}

module _ {N : Type 0} ⦃o : Order N⦄ (w : IsOrder N) where
  module _ (a : DynamicAtoms N) (x : IsAtoms a) (n : N) (ll t : ℕ) (m : Lagmap)
      (f : find_key n a.vars ≡ some m) (e : index_of a n ll ≡ some t) where
    -- The tables without the entry, with a given span.
    abbrev without : ℕ × ℕ → DynamicAtoms N
    without s = record a {
      vars = remove_lag a.vars n (erase_key ll m);
      indices = erase_key t a.indices;
      nv = a.nv - 1;
      minlag = s.0;
      maxlead = s.1;
    }

    removed : Removed w a.vars n ll (remove_lag a.vars n (erase_key ll m))
    removed = remove_lag-Removed w a.vars n ll m x.vars_map x.lags_map f

    -- The other entries stay, and there are no more.
    differs : (k : N) (l u : ℕ) → index_of a k l ≡ some u → t ≢ u → (n ≢ k) ⊎ (ll ≢ l)
    differs k l u g ne = elim (Bool-cases (same_key n k)) [
      | inl q ↦ inr (λ p. ne (
          some-injective _ _ (
            sym e
            ∙ subst (λ i. at_lag a.vars i ll ≡ some u) (sym ((same_iff w n k).0 q))
                (subst (λ i. at_lag a.vars k i ≡ some u) (sym p) g))))
      | inr q ↦ inl (λ p. cc ((same_iff w n k).1 p, q))
    ]

    apart : (k : N) (l : ℕ) → ((n ≡ k) × (ll ≡ l)) ⊎ ((n ≢ k) ⊎ (ll ≢ l))
    apart k l = elim (Bool-cases (same_key n k)) [
      | inl q ↦ elim (Bool-cases (ll == l)) [
        | inl p ↦ inl ((same_iff w n k).0 q, (==_iff ll l).0 p)
        | inr p ↦ inr (inr (λ p'. ground arith))
      ]
      | inr q ↦ inr (inl (λ p. cc ((same_iff w n k).1 p, q)))
    ]

    another_index : (k : N) (l u : ℕ) → index_of a k l ≡ some u → (n ≢ k) ⊎ (ll ≢ l) → t ≢ u
    another_index k l u g c q =
        let name : n ≡ k = some-injective _ _ (
          sym (x.known n ll t e)
          ∙ subst (λ i. find_key i a.indices ≡ some k) (sym q) (x.known k l u g)) in
        elim c [
          | inl ne ↦ ne name
          | inr ne ↦ ne (
              x.single n ll l t e
                (subst (λ i. index_of a i l ≡ some t) (sym name) (g ∙ ap some (sym q))))
        ]

    was :
        (k : N) (l u : ℕ)
        → at_lag (remove_lag a.vars n (erase_key ll m)) k l ≡ some u
        → (index_of a k l ≡ some u) × (t ≢ u)
    was k l u g = elim (apart k l) [
      | inl (p, q) ↦ absurd (
          cc (
            removed.gone,
            subst (λ i. at_lag (remove_lag a.vars n (erase_key ll m)) i ll ≡ some u) (sym p)
                (subst (λ i. at_lag (remove_lag a.vars n (erase_key ll m)) k i ≡ some u) (sym q) g),
          ))
      | inr c ↦ let old = sym (removed.others k l c) ∙ g in (old, another_index k l u old c)
    ]

    stays :
        (k : N) (l u : ℕ)
        → index_of a k l ≡ some u
        → (n ≢ k) ⊎ (ll ≢ l)
        → at_lag (remove_lag a.vars n (erase_key ll m)) k l ≡ some u
    stays k l u g c = removed.others k l c ∙ g

    without-IsAtoms : (s : ℕ × ℕ) → IsSpan (without s) s.0 s.1 → IsAtoms (without s)
    without-IsAtoms s span = record {
      vars_map = removed.vars_map;
      indices_map = erase_key-IsMap numbers-IsOrder t a.indices x.indices_map;
      lags_map = removed.lags_map;
      known = λ k l u g.
          let (old, ne) = was k l u g in
          find_key-erase_other numbers-IsOrder t u a.indices ne ∙ x.known k l u old;
      single = λ k l l' u g g'. x.single k l l' u (was k l u g).0 (was k l' u g').0;
      placed = λ k u g. elim (Bool-cases (t == u)) [
        | inl q ↦ absurd (
            cc (
              find_key-erase_key numbers-IsOrder t a.indices x.indices_map,
              subst (λ i. find_key i (erase_key t a.indices) ≡ some k) (sym ((==_iff t u).0 q)) g,
            ))
        | inr q ↦
            let ne : t ≢ u = (λ p. ground arith) in
            let (l, old) =
              x.placed k u (sym (find_key-erase_other numbers-IsOrder t u a.indices ne) ∙ g) in
            (l, stays k l u old (differs k l u old ne))
      ];
      counted =
          omega
            (arith, x.counted, length-erase_key numbers-IsOrder t n a.indices (x.known n ll t e));
      span = span;
    }

    -- After `update_minmaxll`.
    updated-IsSpan :
        let s = span_vars (remove_lag a.vars n (erase_key ll m)) (int_max, int_min) in
        IsSpan (without s) s.0 s.1
    updated-IsSpan =
        let c =
          span_vars-Covers w (remove_lag a.vars n (erase_key ll m)) (int_max, int_min)
            removed.vars_map removed.lags_map in
        record { within = λ k l u g. c.below l (k, u, g); least = c.least; greatest = c.greatest }

    -- Where the lag is neither the least nor the greatest.
    kept-IsSpan :
        ll ≢ a.minlag → ll ≢ a.maxlead → IsSpan (without (a.minlag, a.maxlead)) a.minlag a.maxlead
    kept-IsSpan ne ne' = record {
      within = λ k l u g. x.span.within k l u (was k l u g).0;
      least = elim x.span.least [
        | inl (k, u, g) ↦ inl (k, u, stays k a.minlag u g (inr ne))
        | inr q ↦ inr q
      ];
      greatest = elim x.span.greatest [
        | inl (k, u, g) ↦ inl (k, u, stays k a.maxlead u g (inr ne'))
        | inr q ↦ inr q
      ];
    }

    without_variable-IsAtoms : IsAtoms (without_variable a n m ll t)
    unfolding without_variable update_minmaxll
    without_variable-IsAtoms = elim (Bool-cases (ll == a.minlag || ll == a.maxlead)) [
      | inl q ↦
          subst IsAtoms (sym (rw (without_variable, q) refl)) (without-IsAtoms _ updated-IsSpan)
      | inr q ↦ subst IsAtoms (sym (rw (without_variable, q) refl)) (
          without-IsAtoms (a.minlag, a.maxlead)
            (kept-IsSpan (λ p. ground arith) (λ p. ground arith)))
    ]

    without_variable-vars :
        (without_variable a n m ll t).vars ≡ remove_lag a.vars n (erase_key ll m)
    unfolding without_variable update_minmaxll
    without_variable-vars = elim (Bool-cases (ll == a.minlag || ll == a.maxlead)) [
      | inl q ↦ rw (without_variable, q) refl
      | inr q ↦ rw (without_variable, q) refl
    ]

    without_variable-gone : index_of (without_variable a n m ll t) n ll ≡ none
    without_variable-gone = ap (λ v. at_lag v n ll) without_variable-vars ∙ removed.gone

    without_variable-others :
        (k : N) (l : ℕ)
        → (n ≢ k) ⊎ (ll ≢ l)
        → index_of (without_variable a n m ll t) k l ≡ index_of a k l
    without_variable-others k l c =
        ap (λ v. at_lag v k l) without_variable-vars ∙ removed.others k l c

  -- The map of the lags of a variable that has an index.
  pub lags_of :
      (a : DynamicAtoms N) (n : N) (ll t : ℕ)
      → index_of a n ll ≡ some t
      → (m : Lagmap) × (find_key n a.vars ≡ some m) × (find_key ll m ≡ some t)
  lags_of a n ll t e = elim (Option-cases (find_key n a.vars)) [
    | inl f ↦ absurd (cc (at_lag-none w a.vars n f ll, e))
    | inr (m, f) ↦ (m, f, sym (at_lag-some w a.vars n m f ll) ∙ e)
  ]

  -- In consistent tables, where the variable has the index at the lag, `unassign_variable` leaves consistent
  -- tables: the variable has no index at that lag, and every other variable and lag has the index that it
  -- had.
  pub unassign_variable-IsAtoms :
      (a : DynamicAtoms N) (n : N) (ll t : ℕ)
      → IsAtoms a
      → index_of a n ll ≡ some t
      → (a' : DynamicAtoms N) × (unassign_variable a n ll t ≡ ok a')
        × IsAtoms a'
        × (index_of a' n ll ≡ none)
        × ((k : N) (l : ℕ) → (n ≢ k) ⊎ (ll ≢ l) → index_of a' k l ≡ index_of a k l)
  unfolding unassign_variable
  unassign_variable-IsAtoms a n ll t x e =
      let (m, f, g) = lags_of a n ll t e in
      (
        without_variable a n m ll t,
        rw (unassign_variable, f) (rw g (rw ((==_iff t t).1 refl) refl)),
        without_variable-IsAtoms a x n ll t m f e,
        without_variable-gone a x n ll t m f e,
        without_variable-others a x n ll t m f e,
      )

  -- `unassign_variable` raises no exception exactly where the variable has the index at the lag.
  unassign_variable_iff :
      (a : DynamicAtoms N) (n : N) (ll t : ℕ)
      → ((a' : DynamicAtoms N) × (unassign_variable a n ll t ≡ ok a')) ↔ (index_of a n ll ≡ some t)
  unfolding unassign_variable
  unassign_variable_iff a n ll t = (
    λ r. elim (Option-cases (find_key n a.vars)) [
      | inl f ↦ absurd (cc (rw (unassign_variable, f) at r.1))
      | inr (m, f) ↦ elim (Option-cases (find_key ll m)) [
        | inl g ↦ absurd (cc (rw g at rw (unassign_variable, f) at r.1))
        | inr (u, g) ↦ elim (Bool-cases (u == t)) [
          | inl q ↦ at_lag-some w a.vars n m f ll ∙ g ∙ ap some ((==_iff u t).0 q)
          | inr q ↦ absurd (cc (rw q at rw g at rw (unassign_variable, f) at r.1))
        ]
      ]
    ],
    λ e.
        let (m, f, g) = lags_of a n ll t e in
        (
          without_variable a n m ll t,
          rw (unassign_variable, f) (rw g (rw ((==_iff t t).1 refl) refl)),
        ),
  )
