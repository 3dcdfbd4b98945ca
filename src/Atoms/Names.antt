-- ===== src/Atoms/Names.antt =====
-- Names, lags and tree indices lead to each other in the tables of parser/cc/dynamic_atoms.cc.
use dynare.Base.{
  ℕ, ◌≤◌, ◌≡◌, ◌≢◌, ◌⊎◌, inl, inr, refl, sym, ap, ◌∙◌, subst, [], ◌∷◌, none, some, ok, arith,
  Bool-cases, ◌==◌, ==_iff, ◌>>=◌,
}
use dynare.Atoms.Map.{Order, IsOrder, find_key, IsMap, numbers, numbers-IsOrder, same_key}
use dynare.Atoms.Entries.{find_cases, find_here, find_there, Above-absent, same_iff}
use dynare.Atoms.Dynamic.{
  DynamicAtoms, index_of, int_max, Lagmap, assign_variable, unassign_variable, atom_name, lagmap,
  lead, lag_of,
}
use dynare.Atoms.Consistent.{IsAtoms}
use dynare.Atoms.Added.{at_lag-some}
use dynare.Atoms.Assigned.{assign_variable-IsAtoms}
use dynare.Atoms.Unassigned.{unassign_variable-IsAtoms, lags_of}

-- The loop of `lead` finds the lag, where the index has no other one.
lag_of_lem :
    (t ll : ℕ) (m : Lagmap)
    → IsMap m
    → find_key ll m ≡ some t
    → ((l : ℕ) → find_key l m ≡ some t → l ≡ ll)
    → lag_of t m ≡ ok ll
unfolding lag_of
lag_of_lem t ll [] x e h = unfold find_key in cc
lag_of_lem t ll ((j, u) ∷ m) x e h =
    let rest : find_key ll m ≡ some t → lag_of t m ≡ ok ll = λ f. lag_of_lem t ll m x.1 f (λ l g.
      h l (
        find_there numbers-IsOrder j l u m (λ q.
          cc (Above-absent numbers-IsOrder j m x.0, subst (λ i. find_key i m ≡ some t) (sym q) g))
        ∙ g)) in
    elim (Bool-cases (u == t)) [
      | inl q ↦
          let here : find_key j ((j, u) ∷ m) ≡ some t =
            find_here numbers-IsOrder j u m ∙ ap some ((==_iff u t).0 q) in
          rw (lag_of, q) (ap ok (h j here))
      | inr q ↦
          rw (lag_of, q)
            (elim (find_cases numbers-IsOrder j ll t u m e) [
              | inl (p, p') ↦ absurd (cc ((==_iff u t).1 p', q))
              | inr (p, f) ↦ rest f
            ])
    ]

module _ {N : Type 0} ⦃o : Order N⦄ (w : IsOrder N) where
  -- In consistent tables, where a variable has an index at a lag, `name` and `lead` of the index are the
  -- variable and the lag.
  pub lead-index_of :
      (a : DynamicAtoms N) (n : N) (ll t : ℕ)
      → IsAtoms a
      → index_of a n ll ≡ some t
      → (atom_name a t ≡ ok n) × (lead a t ≡ ok ll)
  unfolding atom_name lead lagmap
  lead-index_of a n ll t x e =
      let (m, f, g) = lags_of w a n ll t e in
      let k = x.known n ll t e in
      let l =
        lag_of_lem t ll m (x.lags_map n m f).0 g
          (λ l' g'. x.single n l' ll t (at_lag-some w a.vars n m f l' ∙ g') e) in
      let name : atom_name a t ≡ ok n = rw (atom_name, k) refl in
      (name, rw (lead, name) (rw (lagmap, f) l))

  -- In consistent tables, where the tree index is not taken and the variable has no index at the lag, which
  -- is an `int`, `unassign_variable` after `assign_variable` with the same arguments leaves every variable
  -- and lag with the index that it had.
  pub unassign_variable-assign_variable :
      (a : DynamicAtoms N) (n : N) (ll t : ℕ)
      → IsAtoms a
      → ll ≤ int_max
      → find_key t a.indices ≡ none
      → index_of a n ll ≡ none
      → (a' : DynamicAtoms N) × ((assign_variable a n ll t >>= λ b. unassign_variable b n ll t)
          ≡ ok a')
        × IsAtoms a'
        × ((k : N) (l : ℕ) → index_of a' k l ≡ index_of a k l)
  unassign_variable-assign_variable a n ll t x h e f =
      let (b, r, y, here, others) = assign_variable-IsAtoms w a n ll t x h e f in
      let (c, r', z, gone, others') = unassign_variable-IsAtoms w b n ll t y here in
      (
        c,
        rw (r, ◌>>=◌) r',
        z,
        λ k l. elim (either_apart k l) [
          | inl (p, q) ↦
              subst (λ i. index_of c i l ≡ index_of a i l) p
                (subst (λ i. index_of c n i ≡ index_of a n i) q (gone ∙ sym f))
          | inr d ↦ others' k l d ∙ others k l d
        ],
      )
    where
      either_apart : (k : N) (l : ℕ) → ((n ≡ k) × (ll ≡ l)) ⊎ ((n ≢ k) ⊎ (ll ≢ l))
      either_apart k l = elim (Bool-cases (same_key n k)) [
        | inl q ↦ elim (Bool-cases (ll == l)) [
          | inl p ↦ inl ((same_iff w n k).0 q, (==_iff ll l).0 p)
          | inr p ↦ inr (inr (λ p'. ground arith))
        ]
        | inr q ↦ inr (inl (λ p. cc ((same_iff w n k).1 p, q)))
      ]
