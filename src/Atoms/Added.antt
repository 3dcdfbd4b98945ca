-- ===== src/Atoms/Added.antt =====
-- A new lag in the map of the variables of parser/cc/dynamic_atoms.cc.
use dynare.Base.{
  ℕ, ◌≡◌, ◌≢◌, ◌⊎◌, inl, inr, refl, sym, ◌∙◌, subst, List, [], none, some, ok, err, Error,
  Option-cases, Bool-cases,
}
use mathlib.Core.Option.{some-injective}
use dynare.Atoms.Map.{
  Order, IsOrder, find_key, emplace_key, put_key, IsMap, numbers, numbers-IsOrder, same_key,
}
use dynare.Atoms.Entries.{
  find_key-emplace_key, find_key-emplace_other, find_key-put_key, find_key-put_other,
  emplace_key-IsMap, put_key-IsMap, same_iff,
}
use dynare.Atoms.Dynamic.{DynamicAtoms, at_lag, index_of, Lagmap, add_lag}

module _ {N : Type 0} ⦃o : Order N⦄ (w : IsOrder N) where
  abbrev pub LagMaps : List (N × Lagmap) → Type 0
  LagMaps v = (k : N) (m : Lagmap) → find_key k v ≡ some m → IsMap m × (m ≢ [])

  module _ (vars : List (N × Lagmap)) where
    pub at_lag-some :
        (n : N) (m : Lagmap) → find_key n vars ≡ some m → (l : ℕ) → at_lag vars n l ≡ find_key l m
    unfolding at_lag
    at_lag-some n m e l = rw (at_lag, e) refl

    pub at_lag-none : (n : N) → find_key n vars ≡ none → (l : ℕ) → at_lag vars n l ≡ none
    unfolding at_lag
    at_lag-none n e l = rw (at_lag, e) refl

    pub at_lag-same :
        (v : List (N × Lagmap)) (k : N)
        → find_key k v ≡ find_key k vars
        → (l : ℕ) → at_lag v k l ≡ at_lag vars k l
    unfolding at_lag
    at_lag-same v k e l = rw (at_lag, e) refl

  pub not_empty : (m : Lagmap) (l t : ℕ) → find_key l m ≡ some t → m ≢ []
  unfolding find_key
  not_empty m l t e q = cc (subst (λ i. find_key l i ≡ some t) q e)

  -- The maps of the lags of the other names stay.
  pub changed_LagMaps :
      (vars v : List (N × Lagmap)) (n : N) (m : Lagmap)
      → LagMaps vars
      → find_key n v ≡ some m
      → IsMap m
      → m ≢ []
      → ((k : N) → n ≢ k → find_key k v ≡ find_key k vars)
      → LagMaps v
  changed_LagMaps vars v n m h e x ne other k m' f = elim (Bool-cases (same_key n k)) [
    | inl q ↦
        let place : n ≡ k = (same_iff w n k).0 q in
        let equal : m ≡ m' =
          some-injective _ _ (sym e ∙ subst (λ i. find_key i v ≡ some m') (sym place) f) in
        subst (λ i. IsMap i × (i ≢ [])) equal (x, ne)
    | inr q ↦ h k m' (sym (other k (λ p. cc ((same_iff w n k).1 p, q))) ∙ f)
  ]

  -- So do the reads of other names and other lags.
  pub others_at :
      (vars v : List (N × Lagmap)) (n : N) (ll : ℕ) (m : Lagmap)
      → find_key n v ≡ some m
      → ((l : ℕ) → ll ≢ l → find_key l m ≡ at_lag vars n l)
      → ((k : N) → n ≢ k → find_key k v ≡ find_key k vars)
      → (k : N) (l : ℕ) → (n ≢ k) ⊎ (ll ≢ l)
      → at_lag v k l ≡ at_lag vars k l
  others_at vars v n ll m e lags other k l (inl ne) = at_lag-same vars v k (other k ne) l
  others_at vars v n ll m e lags other k l (inr ne) = elim (Bool-cases (same_key n k)) [
    | inl q ↦
        subst (λ i. at_lag v i l ≡ at_lag vars i l) ((same_iff w n k).0 q)
          (at_lag-some v n m e l ∙ lags l ne)
    | inr q ↦ at_lag-same vars v k (other k (λ p. cc ((same_iff w n k).1 p, q))) l
  ]

  -- A map of variables with one more entry.
  pub record Added (vars : List (N × Lagmap)) (n : N) (ll t : ℕ) : Type 0 where
    pub result : List (N × Lagmap)
    pub returns : add_lag vars n ll t ≡ ok result
    pub vars_map : IsMap result
    pub lags_map : LagMaps result
    pub here : at_lag result n ll ≡ some t
    pub others : (k : N) (l : ℕ) → (n ≢ k) ⊎ (ll ≢ l) → at_lag result k l ≡ at_lag vars k l

  pub add_lag-Added :
      (vars : List (N × Lagmap)) (n : N) (ll t : ℕ)
      → IsMap vars
      → LagMaps vars
      → at_lag vars n ll ≡ none
      → Added vars n ll t
  unfolding find_key at_lag
  add_lag-Added vars n ll t x h e = elim (Option-cases (find_key n vars)) [
    | inl f ↦
        let m = emplace_key ll t [] in
        let v = emplace_key n m vars in
        let found : find_key n v ≡ some m = find_key-emplace_key w n m vars f in
        let inside : find_key ll m ≡ some t = find_key-emplace_key numbers-IsOrder ll t [] (refl) in
        let other : (k : N) → n ≢ k → find_key k v ≡ find_key k vars =
          λ k ne. find_key-emplace_other w n k m vars ne in
        record {
          result = v;
          returns = unfold add_lag in rw (add_lag, f) refl;
          vars_map = emplace_key-IsMap w n m vars x;
          lags_map =
              changed_LagMaps vars v n m h found (emplace_key-IsMap numbers-IsOrder ll t [] tt)
                (not_empty m ll t inside) other;
          here = at_lag-some v n m found ll ∙ inside;
          others =
              others_at vars v n ll m found
                (λ l ne.
                  find_key-emplace_other numbers-IsOrder ll l t [] ne
                  ∙ sym (at_lag-none vars n f l))
                other;
        }
    | inr (m0, f) ↦
        let m = emplace_key ll t m0 in
        let v = put_key n m vars in
        let found : find_key n v ≡ some m = find_key-put_key w n m m0 vars f in
        let fresh : find_key ll m0 ≡ none = sym (at_lag-some vars n m0 f ll) ∙ e in
        let inside : find_key ll m ≡ some t = find_key-emplace_key numbers-IsOrder ll t m0 fresh in
        let other : (k : N) → n ≢ k → find_key k v ≡ find_key k vars =
          λ k ne. find_key-put_other w n k m vars ne in
        record {
          result = v;
          returns = unfold add_lag in rw (add_lag, f) (rw fresh refl);
          vars_map = put_key-IsMap w n m vars x;
          lags_map =
              changed_LagMaps vars v n m h found
                (emplace_key-IsMap numbers-IsOrder ll t m0 (h n m0 f).0) (not_empty m ll t inside)
                other;
          here = at_lag-some v n m found ll ∙ inside;
          others =
              others_at vars v n ll m found
                (λ l ne.
                  find_key-emplace_other numbers-IsOrder ll l t m0 ne
                  ∙ sym (at_lag-some vars n m0 f l))
                other;
        }
  ]

  pub taken :
      (a : DynamicAtoms N) (n : N) (ll t u : ℕ)
      → index_of a n ll ≡ some u
      → add_lag a.vars n ll t ≡ err Error.not_assignable
  unfolding add_lag at_lag
  taken a n ll t u e = elim (Option-cases (find_key n a.vars)) [
    | inl f ↦ cc (at_lag-none a.vars n f ll)
    | inr (m, f) ↦
        let g : find_key ll m ≡ some u = sym (at_lag-some a.vars n m f ll) ∙ e in
        rw (add_lag, f) (rw g refl)
  ]
