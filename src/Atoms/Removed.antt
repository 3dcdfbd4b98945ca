-- ===== src/Atoms/Removed.antt =====
-- A lag erased from the map of the variables of parser/cc/dynamic_atoms.cc.
use dynare.Base.{
  ℕ, ◌≡◌, ◌≢◌, ◌⊎◌, inl, inr, refl, sym, ◌∙◌, subst, List, [], ◌∷◌, none, some, Bool-cases,
}
use dynare.Atoms.Map.{
  Order, IsOrder, find_key, erase_key, put_key, IsMap, numbers, numbers-IsOrder, same_key,
}
use dynare.Atoms.Entries.{
  find_key-put_key, find_key-put_other, find_key-erase_key, find_key-erase_other, put_key-IsMap,
  erase_key-IsMap, same_iff,
}
use dynare.Atoms.Dynamic.{at_lag, Lagmap, remove_lag}
use dynare.Atoms.Added.{LagMaps, at_lag-some, at_lag-none, at_lag-same, changed_LagMaps, others_at}

module _ {N : Type 0} ⦃o : Order N⦄ (w : IsOrder N) where
  -- A map of variables without one entry.
  pub record Removed (vars : List (N × Lagmap)) (n : N) (ll : ℕ) (v : List (N × Lagmap))
      : Type 0 where
    pub vars_map : IsMap v
    pub lags_map : LagMaps w v
    pub gone : at_lag v n ll ≡ none
    pub others : (k : N) (l : ℕ) → (n ≢ k) ⊎ (ll ≢ l) → at_lag v k l ≡ at_lag vars k l

  module _ (vars : List (N × Lagmap)) (n : N) (ll : ℕ) (m : Lagmap) (x : IsMap vars)
      (h : LagMaps w vars) (f : find_key n vars ≡ some m) where
    -- The last lag of the name.
    erased : (l : ℕ) → ll ≢ l → find_key l (erase_key ll m) ≡ at_lag vars n l
    erased l ne = find_key-erase_other numbers-IsOrder ll l m ne ∙ sym (at_lag-some w vars n m f l)

    last-Removed : erase_key ll m ≡ [] → Removed vars n ll (erase_key n vars)
    unfolding find_key
    last-Removed e =
        let lost : find_key n (erase_key n vars) ≡ none = find_key-erase_key w n vars x in
        let other : (k : N) → n ≢ k → find_key k (erase_key n vars) ≡ find_key k vars =
          λ k ne. find_key-erase_other w n k vars ne in
        record {
          vars_map = erase_key-IsMap w n vars x;
          lags_map = λ k m' g. elim (Bool-cases (same_key n k)) [
            | inl q ↦ absurd (
                cc (
                  subst (λ i. find_key i (erase_key n vars) ≡ some m') (sym ((same_iff w n k).0 q))
                      g,
                  lost,
                ))
            | inr q ↦ h k m' (sym (other k (λ p. cc ((same_iff w n k).1 p, q))) ∙ g)
          ];
          gone = at_lag-none w (erase_key n vars) n lost ll;
          others = λ k l c. elim c [
            | inl ne ↦ at_lag-same w vars (erase_key n vars) k (other k ne) l
            | inr ne ↦ elim (Bool-cases (same_key n k)) [
              | inl q ↦
                  subst (λ i. at_lag (erase_key n vars) i l ≡ at_lag vars i l)
                    ((same_iff w n k).0 q)
                    (at_lag-none w (erase_key n vars) n lost l
                      ∙ subst (λ i. find_key l i ≡ at_lag vars n l) e (erased l ne))
              | inr q ↦
                  at_lag-same w vars (erase_key n vars) k
                    (other k (λ p. cc ((same_iff w n k).1 p, q))) l
            ]
          ];
        }

    put_key-Removed :
        (m' : Lagmap) → erase_key ll m ≡ m' → m' ≢ [] → Removed vars n ll (put_key n m' vars)
    put_key-Removed m' e ne =
        let found : find_key n (put_key n m' vars) ≡ some m' = find_key-put_key w n m' m vars f in
        let other : (k : N) → n ≢ k → find_key k (put_key n m' vars) ≡ find_key k vars =
          λ k ne'. find_key-put_other w n k m' vars ne' in
        record {
          vars_map = put_key-IsMap w n m' vars x;
          lags_map =
              changed_LagMaps w vars (put_key n m' vars) n m' h found
                (subst IsMap e (erase_key-IsMap numbers-IsOrder ll m (h n m f).0)) ne other;
          gone =
              at_lag-some w (put_key n m' vars) n m' found ll
              ∙ subst (λ i. find_key ll i ≡ none) e
                  (find_key-erase_key numbers-IsOrder ll m (h n m f).0);
          others =
              others_at w vars (put_key n m' vars) n ll m' found
                (λ l ne'. subst (λ i. find_key l i ≡ at_lag vars n l) e (erased l ne')) other;
        }

    by_rest : (m' : Lagmap) → erase_key ll m ≡ m' → Removed vars n ll (remove_lag vars n m')
    unfolding remove_lag
    by_rest [] e = last-Removed e
    by_rest (p ∷ m') e = put_key-Removed (p ∷ m') e (λ q. cc q)

    pub remove_lag-Removed : Removed vars n ll (remove_lag vars n (erase_key ll m))
    remove_lag-Removed = by_rest (erase_key ll m) refl
