-- ===== src/Atoms/Span.antt =====
-- The loops of `update_minmaxll` in parser/cc/dynamic_atoms.cc find the least and the greatest lag.
use dynare.Base.{
  ℕ, ◌≤◌, ◌≡◌, ◌≢◌, ◌⊎◌, inl, inr, ◌↔◌, refl, sym, ◌∙◌, subst, List, [], ◌∷◌, none, some, min, max,
  arith, Bool-cases,
}
use dynare.Atoms.Map.{Order, IsOrder, find_key, IsMap, Above, numbers, numbers-IsOrder, same_key}
use dynare.Atoms.Entries.{find_cases, find_here, find_there, Above-absent, same_iff}
use dynare.Atoms.Dynamic.{at_lag, Lagmap, span_lags, span_vars}
use dynare.Atoms.Added.{LagMaps, at_lag-some, at_lag-none, at_lag-same}
use dynare.Atoms.Assigned.{min_either, max_either}

-- A span that covers the old one and the keys `P`, and no more.
pub record Covers (P : ℕ → Type 0) (old new : ℕ × ℕ) : Type 0 where
  pub below : (l : ℕ) → P l → (new.0 ≤ l) × (l ≤ new.1)
  pub wider : (new.0 ≤ old.0) × (old.1 ≤ new.1)
  pub least : P new.0 ⊎ (new.0 ≡ old.0)
  pub greatest : P new.1 ⊎ (new.1 ≡ old.1)

abbrev Lag : Lagmap → ℕ → Type 0
Lag m l = (t : ℕ) × (find_key l m ≡ some t)

-- One span after another covers both.
Covers-both :
    {P Q R : ℕ → Type 0} {s s' s'' : ℕ × ℕ}
    → ((l : ℕ) → R l ↔ (P l ⊎ Q l))
    → Covers P s s'
    → Covers Q s' s''
    → Covers R s s''
Covers-both f c d = record {
  below = λ l p. elim ((f l).0 p) [
    | inl q ↦ let r = c.below l q in (omega (arith, r.0, d.wider.0), omega (arith, r.1, d.wider.1))
    | inr q ↦ d.below l q
  ];
  wider = (omega (arith, c.wider.0, d.wider.0), omega (arith, c.wider.1, d.wider.1));
  least = elim d.least [
    | inl q ↦ inl ((f _).1 (inr q))
    | inr e ↦ elim c.least [ inl q ↦ inl ((f _).1 (inl (rw e q))) | inr e' ↦ inr (e ∙ e') ]
  ];
  greatest = elim d.greatest [
    | inl q ↦ inl ((f _).1 (inr q))
    | inr e ↦ elim c.greatest [ inl q ↦ inl ((f _).1 (inl (rw e q))) | inr e' ↦ inr (e ∙ e') ]
  ];
}

one-Covers : (ll lag lead : ℕ) → Covers (λ l. ll ≡ l) (lag, lead) (min ll lag, max ll lead)
one-Covers ll lag lead = record {
  below = λ l e. (omega (arith, e), omega (arith, e));
  wider = (omega arith, omega arith);
  least = elim (min_either ll lag) [ inl e ↦ inl (sym e) | inr e ↦ inr e ];
  greatest = elim (max_either ll lead) [ inl e ↦ inl (sym e) | inr e ↦ inr e ];
}

Lag-iff :
    (ll t : ℕ) (m : Lagmap) → Above ll m → (l : ℕ) → Lag ((ll, t) ∷ m) l ↔ ((ll ≡ l) ⊎ Lag m l)
Lag-iff ll t m h l = (
  λ (u, e). elim (find_cases numbers-IsOrder ll l u t m e) [
    | inl q ↦ inl q.0
    | inr q ↦ inr (u, q.1)
  ],
  λ c. elim c [
    | inl q ↦
        (t, subst (λ i. find_key i ((ll, t) ∷ m) ≡ some t) q (find_here numbers-IsOrder ll t m))
    | inr (u, e) ↦
        let ne : ll ≢ l = (λ q.
          cc (Above-absent numbers-IsOrder ll m h, subst (λ i. find_key i m ≡ some u) (sym q) e)) in
        (u, find_there numbers-IsOrder ll l t m ne ∙ e)
  ],
)

span_lags-Covers : (m : Lagmap) (s : ℕ × ℕ) → IsMap m → Covers (Lag m) s (span_lags m s)
unfolding span_lags find_key
span_lags-Covers [] s h = record {
  below = λ l p. absurd (cc p.1);
  wider = (omega arith, omega arith);
  least = inr refl;
  greatest = inr refl;
}
span_lags-Covers ((ll, t) ∷ m) (lag, lead) h =
    Covers-both (Lag-iff ll t m h.0) (one-Covers ll lag lead)
      (span_lags-Covers m (min ll lag, max ll lead) h.1)

module _ {N : Type 0} ⦃o : Order N⦄ (w : IsOrder N) where
  -- A lag of some variable.
  abbrev pub AtLag : List (N × Lagmap) → ℕ → Type 0
  AtLag vars l = (n : N) × (t : ℕ) × (at_lag vars n l ≡ some t)

  AtLag-iff :
      (n : N) (m : Lagmap) (vars : List (N × Lagmap))
      → Above n vars
      → (l : ℕ) → AtLag ((n, m) ∷ vars) l ↔ (Lag m l ⊎ AtLag vars l)
  AtLag-iff n m vars h l = (
    λ (k, u, e). elim (Bool-cases (same_key n k)) [
      | inl q ↦
          let e' =
            subst (λ i. at_lag ((n, m) ∷ vars) i l ≡ some u) (sym ((same_iff w n k).0 q)) e in
          inl (u, sym (head_lag l) ∙ e')
      | inr q ↦ inr (k, u, sym (tail_lag k l (λ p. cc ((same_iff w n k).1 p, q))) ∙ e)
    ],
    λ c. elim c [
      | inl (u, e) ↦ (n, u, head_lag l ∙ e)
      | inr (k, u, e) ↦ elim (Bool-cases (same_key n k)) [
        | inl q ↦
            let lost : find_key k vars ≡ none =
              subst (λ i. find_key i vars ≡ none) ((same_iff w n k).0 q)
                (Above-absent w n vars h) in
            absurd (cc (at_lag-none w vars k lost l, e))
        | inr q ↦ (k, u, tail_lag k l (λ p. cc ((same_iff w n k).1 p, q)) ∙ e)
      ]
    ],
  )
    where
      head_lag : (l' : ℕ) → at_lag ((n, m) ∷ vars) n l' ≡ find_key l' m
      head_lag l' = at_lag-some w ((n, m) ∷ vars) n m (find_here w n m vars) l'

      tail_lag : (k : N) (l' : ℕ) → n ≢ k → at_lag ((n, m) ∷ vars) k l' ≡ at_lag vars k l'
      tail_lag k l' ne = at_lag-same w vars ((n, m) ∷ vars) k (find_there w n k m vars ne) l'

  pub span_vars-Covers :
      (vars : List (N × Lagmap)) (s : ℕ × ℕ)
      → IsMap vars
      → LagMaps w vars
      → Covers (AtLag vars) s (span_vars vars s)
  unfolding span_vars at_lag find_key
  span_vars-Covers [] s x h = record {
    below = λ l p. absurd (cc p.2);
    wider = (omega arith, omega arith);
    least = inr refl;
    greatest = inr refl;
  }
  span_vars-Covers ((n, m) ∷ vars) s x h =
      let here = (h n m (find_here w n m vars)).0 in
      Covers-both (AtLag-iff n m vars x.0) (span_lags-Covers m s here) (
        span_vars-Covers vars (span_lags m s) x.1 (λ k m' e. h k m' (
          find_there w n k m vars
            (λ q. cc (Above-absent w n vars x.0, subst (λ i. find_key i vars ≡ some m') (sym q) e))
          ∙ e)))
