-- ===== src/Atoms/Consistent.antt =====
-- The invariant of the class DynamicAtoms of parser/cc/dynamic_atoms.hh.
use dynare.Base.{ℕ, ◌≤◌, ◌≡◌, ◌≢◌, ◌⊎◌, inr, refl, [], some, length}
use dynare.Atoms.Map.{Order, find_key, IsMap, numbers}
use dynare.Atoms.Dynamic.{DynamicAtoms, no_atoms, at_lag, index_of, int_min, int_max, Lagmap}

module _ {N : Type 0} ⦃o : Order N⦄ where
  -- No lag of a variable is below the one number or above the other, and the numbers are lags of variables,
  -- or else the largest and the least `int`.
  pub record IsSpan (a : DynamicAtoms N) (lag lead : ℕ) : Type 0 where
    pub within : (n : N) (ll t : ℕ) → index_of a n ll ≡ some t → (lag ≤ ll) × (ll ≤ lead)
    pub least : ((n : N) × (t : ℕ) × (index_of a n lag ≡ some t)) ⊎ (lag ≡ int_max)
    pub greatest : ((n : N) × (t : ℕ) × (index_of a n lead ≡ some t)) ⊎ (lead ≡ int_min)

  -- The maps are ordered, and no map of lags is empty; `indices` has the names of the tree indices of the
  -- variables and no others, one lag for each; `nv` counts them; `minlag` and `maxlead` are their span.
  pub record IsAtoms (a : DynamicAtoms N) : Type 0 where
    pub vars_map : IsMap a.vars
    pub indices_map : IsMap a.indices
    pub lags_map : (n : N) (m : Lagmap) → find_key n a.vars ≡ some m → IsMap m × (m ≢ [])
    pub known : (n : N) (ll t : ℕ) → index_of a n ll ≡ some t → find_key t a.indices ≡ some n
    pub single :
        (n : N) (ll ll' t : ℕ) → index_of a n ll ≡ some t → index_of a n ll' ≡ some t → ll ≡ ll'
    pub placed :
        (n : N) (t : ℕ) → find_key t a.indices ≡ some n → (ll : ℕ) × (index_of a n ll ≡ some t)
    pub counted : a.nv ≡ length a.indices
    pub span : IsSpan a a.minlag a.maxlead

  pub no_atoms-IsAtoms : IsAtoms no_atoms
  unfolding at_lag find_key
  no_atoms-IsAtoms = record {
    vars_map = tt;
    indices_map = tt;
    lags_map = λ n m e. cc;
    known = λ n ll t e. cc;
    single = λ n ll ll' t e e'. cc;
    placed = λ n t e. absurd (cc e);
    counted = refl;
    span = record { within = λ n ll t e. absurd (cc e); least = inr refl; greatest = inr refl };
  }
