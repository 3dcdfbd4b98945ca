-- ===== src/Atoms/Constants.antt =====
-- The class Constants of parser/cc/dynamic_atoms.cc. A value of `double` is a value of an ordered type.
use dynare.Base.{
  ℕ, List, [], ◌∷◌, Option, none, some, Bool, true, false, Result, ok, err, Error, ltb, ◌||◌,
}
use dynare.Tree.{M, ◌>>=◌, return, add_nulary, num_constants}
use dynare.Atoms.Map.{Order, numbers, find_key, emplace_key}

pub record Constants (V : Type 0) : Type 0 where
  pub cmap : List (ℕ × V)
  pub cinvmap : List (V × ℕ)

module _ {V : Type 0} ⦃o : Order V⦄ where
  unfoldable pub add_constant : ℕ → V → Constants V → Constants V
  add_constant t val c = record {
    cmap = emplace_key t val c.cmap;
    cinvmap = emplace_key val t c.cinvmap;
  }

  unfoldable pub is_constant_index : ℕ → Constants V → Bool
  is_constant_index t c =
      ltb t num_constants || elim (find_key t c.cmap) [ some val ↦ true | none ↦ false ]

  unfoldable pub get_constant_value : ℕ → Constants V → Result V
  get_constant_value t c = elim (find_key t c.cmap) [
    | some val ↦ ok val
    | none ↦ err Error.not_found
  ]

  -- `check`, with `std::stod` as a parameter; none is -1.
  unfoldable pub check_constant : {S : Type 0} → (S → V) → S → Constants V → Option ℕ
  check_constant stod str c = find_key (stod str) c.cinvmap

  -- The loop of `import_constants` over the constants of the other object.
  unfoldable pub import_from :
      List (ℕ × V) → Constants V → List (ℕ × ℕ) → M (Constants V × List (ℕ × ℕ))
  import_from [] c tmap = return (c, tmap)
  import_from ((told, val) ∷ m) c tmap = do
    tnew ← add_nulary
    import_from m (add_constant tnew val c) (emplace_key told tnew tmap)

  unfoldable pub import_constants :
      Constants V → Constants V → List (ℕ × ℕ) → M (Constants V × List (ℕ × ℕ))
  import_constants other c tmap = import_from other.cmap c tmap
