-- ===== src/Atoms/Dynamic.antt =====
-- The classes NameStorage and DynamicAtoms of parser/cc/dynamic_atoms.hh and dynamic_atoms.cc. A name is a
-- value of an ordered type. A lag is its distance from the least `int`, so that the order is that of the
-- numbers.
use dynare.Base.{
  ℕ, ◌+◌, ◌-◌, List, [], ◌∷◌, ◌++◌, Option, none, some, Bool, true, false, Result, ok, err, Error,
  ◌>>=◌, ◌==◌, ◌||◌, if◌then◌else◌, min, max, map,
}
use dynare.Atoms.Map.{Order, numbers, find_key, emplace_key, put_key, erase_key, same_key}

-- numeric_limits<int>::min() and ::max(), and the lag 0.
abbrev pub int_min : ℕ
int_min = 0

abbrev pub int_max : ℕ
int_max = 4294967295

abbrev pub this_period : ℕ
this_period = 2147483648

-- `Tlagmap`: the tree index of each lag.
abbrev pub Lagmap : Type 0
Lagmap = List (ℕ × ℕ)

pub record DynamicAtoms (N : Type 0) : Type 0 where
  pub name_store : List N
  pub vars : List (N × Lagmap)
  pub indices : List (ℕ × N)
  pub nv : ℕ
  pub minlag : ℕ
  pub maxlead : ℕ

-- The constructor.
abbrev pub no_atoms : {N : Type 0} → DynamicAtoms N
no_atoms = record {
  name_store = [];
  vars = [];
  indices = [];
  nv = 0;
  minlag = int_max;
  maxlead = int_min;
}

-- The loops of `update_minmaxll`, over the lags of a name and over the names.
unfoldable pub span_lags : Lagmap → ℕ × ℕ → ℕ × ℕ
span_lags [] s = s
span_lags ((ll, t) ∷ lmap) (lag, lead) = span_lags lmap (min ll lag, max ll lead)

-- The loop of `lead`.
unfoldable pub lag_of : ℕ → Lagmap → Result ℕ
lag_of t [] = err Error.not_found
lag_of t ((ll, u) ∷ lmap) = let rest = lag_of t lmap in if u == t then ok ll else rest

unfoldable pub lag_indices : Lagmap → List ℕ
lag_indices lmap = map (λ e. e.1) lmap

-- The first and the last key of a map that is not empty.
unfoldable pub last_lag : ℕ → Lagmap → ℕ
last_lag ll [] = ll
last_lag ll ((ll', t) ∷ lmap) = last_lag ll' lmap

-- The lead and the lag; of no variable, the least and the largest `int`.
unfoldable pub span_of : Lagmap → Result (ℕ × ℕ)
span_of [] = err Error.out_of_range
span_of ((ll, t) ∷ lmap) = ok (last_lag ll lmap, ll)

module _ {N : Type 0} ⦃o : Order N⦄ where
  -- NameStorage: the set has the names of the vector.
  unfoldable pub query : N → List N → Bool
  query name [] = false
  query name (n ∷ s) = same_key n name || query name s

  unfoldable pub insert_name : N → List N → List N
  insert_name name s = if query name s then s else s ++ name ∷ []

  -- A tree index, or none for -1.
  unfoldable pub at_lag : List (N × Lagmap) → N → ℕ → Option ℕ
  at_lag vars name ll = elim (find_key name vars) [ some lmap ↦ find_key ll lmap | none ↦ none ]

  abbrev pub index_of : DynamicAtoms N → N → ℕ → Option ℕ
  index_of a = at_lag a.vars

  -- The map of the variables with a new one.
  unfoldable pub add_lag : List (N × Lagmap) → N → ℕ → ℕ → Result (List (N × Lagmap))
  add_lag vars varname ll t = elim (find_key varname vars) [
    | some lmap ↦ elim (find_key ll lmap) [
      | some other ↦ err Error.not_assignable
      | none ↦ ok (put_key varname (emplace_key ll t lmap) vars)
    ]
    | none ↦ ok (emplace_key varname (emplace_key ll t []) vars)
  ]

  unfoldable pub with_variable : DynamicAtoms N → List (N × Lagmap) → N → ℕ → ℕ → DynamicAtoms N
  with_variable a vars varname ll t = record a {
    vars = vars;
    indices = emplace_key t varname a.indices;
    nv = a.nv + 1;
    minlag = min ll a.minlag;
    maxlead = max ll a.maxlead;
  }

  unfoldable pub assign_variable : DynamicAtoms N → N → ℕ → ℕ → Result (DynamicAtoms N)
  assign_variable a varname ll t = elim (find_key t a.indices) [
    | some name ↦ err Error.wrong_tree_index
    | none ↦ do vars ← add_lag a.vars varname ll t; ok (with_variable a vars varname ll t)
  ]

  unfoldable pub span_vars : List (N × Lagmap) → ℕ × ℕ → ℕ × ℕ
  span_vars [] s = s
  span_vars ((name, lmap) ∷ vars) s = span_vars vars (span_lags lmap s)

  unfoldable pub update_minmaxll : DynamicAtoms N → DynamicAtoms N
  update_minmaxll a =
      let s = span_vars a.vars (int_max, int_min) in record a { minlag = s.0; maxlead = s.1 }

  -- The map of the variables without a lag of a name; a map of lags that becomes empty is erased.
  unfoldable pub remove_lag : List (N × Lagmap) → N → Lagmap → List (N × Lagmap)
  remove_lag vars varname [] = erase_key varname vars
  remove_lag vars varname (e ∷ lmap) = put_key varname (e ∷ lmap) vars

  unfoldable pub without_variable : DynamicAtoms N → N → Lagmap → ℕ → ℕ → DynamicAtoms N
  without_variable a varname lmap ll t =
      let a' = record a {
        vars = remove_lag a.vars varname (erase_key ll lmap);
        indices = erase_key t a.indices;
        nv = a.nv - 1;
      } in
      if ll == a.minlag || ll == a.maxlead then update_minmaxll a' else a'

  unfoldable pub unassign_variable : DynamicAtoms N → N → ℕ → ℕ → Result (DynamicAtoms N)
  unassign_variable a varname ll t = elim (find_key varname a.vars) [
    | none ↦ err Error.not_found
    | some lmap ↦ elim (find_key ll lmap) [
      | none ↦ err Error.not_assigned
      | some u ↦
          if u == t then ok (without_variable a varname lmap ll t) else err Error.wrong_tree_index
    ]
  ]

  unfoldable pub is_named_atom : DynamicAtoms N → ℕ → Bool
  is_named_atom a t = elim (find_key t a.indices) [ some name ↦ true | none ↦ false ]

  unfoldable pub is_referenced : DynamicAtoms N → N → Bool
  is_referenced a name = elim (find_key name a.vars) [ some lmap ↦ true | none ↦ false ]

  unfoldable pub lagmap : DynamicAtoms N → N → Result Lagmap
  lagmap a name = elim (find_key name a.vars) [ some lmap ↦ ok lmap | none ↦ err Error.not_found ]

  unfoldable pub atom_name : DynamicAtoms N → ℕ → Result N
  atom_name a t = elim (find_key t a.indices) [ some name ↦ ok name | none ↦ err Error.not_found ]

  unfoldable pub lead : DynamicAtoms N → ℕ → Result ℕ
  lead a t = do name ← atom_name a t; lmap ← lagmap a name; lag_of t lmap

  unfoldable pub variables_of : List (N × Lagmap) → List ℕ
  variables_of [] = []
  variables_of ((name, lmap) ∷ vars) = lag_indices lmap ++ variables_of vars

  unfoldable pub variables : DynamicAtoms N → List ℕ
  variables a = variables_of a.vars

  unfoldable pub varspan : DynamicAtoms N → N → Result (ℕ × ℕ)
  varspan a name = elim (find_key name a.vars) [
    | none ↦ ok (int_min, int_max)
    | some lmap ↦ span_of lmap
  ]

  unfoldable pub varspan_at : DynamicAtoms N → ℕ → Result (ℕ × ℕ)
  varspan_at a t = elim (find_key t a.indices) [
    | none ↦ ok (int_min, int_max)
    | some name ↦ varspan a name
  ]

  unfoldable pub varspan_from : DynamicAtoms N → List N → ℕ × ℕ → Result (ℕ × ℕ)
  varspan_from a [] s = ok s
  varspan_from a (name ∷ names) (mlead, mlag) = do
    (lead', lag) ← varspan a name
    varspan_from a names (max lead' mlead, min lag mlag)

  unfoldable pub varspan_all : DynamicAtoms N → List N → Result (ℕ × ℕ)
  varspan_all a names = varspan_from a names (int_min, int_max)

  -- `assign_variable` of a string, which `parse_variable` of a subclass splits.
  unfoldable pub assign_name :
      {S : Type 0} → (S → Result (N × ℕ)) → DynamicAtoms N → S → ℕ → Result (DynamicAtoms N)
  assign_name parse_variable a string t = do
    (name, ll) ← parse_variable string
    assign_variable (record a { name_store = insert_name name a.name_store }) name ll t

  unfoldable pub check_variable :
      {S : Type 0} → (S → Result (N × ℕ)) → DynamicAtoms N → S → Result (Option ℕ)
  check_variable parse_variable a string = do
    (name, ll) ← parse_variable string
    ok (index_of a name ll)
