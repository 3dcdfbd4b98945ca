-- ===== src/Atoms/Tests.antt =====
-- The tables of atoms with a variable at two lags, and the theorems at them. Names are numbers.
use dynare.Base.{
  List, get_elem?, ℕ, ◌≡◌, ◌≢◌, ◌⊎◌, refl, [], ◌∷◌, none, some, ok, arith, ◌>>=◌, subst,
}
use dynare.Tree.{OperationTree, nulary, add_nulary, push}
use dynare.Tree.Invariant.{IsTree, Grows}
use dynare.Tree.Nulary.{constants_tree, constants_tree-IsTree}
use dynare.Atoms.Constants.{
  Constants, add_constant, import_from, import_constants, get_constant_value,
}
use dynare.Atoms.Imported.{import_constants-Imports}
use dynare.Atoms.Map.{find_key, emplace_key, put_key, erase_key, numbers, numbers-IsOrder}
use dynare.Atoms.Dynamic.{
  DynamicAtoms, no_atoms, at_lag, index_of, this_period, assign_variable, unassign_variable,
  add_lag, with_variable, without_variable, remove_lag, update_minmaxll, span_lags, span_vars,
  atom_name, lead, varspan, span_of, last_lag, variables, variables_of, lag_indices,
}
use dynare.Atoms.Consistent.{IsAtoms, no_atoms-IsAtoms}
use dynare.Atoms.Assigned.{assign_variable-IsAtoms}
use dynare.Atoms.Unassigned.{unassign_variable-IsAtoms}
use dynare.Atoms.Names.{lead-index_of, unassign_variable-assign_variable}

abbrev last_period : ℕ
last_period = 2147483647

-- The variable 7 at lag 0, with tree index 5.
abbrev one_atom : DynamicAtoms ℕ
one_atom = record {
  name_store = [];
  vars = (7, (this_period, 5) ∷ []) ∷ [];
  indices = (5, 7) ∷ [];
  nv = 1;
  minlag = this_period;
  maxlead = this_period;
}

-- And at lag -1, with tree index 4.
abbrev two_atoms : DynamicAtoms ℕ
two_atoms = record {
  name_store = [];
  vars = (7, (last_period, 4) ∷ (this_period, 5) ∷ []) ∷ [];
  indices = (4, 7) ∷ (5, 7) ∷ [];
  nv = 2;
  minlag = last_period;
  maxlead = this_period;
}

one_run : assign_variable no_atoms 7 this_period 5 ≡ ok one_atom
unfolding assign_variable add_lag with_variable find_key emplace_key
one_run = refl

two_run : assign_variable one_atom 7 last_period 4 ≡ ok two_atoms
unfolding assign_variable add_lag with_variable find_key emplace_key put_key
two_run = refl

back_run : unassign_variable two_atoms 7 last_period 4 ≡ ok one_atom
unfolding unassign_variable without_variable remove_lag update_minmaxll span_vars span_lags find_key
    erase_key put_key
back_run = refl

span_run : varspan two_atoms 7 ≡ ok (this_period, last_period)
unfolding varspan span_of last_lag find_key
span_run = refl

variables_run : variables two_atoms ≡ 4 ∷ 5 ∷ []
unfolding variables variables_of lag_indices
variables_run = refl

free_index : find_key 5 (no_atoms {N = ℕ}).indices ≡ none
unfolding find_key
free_index = refl

fresh_lag : index_of (no_atoms {N = ℕ}) 7 this_period ≡ none
unfolding at_lag find_key
fresh_lag = refl

one_atom-IsAtoms : IsAtoms one_atom
one_atom-IsAtoms =
    let r =
      assign_variable-IsAtoms numbers-IsOrder no_atoms 7 this_period 5 no_atoms-IsAtoms
        (omega arith) free_index fresh_lag in
    subst IsAtoms (cc (r.1, one_run)) r.2

free_index' : find_key 4 one_atom.indices ≡ none
unfolding find_key
free_index' = refl

fresh_lag' : index_of one_atom 7 last_period ≡ none
unfolding at_lag find_key
fresh_lag' = refl

two_atoms-IsAtoms : IsAtoms two_atoms
two_atoms-IsAtoms =
    let r =
      assign_variable-IsAtoms numbers-IsOrder one_atom 7 last_period 4 one_atom-IsAtoms
        (omega arith) free_index' fresh_lag' in
    subst IsAtoms (cc (r.1, two_run)) r.2

has_index : index_of two_atoms 7 last_period ≡ some 4
unfolding at_lag find_key
has_index = refl

assign_variable-IsAtoms_example :
    (a' : DynamicAtoms ℕ) × (assign_variable one_atom 7 last_period 4 ≡ ok a')
    × IsAtoms a'
    × (index_of a' 7 last_period ≡ some 4)
    × ((k l : ℕ) → (7 ≢ k) ⊎ (last_period ≢ l) → index_of a' k l ≡ index_of one_atom k l)
assign_variable-IsAtoms_example =
    assign_variable-IsAtoms numbers-IsOrder one_atom 7 last_period 4 one_atom-IsAtoms (omega arith)
      free_index' fresh_lag'

unassign_variable-IsAtoms_example :
    (a' : DynamicAtoms ℕ) × (unassign_variable two_atoms 7 last_period 4 ≡ ok a')
    × IsAtoms a'
    × (index_of a' 7 last_period ≡ none)
    × ((k l : ℕ) → (7 ≢ k) ⊎ (last_period ≢ l) → index_of a' k l ≡ index_of two_atoms k l)
unassign_variable-IsAtoms_example =
    unassign_variable-IsAtoms numbers-IsOrder two_atoms 7 last_period 4 two_atoms-IsAtoms has_index

lead-index_of_example : (atom_name two_atoms 4 ≡ ok 7) × (lead two_atoms 4 ≡ ok last_period)
lead-index_of_example =
    lead-index_of numbers-IsOrder two_atoms 7 last_period 4 two_atoms-IsAtoms has_index

unassign_variable-assign_variable_example :
    (a' : DynamicAtoms ℕ) × ((assign_variable one_atom 7 last_period 4 >>= λ b.
    unassign_variable b 7 last_period 4)
      ≡ ok a')
    × IsAtoms a'
    × ((k l : ℕ) → index_of a' k l ≡ index_of one_atom k l)
unassign_variable-assign_variable_example =
    unassign_variable-assign_variable numbers-IsOrder one_atom 7 last_period 4 one_atom-IsAtoms
      (omega arith) free_index' fresh_lag'

-- The constants 1 and 9 with values 30 and 20, imported into the tree of the special terms.
abbrev two_constants : Constants ℕ
two_constants = record { cmap = (1, 30) ∷ (9, 20) ∷ []; cinvmap = (20, 9) ∷ (30, 1) ∷ [] }

abbrev no_constants : Constants ℕ
no_constants = record { cmap = []; cinvmap = [] }

no_key : (i v : ℕ) {A : Type 0} → find_key i (no_constants).cmap ≡ some v → A
unfolding find_key
no_key i v e = absurd (cc e)

not_there :
    (k v : ℕ)
    → find_key k two_constants.cmap ≡ some v
    → find_key k (no_atoms {N = ℕ}).indices ≡ none
unfolding find_key
not_there k v e = refl

import_constants-Imports_example :
    (c' : Constants ℕ) × (tmap' : List (ℕ × ℕ)) × (t' : OperationTree) × (import_constants
        two_constants no_constants [] constants_tree
      ≡ ok ((c', tmap'), t'))
    × IsTree t'
    × Grows constants_tree t'
    × ((k v : ℕ)
        → find_key k two_constants.cmap ≡ some v
        → (i : ℕ) × (find_key k tmap' ≡ some i)
          × (get_elem? t'.terms i ≡ some nulary)
          × (get_constant_value i c' ≡ ok v))
import_constants-Imports_example =
    import_constants-Imports two_constants no_constants [] constants_tree constants_tree-IsTree
      ((refl, tt), (tt, tt)) (λ i v e. no_key i v e) not_there

imported_run :
    import_constants two_constants no_constants [] constants_tree
    ≡ ok (
      (
        record { cmap = (4, 30) ∷ (5, 20) ∷ []; cinvmap = (20, 5) ∷ (30, 4) ∷ [] },
        (1, 4) ∷ (9, 5) ∷ [],
      ),
      record {
        terms = nulary ∷ nulary ∷ nulary ∷ nulary ∷ nulary ∷ nulary ∷ [];
        opmap = [];
        nul_incidence = (0 ∷ []) ∷ (1 ∷ []) ∷ (2 ∷ []) ∷ (3 ∷ []) ∷ (4 ∷ []) ∷ (5 ∷ []) ∷ [];
        derivatives = [] ∷ [] ∷ [] ∷ [] ∷ [] ∷ [] ∷ [];
        last_nulary = some 5;
      },
    )
unfolding import_constants import_from add_constant add_nulary push emplace_key
imported_run = refl
