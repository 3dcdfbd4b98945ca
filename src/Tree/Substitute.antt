-- ===== src/Tree/Substitute.antt =====
-- Substitution: `add_substitution` of parser/cc/tree.cc.
use dynare.Base.{
  ℕ, zero, suc, List, Option, none, some, Bool, true, false, Result, Error, ◌||◌, if◌then◌else◌, at,
  ltb,
}
use dynare.Tree.Data.{
  Operation, nulary, unary, binary, OperationTree, M, ◌>>=◌, return, raise, read, lookup,
  num_constants,
}
use dynare.Tree.Build.{add_unary, add_binary}

-- `otree.terms[t]`; `none` says that `otree` is the tree itself, which grows meanwhile.
unfoldable pub term_of : Option OperationTree → ℕ → OperationTree → Result Operation
term_of none t tree = at tree.terms t
term_of (some otree) t tree = at otree.terms t

-- `this == &otree`
unfoldable pub is_own : Option OperationTree → Bool
is_own none = true
is_own (some otree) = false

-- The branches on the number of operands; `substitute` is the recursive call.
unfoldable pub substitute_operands : (ℕ → M ℕ) → Option OperationTree → ℕ → Operation → M ℕ
substitute_operands substitute from t nulary =
    if ltb t num_constants || is_own from then return t else raise Error.incomplete_substitution
substitute_operands substitute from t (unary code a) = do t1 ← substitute a; add_unary code t1
substitute_operands substitute from t (binary code a b) = do
  t1 ← substitute a
  t2 ← substitute b
  add_binary code t1 t2

-- `add_substitution`, on fuel; the map is an association list.
unfoldable pub add_substitution : ℕ → ℕ → List (ℕ × ℕ) → Option OperationTree → M ℕ
add_substitution zero t subst from = raise Error.no_fuel
add_substitution (suc fuel) t subst from = elim (lookup t subst) [
  | some r ↦ return r
  | none ↦ do
    op ← read (term_of from t)
    substitute_operands (λ i. add_substitution fuel i subst from) from t op
]
