-- ===== src/Tree/Build.antt =====
-- Adding terms: `add_nulary`, `add_unary`, `add_binary` and the constructor of parser/cc/tree.cc.
use dynare.Base.{
  ℕ, List, [], ◌∷◌, ◌++◌, Option, none, some, Bool, true, false, Result, ok, err, ◌==◌, ◌||◌, ◌&&◌,
  if◌then◌else◌, length, at, ltb,
}
use dynare.Tree.Data.{
  UnaryCode, BinaryCode, uminus, log, exp, sin, cos, tan, sqrt, erf, erfc, plus, minus, times,
  divide, power, Operation, nulary, unary, binary, OperationTree, M, ◌>>=◌, return, read, find,
  insert_all, zero_term, one_term, nan_term,
}

-- `terms.push_back` with the incidence and an empty map of derivatives.
unfoldable pub push : Operation → List ℕ → OperationTree → OperationTree
push o s t = record t {
  terms = t.terms ++ o ∷ [];
  nul_incidence = t.nul_incidence ++ s ∷ [];
  derivatives = t.derivatives ++ [] ∷ [];
}

unfoldable pub add_nulary : M ℕ
add_nulary t =
    let op = length t.terms in
    let t' = push nulary (op ∷ []) t in ok (op, record t' { last_nulary = some op })

abbrev pub empty_tree : OperationTree
empty_tree = record {
  terms = [];
  opmap = [];
  nul_incidence = [];
  derivatives = [];
  last_nulary = none;
}

-- The constructor: the four constants.
unfoldable pub new_tree : Result (ℕ × OperationTree)
new_tree = (do z ← add_nulary; o ← add_nulary; n ← add_nulary; add_nulary) empty_tree

-- The new index, with the operation entered in `opmap`.
unfoldable pub push_operation : Operation → List ℕ → M ℕ
push_operation o s t =
    let newop = length t.terms in
    let t' = push o s t in ok (newop, record t' { opmap = (o, newop) ∷ t.opmap })

-- `opmap.find`, and the new term where the operation is not in the map.
unfoldable pub find_or_add : Operation → (OperationTree → Result (List ℕ)) → M ℕ
find_or_add o incidence t = elim (find o t.opmap) [
  | some i ↦ ok (i, t)
  | none ↦ (do s ← read incidence; push_operation o s) t
]

unfoldable pub unary_incidence : ℕ → OperationTree → Result (List ℕ)
unary_incidence op t = at t.nul_incidence op

-- The set of the first operand, with that of the second inserted.
unfoldable pub binary_incidence : ℕ → ℕ → OperationTree → Result (List ℕ)
binary_incidence op1 op2 t = elim (at t.nul_incidence op1) [
  | ok s1 ↦ elim (at t.nul_incidence op2) [ ok s2 ↦ ok (insert_all s2 s1) | err e ↦ err e ]
  | err e ↦ err e
]

-- What `add_unary` returns at once for the operand zero.
unfoldable pub value_at_zero : UnaryCode → ℕ
value_at_zero uminus = zero_term
value_at_zero sin = zero_term
value_at_zero tan = zero_term
value_at_zero sqrt = zero_term
value_at_zero erf = zero_term
value_at_zero log = nan_term
value_at_zero exp = one_term
value_at_zero cos = one_term
value_at_zero erfc = one_term

unfoldable pub unary_shortcut : UnaryCode → ℕ → Option ℕ
unary_shortcut code op =
    if op == zero_term
    then some (value_at_zero code)
    else if op == nan_term
    then some nan_term
    else none

unfoldable pub add_unary : UnaryCode → ℕ → M ℕ
add_unary code op = elim (unary_shortcut code op) [
  | some i ↦ return i
  | none ↦ find_or_add (unary code op) (unary_incidence op)
]

-- The quick exits of `add_binary`: an index, `add_unary(UMINUS, i)`, or none.
pub data Shortcut : Type 0 where
  index : ℕ → Shortcut
  negated : ℕ → Shortcut
  no_shortcut : Shortcut

unfoldable pub shortcut_by_code : BinaryCode → ℕ → ℕ → Shortcut
shortcut_by_code plus op1 op2 =
    if op1 == zero_term && op2 == zero_term
    then index zero_term
    else if op1 == zero_term
    then index op2
    else if op2 == zero_term
    then index op1
    else no_shortcut
shortcut_by_code minus op1 op2 =
    if op1 == zero_term && op2 == zero_term
    then index zero_term
    else if op1 == zero_term
    then negated op2
    else if op2 == zero_term
    then index op1
    else no_shortcut
shortcut_by_code times op1 op2 =
    if op1 == zero_term || op2 == zero_term
    then index zero_term
    else if op1 == one_term
    then index op2
    else if op2 == one_term
    then index op1
    else no_shortcut
shortcut_by_code divide op1 op2 =
    if op1 == op2
    then index one_term
    else if op1 == zero_term
    then index zero_term
    else if op2 == zero_term
    then index nan_term
    else no_shortcut
shortcut_by_code power op1 op2 =
    if op1 == zero_term && op2 == zero_term
    then index nan_term
    else if op1 == zero_term
    then index zero_term
    else if op2 == zero_term
    then index one_term
    else if op1 == one_term
    then index one_term
    else if op2 == one_term
    then index op1
    else no_shortcut

unfoldable pub binary_shortcut : BinaryCode → ℕ → ℕ → Shortcut
binary_shortcut code op1 op2 =
    if op1 == nan_term || op2 == nan_term then index nan_term else shortcut_by_code code op1 op2

unfoldable pub is_commutative : BinaryCode → Bool
is_commutative times = true
is_commutative plus = true
is_commutative _ = false

-- The operands of commutative operations in increasing order.
unfoldable pub order_operands : BinaryCode → ℕ → ℕ → ℕ × ℕ
order_operands code op1 op2 = if is_commutative code && ltb op2 op1 then (op2, op1) else (op1, op2)

unfoldable pub add_ordered : BinaryCode → ℕ × ℕ → M ℕ
add_ordered code (op1, op2) = find_or_add (binary code op1 op2) (binary_incidence op1 op2)

unfoldable pub add_binary : BinaryCode → ℕ → ℕ → M ℕ
add_binary code op1 op2 = elim (binary_shortcut code op1 op2) [
  | index i ↦ return i
  | negated i ↦ add_unary uminus i
  | no_shortcut ↦ add_ordered code (order_operands code op1 op2)
]
