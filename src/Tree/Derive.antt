-- ===== src/Tree/Derive.antt =====
-- Derivatives: `add_derivative`, `register_derivative` and `forget_derivative_maps` of
-- parser/cc/tree.cc.
use dynare.Base.{
  ℕ, zero, suc, List, [], ◌∷◌, none, some, true, false, Result, ok, err, Error, ◌==◌, if◌then◌else◌,
  at, set, get_or, map,
}
use dynare.Tree.Data.{
  UnaryCode, BinaryCode, uminus, log, exp, sin, cos, tan, sqrt, erf, erfc, plus, minus, times,
  divide, power, Operation, nulary, unary, binary, OperationTree, M, ◌>>=◌, return, raise, read,
  lookup, has, zero_term, one_term, two_over_pi,
}
use dynare.Tree.Build.{add_unary, add_binary}

-- `emplace` keeps the entry of a key that is there already.
unfoldable pub emplace : ℕ → ℕ → List (ℕ × ℕ) → List (ℕ × ℕ)
emplace v d m = elim (lookup v m) [ some old ↦ m | none ↦ (v, d) ∷ m ]

unfoldable pub register_derivative : ℕ → ℕ → ℕ → OperationTree → OperationTree
register_derivative t v tder tree = record tree {
  derivatives = set tree.derivatives t (emplace v tder (get_or tree.derivatives t []));
}

unfoldable pub forget_derivative_maps : OperationTree → OperationTree
forget_derivative_maps tree = record tree { derivatives = map (λ m. []) tree.derivatives }

-- exp(-(a * a)), the common part of the rules for ERF and ERFC.
unfoldable pub gauss : ℕ → M ℕ
gauss a = do tmp ← add_binary times a a; tmp ← add_unary uminus tmp; add_unary exp tmp

-- The cases of the switch for a term `t` that is `code` of `a`; `derive a` is the recursive call.
unfoldable pub derive_unary : (ℕ → M ℕ) → ℕ → UnaryCode → ℕ → M ℕ
derive_unary derive t uminus a = do tmp ← derive a; add_unary uminus tmp
derive_unary derive t log a = do tmp ← derive a; add_binary divide tmp a
derive_unary derive t exp a = do tmp ← derive a; add_binary times t tmp
derive_unary derive t sin a = do tmp ← derive a; c ← add_unary cos a; add_binary times c tmp
derive_unary derive t cos a = do
  tmp ← derive a
  s ← add_unary sin a
  p ← add_binary times s tmp
  add_unary uminus p
derive_unary derive t tan a = do
  tmp ← derive a
  tmp2 ← add_unary cos a
  p ← add_binary times tmp2 tmp2
  add_binary divide tmp p
derive_unary derive t sqrt a = do tmp ← derive a; s ← add_binary plus t t; add_binary divide tmp s
derive_unary derive t erf a = do
  tmp ← gauss a
  der ← derive a
  tmp ← add_binary times tmp der
  add_binary times two_over_pi tmp
derive_unary derive t erfc a = do
  tmp ← gauss a
  der ← derive a
  tmp ← add_binary times tmp der
  tmp ← add_binary times two_over_pi tmp
  add_unary uminus tmp

-- The quotient rule, with its case for a constant divisor.
unfoldable pub derive_quotient : ℕ → ℕ → ℕ → ℕ → M ℕ
derive_quotient a b tmp1 tmp2 = elim (tmp2 == zero_term) [
  | true ↦ add_binary divide tmp1 b
  | false ↦ do
    p ← add_binary times tmp1 b
    q ← add_binary times tmp2 a
    nom ← add_binary minus p q
    den ← add_binary times b b
    add_binary divide nom den
]

unfoldable pub derive_power : ℕ → ℕ → ℕ → ℕ → ℕ → M ℕ
derive_power t a b tmp1 tmp2 = do
  l ← add_unary log a
  m ← add_binary times t l
  s1 ← add_binary times tmp2 m
  e ← add_binary minus b one_term
  p ← add_binary power a e
  q ← add_binary times b p
  s2 ← add_binary times tmp1 q
  add_binary plus s1 s2

unfoldable pub derive_binary : (ℕ → M ℕ) → ℕ → BinaryCode → ℕ → ℕ → M ℕ
derive_binary derive t plus a b = do tmp1 ← derive a; tmp2 ← derive b; add_binary plus tmp1 tmp2
derive_binary derive t minus a b = do tmp1 ← derive a; tmp2 ← derive b; add_binary minus tmp1 tmp2
derive_binary derive t times a b = do
  tmp1 ← derive a
  tmp2 ← derive b
  res1 ← add_binary times a tmp2
  res2 ← add_binary times tmp1 b
  add_binary plus res1 res2
derive_binary derive t divide a b = do
  tmp1 ← derive a
  tmp2 ← derive b
  derive_quotient a b tmp1 tmp2
derive_binary derive t power a b = do tmp1 ← derive a; tmp2 ← derive b; derive_power t a b tmp1 tmp2

unfoldable pub derive_operation : (ℕ → M ℕ) → ℕ → Operation → M ℕ
derive_operation derive t nulary = raise Error.unknown_code
derive_operation derive t (unary code a) = derive_unary derive t code a
derive_operation derive t (binary code a b) = derive_binary derive t code a b

-- The quick return for a derivative that is registered, and the switch.
unfoldable pub derive_new : (ℕ → M ℕ) → ℕ → ℕ → Operation → M ℕ
derive_new derive t v op = do
  m ← read (λ tree. at tree.derivatives t)
  elim (lookup v m) [
    | some d ↦ return d
    | none ↦ do
      res ← derive_operation derive t op
      λ tree. ok (res, register_derivative t v res tree)
  ]

-- The quick return for a term that `v` does not occur in.
unfoldable pub derive_incident : (ℕ → M ℕ) → ℕ → ℕ → Operation → M ℕ
derive_incident derive t v op = do
  s ← read (λ tree. at tree.nul_incidence t)
  elim (has v s) [ true ↦ derive_new derive t v op | false ↦ return zero_term ]

-- The quick returns for a nulary term.
unfoldable pub derive_term : (ℕ → M ℕ) → ℕ → ℕ → Operation → M ℕ
derive_term derive t v nulary = return (if t == v then one_term else zero_term)
derive_term derive t v (unary code a) = derive_incident derive t v (unary code a)
derive_term derive t v (binary code a b) = derive_incident derive t v (binary code a b)

-- `terms[t]`, with the check of the index.
unfoldable pub term_at : ℕ → OperationTree → Result Operation
term_at t tree = elim (at tree.terms t) [ ok o ↦ ok o | err e ↦ err Error.wrong_tree_index ]

-- `add_derivative`, on fuel.
unfoldable pub add_derivative : ℕ → ℕ → ℕ → M ℕ
add_derivative zero t v = raise Error.no_fuel
add_derivative (suc fuel) t v = do
  op ← read (term_at t)
  derive_term (λ a. add_derivative fuel a v) t v op
