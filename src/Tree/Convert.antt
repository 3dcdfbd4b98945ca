-- ===== src/Tree/Convert.antt =====
-- The class OperationStringConvertor of parser/cc/tree.cc: a term as a formula.
use Prim.Native.String.{String, ◌++◌}
use dynare.Base.{
  ℕ, zero, suc, Bool, true, false, Result, ok, err, Error, ◌>>=◌, at, ltb, ◌==◌, if◌then◌else◌,
}
use dynare.Tree.Data.{
  UnaryCode, uminus, log, exp, sin, cos, tan, sqrt, erf, erfc, BinaryCode, plus, minus, times,
  divide, power, Operation, nulary, unary, binary, OperationTree, zero_term, one_term, nan_term,
  two_over_pi, num_constants,
}

unfoldable pub unary_name : UnaryCode → String
unary_name uminus = "-"
unary_name log = "log"
unary_name exp = "exp"
unary_name sin = "sin"
unary_name cos = "cos"
unary_name tan = "tan"
unary_name sqrt = "sqrt"
unary_name erf = "erf"
unary_name erfc = "erfc"

unfoldable pub binary_name : BinaryCode → String
binary_name plus = "+"
binary_name minus = "-"
binary_name times = "*"
binary_name divide = "/"
binary_name power = "^"

-- `nary() < 2`, negated.
abbrev pub is_binary : Operation → Bool
is_binary nulary = false
is_binary (unary code a) = false
is_binary (binary code a b) = true

abbrev pub is_sum : Operation → Bool
is_sum (binary plus a b) = true
is_sum (binary minus a b) = true
is_sum (binary times a b) = false
is_sum (binary divide a b) = false
is_sum (binary power a b) = false
is_sum nulary = false
is_sum (unary code a) = false

-- Whether the operands are put in parentheses: `op1_par` and `op2_par`.
unfoldable pub op1_par : BinaryCode → Operation → Bool
op1_par plus op1 = false
op1_par minus op1 = false
op1_par times op1 = is_binary op1
op1_par divide op1 = is_binary op1
op1_par power op1 = is_binary op1

unfoldable pub op2_par : BinaryCode → Operation → Bool
op2_par plus op2 = false
op2_par minus op2 = is_sum op2
op2_par times op2 = is_binary op2
op2_par divide op2 = is_binary op2
op2_par power op2 = is_binary op2

unfoldable pub parenthesised : Bool → String → String
parenthesised true s = "(" ++ (s ++ ")")
parenthesised false s = s

-- `nulsc.convert` is `name_of`, and `two_over_pi_text` is what the stream prints for the double
-- 2 / sqrt(pi).
module _ (otree : OperationTree) (name_of : ℕ → String) (two_over_pi_text : String) where
  unfoldable pub nulary_text : ℕ → String
  nulary_text t =
      if ltb t num_constants
      then (if t == zero_term
          then "0"
          else if t == one_term
          then "1"
          else if t == nan_term
          then "NaN"
          else if t == two_over_pi
          then two_over_pi_text
          else "error!error")
      else name_of t

  -- `convert`, on fuel.
  unfoldable pub convert : ℕ → Operation → ℕ → Result String
  convert zero op t = err Error.no_fuel
  convert (suc fuel) nulary t = ok (nulary_text t)
  convert (suc fuel) (unary code t1) t = do
    op1 ← at otree.terms t1
    s1 ← convert fuel op1 t1
    ok (unary_name code ++ ("(" ++ (s1 ++ ")")))
  convert (suc fuel) (binary code t1 t2) t = do
    op1 ← at otree.terms t1
    op2 ← at otree.terms t2
    s1 ← convert fuel op1 t1
    s2 ← convert fuel op2 t2
    ok (
        parenthesised (op1_par code op1) s1
        ++ (" " ++ (binary_name code ++ (" " ++ parenthesised (op2_par code op2) s2))))
