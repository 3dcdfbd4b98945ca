-- ===== src/Tree/Format.antt =====
-- The class DefaultOperationFormatter of parser/cc/tree.cc: a term as a sequence of assignments.
use Prim.Native.String.{String, ◌++◌}
use dynare.Base.{ℕ, zero, suc, List, Result, ok, err, Error, ◌>>=◌, at, ◌==◌, if◌then◌else◌}
use dynare.Tree.Data.{
  Operation, nulary, unary, binary, OperationTree, has, insert, zero_term, one_term, nan_term,
}
use dynare.Tree.Evaluate.{is_nulary}
use dynare.Tree.Convert.{unary_name, binary_name}

-- The set of the terms that were output, and the stream.
pub record Formatter : Type 0 where
  pub stop_set : List ℕ
  pub os : String

-- `decimal` is what a stream prints for an `int`.
module _ (otree : OperationTree) (decimal : ℕ → String) where
  unfoldable pub format_term : ℕ → String
  format_term t = "$" ++ decimal t

  unfoldable pub format_nulary : ℕ → String
  format_nulary t =
      if t == zero_term
      then "0"
      else if t == one_term
      then "1"
      else if t == nan_term
      then "NaN"
      else "$" ++ decimal t

  unfoldable pub print_delim : String
  print_delim = ";\n"

  -- An operand, by its number of operands.
  unfoldable pub format_operand : Operation → ℕ → String
  format_operand op t = if is_nulary op then format_nulary t else format_term t

  -- What is printed behind 'term ='.
  unfoldable pub right_side : Operation → ℕ → Result String
  right_side nulary t = ok (format_nulary t)
  right_side (unary code t1) t = do
    op1 ← at otree.terms t1
    ok (unary_name code ++ ("(" ++ (format_operand op1 t1 ++ ")")))
  right_side (binary code t1 t2) t = do
    op1 ← at otree.terms t1
    op2 ← at otree.terms t2
    ok (format_operand op1 t1 ++ (" " ++ (binary_name code ++ (" " ++ format_operand op2 t2))))

  unfoldable pub print_statement : Operation → ℕ → Result String
  print_statement op t = do
    rhs ← right_side op t
    ok (format_term t ++ (" = " ++ (rhs ++ print_delim)))

  -- The call for an operand that is not nulary.
  unfoldable pub format_unless_nulary :
      (Operation → ℕ → Formatter → Result Formatter) → Operation → ℕ → Formatter → Result Formatter
  format_unless_nulary format op t s = if is_nulary op then ok s else format op t s

  unfoldable pub format_operands :
      (Operation → ℕ → Formatter → Result Formatter) → Operation → Formatter → Result Formatter
  format_operands format nulary s = ok s
  format_operands format (unary code t1) s = do
    op1 ← at otree.terms t1
    format_unless_nulary format op1 t1 s
  format_operands format (binary code t1 t2) s = do
    op1 ← at otree.terms t1
    op2 ← at otree.terms t2
    s' ← format_unless_nulary format op1 t1 s
    format_unless_nulary format op2 t2 s'

  -- `format` of a term that is not in the set yet.
  unfoldable pub format_new :
      (Operation → ℕ → Formatter → Result Formatter) → Operation → ℕ → Formatter → Result Formatter
  format_new format op t s = do
    s' ← format_operands format op (record s { stop_set = insert t s.stop_set })
    statement ← print_statement op t
    ok (record s' { os = s'.os ++ statement })

  -- `format`, on fuel.
  unfoldable pub format : ℕ → Operation → ℕ → Formatter → Result Formatter
  format zero op t s = err Error.no_fuel
  format (suc fuel) op t s =
      if has t s.stop_set then ok s else format_new (λ o i u. format fuel o i u) op t s
